-- ===== src/Schema/Rows.antt =====
-- The models of schema.prisma. Ids and texts are strings, times are milliseconds, a
-- `Decimal(10, 2)` is a number of cents, a rating average is a number of hundredths, and a
-- `Float` that the services only pass on is the bit pattern of the double. `createdAt` and
-- `updatedAt` stand where a service reads them.
use help_mi.Common.{ℕ, Bool, String, Option, List}
use help_mi.Schema.Status.{
  DoerTier, KycStatus, TaskStatus, PaymentMode, EscrowStatus, PayoutMethod, DisputeStatus,
  MessageType, RefundReason, RefundStatus, PayoutStatus, PostingFeeStatus, NotificationType,
}

pub record User : Type 0 where
  pub id : String
  pub phone : String
  pub name : Option String
  pub email : Option String
  pub avatar_url : Option String
  pub is_doer : Bool
  pub is_active : Bool
  pub is_banned : Bool
  pub fcm_token : Option String
  pub deleted_at : Option ℕ

pub record OtpToken : Type 0 where
  pub id : String
  pub user_id : String
  pub phone : String
  pub code : String
  pub expires_at : ℕ
  pub used : Bool
  pub attempts : ℕ
  pub created_at : ℕ

-- The columns of `DoerProfile` that say where a payout goes.
pub record BankDetails : Type 0 where
  pub bank_account_name : Option String
  pub bank_account_number : Option String
  pub bank_name : Option String
  pub bank_branch : Option String

-- The columns of `DoerProfile` about the doer's references, and about the wallet that payouts do
-- not use yet.
pub record References : Type 0 where
  pub ref1_name : Option String
  pub ref1_phone : Option String
  pub ref2_name : Option String
  pub ref2_phone : Option String

pub record MobileWallet : Type 0 where
  pub mobile_wallet_provider : Option String
  pub mobile_wallet_number : Option String

pub record DoerProfile : Type 0 where
  pub id : String
  pub user_id : String
  pub tier : DoerTier
  pub kyc_status : KycStatus
  pub nic_photo_url : Option String
  pub selfie_url : Option String
  pub address_proof_url : Option String
  pub police_clearance_url : Option String
  pub driving_license_url : Option String
  pub skill_proof_url : Option String
  pub references : References
  pub preferred_payout_method : PayoutMethod
  pub bank : BankDetails
  pub wallet : MobileWallet
  pub total_jobs_completed : ℕ
  pub avg_rating : ℕ
  pub on_time_rate : ℕ
  pub kyc_reviewed_at : Option ℕ
  pub kyc_review_note : Option String

pub record KycReview : Type 0 where
  pub id : String
  pub doer_profile_id : String
  pub reviewer_phone : String
  pub action : KycStatus
  pub note : Option String

pub record Category : Type 0 where
  pub id : String
  pub min_tier : DoerTier
  pub is_active : Bool
  pub sort_order : ℕ

pub record Task : Type 0 where
  pub id : String
  pub poster_id : String
  pub category_id : String
  pub title : String
  pub description : String
  pub photo_urls : List String
  pub location_lat : ℕ
  pub location_lng : ℕ
  pub location_address : String
  pub budget : ℕ
  pub payment_mode : PaymentMode
  pub required_tier : DoerTier
  pub status : TaskStatus
  pub scheduled_start : Option ℕ
  pub scheduled_end : Option ℕ
  pub doer_id : Option String
  pub accepted_at : Option ℕ
  pub started_at : Option ℕ
  pub completed_at : Option ℕ
  pub completion_photo_url : Option String
  pub confirmed_at : Option ℕ
  pub is_featured : Bool

pub record Escrow : Type 0 where
  pub id : String
  pub task_id : String
  pub poster_id : String
  pub doer_id : Option String
  pub task_budget : ℕ
  pub platform_fee_from_poster : ℕ
  pub platform_fee_from_doer : ℕ
  pub trust_fund_reserve : ℕ
  pub net_doer_payout : Option ℕ
  pub payhere_payment_id : Option String
  pub payhere_order_id : Option String
  pub status : EscrowStatus
  pub held_at : Option ℕ
  pub released_at : Option ℕ
  pub refunded_at : Option ℕ

pub record Refund : Type 0 where
  pub id : String
  pub escrow_id : String
  pub task_id : String
  pub amount : ℕ
  pub reason : RefundReason
  pub status : RefundStatus
  pub provider_ref : Option String
  pub failure_reason : Option String
  pub initiated_by : String
  pub last_attempted_by : Option String
  pub attempts : ℕ
  pub completed_at : Option ℕ

pub record Rating : Type 0 where
  pub id : String
  pub task_id : String
  pub rater_id : String
  pub ratee_id : String
  pub score : ℕ
  pub comment : Option String
  pub is_on_time : Option Bool

pub record Message : Type 0 where
  pub id : String
  pub task_id : String
  pub sender_id : String
  pub content : String
  pub type : MessageType
  pub read_at : Option ℕ

pub record Dispute : Type 0 where
  pub id : String
  pub task_id : String
  pub raised_by_id : String
  pub reason : String
  pub status : DisputeStatus
  pub resolution_note : Option String
  pub resolved_by_phone : Option String
  pub resolved_at : Option ℕ

pub record Payout : Type 0 where
  pub id : String
  pub escrow_id : String
  pub task_id : String
  pub doer_id : String
  pub amount : ℕ
  pub method : PayoutMethod
  pub status : PayoutStatus
  pub provider_ref : Option String
  pub failure_reason : Option String
  pub destination_snapshot : BankDetails
  pub created_at : ℕ
  pub paid_at : Option ℕ

pub record Notification : Type 0 where
  pub id : String
  pub user_id : String
  pub task_id : Option String
  pub type : NotificationType
  pub title : String
  pub body : String
  pub read_at : Option ℕ

pub record PostingFee : Type 0 where
  pub id : String
  pub task_id : String
  pub poster_id : String
  pub amount : ℕ
  pub status : PostingFeeStatus
  pub payhere_order_id : Option String
  pub payhere_payment_id : Option String
  pub paid_at : Option ℕ
