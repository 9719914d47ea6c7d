-- ===== src/Schema/Status.antt =====
-- The enums of schema.prisma. A test `status === 'HELD'` is a function into Bool.
use help_mi.Common.{ℕ, Bool, true, false}

pub data DoerTier : Type 0 where
  bronze silver gold : DoerTier

pub data KycStatus : Type 0 where
  pending approved rejected : KycStatus

pub data TaskStatus : Type 0 where
  open_ assigned in_progress completed cancelled disputed pending_payment : TaskStatus

pub data PaymentMode : Type 0 where
  escrow cash : PaymentMode

pub data EscrowStatus : Type 0 where
  pending held released refunded disputed refund_pending : EscrowStatus

pub data PayoutMethod : Type 0 where
  bank mobile_wallet : PayoutMethod

pub data DisputeStatus : Type 0 where
  open_ resolved closed : DisputeStatus

pub data MessageType : Type 0 where
  text image system : MessageType

pub data NotificationType : Type 0 where
  task_posted task_accepted task_completed task_confirmed task_cancelled task_disputed new_message
        payment_released kyc_approved kyc_rejected rating_received :
      NotificationType

pub data RefundReason : Type 0 where
  cancel dispute admin : RefundReason

pub data RefundStatus : Type 0 where
  pending processing completed failed : RefundStatus

pub data PayoutStatus : Type 0 where
  pending processing paid failed : PayoutStatus

pub data PostingFeeStatus : Type 0 where
  pending paid refunded : PostingFeeStatus

-- `TIER_RANK`
abbrev pub tier_rank : DoerTier → ℕ
tier_rank DoerTier.bronze = 0
tier_rank DoerTier.silver = 1
tier_rank DoerTier.gold = 2

abbrev pub tier_is : DoerTier → DoerTier → Bool
tier_is DoerTier.bronze DoerTier.bronze = true
tier_is DoerTier.silver DoerTier.silver = true
tier_is DoerTier.gold DoerTier.gold = true
tier_is _ _ = false

abbrev pub kyc_is : KycStatus → KycStatus → Bool
kyc_is KycStatus.pending KycStatus.pending = true
kyc_is KycStatus.approved KycStatus.approved = true
kyc_is KycStatus.rejected KycStatus.rejected = true
kyc_is _ _ = false

abbrev pub task_is : TaskStatus → TaskStatus → Bool
task_is TaskStatus.open_ TaskStatus.open_ = true
task_is TaskStatus.assigned TaskStatus.assigned = true
task_is TaskStatus.in_progress TaskStatus.in_progress = true
task_is TaskStatus.completed TaskStatus.completed = true
task_is TaskStatus.cancelled TaskStatus.cancelled = true
task_is TaskStatus.disputed TaskStatus.disputed = true
task_is TaskStatus.pending_payment TaskStatus.pending_payment = true
task_is _ _ = false

abbrev pub is_escrow : PaymentMode → Bool
is_escrow PaymentMode.escrow = true
is_escrow PaymentMode.cash = false

abbrev pub escrow_is : EscrowStatus → EscrowStatus → Bool
escrow_is EscrowStatus.pending EscrowStatus.pending = true
escrow_is EscrowStatus.held EscrowStatus.held = true
escrow_is EscrowStatus.released EscrowStatus.released = true
escrow_is EscrowStatus.refunded EscrowStatus.refunded = true
escrow_is EscrowStatus.disputed EscrowStatus.disputed = true
escrow_is EscrowStatus.refund_pending EscrowStatus.refund_pending = true
escrow_is _ _ = false

abbrev pub refund_is : RefundStatus → RefundStatus → Bool
refund_is RefundStatus.pending RefundStatus.pending = true
refund_is RefundStatus.processing RefundStatus.processing = true
refund_is RefundStatus.completed RefundStatus.completed = true
refund_is RefundStatus.failed RefundStatus.failed = true
refund_is _ _ = false

abbrev pub payout_is : PayoutStatus → PayoutStatus → Bool
payout_is PayoutStatus.pending PayoutStatus.pending = true
payout_is PayoutStatus.processing PayoutStatus.processing = true
payout_is PayoutStatus.paid PayoutStatus.paid = true
payout_is PayoutStatus.failed PayoutStatus.failed = true
payout_is _ _ = false

abbrev pub fee_is : PostingFeeStatus → PostingFeeStatus → Bool
fee_is PostingFeeStatus.pending PostingFeeStatus.pending = true
fee_is PostingFeeStatus.paid PostingFeeStatus.paid = true
fee_is PostingFeeStatus.refunded PostingFeeStatus.refunded = true
fee_is _ _ = false

abbrev pub dispute_is : DisputeStatus → DisputeStatus → Bool
dispute_is DisputeStatus.open_ DisputeStatus.open_ = true
dispute_is DisputeStatus.resolved DisputeStatus.resolved = true
dispute_is DisputeStatus.closed DisputeStatus.closed = true
dispute_is _ _ = false
