-- ===== src/World.antt =====
-- What a handler sees: the tables, the clock, the events that were emitted, and the services
-- outside the program (the environment's configuration, uuids, hashes, random codes, the PayHere
-- endpoint), which are functions that nothing here defines.
use help_mi.Common.{ℕ, Bool, String, Option, List}
use help_mi.Schema.{
  User, OtpToken, DoerProfile, KycReview, Category, Task, Escrow, Refund, Rating, Message, Dispute,
  Payout, PostingFee, Notification, Event,
}

-- The reply of the refund endpoint to one call: `res.ok && Number(data.status) === 1`, the
-- reference in it, and the error text otherwise.
pub record RefundReply : Type 0 where
  pub success : Bool
  pub provider_ref : Option String
  pub error : Option String

pub record Services : Type 0 where
  pub config : String → Option String
  -- The n-th uuid of the database, the reply to the n-th provider call, the n-th random code.
  pub uuid : ℕ → String
  pub refund_reply : ℕ → Option String → String → RefundReply
  pub random_code : ℕ → String
  -- Hex digests.
  pub md5 : String → String
  pub sha256 : String → String
  -- The signed token of a user id and a phone, the number that JavaScript makes of a text, and
  -- whether the gateway takes the n-th message.
  pub sign_jwt : String → String → String
  -- `+(sum / count).toFixed(2)` on doubles, in hundredths.
  pub rounded_mean : ℕ → ℕ → ℕ
  -- `+(sum / count).toFixed(1)` on doubles, in tenths.
  pub rounded_tenths : ℕ → ℕ → ℕ
  pub number_of : String → ℕ
  -- The texts of an amount and of a time: `toString` of Decimal and `toISOString` of Date.
  pub money_text : ℕ → String
  pub iso_text : ℕ → String
  pub sms_ok : ℕ → Bool
  -- The signed URL of a method, a bucket, a key and a content type, valid for some seconds.
  pub signed_url : String → String → String → String → ℕ → String
  -- `+(amount * percent / 100).toFixed(2)` on doubles, in cents: the percentage comes first.
  pub fixed_percent : ℕ → ℕ → ℕ
  -- `haversine` on doubles, and a number of kilometres. A double that is not negative is given by
  -- its place in their order; NaN is left out.
  pub haversine : ℕ → ℕ → ℕ → ℕ → ℕ
  pub km : ℕ → ℕ

-- One call of the refund endpoint.
pub record ProviderCall : Type 0 where
  pub payment_id : Option String
  pub description : String

pub record World : Type 0 where
  pub services : Services
  pub clock : ℕ
  pub next_id : ℕ
  pub users : List User
  pub otp_tokens : List OtpToken
  pub profiles : List DoerProfile
  pub kyc_reviews : List KycReview
  pub categories : List Category
  pub tasks : List Task
  pub escrows : List Escrow
  pub refunds : List Refund
  pub ratings : List Rating
  pub messages : List Message
  pub disputes : List Dispute
  pub payouts : List Payout
  pub fees : List PostingFee
  pub notifications : List Notification
  pub events : List Event
  pub calls : List ProviderCall
  -- The pushes: a device token, a title and a body.
  pub pushes : List (String × String × String)
  pub sms : List (String × String)

-- A table of the world, as `this.prisma.task` names one.
pub record Table (Row : Type 0) : Type 0 where
  pub rows : World → List Row
  pub put : List Row → World → World

abbrev pub users : Table User
users = record { rows = λ w. w.users; put = λ l w. record w { users = l } }

abbrev pub otp_tokens : Table OtpToken
otp_tokens = record { rows = λ w. w.otp_tokens; put = λ l w. record w { otp_tokens = l } }

abbrev pub profiles : Table DoerProfile
profiles = record { rows = λ w. w.profiles; put = λ l w. record w { profiles = l } }

abbrev pub kyc_reviews : Table KycReview
kyc_reviews = record { rows = λ w. w.kyc_reviews; put = λ l w. record w { kyc_reviews = l } }

abbrev pub categories : Table Category
categories = record { rows = λ w. w.categories; put = λ l w. record w { categories = l } }

abbrev pub tasks : Table Task
tasks = record { rows = λ w. w.tasks; put = λ l w. record w { tasks = l } }

abbrev pub escrows : Table Escrow
escrows = record { rows = λ w. w.escrows; put = λ l w. record w { escrows = l } }

abbrev pub refunds : Table Refund
refunds = record { rows = λ w. w.refunds; put = λ l w. record w { refunds = l } }

abbrev pub ratings : Table Rating
ratings = record { rows = λ w. w.ratings; put = λ l w. record w { ratings = l } }

abbrev pub messages : Table Message
messages = record { rows = λ w. w.messages; put = λ l w. record w { messages = l } }

abbrev pub disputes : Table Dispute
disputes = record { rows = λ w. w.disputes; put = λ l w. record w { disputes = l } }

abbrev pub payouts : Table Payout
payouts = record { rows = λ w. w.payouts; put = λ l w. record w { payouts = l } }

abbrev pub fees : Table PostingFee
fees = record { rows = λ w. w.fees; put = λ l w. record w { fees = l } }

abbrev pub notifications : Table Notification
notifications = record { rows = λ w. w.notifications; put = λ l w. record w { notifications = l } }
