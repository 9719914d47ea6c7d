-- ===== src/Safety.antt =====
-- Everything that the services do to tasks and money, as requests that run at the same time.
pub mod Stable
pub mod Quiet
pub mod Refunds
pub mod Payouts
pub mod Tasks
pub mod Release
pub mod Checkout
pub mod Money
pub mod Payments
pub mod Server
pub mod Advance
pub mod Doer
pub mod Secured
pub mod Strand
pub mod Terms
