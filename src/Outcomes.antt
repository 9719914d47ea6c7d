-- ===== src/Outcomes.antt =====
-- What the handlers do when nothing runs between their steps, on every branch, and what several
-- runs of one handler do to its table.
pub mod Post
pub mod Statuses
pub mod Accept
pub mod Paying
pub mod Release
pub mod Releasing
pub mod Batch
pub mod Fees
pub mod Environment
pub mod Login
pub mod Reading
pub mod Uploading
pub mod Notices
pub mod Cancelling
pub mod Rating
pub mod Notifying
pub mod Profiles
pub mod Access
pub mod Gate
pub mod Transport
pub mod Documents
pub mod Success
pub mod Retrying
pub mod Initiating
pub mod Privacy
pub mod Destination
pub mod Inbox
pub mod Nearby
pub mod Stuck
pub mod Cooldown
