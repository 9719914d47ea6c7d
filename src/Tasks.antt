-- ===== src/Tasks.antt =====
-- backend/src/tasks/tasks.service.ts.
pub mod Create
pub mod Lifecycle
pub mod Release
pub mod Cancel
pub mod Reads
pub mod Nearby
