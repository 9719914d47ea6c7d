-- ===== src/Schema.antt =====
-- The data model of backend/prisma/schema.prisma: the enums, the rows of each model, and the
-- domain events of backend/src/notifications/events/notification-events.ts.
mod Status
mod Rows
mod Events
pub use Status.*
pub use Rows.*
pub use Events.*
