-- ===== src/Lib.antt =====
-- HelpMi: the marketplace services of backend/src.
--
-- Posters create tasks and pay, doers accept and complete them, and the money of an ESCROW task
-- waits in an escrow until it is released to the doer or refunded. The services of Nest share one
-- database through Prisma. Every `await` of a service is a point at which other requests run.
--
-- Which file models which part (paths from the repository's root):
--   Schema: backend/prisma/schema.prisma (rows and enums) and
--     backend/src/notifications/events/notification-events.ts (events).
--   Database, World: the tables as lists of rows, the clock, the emitted events, and the services
--     outside the program (configuration, uuids, hashes, random codes, signed URLs, the PayHere
--     endpoint, the SMS gateway, rounding of doubles) as functions that nothing here defines.
--   Handler: a handler is a tree of atomic steps. `run` runs it alone; `run_schedule` runs several
--     of them, one step at a time in a given order. `transaction` is `prisma.$transaction`: one
--     step, undone if it throws. Isolation of transactions is that of one step, as the
--     conditional writes of the services have it under row locks.
--   Tasks: backend/src/tasks/tasks.service.ts: Create (`create`), Lifecycle (`accept`,
--     `markStarted`, `markComplete`, `raiseDispute`), Release (`confirm`, `releaseEscrow`),
--     Cancel (`cancel`, `forceCancel`, `executeCancel`), Reads (`findById`, `getAcceptedTasks`,
--     `getPostedTasks`), Nearby (`findNearby`).
--   Payments: backend/src/payments/payments.service.ts: Checkout (`getEscrow`,
--     `initiatePayment`, `callbackUrls`), Webhook (`handleWebhook` and what it applies).
--   Refunds, PayHere, Payouts: refund.service.ts (its `reconcile` in Refunds/Reconcile),
--     payout.service.ts (its CSV in Payouts/Export) and providers/ of
--     backend/src/payments.
--   Scheduler, Admin, Auth, Messages, Ratings, Users: the service of that name under backend/src;
--     Admin/Reads: what an admin reads.
--   Uploads: backend/src/uploads: the keys of upload-purpose.ts (Uploads/Keys), `presign` and
--     `presignRead`, and the buckets of storage.provider.ts. A pattern of keys is read as splits
--     at `/` and `.`.
--   Doer: backend/src/doer: doer.service.ts with the rules of its DTOs.
--   Notifications: notifications.service.ts of backend/src/notifications; Notifications/Listener:
--     notifications.listener.ts, which the events of the other services reach.
--   Guards: `validate` of backend/src/auth/strategies/jwt.strategy.ts,
--     backend/src/common/guards/admin.guard.ts, and the routes of
--     backend/src/admin/admin.controller.ts behind them.
--   Config: backend/src/config/env.validation.ts.
--   Categories: categories.service.ts of backend/src/categories.
--   Api: the controllers of backend/src behind common/guards/jwt-auth.guard.ts; Api/Reply:
--     common/filters/http-exception.filter.ts.
--   Transports: Sms (auth/providers/sms.provider.ts), Push
--     (notifications/providers/push.provider.ts) and Token (the OAuth token of
--     payments/providers/payhere.client.ts), up to the call of the network.
--   Requests: every request, webhook and timer as one data type, and a server that runs the
--     handlers of a list of them by a schedule.
--   Safety: statements on tasks and escrows under any schedule of any requests. Safety/Stable lists
--     the kinds of writes and Safety/Quiet those of most handlers; Safety/Refunds, Payouts,
--     Release, Checkout, Tasks, Money and Payments go through the handlers; Doer, Secured, Strand
--     and Terms hold the statements.
--   Workflow: the life of a task as a step relation, and that the handlers, run one after the
--     other, refine it. Workflow/View is the abstraction; Doer, Disputes, Resolution, Create, Cancel
--     and Money go through the handlers; Refine and Life hold the statements.
--   Outcomes: statements on single handlers that run alone, on batches, and on races of one kind.
--   Examples: a sample world, runs, and the theorems at it.
--
-- Amounts are numbers of cents and times milliseconds, both without an upper bound. Loops are over
-- rows that a query returned; `decimal` has fuel above the number of digits.
--
-- Not modelled: modules, pipes, interceptors, throttling and the other DTOs (wiring of the
-- framework), the network behind the transports and the S3 client, and rows that a list joins for
-- a view. The order of rows
-- is that of their creation. A unique constraint is consulted by `create` and not by `update`.
pub mod Common
pub mod Schema
pub mod Database
pub mod World
pub mod Handler
pub mod PayHere
pub mod Refunds
pub mod Payouts
pub mod Tasks
pub mod Payments
pub mod Config
pub mod Auth
pub mod Messages
pub mod Users
pub mod Ratings
pub mod Uploads
pub mod Doer
pub mod Notifications
pub mod Guards
pub mod Scheduler
pub mod Admin
pub mod Requests
pub mod Categories
pub mod Api
pub mod Transports
pub mod Outcomes
pub mod Safety
pub mod Workflow
pub mod Examples
