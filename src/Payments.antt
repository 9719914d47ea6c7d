-- ===== src/Payments.antt =====
-- backend/src/payments/payments.service.ts.
pub mod Checkout
pub mod Webhook
