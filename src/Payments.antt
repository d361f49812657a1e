-- ===== src/Payments.antt =====
-- packages/payments and the payment callbacks of apps/web.
pub mod Gateway
pub mod Webhook
mod Outcomes
mod Examples
