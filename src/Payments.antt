-- ===== src/Payments.antt =====
-- apps/api/src/payments/payments.service.ts: payment attempts, webhooks and settlement. The gateway
-- is the interface of packages/shared/src/ports/payment-gateway.port.ts; sha256 is a parameter.
pub mod Types
pub mod Settle
pub mod Attempt
pub mod Webhook
pub mod Effect
pub mod Outcomes
pub mod Sound
pub mod Delivery
pub mod SoundDelivery
pub mod Attempts
pub mod Retry
