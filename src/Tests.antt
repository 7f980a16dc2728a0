-- ===== src/Tests.antt =====
-- The theorems applied to concrete inputs.
mod Data
mod Billing
mod Access
mod Settlement
mod Delivery
mod Reviews
mod Creation
mod Credentials
mod Members
mod Visits
mod Charges
