-- ===== src/Payments.antt =====
-- app/payments/stripe.py: what a verified Stripe payment changes.
pub mod Checkout
pub mod Webhook
pub mod Customer
pub mod Grants
pub mod Once
