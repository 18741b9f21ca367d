-- ===== src/Billing.antt =====
-- minisms/internal/billing: prices and segments (rate.go, carrier_charge.go).
-- An amount NUMERIC(18,6) is a count of millionths.
pub mod Rate
pub mod Segments
