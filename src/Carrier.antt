-- ===== src/Carrier.antt =====
-- minisms/internal/carrier: number rules, sender IDs and eligibility of a carrier.
pub mod NumRules
pub mod TonNpi
pub mod Eligibility
pub mod Sender
pub mod Template
pub mod UrlGuard
