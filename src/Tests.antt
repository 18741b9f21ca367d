-- ===== src/Tests.antt =====
-- Runs of the models, and each theorem applied at a concrete input.
mod Routes
mod Delivery
mod Carriers
mod Money
mod Receipts
mod Smpp
mod Egress
mod Office
mod Requests
