-- ===== src/Dlr.antt =====
-- minisms/internal/dlr: delivery receipts.
pub mod Status
pub mod Receipt
pub mod Forward
pub mod Ageing
pub mod Http
