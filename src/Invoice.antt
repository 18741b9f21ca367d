-- ===== src/Invoice.antt =====
-- minisms/internal/invoice and the invoices of minisms/internal/db.
pub mod Payment
pub mod Period
