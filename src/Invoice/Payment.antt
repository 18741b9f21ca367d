-- ===== src/Invoice/Payment.antt =====
-- minisms/internal/db/invoices.go (CreateInvoice) and invoice_payment.go (ApplyInvoicePayment). An
-- amount is a number of millionths. The columns that no payment reads or writes are left out.
pub mod Settled
use mini_sms.Prelude.{
  ℕ, ◌+◌, ◌-◌, Bool, true, false, not, ◌&&◌, ◌||◌, Option, none, some, List, [], ◌∷◌, if◌then◌else◌,
  leb, ltb,
}
use mini_sms.Result.{Result, ok, err}
use mini_sms.Text.{Text, text_eq}

pub data InvoiceStatus : Type 0 where
  invoice_pending invoice_paid invoice_partially_paid : InvoiceStatus

pub record Invoice : Type 0 where
  pub invoice_id : Text
  pub entity_type : Text
  pub entity_id : Text
  pub total_amount : ℕ
  pub pending_amount : ℕ
  pub status : InvoiceStatus

-- invoiceInitialStatus
unfoldable pub invoice_initial_status : ℕ → InvoiceStatus × ℕ
invoice_initial_status total = if leb total 0 then (invoice_paid, 0) else (invoice_pending, total)

-- CreateInvoice, the row that it inserts
unfoldable pub create_invoice : Text → Text → Text → ℕ → Invoice
unfolding invoice_initial_status
create_invoice id entity_type entity_id total =
    let (status, pending) = invoice_initial_status total in
    record {
      invoice_id = id;
      entity_type = entity_type;
      entity_id = entity_id;
      total_amount = total;
      pending_amount = pending;
      status = status;
    }

-- The row that the UPDATE of ApplyInvoicePayment leaves: GREATEST(0, …) is the subtraction itself.
abbrev pub paid_by : ℕ → Invoice → Invoice
paid_by amount inv = record inv {
  pending_amount = inv.pending_amount - amount;
  status =
      if leb inv.pending_amount amount
      then invoice_paid
      else if ltb (inv.pending_amount - amount) inv.total_amount
      then invoice_partially_paid
      else invoice_pending;
}

pub data PaymentError : Type 0 where
  not_found_or_paid : PaymentError

-- The WHERE clause of the UPDATE.
abbrev pub is_open : Text → Text → Text → Invoice → Bool
is_open entity_type entity_id id inv =
    text_eq inv.invoice_id id
    && (text_eq inv.entity_type entity_type
        && (text_eq inv.entity_id entity_id && ltb 0 inv.pending_amount))

-- ApplyInvoicePayment on the table of one invoice
unfoldable pub apply_invoice_payment :
    Text → Text → Text → ℕ → Invoice → Result PaymentError Invoice
apply_invoice_payment entity_type entity_id id amount inv =
    if is_open entity_type entity_id id inv then ok (paid_by amount inv) else err not_found_or_paid
