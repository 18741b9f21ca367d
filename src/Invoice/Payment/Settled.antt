-- ===== src/Invoice/Payment/Settled.antt =====
-- What payments make of an invoice.
use mini_sms.Prelude.{
  ℕ, ◌+◌, ◌-◌, ◌≡◌, refl, ap, ◌∙◌, subst, Bool, true, false, List, [], ◌∷◌, arith, if◌then◌else◌,
  leb, ltb, Bool-cases, inl, inr,
}
use mini_sms.Result.{Result, ok, err}
use mini_sms.Text.{Text}
use mini_sms.Text.Laws.{text_eq_refl}
use mini_sms.Invoice.Payment.{
  InvoiceStatus, invoice_pending, invoice_paid, invoice_partially_paid, Invoice, create_invoice,
  invoice_initial_status, paid_by, PaymentError, not_found_or_paid, is_open, apply_invoice_payment,
}

-- Payments of the entity to one of its invoices; the refused ones change nothing.
abbrev pub settled_or : Invoice → Result PaymentError Invoice → Invoice
settled_or inv (ok paid) = paid
settled_or inv (err e) = inv

abbrev pub pay_once : Invoice → ℕ → Invoice
pay_once inv amount =
    settled_or inv (apply_invoice_payment inv.entity_type inv.entity_id inv.invoice_id amount inv)

abbrev pub pay_all : Invoice → List ℕ → Invoice
pay_all inv [] = inv
pay_all inv (amount ∷ amounts) = pay_all (pay_once inv amount) amounts

abbrev pub sum : List ℕ → ℕ
sum [] = 0
sum (amount ∷ amounts) = amount + sum amounts

-- The status that belongs to an amount that is still open.
abbrev pub status_for : ℕ → ℕ → InvoiceStatus
status_for total pending =
    if leb pending 0
    then invoice_paid
    else if ltb pending total
    then invoice_partially_paid
    else invoice_pending

-- `paid` was paid so far.
pub record Settled (total paid : ℕ) (inv : Invoice) : Type 0 where
  pub total_kept : inv.total_amount ≡ total
  pub pending_left : inv.pending_amount ≡ total - paid
  pub status_right : inv.status ≡ status_for total (total - paid)

is_open_self :
    (inv : Invoice)
    → is_open inv.entity_type inv.entity_id inv.invoice_id inv ≡ ltb 0 inv.pending_amount
is_open_self inv =
    ground
      (arith, text_eq_refl inv.invoice_id, text_eq_refl inv.entity_type, text_eq_refl inv.entity_id)

pay_once_result :
    (inv : Invoice) (amount : ℕ)
    → pay_once inv amount ≡ (if ltb 0 inv.pending_amount then paid_by amount inv else inv)
unfolding apply_invoice_payment
pay_once_result inv amount =
    ap (chosen inv amount) (is_open_self inv) ∙ settled inv amount (ltb 0 inv.pending_amount)
  where
    chosen : Invoice → ℕ → Bool → Invoice
    chosen inv amount b =
        settled_or inv (if b then ok (paid_by amount inv) else err not_found_or_paid)

    settled :
        (inv : Invoice) (amount : ℕ) (b : Bool)
        → chosen inv amount b ≡ (if b then paid_by amount inv else inv)
    settled inv amount true = refl
    settled inv amount false = refl

pay_once-Settled :
    (total paid amount : ℕ) (inv : Invoice)
    → Settled total paid inv
    → Settled total (paid + amount) (pay_once inv amount)
pay_once-Settled total paid amount inv v =
    rw (pay_once_result inv amount) (elim (Bool-cases (ltb 0 inv.pending_amount)) [
      | inl e ↦ rw e (record {
        total_kept = v.total_kept;
        pending_left = ground (arith, v.pending_left);
        status_right = ground (arith, v.pending_left, v.total_kept);
      })
      | inr e ↦ rw e (record {
        total_kept = v.total_kept;
        pending_left = ground (arith, v.pending_left);
        status_right = ground (arith, v.pending_left, v.status_right);
      })
    ])

create-Settled :
    (id entity_type entity_id : Text) (total : ℕ)
    → Settled total 0 (create_invoice id entity_type entity_id total)
unfolding create_invoice invoice_initial_status
create-Settled id entity_type entity_id total = record {
  total_kept = ground arith;
  pending_left = ground arith;
  status_right = ground arith;
}

pay_all-Settled :
    (total paid : ℕ) (inv : Invoice) (amounts : List ℕ)
    → Settled total paid inv
    → Settled total (paid + sum amounts) (pay_all inv amounts)
pay_all-Settled total paid inv [] v = subst (λ n. Settled total n inv) (omega arith) v
pay_all-Settled total paid inv (amount ∷ amounts) v =
    let e : paid + amount + sum amounts ≡ paid + (amount + sum amounts) = omega arith in
    subst (λ n. Settled total n (pay_all (pay_once inv amount) amounts)) e
      (pay_all-Settled total (paid + amount) (pay_once inv amount) amounts
        (pay_once-Settled total paid amount inv v))

-- After any payments of the entity to a new invoice the total is what it was, what is pending is
-- the total less the payments, or nothing, and the status is paid, partially paid or pending as
-- that amount says.
pub payments-Settled :
    (id entity_type entity_id : Text) (total : ℕ) (amounts : List ℕ)
    → Settled total (sum amounts) (pay_all (create_invoice id entity_type entity_id total) amounts)
payments-Settled id entity_type entity_id total amounts =
    let e : 0 + sum amounts ≡ sum amounts = omega arith in
    subst (λ n. Settled total n (pay_all (create_invoice id entity_type entity_id total) amounts)) e
      (pay_all-Settled total 0 (create_invoice id entity_type entity_id total) amounts
        (create-Settled id entity_type entity_id total))
