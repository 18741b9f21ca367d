-- ===== src/Dlr/Receipt.antt =====
-- minisms/internal/dlr/processor.go (HandleInbound) and db/dlr.go (UpdateDLRReceived) on one message.
-- The message's row is read and written with no other writer in between. `is_uuid` is uuid.Parse, and
-- `stores` says whether the UPDATE reaches the database.
use mini_sms.Prelude.{
  ℕ, ◌+◌, ◌≤◌, ◌≡◌, refl, Bool, true, false, not, ◌||◌, ◌&&◌, Option, none, some, List, [], ◌∷◌,
  arith, if◌then◌else◌, Bool-cases, inl, inr, sym, subst,
}
use mini_sms.Text.{Text, Unicode, codes, text_eq, is_empty, trim_space}
use mini_sms.Dlr.Status.{
  delivered, undelivered, rejected, unknown, is_one_of, Fields, is_final_status,
  normalize_from_fields, Known, normalize_from_fields-Known,
}

-- The columns of DLRMessage that a receipt depends on.
pub record DlrRow : Type 0 where
  pub status : Text
  pub dlr_status : Option Text
  pub is_received : Bool
  pub dlr_requested : Bool
  pub status_field : Option Text
  pub status_map : Option Fields

-- dlr_status IS NOT NULL AND dlr_status IN (…)
abbrev pub is_closed : Option Text → Bool
is_closed none = false
is_closed (some s) = is_one_of s (delivered ∷ undelivered ∷ rejected ∷ [])

-- UpdateDLRReceived; true if a row was changed
unfoldable pub update_dlr_received : Text → DlrRow → DlrRow × Bool
update_dlr_received s row = if is_closed row.dlr_status then (row, false) else (
  record row {
    dlr_status = some s;
    is_received = true;
    status =
        if text_eq s delivered
        then delivered
        else if text_eq s undelivered
        then codes "failed"
        else if text_eq s rejected
        then rejected
        else row.status;
  },
  true,
)

module _ (u : Unicode) (is_uuid : Text → Bool) where
  -- shouldForwardDLR
  unfoldable pub should_forward_dlr : Bool → Text → Bool
  should_forward_dlr had_prior_receipt status = not had_prior_receipt || is_final_status u status

  -- The receipt once its status is known; true is the call of forwardToClient.
  unfoldable pub apply_receipt : Text → Bool → DlrRow → DlrRow × Bool
  unfolding update_dlr_received should_forward_dlr
  apply_receipt s stores row =
      if not stores
      then (row, false)
      else (let (after, applied) = update_dlr_received s row in
          (after, applied && row.dlr_requested && should_forward_dlr row.is_received s))

  -- HandleInbound; none is a message that is not found
  unfoldable pub handle_inbound : Text → Fields → Bool → Option DlrRow → Option DlrRow × Bool
  unfolding apply_receipt normalize_from_fields
  handle_inbound message_id fields stores none = (none, false)
  handle_inbound message_id fields stores (some row) =
      let id = trim_space message_id in
      if is_empty id || not (is_uuid id)
      then (some row, false)
      else (let (after, forwarded) =
            apply_receipt (normalize_from_fields u fields row.status_field row.status_map) stores
              row in
          (some after, forwarded))

  -- Receipts for one message in a row: the row after them and how many were forwarded.
  unfoldable pub receive : Text → List (Fields × Bool) → Option DlrRow → Option DlrRow × ℕ
  unfolding handle_inbound
  receive message_id [] row = (row, 0)
  receive message_id ((fields, stores) ∷ receipts) row =
      let (after, forwarded) = handle_inbound message_id fields stores row in
      let (last, n) = receive message_id receipts after in (last, (if forwarded then 1 else 0) + n)

  -- How many forwards a row still allows.
  abbrev pub allowance : Option DlrRow → ℕ
  allowance none = 0
  allowance (some row) = if is_closed row.dlr_status then 0 else if row.is_received then 1 else 2

  -- Package strings leaves the four words as they are.
  abbrev pub KeepsWords : Type 0
  KeepsWords =
      (u.to_lower delivered ≡ delivered)
      × (u.to_lower undelivered ≡ undelivered)
      × (u.to_lower rejected ≡ rejected)
      × (u.to_lower unknown ≡ unknown)

  module _ (keeps : KeepsWords) where
    final-closed : (s : Text) → Known s → is_final_status u s ≡ is_closed (some s)
    unfolding is_final_status trim_space text_eq
    final-closed s (inl p) =
        subst (λ w. is_final_status u w ≡ is_closed (some w)) (sym p) (rw keeps.0 refl)
    final-closed s (inr (inl p)) =
        subst (λ w. is_final_status u w ≡ is_closed (some w)) (sym p) (rw keeps.1 refl)
    final-closed s (inr (inr (inl p))) =
        subst (λ w. is_final_status u w ≡ is_closed (some w)) (sym p) (rw keeps.2 refl)
    final-closed s (inr (inr (inr p))) =
        subst (λ w. is_final_status u w ≡ is_closed (some w)) (sym p) (rw keeps.3 refl)

    apply_receipt-allowance :
        (s : Text) (stores : Bool) (row : DlrRow)
        → Known s
        → (if (apply_receipt s stores row).1 then 1 else 0)
            + allowance (some (apply_receipt s stores row).0)
          ≤ allowance (some row)
    unfolding apply_receipt update_dlr_received should_forward_dlr
    apply_receipt-allowance s false row k = omega arith
    apply_receipt-allowance s true row k = elim (Bool-cases (is_closed row.dlr_status)) [
      | inl c ↦ rw (c, c) (omega arith)
      | inr c ↦
          rw (c, final-closed s k) (by_test row.dlr_requested row.is_received (is_closed (some s)))
    ]
      where
        by_test :
            (requested received closed : Bool)
            → (if requested && (not received || closed) then 1 else 0) + (if closed then 0 else 1)
              ≤ (if received then 1 else 2)
        by_test requested received closed = ground arith

    handle_inbound-allowance :
        (message_id : Text) (fields : Fields) (stores : Bool) (row : Option DlrRow)
        → (if (handle_inbound message_id fields stores row).1 then 1 else 0)
            + allowance (handle_inbound message_id fields stores row).0
          ≤ allowance row
    unfolding handle_inbound
    handle_inbound-allowance message_id fields stores none = omega arith
    handle_inbound-allowance message_id fields stores (some row) =
        elim (Bool-cases
          (is_empty (trim_space message_id) || not (is_uuid (trim_space message_id)))) [
            | inl e ↦ rw e (omega arith)
            | inr e ↦ rw e (
                apply_receipt-allowance _ stores row
                  (normalize_from_fields-Known u fields row.status_field row.status_map))
          ]

    -- However many receipts a carrier sends for a message, at most two are forwarded to the client: one
    -- if a receipt was stored before, and none once a final status was; where the lower case of the four
    -- status words is the word itself.
    pub receive-allowance :
        (message_id : Text) (receipts : List (Fields × Bool)) (row : Option DlrRow)
        → (receive message_id receipts row).1 ≤ allowance row
    unfolding receive
    receive-allowance message_id [] row = omega arith
    receive-allowance message_id ((fields, stores) ∷ receipts) row =
        let first = handle_inbound-allowance message_id fields stores row in
        let rest =
          receive-allowance message_id receipts (handle_inbound message_id fields stores row).0 in
        omega (arith, first, rest)

  apply_receipt-closed :
      (s : Text) (stores : Bool) (row : DlrRow)
      → is_closed row.dlr_status ≡ true
      → apply_receipt s stores row ≡ (row, false)
  unfolding apply_receipt update_dlr_received
  apply_receipt-closed s false row c = refl
  apply_receipt-closed s true row c = rw c refl

  -- Once a final status is stored, no later receipt changes the row or is forwarded.
  pub receive-closed :
      (message_id : Text) (receipts : List (Fields × Bool)) (row : DlrRow)
      → is_closed row.dlr_status ≡ true
      → receive message_id receipts (some row) ≡ (some row, 0)
  unfolding receive handle_inbound
  receive-closed message_id [] row c = refl
  receive-closed message_id ((fields, stores) ∷ receipts) row c =
      elim (Bool-cases
        (is_empty (trim_space message_id) || not (is_uuid (trim_space message_id)))) [
          | inl e ↦ rw e (rw (receive-closed message_id receipts row c) refl)
          | inr e ↦
              rw
                (
                  e,
                  apply_receipt-closed
                      (normalize_from_fields u fields row.status_field row.status_map) stores row c,
                  receive-closed message_id receipts row c,
                )
                refl
        ]
