-- ===== src/Smpp/Deliver/Forwarded.antt =====
-- Forwards of receipts to the sessions of the client.
use mini_sms.Prelude.{
  ℕ, ◌≡◌, ◌+◌, ◌||◌, not, arith, ap, ap₂, refl, Bool, Option, some, if◌then◌else◌, Bool-cases, inl,
  inr,
}
use mini_sms.Text.{Text, Unicode, codes, trim_space}
use mini_sms.Dlr.Forward.{
  ForwardRow, ClientEnd, forward_to_client, forward_in, update_forward_status, smpp_ok,
  smpp_no_bind, receipt_stat,
}
use mini_sms.Smpp.Sessions.{Session, Registry, pick_deliver}
use mini_sms.Smpp.Sessions.Registered.{History, Longest, pick_deliver-Longest}
use mini_sms.Smpp.Deliver.{build_delivery_receipt, deliver_on, deliver_dlr}

-- The client's end with the SMPP server in it.
abbrev pub with_server :
    ClientEnd → Unicode → (ℕ → Text → Bool) → Text → Registry → Text → Text → ClientEnd
with_server end u writes now r client id = record end {
  deliver = some (deliver_dlr u writes now r client id);
}

-- A forward on SMPP alone, by whether the receipt and the UPDATE got through.
abbrev pub settled : Bool → Bool → ForwardRow → Text × ForwardRow
settled stores delivered row =
    let word = if delivered then smpp_ok else smpp_no_bind in
    (
      word,
      if not stores then row else (record {
        forward_status = some word;
        is_forwarded = row.is_forwarded || delivered;
        forward_attempts = row.forward_attempts + (if delivered then 1 else 0);
      }),
    )

smpp_settles :
    (end : ClientEnd) (deliver : Text → Bool) (url : Option Text) (dlr_status : Text)
    (row : ForwardRow)
    → forward_in (record end { deliver = some deliver }) (codes "smpp") url dlr_status row
      ≡ settled end.stores (deliver dlr_status) row
unfolding forward_in mini_sms.Text.text_eq update_forward_status
smpp_settles end deliver url dlr_status row = elim (Bool-cases (deliver dlr_status)) [
  | inl e ↦ elim (Bool-cases end.stores) [
    | inl f ↦ rw (e, f) (ap (λ b. (smpp_ok, marked b (row.forward_attempts + 1))) (ground arith))
    | inr f ↦ rw (e, f) refl
  ]
  | inr e ↦ elim (Bool-cases end.stores) [
    | inl f ↦ rw (e, f) (ap₂ (λ b n. (smpp_no_bind, untried b n)) (ground arith) (omega arith))
    | inr f ↦ rw (e, f) refl
  ]
]
  where
    marked : Bool → ℕ → ForwardRow
    marked b n = record { forward_status = some smpp_ok; is_forwarded = b; forward_attempts = n }

    untried : Bool → ℕ → ForwardRow
    untried b n = record {
      forward_status = some smpp_no_bind;
      is_forwarded = b;
      forward_attempts = n;
    }

-- After any binds of new sessions and any ends, a receipt for a client in SMPP mode is written to the
-- one of its receiving sessions that was bound first, and comes to smpp_ok exactly if there is one and
-- the write succeeds, else to smpp_no_bind. The word is stored, and smpp_ok marks the message and
-- counts an attempt, if the UPDATE of the row gets through; if it does not, the row stays as it was.
pub forward-with_server :
    (end : ClientEnd) (u : Unicode) (writes : ℕ → Text → Bool) (now : Text) (at : ℕ → Session)
    (r : Registry) (client id mode : Text) (url : Option Text) (dlr_status : Text)
    (row : ForwardRow)
    → History at r
    → u.to_lower (trim_space mode) ≡ codes "smpp"
    → (o : Option ℕ) × Longest at client r.sessions o
      × (forward_to_client (with_server end u writes now r client id) u mode url dlr_status row
          ≡ settled end.stores
              (deliver_on writes (build_delivery_receipt now id (receipt_stat u dlr_status)) o)
              row)
unfolding forward_to_client deliver_dlr
forward-with_server end u writes now at r client id mode url dlr_status row h m = (
  pick_deliver r client,
  (pick_deliver-Longest at r client h).1,
  rw m (smpp_settles end (deliver_dlr u writes now r client id) url dlr_status row),
)
