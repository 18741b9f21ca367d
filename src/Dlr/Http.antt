-- ===== src/Dlr/Http.antt =====
-- minisms/internal/api/dlr.go (HandleDLR) and dlr/processor.go (VerifyInboundSecret): a receipt over
-- HTTP. The request is read already; the decryption of the stored secret is a parameter.
use mini_sms.Prelude.{
  ℕ, ◌≡◌, ◌≢◌, refl, sym, ap, ◌∙◌, Bool, true, false, not, ◌||◌, Option, none, some, List, [], ◌∷◌,
  if◌then◌else◌, Bool-cases, Option-cases, inl, inr,
}
use mini_sms.Text.{Text, Unicode, codes, text_eq, is_empty, trim_space}
use mini_sms.Text.Laws.{text_eq_sound}
use mini_sms.Dlr.Status.{Fields, value_or_empty}
use mini_sms.Dlr.Receipt.{DlrRow, handle_inbound}

-- The parts of a request: the id in the path, the query, the headers, and the fields of the payload.
pub record Callback : Type 0 where
  pub path_id : Text
  pub query : Text → Text
  pub header : Text → Text
  pub fields : Fields

abbrev pub status_ok : ℕ
status_ok = 200

abbrev pub status_bad_request : ℕ
status_bad_request = 400

abbrev pub status_forbidden : ℕ
status_forbidden = 403

-- The first key with a value that is not blank.
unfoldable pub first_value : (Text → Text) → List Text → Text
first_value read [] = []
first_value read (k ∷ keys) =
    let rest = first_value read keys in
    if not (is_empty (trim_space (read k))) then trim_space (read k) else rest

-- The message that HandleDLR is about.
unfoldable pub message_of : Callback → Text
unfolding first_value
message_of r =
    let id = trim_space r.path_id in
    let ref = first_value r.query (codes "ref" ∷ codes "msgid" ∷ codes "reference" ∷ []) in
    let field =
      first_value (λ k. value_or_empty (r.fields k))
        (codes "ref"
          ∷ codes "msgid"
          ∷ codes "reference"
          ∷ codes "message_id"
          ∷ codes "messageid"
          ∷ codes "id"
          ∷ []) in
    if not (is_empty id) then id else if not (is_empty ref) then ref else field

-- The secret that a request brings.
unfoldable pub candidate : Callback → Text
candidate r =
    let q = trim_space (r.query (codes "secret")) in
    let h = trim_space (r.header (codes "X-DLR-Secret")) in
    if not (is_empty q)
    then q
    else if not (is_empty h)
    then h
    else trim_space (r.header (codes "X-Callback-Secret"))

-- VerifyInboundSecret; `decrypt` fails with none
unfoldable pub verify_inbound_secret : (Text → Option Text) → Callback → Option Text → Bool
unfolding candidate
verify_inbound_secret decrypt r secret =
    if is_empty (trim_space (value_or_empty secret))
    then true
    else elim (decrypt (value_or_empty secret)) [
      | none ↦ false
      | some expected ↦ if is_empty (candidate r) then false else text_eq (candidate r) expected
    ]

module _ (u : Unicode) (is_uuid : Text → Bool) (decrypt : Text → Option Text) where
  abbrev pub with_row :
      Callback → Text → Option Text → Bool → Option DlrRow → ℕ × (Option DlrRow × Bool)
  with_row r id secret stores none = (status_ok, (none, false))
  with_row r id secret stores (some row) =
      if not (verify_inbound_secret decrypt r secret)
      then (status_forbidden, (some row, false))
      else (status_ok, handle_inbound u is_uuid id r.fields stores (some row))

  -- HandleDLR: the status of the response, and the row with whether a receipt was forwarded
  unfoldable pub handle_dlr :
      Callback → Option Text → Bool → Option DlrRow → ℕ × (Option DlrRow × Bool)
  unfolding message_of verify_inbound_secret handle_inbound
  handle_dlr r secret stores row =
      let id = message_of r in
      if is_empty id || not (is_uuid id)
      then (status_bad_request, (row, false))
      else with_row r id secret stores row

  with_row-guarded :
      (r : Callback) (id : Text) (secret : Option Text) (stores : Bool) (row : Option DlrRow)
      → is_empty (trim_space (value_or_empty secret)) ≡ false
      → (with_row r id secret stores row).1 ≢ (row, false)
      → decrypt (value_or_empty secret) ≡ some (candidate r)
  unfolding verify_inbound_secret
  with_row-guarded r id secret stores none e h = absurd (h refl)
  with_row-guarded r id secret stores (some row) e h =
      elim (Option-cases (decrypt (value_or_empty secret))) [
        | inl d ↦ absurd (h (rw (e, d) refl))
        | inr (expected, d) ↦ elim (Bool-cases (is_empty (candidate r))) [
          | inl f ↦ absurd (h (rw (e, d, f) refl))
          | inr f ↦ elim (Bool-cases (text_eq (candidate r) expected)) [
            | inl g ↦ d ∙ ap some (sym (text_eq_sound (candidate r) expected g))
            | inr g ↦ absurd (h (rw (e, d, f, g) refl))
          ]
        ]
      ]

  -- Where a carrier has a secret, a callback over HTTP changes the message, or is forwarded to the
  -- client, only if it brings that secret, as it is decrypted.
  pub handle_dlr-guarded :
      (r : Callback) (secret : Option Text) (stores : Bool) (row : Option DlrRow)
      → is_empty (trim_space (value_or_empty secret)) ≡ false
      → (handle_dlr r secret stores row).1 ≢ (row, false)
      → decrypt (value_or_empty secret) ≡ some (candidate r)
  unfolding handle_dlr
  handle_dlr-guarded r secret stores row e h =
      elim (Bool-cases (is_empty (message_of r) || not (is_uuid (message_of r)))) [
        | inl f ↦ absurd (h (rw f refl))
        | inr f ↦ with_row-guarded r (message_of r) secret stores row e (λ k. h (rw f k))
      ]
