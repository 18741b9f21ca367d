-- ===== src/Smpp/Ingress/Answers.antt =====
-- When a submit_sm is answered with ROK, and what was sent for it.
use mini_sms.Prelude.{
  ℕ, ◌≤◌, ◌≡◌, ◌≢◌, ◌⊎◌, inl, inr, refl, sym, subst, Bool, true, false, not, ◌||◌, ◌%◌, ◌==◌, [],
  ◌∷◌, if◌then◌else◌, Option, none, some, length, arith, Bool-cases,
}
use mini_sms.Result.{Result, ok, err}
use mini_sms.Text.{Text, is_empty, trim_space}
use mini_sms.Text.Trim.{trim_space_idem}
use mini_sms.Dlr.Status.{value_or_empty}
use mini_sms.Carrier.Eligibility.{Resolution}
use mini_sms.Carrier.Sender.{SenderError, resolve_sender_id}
use mini_sms.Sending.Reserve.{
  SubmitOutcome, AcceptedPayload, outcome_accepted, outcome_carrier_failure,
  outcome_insufficient_balance, outcome_no_eligible_carrier, outcome_no_rate, outcome_no_route,
  outcome_temporary_unavailable,
}
use mini_sms.Smpp.Bind.{status_r_ok}
use mini_sms.Smpp.Decode.{
  SubmitFields, DecodedSubmit, DecodeError, decode_submit_sm, validate_message_body, Bytes,
  field_uint8, has_bit, registered_dlr_requested,
}
use mini_sms.Smpp.Ingress.{
  SubmitEnv, Answer, IngressClient, SubmitParams, command_status_for_outcome,
  resolve_dlr_webhook_url, smpp_params, answered, with_sender, with_client, with_decoded,
  handle_submit,
}

-- One of the three low bits of registered_delivery is set.
abbrev pub wants_receipt : Option Bytes → Bool
wants_receipt none = false
wants_receipt (some []) = false
wants_receipt (some (b ∷ bytes)) = not (b % 8 == 0)

abbrev pub filled : Text → Option Text
filled s = if is_empty s then none else some s

-- The message of one submit_sm, as it was given to the send.
pub record Submitted {S : Type 0} (env : SubmitEnv S) (client : Text) (f : SubmitFields)
    (p : SubmitParams) : Type 0 where
  pub decoded : DecodedSubmit
  pub account : IngressClient
  pub sender : Resolution
  pub is_decoded : decode_submit_sm env.codecs f ≡ ok decoded
  pub long_enough : 1 ≤ length decoded.body
  pub short_enough : length decoded.body ≤ 1600
  pub is_client : env.get_client client ≡ some account
  pub is_sender :
      resolve_sender_id env.unicode env.compile env.pool account.sender decoded.from
        env.system_default
      ≡ ok sender
  pub client_sent : p.client ≡ account
  pub to_sent : p.message.to ≡ decoded.to
  pub body_sent : p.message.body ≡ decoded.body
  pub from_sent :
      p.message.from
      ≡ (if is_empty (trim_space decoded.from) then env.system_default else sender.value)
  pub sender_sent : p.sender_id ≡ sender
  pub dlr_sent : p.dlr_requested ≡ wants_receipt f.registered_delivery
  pub webhook_sent : p.dlr_webhook_url ≡ (
      if wants_receipt f.registered_delivery
      then filled (trim_space (value_or_empty account.dlr_webhook_url))
      else none)

low_bits : (b : ℕ) → (has_bit 1 b || has_bit 2 b || has_bit 4 b) ≡ not (b % 8 == 0)
low_bits b = ground arith

wanted : (f : SubmitFields) → registered_dlr_requested f ≡ wants_receipt f.registered_delivery
unfolding registered_dlr_requested field_uint8
wanted f = by_field f.registered_delivery
  where
    by_field :
        (o : Option Bytes)
        → elim (field_uint8 o) [
          | none ↦ false
          | some reg ↦ has_bit 1 reg || has_bit 2 reg || has_bit 4 reg
        ]
          ≡ wants_receipt o
    by_field none = refl
    by_field (some []) = refl
    by_field (some (b ∷ bytes)) = low_bits b

webhook_wanted :
    (a b : Bool)
    → a ≡ b
    → (url : Option Text)
    → resolve_dlr_webhook_url a [] url
      ≡ (if b then filled (trim_space (value_or_empty url)) else none)
unfolding resolve_dlr_webhook_url mini_sms.Sending.Store.Messages.optional_string trim_space
webhook_wanted a b e url = rw e (at b)
  where
    at :
        (b : Bool)
        → resolve_dlr_webhook_url b [] url
          ≡ (if b then filled (trim_space (value_or_empty url)) else none)
    at false = refl
    at true = elim (Bool-cases (is_empty (trim_space (value_or_empty url)))) [
      | inl g ↦ rw g refl
      | inr g ↦ rw (g, trim_space_idem (value_or_empty url), g) refl
    ]

module _ {S : Type 0} (env : SubmitEnv S) where
  -- Turned down with nothing sent, or sent once and answered by the outcome.
  abbrev pub Handled : S → Text → SubmitFields → Answer S → Type 0
  Handled s client f a =
      ((a.status ≢ status_r_ok) × (a.message_id ≡ none) × (a.store ≡ s))
      ⊎ ((p : SubmitParams) × Submitted env client f p × (a ≡ answered env (env.send s p)))

  with_sender-Handled :
      (s : S) (client : Text) (c : IngressClient) (f : SubmitFields) (d : DecodedSubmit)
      (r : Result SenderError Resolution)
      → decode_submit_sm env.codecs f ≡ ok d
      → 1 ≤ length d.body
      → length d.body ≤ 1600
      → env.get_client client ≡ some c
      → resolve_sender_id env.unicode env.compile env.pool c.sender d.from env.system_default ≡ r
      → Handled s client f (with_sender env s c f d r)
  unfolding smpp_params
  with_sender-Handled s client c f d (err e) h k l m n = inl (ground arith, refl, refl)
  with_sender-Handled s client c f d (ok sid) h k l m n = inr (
    smpp_params env c f d sid,
    record {
      decoded = d;
      account = c;
      sender = sid;
      is_decoded = h;
      long_enough = k;
      short_enough = l;
      is_client = m;
      is_sender = n;
      client_sent = refl;
      to_sent = refl;
      body_sent = refl;
      from_sent = refl;
      sender_sent = refl;
      dlr_sent = wanted f;
      webhook_sent =
          webhook_wanted (registered_dlr_requested f) (wants_receipt f.registered_delivery)
            (wanted f) c.dlr_webhook_url;
    },
    refl,
  )

  with_client-Handled :
      (s : S) (client : Text) (f : SubmitFields) (d : DecodedSubmit) (o : Option IngressClient)
      → decode_submit_sm env.codecs f ≡ ok d
      → 1 ≤ length d.body
      → length d.body ≤ 1600
      → env.get_client client ≡ o
      → Handled s client f (with_client env s f d o)
  with_client-Handled s client f d none h k l m = inl (ground arith, refl, refl)
  with_client-Handled s client f d (some c) h k l m =
      with_sender-Handled s client c f d
        (resolve_sender_id env.unicode env.compile env.pool c.sender d.from env.system_default) h k
        l m refl

  with_decoded-Handled :
      (s : S) (client : Text) (f : SubmitFields) (r : Result DecodeError DecodedSubmit)
      → decode_submit_sm env.codecs f ≡ r
      → Handled s client f (with_decoded env s client f r)
  unfolding validate_message_body
  with_decoded-Handled s client f (err e) h = inl (ground arith, refl, refl)
  with_decoded-Handled s client f (ok d) h = elim (Bool-cases (validate_message_body d.body)) [
    | inl e ↦ rw e (
        with_client-Handled s client f d (env.get_client client) h (ground arith) (ground arith)
          refl)
    | inr e ↦ rw e (inl (ground arith, refl, refl))
  ]

  handle_submit-Handled :
      (s : S) (session : ℕ) (client : Text) (f : SubmitFields)
      → Handled s client f (handle_submit env s session client f)
  unfolding handle_submit
  handle_submit-Handled s session client f = elim (Bool-cases (env.wait session)) [
    | inl e ↦ rw e (with_decoded-Handled s client f (decode_submit_sm env.codecs f) refl)
    | inr e ↦ rw e (inl (ground arith, refl, refl))
  ]

  answered_ok :
      (r : SubmitOutcome × S)
      → (answered env r).status ≡ status_r_ok
      → (a : AcceptedPayload) × (r.0 ≡ outcome_accepted a)
        × ((answered env r).message_id ≡ some a.message_id)
  unfolding command_status_for_outcome
  answered_ok (outcome_accepted a, s) h = (a, refl, refl)
  answered_ok (outcome_insufficient_balance x y, s) h = absurd (ground arith)
  answered_ok (outcome_no_rate, s) h = absurd (ground arith)
  answered_ok (outcome_no_route, s) h = absurd (ground arith)
  answered_ok (outcome_temporary_unavailable, s) h = absurd (ground arith)
  answered_ok (outcome_no_eligible_carrier, s) h = absurd (ground arith)
  answered_ok (outcome_carrier_failure id, s) h = absurd (ground arith)

  answered_store : (r : SubmitOutcome × S) → (answered env r).store ≡ r.1
  answered_store (outcome_accepted a, s) = refl
  answered_store (outcome_insufficient_balance x y, s) = refl
  answered_store (outcome_no_rate, s) = refl
  answered_store (outcome_no_route, s) = refl
  answered_store (outcome_temporary_unavailable, s) = refl
  answered_store (outcome_no_eligible_carrier, s) = refl
  answered_store (outcome_carrier_failure id, s) = refl

  -- Sent once, accepted, and answered with the id of the message.
  abbrev pub Accepted : S → Text → SubmitFields → Answer S → Type 0
  Accepted s client f a =
      (p : SubmitParams) × (x : AcceptedPayload) × Submitted env client f p
      × ((env.send s p).0 ≡ outcome_accepted x)
      × (a.message_id ≡ some x.message_id)
      × (a.store ≡ (env.send s p).1)

  Handled-Accepted :
      (s : S) (client : Text) (f : SubmitFields) (a : Answer S)
      → Handled s client f a
      → a.status ≡ status_r_ok
      → Accepted s client f a
  Handled-Accepted s client f a (inl (h, k, l)) e = absurd (h e)
  Handled-Accepted s client f a (inr (p, v, h)) e =
      let (x, k, l) =
        answered_ok (env.send s p) (subst (λ (b : Answer S). b.status ≡ status_r_ok) h e) in
      (
        p,
        x,
        v,
        k,
        subst (λ (b : Answer S). b.message_id ≡ some x.message_id) (sym h) l,
        subst (λ (b : Answer S). b.store ≡ (env.send s p).1) (sym h)
            (answered_store (env.send s p)),
      )

  -- A submit_sm is either turned down with a status other than ROK and nothing sent, or sent once and
  -- answered by the outcome. What is sent has the destination and the body that were decoded, of 1
  -- to 1600 characters, the sender that was resolved (the system default as a number, where the
  -- request has no source address), a receipt if one of the three low bits asks for it, and then
  -- the client's URL for receipts. A status of ROK means that the send accepted it, and the
  -- response has the id of the message.
  pub handle_submit-Accepted :
      (s : S) (session : ℕ) (client : Text) (f : SubmitFields)
      → let a = handle_submit env s session client f in
        Handled s client f a × (a.status ≡ status_r_ok → Accepted s client f a)
  handle_submit-Accepted s session client f =
      let v = handle_submit-Handled s session client f in
      (v, Handled-Accepted s client f (handle_submit env s session client f) v)
