-- ===== src/Sending/Dispatch/Attempts.antt =====
-- minisms/internal/sending/dispatch.go: laws of the attempts at one carrier.
use mini_sms.Prelude.{
  Option-cases, ℕ, subst, ◌≡◌, ◌≤◌, refl, Bool, true, false, Option, none, some, List, [], ◌∷◌,
  arith, Bool-cases, inl, inr, ap, ◌∙◌,
}
use mini_sms.Text.{Text, Unicode, is_empty, trim_space}
use mini_sms.Carrier.NumRules.{Lib}
use mini_sms.Carrier.TonNpi.{SmppParams}
use mini_sms.Carrier.Eligibility.{Resolution}
use mini_sms.Routing.Cache.{CarrierProfile}
use mini_sms.Sending.Failover.{FailoverCarrier}
use mini_sms.Sending.Dispatch.{try_mode, after_attempt, try_modes}
use mini_sms.Sending.Transport.{
  EgressTransport, egress_http, egress_smpp, AcceptedMessage, Outcome, SmppRequest, SubmitResult,
  HttpRequest, SmppReply, submitted, submit_error, HttpReply, replied, transport_error, Env,
  Attempt, attempt, event, response, with_error, read_smpp_reply, read_http_reply,
}

abbrev outcome_of : Attempt → Outcome
outcome_of (attempt o b e) = o

-- An attempt leaves alone the numbers that were recorded before it.
pub record SameNumbers (a b : Outcome) : Type 0 where
  pub sender_kept : a.dispatched_sender ≡ b.dispatched_sender
  pub destination_kept : a.dispatched_destination ≡ b.dispatched_destination

smpp_numbers : (r : SmppReply) (o : Outcome) → SameNumbers (outcome_of (read_smpp_reply r o)) o
unfolding read_smpp_reply
smpp_numbers (submitted none) o = record { sender_kept = refl; destination_kept = refl }
smpp_numbers (submitted (some r)) o = ground arith
smpp_numbers (submit_error none e) o = record { sender_kept = refl; destination_kept = refl }
smpp_numbers (submit_error (some r) e) o = ground arith

http_numbers : (r : HttpReply) (o : Outcome) → SameNumbers (outcome_of (read_http_reply r o)) o
unfolding read_http_reply
http_numbers (replied code body) o = ground arith
http_numbers (transport_error e) o = record { sender_kept = refl; destination_kept = refl }

module _ (u : Unicode) {lib : Lib} (env : Env lib) (message_id client_id : Text) (client_rate : ℕ)
    (sid : Resolution) (msg : AcceptedMessage) where
  mode_numbers :
      (mode : EgressTransport) (c : FailoverCarrier) (m : AcceptedMessage) (prof : CarrierProfile)
      (params : SmppParams) (o : Outcome)
      → SameNumbers
          (outcome_of
            (try_mode u env message_id client_id client_rate sid msg mode c m prof params o))
          o
  unfolding try_mode
  mode_numbers egress_smpp c m prof params o = elim (Option-cases env.egress) [
    | inl e ↦ rw e record { sender_kept = refl; destination_kept = refl }
    | inr (f, e) ↦ rw e (search smpp_numbers)
  ]
  mode_numbers egress_http c m prof params o =
      elim (Bool-cases (is_empty (trim_space prof.endpoint_url))) [
        | inl e ↦ rw e record { sender_kept = refl; destination_kept = refl }
        | inr e ↦ rw e (elim (Bool-cases (env.template_ready c.id)) [
          | inr t ↦ rw t record { sender_kept = refl; destination_kept = refl }
          | inl t ↦ rw t (elim (Bool-cases (env.headers_ready c.id)) [
            | inr h ↦ rw h record { sender_kept = refl; destination_kept = refl }
            | inl h ↦ rw h (search http_numbers)
          ])
        ])
      ]

-- What a winning attempt has written: the carrier, its place, the plan, and the numbers of before.
pub record Won (c : FailoverCarrier) (params : SmppParams) (before out : Outcome) : Type 0 where
  pub carrier_won : out.carrier_id ≡ c.id
  pub sequence_won : out.failover_sequence ≡ c.n
  pub params_won : out.params ≡ some params
  pub sender_won : out.dispatched_sender ≡ before.dispatched_sender
  pub destination_won : out.dispatched_destination ≡ before.dispatched_destination

with_error_numbers : (e : Option Text) (o : Outcome) → SameNumbers (with_error e o) o
with_error_numbers none o = record { sender_kept = refl; destination_kept = refl }
with_error_numbers (some e) o = record { sender_kept = refl; destination_kept = refl }

Won-after :
    {c : FailoverCarrier} {params : SmppParams} {a b out : Outcome}
    → SameNumbers b a
    → Won c params b out
    → Won c params a out
Won-after k w = record {
  carrier_won = w.carrier_won;
  sequence_won = w.sequence_won;
  params_won = w.params_won;
  sender_won = w.sender_won ∙ k.sender_kept;
  destination_won = w.destination_won ∙ k.destination_kept;
}

pub not_won : {X : Type 0} {o out : Outcome} → ◌≡◌ {A = Outcome × Bool} (o, false) (out, true) → X
not_won h = ground arith

first_of : {o out : Outcome} {b : Bool} → ◌≡◌ {A = Outcome × Bool} (o, b) (out, true) → o ≡ out
first_of h = ap (λ (r : Outcome × Bool). r.0) h

module _ (u : Unicode) {lib : Lib} (env : Env lib) (message_id client_id : Text) (client_rate : ℕ)
    (sid : Resolution) (msg : AcceptedMessage) where
  attempt-Won :
      (c : FailoverCarrier) (prof : CarrierProfile) (params : SmppParams) (before out : Outcome)
      (a : Attempt) (more : Outcome → Outcome × Bool)
      → SameNumbers (outcome_of a) before
      → ((o : Outcome) → more o ≡ (out, true) → Won c params o out)
      → after_attempt u env message_id client_id client_rate sid msg c prof params a more
        ≡ (out, true)
      → Won c params before out
  attempt-Won c prof params before out (attempt o true e) more k ih h =
      subst (Won c params before) (first_of h) (record {
        carrier_won = refl;
        sequence_won = refl;
        params_won = refl;
        sender_won = k.sender_kept;
        destination_won = k.destination_kept;
      })
  attempt-Won c prof params before out (attempt o false e) more k ih h =
      let noted : Outcome =
        event (response prof.name c.n false o.last_code o.carrier_message_id o.egress) o in
      let shown : SameNumbers noted before = record {
        sender_kept = k.sender_kept;
        destination_kept = k.destination_kept;
      } in
      Won-after shown (Won-after (with_error_numbers e noted) (ih (with_error e noted) h))

  pub modes-Won :
      (modes : List EgressTransport) (c : FailoverCarrier) (m : AcceptedMessage)
      (prof : CarrierProfile) (params : SmppParams) (o out : Outcome)
      → try_modes u env message_id client_id client_rate sid msg modes c m prof params o
        ≡ (out, true)
      → Won c params o out
  unfolding try_modes
  modes-Won [] c m prof params o out h = not_won h
  modes-Won (mode ∷ modes) c m prof params o out h =
      Won-after (record { sender_kept = refl; destination_kept = refl })
        (attempt-Won c prof params _ out _ _
          (mode_numbers u env message_id client_id client_rate sid msg mode c m prof params _)
          (λ o'. modes-Won modes c m prof params o' out) h)

  -- A carrier answered that it takes a request with these numbers and this body: an SMPP response of
  -- status 0, or an HTTP response from 200 to 299.
  pub data Took (c : FailoverCarrier) (from to body : Text) : Type 0 where
    by_smpp :
        (submit : Text → SmppRequest → SmppReply) (r : SmppRequest) (res : SubmitResult)
        → env.egress ≡ some submit
        → (r.src ≡ from) × (r.dst ≡ to) × (r.body ≡ body)
        → submit c.id r ≡ submitted (some res)
        → res.command_status ≡ 0
        → Took c from to body
    by_http :
        (r : HttpRequest) (code : ℕ) (reply : Text)
        → (r.carrier_id ≡ c.id) × (r.from ≡ from) × (r.message.to ≡ to) × (r.message.body ≡ body)
        → env.post r ≡ replied code reply
        → 200 ≤ code
        → code ≤ 299
        → Took c from to body

  smpp_taken :
      (r : SmppReply) (o o' : Outcome) (e : Option Text)
      → read_smpp_reply r o ≡ attempt o' true e
      → (res : SubmitResult) × (r ≡ submitted (some res)) × (res.command_status ≡ 0)
  unfolding read_smpp_reply
  smpp_taken (submitted none) o o' e h = absurd (ground arith)
  smpp_taken (submitted (some res)) o o' e h = (res, refl, ground arith)
  smpp_taken (submit_error none x) o o' e h = absurd (ground arith)
  smpp_taken (submit_error (some res) x) o o' e h = absurd (ground arith)

  http_taken :
      (r : HttpReply) (o o' : Outcome) (e : Option Text)
      → read_http_reply r o ≡ attempt o' true e
      → (code : ℕ) × (text : Text) × (r ≡ replied code text) × (200 ≤ code) × (code ≤ 299)
  unfolding read_http_reply
  http_taken (replied code text) o o' e h = (code, text, refl, ground arith, ground arith)
  http_taken (transport_error x) o o' e h = absurd (ground arith)

  mode-Took :
      (mode : EgressTransport) (c : FailoverCarrier) (m : AcceptedMessage) (prof : CarrierProfile)
      (params : SmppParams) (o o' : Outcome) (e : Option Text)
      → try_mode u env message_id client_id client_rate sid msg mode c m prof params o
        ≡ attempt o' true e
      → Took c m.from m.to m.body
  unfolding try_mode
  mode-Took egress_smpp c m prof params o o' e h = elim (Option-cases env.egress) [
    | inl n ↦ absurd (ground arith)
    | inr (submit, n) ↦
        let (res, a, b) = smpp_taken _ o o' e (rw n at h) in
        by_smpp submit _ res n (refl, refl, refl) a b
  ]
  mode-Took egress_http c m prof params o o' e h =
      elim (Bool-cases (is_empty (trim_space prof.endpoint_url))) [
        | inl f ↦ absurd (ground arith)
        | inr f ↦ elim (Bool-cases (env.template_ready c.id)) [
          | inr t ↦ absurd (ground arith)
          | inl t ↦ elim (Bool-cases (env.headers_ready c.id)) [
            | inr k ↦ absurd (ground arith)
            | inl k ↦
                let (code, text, a, b, d) = http_taken _ o o' e (rw (f, t, k) at h) in
                by_http _ code text (refl, refl, refl, refl) a b d
          ]
        ]
      ]

  attempt-Took :
      (mode : EgressTransport) (c : FailoverCarrier) (m : AcceptedMessage) (prof : CarrierProfile)
      (params : SmppParams) (o out : Outcome) (a : Attempt) (more : Outcome → Outcome × Bool)
      → try_mode u env message_id client_id client_rate sid msg mode c m prof params o ≡ a
      → ((o' : Outcome) → more o' ≡ (out, true) → Took c m.from m.to m.body)
      → after_attempt u env message_id client_id client_rate sid msg c prof params a more
        ≡ (out, true)
      → Took c m.from m.to m.body
  attempt-Took mode c m prof params o out (attempt o' true e) more k ih h =
      mode-Took mode c m prof params o o' e k
  attempt-Took mode c m prof params o out (attempt o' false e) more k ih h = ih _ h

  pub modes-Took :
      (modes : List EgressTransport) (c : FailoverCarrier) (m : AcceptedMessage)
      (prof : CarrierProfile) (params : SmppParams) (o out : Outcome)
      → try_modes u env message_id client_id client_rate sid msg modes c m prof params o
        ≡ (out, true)
      → Took c m.from m.to m.body
  unfolding try_modes
  modes-Took [] c m prof params o out h = not_won h
  modes-Took (mode ∷ modes) c m prof params o out h =
      attempt-Took mode c m prof params _ out _ _ refl
        (λ o'. modes-Took modes c m prof params o' out) h
