-- ===== src/Sending/Dispatch/Laws.antt =====
-- minisms/internal/sending/dispatch.go: laws of the loop over the carriers.
use mini_sms.Prelude.{
  Option-cases, ℕ, ◌≡◌, refl, Bool, true, false, some, List, [], ◌∷◌, ◌++◌, Bool-cases, inl, inr,
  ap, ◌∙◌,
}
use mini_sms.Text.{Text, Unicode, codes, text_eq}
use mini_sms.Matching.{normalize}
use mini_sms.Carrier.NumRules.{Lib, sender, destination}
use mini_sms.Carrier.TonNpi.{resolve_ton_npi}
use mini_sms.Carrier.Eligibility.{
  Resolution, Verdict, eligible, skipped, query_failed, panicked, check_carrier_eligibility,
}
use mini_sms.Routing.Cache.{CarrierProfile}
use mini_sms.Sending.Failover.{FailoverCarrier}
use mini_sms.Sending.Dispatch.{send_with, on_verdict, try_carrier, try_carriers, continue}
use mini_sms.Sending.Transport.{AcceptedMessage, Outcome, Env, egress_attempts}
use mini_sms.Sending.Dispatch.Attempts.{Took, modes-Won, modes-Took, not_won}

module _ (u : Unicode) {lib : Lib} (env : Env lib) (message_id client_id : Text) (client_rate : ℕ)
    (sid : Resolution) (msg : AcceptedMessage) where
  -- The carrier that took the message, and the numbers it was given.
  pub record Sent (c : FailoverCarrier) (out : Outcome) : Type 0 where
    prof : CarrierProfile
    effective : Text
    is_known : env.profiles c.id ≡ some prof
    is_active : text_eq prof.status (codes "active") ≡ true
    is_eligible :
        check_carrier_eligibility
          (some (env.queries c.id))
          prof.sender_id_policy
          prof.default_sender_id_value
          prof.rate_group_id
          sid
          client_rate
          (normalize msg.to)
        ≡ eligible effective
    carrier_told : out.carrier_id ≡ c.id
    sequence_told : out.failover_sequence ≡ c.n
    sender_told : out.dispatched_sender ≡ sender lib (env.rules c.id) effective
    destination_told : out.dispatched_destination ≡ destination lib (env.rules c.id) msg.to
    handed :
        Took u env message_id client_id client_rate sid msg c
          (sender lib (env.rules c.id) effective)
          (destination lib (env.rules c.id) msg.to)
          msg.body

  verdict-Sent :
      (c : FailoverCarrier) (prof : CarrierProfile) (o out : Outcome) (v : Verdict)
      → env.profiles c.id ≡ some prof
      → text_eq prof.status (codes "active") ≡ true
      → check_carrier_eligibility
          (some (env.queries c.id))
          prof.sender_id_policy
          prof.default_sender_id_value
          prof.rate_group_id
          sid
          client_rate
          (normalize msg.to)
        ≡ v
      → on_verdict u env message_id client_id client_rate sid msg c prof v o ≡ (out, true)
      → Sent c out
  unfolding send_with
  verdict-Sent c prof o out (eligible effective) known active e h =
      let from' = sender lib (env.rules c.id) effective in
      let to' = destination lib (env.rules c.id) msg.to in
      let plan =
        resolve_ton_npi env.possible
          (record {
            source_addr_ton = prof.smpp_source_addr_ton;
            source_addr_npi = prof.smpp_source_addr_npi;
            dest_addr_ton = prof.smpp_dest_addr_ton;
            dest_addr_npi = prof.smpp_dest_addr_npi;
          })
          from' to' in
      let w =
        modes-Won u env message_id client_id client_rate sid msg
          (egress_attempts u prof.egress_transport) c (record msg { to = to'; from = from' }) prof
          plan (record o { dispatched_sender = from'; dispatched_destination = to' }) out h in
      record {
        prof = prof;
        effective = effective;
        is_known = known;
        is_active = active;
        is_eligible = e;
        carrier_told = w.carrier_won;
        sequence_told = w.sequence_won;
        sender_told = w.sender_won;
        destination_told = w.destination_won;
        handed =
            modes-Took u env message_id client_id client_rate sid msg
              (egress_attempts u prof.egress_transport) c (record msg { to = to'; from = from' })
              prof plan (record o { dispatched_sender = from'; dispatched_destination = to' }) out
              h;
      }
  verdict-Sent c prof o out (skipped s reason) known active e h = not_won h
  verdict-Sent c prof o out query_failed known active e h = not_won h
  verdict-Sent c prof o out panicked known active e h = not_won h

  carrier-Sent :
      (c : FailoverCarrier) (o out : Outcome)
      → try_carrier u env message_id client_id client_rate sid msg c o ≡ (out, true)
      → Sent c out
  unfolding try_carrier
  carrier-Sent c o out = elim (Option-cases (env.profiles c.id)) [
    | inl e ↦ rw (e, try_carrier) (λ h. not_won h)
    | inr (prof, e) ↦ elim (Bool-cases (text_eq prof.status (codes "active"))) [
      | inl a ↦ rw (e, a, try_carrier) (λ h. verdict-Sent c prof o out _ e a refl h)
      | inr a ↦ rw (e, a, try_carrier) (λ h. not_won h)
    ]
  ]

  -- Which of the carriers it was, after all those before it had been tried in vain.
  pub record FirstTaker (cs : List FailoverCarrier) (before out : Outcome) : Type 0 where
    tried : List FailoverCarrier
    taker : FailoverCarrier
    left : List FailoverCarrier
    midway : Outcome
    split : cs ≡ tried ++ taker ∷ left
    tried_in_vain :
        try_carriers u env message_id client_id client_rate sid msg tried before ≡ (midway, false)
    took : try_carrier u env message_id client_id client_rate sid msg taker midway ≡ (out, true)
    sent : Sent taker out

  later_taker :
      (c : FailoverCarrier) (cs : List FailoverCarrier) (before o out : Outcome)
      → try_carrier u env message_id client_id client_rate sid msg c before ≡ (o, false)
      → FirstTaker cs o out
      → FirstTaker (c ∷ cs) before out
  unfolding try_carriers
  later_taker c cs before o out e w = record {
    tried = c ∷ w.tried;
    taker = w.taker;
    left = w.left;
    midway = w.midway;
    split = ap (λ l. c ∷ l) w.split;
    tried_in_vain =
        ap
          (λ r.
            continue u env message_id client_id client_rate sid msg r
              (λ o'. try_carriers u env message_id client_id client_rate sid msg w.tried o'))
          e
        ∙ w.tried_in_vain;
    took = w.took;
    sent = w.sent;
  }

  continue_taker :
      (c : FailoverCarrier) (cs : List FailoverCarrier) (before out : Outcome) (r : Outcome × Bool)
      → try_carrier u env message_id client_id client_rate sid msg c before ≡ r
      → ((o : Outcome)
          → try_carriers u env message_id client_id client_rate sid msg cs o ≡ (out, true)
          → FirstTaker cs o out)
      → continue u env message_id client_id client_rate sid msg r
          (λ o. try_carriers u env message_id client_id client_rate sid msg cs o)
        ≡ (out, true)
      → FirstTaker (c ∷ cs) before out
  unfolding try_carriers
  continue_taker c cs before out (o, true) e ih h = record {
    tried = [];
    taker = c;
    left = cs;
    midway = before;
    split = refl;
    tried_in_vain = refl;
    took = e ∙ h;
    sent = carrier-Sent c before out (e ∙ h);
  }
  continue_taker c cs before out (o, false) e ih h = later_taker c cs before o out e (ih o h)

  -- When the loop over the carriers ends with a message taken, the list splits into carriers that were
  -- tried in vain, the one that took it, and the rest, which were not tried. The taker has an active
  -- profile and was found eligible with a sender. It answered, with an SMPP status of 0 or an HTTP code
  -- from 200 to 299, a request with the body of the message and, as its numbers, the taker's own rules
  -- applied to that sender and to the destination of the message; the outcome names the taker, its
  -- place and these numbers.
  pub try_carriers-FirstTaker :
      (cs : List FailoverCarrier) (before out : Outcome)
      → try_carriers u env message_id client_id client_rate sid msg cs before ≡ (out, true)
      → FirstTaker cs before out
  unfolding try_carriers
  try_carriers-FirstTaker [] before out h = not_won h
  try_carriers-FirstTaker (c ∷ cs) before out h =
      continue_taker c cs before out _ refl (λ o. try_carriers-FirstTaker cs o out) h
