-- ===== src/Sending/Dispatch.antt =====
-- minisms/internal/sending/dispatch.go: a message is offered to one carrier after the other.
-- Carrier transports, caches and queries are the fields of `Env`. Of a timeline event the kind and the
-- values of its metadata are kept, not the wording.
pub mod Attempts
pub mod Laws
use mini_sms.Prelude.{
  ℕ, ◌+◌, Bool, true, false, not, ◌&&◌, Option, none, some, List, [], ◌∷◌, ◌++◌, leb, ◌==◌,
  if◌then◌else◌,
}
use mini_sms.Prelude.Int.{ℤ}
use mini_sms.Text.{Text, Unicode, codes, text_eq, trim_space, is_empty}
use mini_sms.Matching.{normalize}
use mini_sms.Billing.Segments.{Encoding, segment_info}
use mini_sms.Carrier.NumRules.{Lib, Compiled, sender, destination}
use mini_sms.Carrier.TonNpi.{SmppParams, resolve_ton_npi}
use mini_sms.Carrier.Eligibility.{
  Queries, Resolution, SkipReason, Verdict, eligible, skipped, query_failed, panicked,
  check_carrier_eligibility,
}
use mini_sms.Routing.Cache.{CarrierProfile, RouteEntry}
use mini_sms.Sending.Failover.{FailoverCarrier, RouteRr, order_carriers, carrier_ready}
use mini_sms.Sending.Transport.{
  AcceptedMessage, Attempt, CarrierSkip, EgressTransport, Env, Event, HttpReply, HttpRequest,
  Outcome, SmppReply, SmppRequest, SubmitResult, accepted, attempt, egress_attempts, egress_http,
  egress_smpp, event, inactive, ineligible, note_result, nothing, read_http_reply, read_smpp_reply,
  replied, response, sending, smpp_http_status, submit_error, submitted, transport_error,
  with_error,
}

module _ (u : Unicode) {lib : Lib} (env : Env lib) (message_id client_id : Text) (client_rate : ℕ)
    (sid : Resolution) (msg : AcceptedMessage) where
  -- trySMPPDispatch
  unfoldable pub try_smpp_dispatch :
      FailoverCarrier → AcceptedMessage → SmppParams → Outcome → Attempt
  unfolding read_smpp_reply
  try_smpp_dispatch c m params out = elim env.egress [
    | none ↦ attempt (record out { last_body = codes "smpp egress not configured" }) false none
    | some submit ↦
        let info = segment_info m.body in
        read_smpp_reply
          (submit c.id (record {
            src = m.from;
            dst = m.to;
            body = m.body;
            params = params;
            encoding = info.encoding;
            segments = info.segments;
          }))
          out
  ]

  -- tryHTTPDispatch; the request's variables are filled in by `post`
  unfoldable pub try_http_dispatch :
      FailoverCarrier → AcceptedMessage → CarrierProfile → SmppParams → Outcome → Attempt
  unfolding read_http_reply
  try_http_dispatch c m prof params out =
      if is_empty (trim_space prof.endpoint_url)
      then attempt (record out { last_body = codes "carrier HTTP endpoint not configured" }) false
          none
      else if not (env.template_ready c.id)
      then attempt (record out { last_body = codes "carrier template missing" }) false none
      else if not (env.headers_ready c.id)
      then attempt (record out { last_body = codes "carrier auth headers unavailable" }) false none
      else read_http_reply
          (env.post (record {
            carrier_id = c.id;
            message_id = message_id;
            client_id = client_id;
            from = m.from;
            message = m;
            method = prof.http_method;
            endpoint_url = prof.endpoint_url;
            dlr_callback_url_template = prof.dlr_callback_url_template;
            params = params;
          }))
          out

  unfoldable pub try_mode :
      EgressTransport
      → FailoverCarrier
      → AcceptedMessage
      → CarrierProfile
      → SmppParams
      → Outcome
      → Attempt
  unfolding try_smpp_dispatch try_http_dispatch
  try_mode egress_smpp c m prof params out = try_smpp_dispatch c m params out
  try_mode egress_http c m prof params out = try_http_dispatch c m prof params out

  -- What the loop writes when a carrier accepts.
  abbrev pub won : FailoverCarrier → CarrierProfile → SmppParams → Outcome → Outcome
  won c prof params out = event (accepted c.id c.n out.carrier_message_id) (record out {
    carrier_id = c.id;
    carrier_name = prof.name;
    failover_sequence = c.n;
    params = some params;
  })

  -- recordCarrierResponseTimeline; an empty message id, or no transport, is no entry of the metadata
  abbrev pub response_of : FailoverCarrier → CarrierProfile → Bool → Outcome → Event
  response_of c prof ok out =
      response prof.name c.n ok out.last_code out.carrier_message_id out.egress

  abbrev after_attempt :
      FailoverCarrier
      → CarrierProfile
      → SmppParams
      → Attempt
      → (Outcome → Outcome × Bool)
      → Outcome × Bool
  after_attempt c prof params (attempt out true e) more =
      (won c prof params (event (response_of c prof true out) out), true)
  after_attempt c prof params (attempt out false e) more =
      more (with_error e (event (response_of c prof false out) out))

  -- The loop over the modes of one carrier; true is `return out, nil`.
  unfoldable pub try_modes :
      List EgressTransport
      → FailoverCarrier
      → AcceptedMessage
      → CarrierProfile
      → SmppParams
      → Outcome
      → Outcome × Bool
  unfolding try_mode
  try_modes [] c m prof params out = (out, false)
  try_modes (mode ∷ modes) c m prof params out =
      after_attempt c prof params
        (try_mode mode c m prof params (event (sending c.id c.n mode) out))
        (λ o. try_modes modes c m prof params o)

  -- The carrier's rules rewrite both numbers, and the plan follows the rewritten ones.
  unfoldable pub send_with : FailoverCarrier → CarrierProfile → Text → Outcome → Outcome × Bool
  unfolding try_modes egress_attempts
  send_with c prof effective out =
      let rules = env.rules c.id in
      let from' = sender lib rules effective in
      let to' = destination lib rules msg.to in
      let params =
        resolve_ton_npi env.possible
          (record {
            source_addr_ton = prof.smpp_source_addr_ton;
            source_addr_npi = prof.smpp_source_addr_npi;
            dest_addr_ton = prof.smpp_dest_addr_ton;
            dest_addr_npi = prof.smpp_dest_addr_npi;
          })
          from' to' in
      try_modes (egress_attempts u prof.egress_transport) c (record msg { to = to'; from = from' })
        prof params (record out { dispatched_sender = from'; dispatched_destination = to' })

  abbrev verdict_of : FailoverCarrier → CarrierProfile → Verdict
  verdict_of c prof =
      check_carrier_eligibility (some (env.queries c.id)) prof.sender_id_policy
        prof.default_sender_id_value prof.rate_group_id sid client_rate (normalize msg.to)

  abbrev on_verdict : FailoverCarrier → CarrierProfile → Verdict → Outcome → Outcome × Bool
  on_verdict c prof (eligible effective) out = send_with c prof effective out
  on_verdict c prof (skipped s reason) out = (
    event (ineligible c.id c.n reason) (record out {
      skip_reasons =
          out.skip_reasons
          ++ record { carrier_id = c.id; carrier_name = prof.name; reason = reason } ∷ [];
    }),
    false,
  )
  on_verdict c prof query_failed out = (with_error (some env.query_error) out, false)
  on_verdict c prof panicked out = (out, false)

  -- One round of the loop over the carriers. The pool is not nil, so no verdict is a panic.
  unfoldable pub try_carrier : FailoverCarrier → Outcome → Outcome × Bool
  unfolding send_with check_carrier_eligibility
  try_carrier c out = elim (env.profiles c.id) [
    | none ↦ (
      event (inactive c.id c.n)
          (record out { last_code = some 503; last_body = codes "carrier not found" }),
      false,
    )
    | some prof ↦
        if text_eq prof.status (codes "active")
        then on_verdict c prof (verdict_of c prof) out
        else (
          event (inactive c.id c.n)
              (record out { last_code = some 503; last_body = codes "carrier not found" }),
          false,
        )
  ]

  abbrev continue : Outcome × Bool → (Outcome → Outcome × Bool) → Outcome × Bool
  continue (out, true) more = (out, true)
  continue (out, false) more = more out

  unfoldable pub try_carriers : List FailoverCarrier → Outcome → Outcome × Bool
  unfolding try_carrier
  try_carriers [] out = (out, false)
  try_carriers (c ∷ cs) out = continue (try_carrier c out) (λ o. try_carriers cs o)

  -- dispatchWithFailover. `ready` is s.Egress.Ready, and the last part of the result the counters.
  unfoldable pub dispatch_with_failover :
      (Text → Bool) → Bool → Option RouteRr → RouteEntry → Outcome × Bool × Option RouteRr
  unfolding try_carriers order_carriers carrier_ready
  dispatch_with_failover ready failover_on rr route =
      let egress : Option (Text → Bool) = elim env.egress [
        | none ↦ none
        | some submit ↦ some ready
      ] in
      let (carriers, rr') =
        order_carriers u (carrier_ready u env.profiles egress) rr route failover_on in
      let (out, ok) = try_carriers carriers nothing in (out, ok, rr')
