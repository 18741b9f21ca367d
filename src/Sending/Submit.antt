-- ===== src/Sending/Submit.antt =====
-- minisms/internal/sending/submit.go: the synchronous send. A transaction that fails anywhere, be it
-- in a statement whose error is ignored, leaves the tables as they were.
pub mod Laws
pub mod Settlement
pub mod Balance
use mini_sms.Prelude.{
  ℕ, ◌+◌, Bool, true, false, not, ◌&&◌, Option, none, some, List, [], ◌∷◌, leb, if◌then◌else◌,
}
use mini_sms.Result.{Result, ok, err, wrap, ◌>>=◌, demand}
use mini_sms.Text.{Text, Unicode, codes, is_empty}
use mini_sms.Billing.Rate.{RateEntry, CarrierRow, found, failed, lookup_rate, lookup_carrier_cost}
use mini_sms.Billing.Segments.{segment_info}
use mini_sms.Carrier.NumRules.{Lib}
use mini_sms.Carrier.Eligibility.{Resolution}
use mini_sms.Routing.Cache
use mini_sms.Routing.Cache.{RouteEntry, RouteRow}
use mini_sms.Routing.Lookup.{lookup_route_entry}
use mini_sms.Sending.Failover.{RouteRr}
use mini_sms.Sending.Dispatch.{dispatch_with_failover}
use mini_sms.Sending.Transport.{AcceptedMessage, CarrierSkip, Env, Outcome}
use mini_sms.Sending.Store.{
  Db, SmsLog, DbError, unavailable, rejected, sending, Status, mul_numeric, deduct_client_balance,
  credit_client_balance, deduct_carrier_balance, increment_carrier_usage,
}
use mini_sms.Sending.Store.Messages.{
  Delivery, create_sms_log, stamp_sending, mark_sms_accepted, mark_sms_failed, force_mark_accepted,
  optional_string,
}
use mini_sms.Sending.Reserve.{
  AcceptedPayload, Client, Quote, Reads, Stmt, SubmitOutcome, begin, create, deduct, finish, force,
  lock, lock_balance, new_log, outcome_accepted, outcome_carrier_failure,
  outcome_insufficient_balance, outcome_no_eligible_carrier, outcome_no_rate, outcome_no_route,
  outcome_temporary_unavailable, price, quote, reserve, reserve_send, stamp, text_of,
}

abbrev pub delivery : Outcome → Delivery
delivery win = record {
  carrier_id = win.carrier_id;
  failover_sequence = win.failover_sequence;
  carrier_message_id = win.carrier_message_id;
  status_code = win.status_code;
  body = win.last_body_text;
  sender = win.dispatched_sender;
  destination = win.dispatched_destination;
}

-- The billing transaction of an accepted message.
unfoldable pub bill_carrier : (Stmt → Bool) → Text → ℕ → ℕ → Outcome → Db → Result DbError Db
unfolding deduct_carrier_balance increment_carrier_usage mark_sms_accepted
bill_carrier link id cost segments win db = do
  _ ← demand (link begin && link deduct) unavailable
  charged ← deduct_carrier_balance win.carrier_id cost id db
  _ ← demand (link finish) unavailable
  ok (
      mark_sms_accepted id (delivery win)
        (increment_carrier_usage win.carrier_id segments cost charged))

-- forceAccepted
unfoldable pub force_accepted : (Stmt → Bool) → Text → Outcome → Db → Db
unfolding force_mark_accepted
force_accepted link id win db = if link force then force_mark_accepted id (delivery win) db else db

-- The carrier's price of the whole message; none is an error.
unfoldable pub carrier_cost :
    (Text → CarrierRow) → (Text → Option (List RateEntry)) → Text → Text → ℕ → ℕ → Option ℕ
carrier_cost carrier_rows rates carrier to client_rate segments =
    elim (lookup_carrier_cost (carrier_rows carrier) rates to client_rate) [
      | none ↦ none
      | some per_sms ↦ mul_numeric per_sms segments
    ]

-- finalizeSendAccepted, the tables of it; `cost` is none if a price could not be computed
unfoldable pub finalize_send_accepted : (Stmt → Bool) → Text → Option ℕ → ℕ → Outcome → Db → Db
unfolding bill_carrier force_accepted
finalize_send_accepted link id none segments win db = force_accepted link id win db
finalize_send_accepted link id (some cost) segments win db =
    elim (bill_carrier link id cost segments win db) [
      | ok billed ↦ billed
      | err e ↦ force_accepted link id win db
    ]

abbrev pub is_skipped : List CarrierSkip → Option ℕ → Bool
is_skipped (x ∷ skips) none = true
is_skipped _ _ = false

-- The transaction of finalizeSendFailed.
unfoldable pub refund_failed :
    (Stmt → Bool) → Bool → Text → Text → ℕ → Outcome → Db → Result DbError Db
unfolding mark_sms_failed credit_client_balance
refund_failed link refund id client charge win db = do
  _ ← demand (link begin) unavailable
  let marked =
      mark_sms_failed id (if is_skipped win.skip_reasons win.last_code then none else win.last_code)
        (if is_skipped win.skip_reasons win.last_code
          then codes "all carriers skipped by policy"
          else win.last_body)
        db
  paid ←
      if refund
      then wrap (λ e. e)
          (credit_client_balance client charge (codes "carrier_failure_refund") marked)
      else ok (0, marked)
  _ ← demand (link finish) unavailable
  ok paid.1

-- finalizeSendFailed
unfoldable pub finalize_send_failed :
    (Stmt → Bool) → Bool → Text → Text → ℕ → Outcome → Db → SubmitOutcome × Db
unfolding refund_failed
finalize_send_failed link refund id client charge win db = (
  if is_skipped win.skip_reasons win.last_code
      then outcome_no_eligible_carrier
      else outcome_carrier_failure id,
  elim (refund_failed link refund id client charge win db) [ ok db' ↦ db' | err e ↦ db ],
)

module _ (u : Unicode) {lib : Lib} {Template Header : Type 0}
    (reads : Reads lib Template Header) where
  abbrev finish_send :
      (Stmt → Bool)
      → Bool
      → Text
      → Client
      → AcceptedMessage
      → Quote
      → ℕ
      → Outcome
      → Bool
      → Db
      → SubmitOutcome × Db
  finish_send link refund id client msg q remaining win true db = (
    outcome_accepted (record {
      message_id = id;
      segments = q.segments;
      charged = q.charge;
      balance_remaining = remaining;
      carrier = win.carrier_name;
      failover_sequence = win.failover_sequence;
    }),
    finalize_send_accepted link id
        (if link price
          then carrier_cost reads.carrier_rows reads.rates win.carrier_id msg.to q.rate.rate_per_sms
              q.segments
          else none)
        q.segments win db,
  )
  finish_send link refund id client msg q remaining win false db =
      finalize_send_failed link refund id client.client_id q.charge win db

module _ (u : Unicode) {lib : Lib} {Template Header : Type 0} (reads : Reads lib Template Header)
    (env : Text → Env lib) (ready : Text → Bool) (failover_on refund : Bool)
    (first second : Stmt → Bool) (rr : Option RouteRr) (id : Text) (client : Client)
    (msg : AcceptedMessage) (sid : Resolution) (db : Db) where
  -- After the reservation: dispatch with no transaction open, then settle.
  abbrev pub after_reserve :
      Quote → Result SubmitOutcome (ℕ × Db) → SubmitOutcome × Db × Option RouteRr
  after_reserve q (err outcome) = (outcome, db, rr)
  after_reserve q (ok (remaining, reserved)) =
      let (win, won, rr') =
        dispatch_with_failover u (env id) id client.client_id q.rate.rate_per_sms sid msg ready
          failover_on rr q.route in
      let (outcome, settled) =
        finish_send u reads second refund id client msg q remaining win won reserved in
      (outcome, settled, rr')

  abbrev pub after_quote : Result SubmitOutcome Quote → SubmitOutcome × Db × Option RouteRr
  after_quote (err outcome) = (outcome, db, rr)
  after_quote (ok q) =
      after_reserve q (reserve_send first reads.now reads.ttl id client msg sid.source q db)

  -- Submit with the queue off. `first` and `second` are the connections before and after the dispatch.
  unfoldable pub submit : SubmitOutcome × Db × Option RouteRr
  unfolding quote reserve_send dispatch_with_failover finalize_send_accepted finalize_send_failed
      carrier_cost
  submit = after_quote (quote reads (first price) client msg)
