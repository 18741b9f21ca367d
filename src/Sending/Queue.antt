-- ===== src/Sending/Queue.antt =====
-- minisms/internal/sending/queue.go and db/sms_queue.go: the queue that sends later. Time and durations
-- are counted in nanoseconds.
pub mod Settlement
pub mod Balance
use mini_sms.Prelude.{
  ℕ, suc, ◌+◌, ◌*◌, ◌%◌, ◌^◌, Bool, true, false, not, ◌&&◌, ◌||◌, Option, none, some, List, [], ◌∷◌,
  take, map, any, ltb, leb, if◌then◌else◌,
}
use mini_sms.Result.{Result, ok, err, wrap, ◌>>=◌, demand}
use mini_sms.Text.{Text, Unicode, codes, text_eq}
use mini_sms.Billing.Segments.{segments_of}
use mini_sms.Carrier.NumRules.{Lib}
use mini_sms.Routing.Cache.{RouteEntry}
use mini_sms.Routing.Lookup.{RouteError, lookup_route_entry}
use mini_sms.Sending.Failover.{RouteRr}
use mini_sms.Sending.Dispatch.{dispatch_with_failover}
use mini_sms.Sending.Transport.{AcceptedMessage, Env, Outcome}
use mini_sms.Carrier.Eligibility.{Resolution}
use mini_sms.Sending.Store.{
  Db, SmsLog, DbError, unavailable, queued, sending, credit_client_balance,
}
use mini_sms.Sending.Store.Messages.{is_queued, stamp_queued, mark_sms_undelivered, requeue_sms}
use mini_sms.Sending.Submit.{bill_carrier, force_accepted, carrier_cost}
use mini_sms.Sending.Reserve.{
  Client, Quote, Reads, Stmt, price, begin, finish, force, SubmitOutcome, outcome_accepted, quote,
  new_log, reserve, text_of,
}

pub record QueuedSms : Type 0 where
  pub message_id : Text
  pub client_id : Text
  pub to : Text
  pub from : Text
  pub body : Text
  pub routing_group_id : Option Text
  pub rate_applied : ℕ
  pub total_charged : ℕ
  pub sender_id_source : Text
  pub attempts : ℕ
  pub expired : Bool

abbrev pub is_past : Option ℕ → ℕ → Bool
is_past none now = false
is_past (some t) now = leb t now

-- The columns that the claim returns.
abbrev pub queued_of : ℕ → SmsLog → QueuedSms
queued_of now r = record {
  message_id = r.message_id;
  client_id = r.client_id;
  to = r.to_number;
  from = text_of r.from_number;
  body = r.message_body;
  routing_group_id = r.routing_group_id;
  rate_applied = r.rate_applied;
  total_charged = r.total_charged;
  sender_id_source = r.sender_id_source;
  attempts = r.attempts;
  expired = is_past r.expires_at now;
}

abbrev pub is_due_at : Option ℕ → ℕ → Bool
is_due_at none now = true
is_due_at (some t) now = leb t now

abbrev pub is_due : ℕ → SmsLog → Bool
is_due now r = is_queued r.status && is_due_at r.next_attempt_at now

unfoldable pub due_rows : ℕ → (Text → Bool) → List SmsLog → List SmsLog
due_rows now locked [] = []
due_rows now locked (r ∷ logs) =
    let rest = due_rows now locked logs in
    if is_due now r && not (locked r.message_id) then r ∷ rest else rest

abbrev key : SmsLog → ℕ
key r = elim r.next_attempt_at [ none ↦ 0 | some t ↦ suc t ]

-- ORDER BY next_attempt_at NULLS FIRST, received_at; the table is in the order of received_at
unfoldable pub insert_row : SmsLog → List SmsLog → List SmsLog
insert_row r [] = r ∷ []
insert_row r (x ∷ logs) =
    let rest = insert_row r logs in if leb (key r) (key x) then r ∷ x ∷ logs else x ∷ rest

unfoldable pub order_rows : List SmsLog → List SmsLog
unfolding insert_row
order_rows [] = []
order_rows (r ∷ logs) = insert_row r (order_rows logs)

abbrev pub claim_row : ℕ → SmsLog → SmsLog
claim_row now r = record r { status = sending; claimed_at = some now; attempts = r.attempts + 1 }

-- The UPDATE of the chosen rows.
unfoldable pub claim_rows : ℕ → (Text → Bool) → List SmsLog → List SmsLog
claim_rows now chosen [] = []
claim_rows now chosen (r ∷ logs) =
    let rest = claim_rows now chosen logs in
    if is_due now r && chosen r.message_id then claim_row now r ∷ rest else r ∷ rest

abbrev pub is_among : List SmsLog → Text → Bool
is_among rows id = any (λ (r : SmsLog). text_eq r.message_id id) rows

-- ClaimQueuedForSend; `locked` are the rows that other transactions hold
unfoldable pub claim_queued_for_send : ℕ → ℕ → (Text → Bool) → Db → List QueuedSms × Db
unfolding due_rows order_rows claim_rows
claim_queued_for_send now limit locked db =
    let rows = take limit (order_rows (due_rows now locked db.logs)) in
    (
      map (λ r. queued_of now (claim_row now r)) rows,
      record db { logs = claim_rows now (is_among rows) db.logs },
    )

-- retryBackoff: the product wraps as an int64 does
unfoldable pub retry_backoff : ℕ → ℕ → ℕ
retry_backoff base attempts =
    let product = (base * attempts) % 2 ^ 64 in
    let d = if leb (2 ^ 63) product || ltb product base then base else product in
    if ltb 60000000000 d then 60000000000 else d

-- The transaction of finalizeUndelivered.
unfoldable pub refund_undelivered : (Stmt → Bool) → QueuedSms → Text → Db → Result DbError Db
unfolding mark_sms_undelivered credit_client_balance
refund_undelivered link q reason db = do
  _ ← demand (link begin) unavailable
  paid ←
      credit_client_balance q.client_id q.total_charged (codes "undelivered_refund")
        (mark_sms_undelivered q.message_id reason db)
  _ ← demand (link finish) unavailable
  ok paid.1

abbrev pub told : Db → Result DbError Db → Db × Bool
told db (ok after) = (after, true)
told db (err e) = (db, false)

-- finalizeUndelivered; true is the call of NotifyUndelivered
unfoldable pub finalize_undelivered : (Stmt → Bool) → QueuedSms → Text → Db → Db × Bool
unfolding refund_undelivered
finalize_undelivered link q reason db = told db (refund_undelivered link q reason db)

-- finalizeSent; `cost` is none if a price could not be computed, and then the transaction fails
abbrev pub bill_if : (Stmt → Bool) → Text → Option ℕ → ℕ → Outcome → Db → Result DbError Db
bill_if link id none segments win db = err unavailable
bill_if link id (some c) segments win db = bill_carrier link id c segments win db

unfoldable pub finalize_sent : (Stmt → Bool) → Text → Option ℕ → ℕ → Outcome → Db → Db
unfolding bill_carrier force_accepted
finalize_sent link id cost segments win db = elim (bill_if link id cost segments win db) [
  | ok billed ↦ billed
  | err e ↦ force_accepted link id win db
]

module _ (u : Unicode) {lib : Lib} {Template Header : Type 0}
    (reads : Reads lib Template Header) where
  abbrev pub queue_reply : Text → Quote → Db → Result SubmitOutcome (ℕ × Db) → SubmitOutcome × Db
  queue_reply id q db (err outcome) = (outcome, db)
  queue_reply id q db (ok (remaining, after)) = (
    outcome_accepted (record {
      message_id = id;
      segments = q.segments;
      charged = q.charge;
      balance_remaining = remaining;
      carrier = codes "queued";
      failover_sequence = 0;
    }),
    after,
  )

  abbrev pub after_queue_quote :
      (Stmt → Bool)
      → Text
      → Client
      → AcceptedMessage
      → Resolution
      → Db
      → Result SubmitOutcome Quote
      → SubmitOutcome × Db
  after_queue_quote link id client msg sid db (err outcome) = (outcome, db)
  after_queue_quote link id client msg sid db (ok q) = queue_reply id q db (
      reserve link (new_log queued id client msg sid.source q) (stamp_queued id reads.now reads.ttl)
        db)

  -- enqueue
  unfoldable pub enqueue :
      (Stmt → Bool) → Text → Client → AcceptedMessage → Resolution → Db → SubmitOutcome × Db
  unfolding quote reserve stamp_queued
  enqueue link id client msg sid db =
      after_queue_quote link id client msg sid db (quote reads (link price) client msg)

  -- What dispatchOne does once the carriers were tried.
  abbrev pub after_dispatch : (Stmt → Bool) → ℕ → QueuedSms → Outcome → Bool → Db → Db × Bool
  after_dispatch link base q win true db = (
    finalize_sent link q.message_id
        (if link price
          then carrier_cost reads.carrier_rows reads.rates win.carrier_id q.to q.rate_applied
              (segments_of q.body)
          else none)
        (segments_of q.body) win db,
    false,
  )
  after_dispatch link base q win false db = (
    if link force
        then requeue_sms q.message_id (reads.now + retry_backoff base q.attempts) win.last_code
            win.last_body db
        else db,
    false,
  )

  abbrev pub after_route :
      (Text → Env lib)
      → (Text → Bool)
      → Bool
      → (Stmt → Bool)
      → ℕ
      → Option RouteRr
      → QueuedSms
      → Db
      → Result RouteError RouteEntry
      → (Db × Bool) × Option RouteRr
  after_route env ready failover_on link base rr q db (err e) =
      (finalize_undelivered link q (codes "no matching route") db, rr)
  after_route env ready failover_on link base rr q db (ok route) =
      let (win, won, rr') =
        dispatch_with_failover u (env q.message_id) q.message_id q.client_id q.rate_applied
          (record { value = q.from; source = q.sender_id_source })
          (record { to = q.to; from = q.from; body = q.body }) ready failover_on rr route in
      (after_dispatch link base q win won db, rr')

  -- dispatchOne
  unfoldable pub dispatch_one :
      (Text → Env lib)
      → (Text → Bool)
      → Bool
      → (Stmt → Bool)
      → ℕ
      → Option RouteRr
      → QueuedSms
      → Db
      → (Db × Bool) × Option RouteRr
  unfolding finalize_undelivered finalize_sent dispatch_with_failover requeue_sms
  dispatch_one env ready failover_on link base rr q db =
      if q.expired
      then (finalize_undelivered link q (codes "message validity expired before delivery") db, rr)
      else after_route env ready failover_on link base rr q db
          (lookup_route_entry lib Template Header reads.cache reads.table q.routing_group_id q.to)
