-- ===== src/Sending/Queue/Balance.antt =====
-- minisms/internal/sending/queue.go: the queue as a relation between states of the tables.
use mini_sms.Prelude.{
  ℕ, ◌+◌, ◌≡◌, refl, Bool, true, false, Option, some, arith, Bool-cases, inl, inr,
}
use mini_sms.Result.{Result, ok, err}
use mini_sms.Text.{Text, Unicode}
use mini_sms.Routing.Cache.{RouteEntry}
use mini_sms.Routing.Lookup.{RouteError, lookup_route_entry}
use mini_sms.Carrier.NumRules.{Lib}
use mini_sms.Carrier.Eligibility.{Resolution}
use mini_sms.Sending.Failover.{RouteRr}
use mini_sms.Sending.Transport.{AcceptedMessage, Env, Outcome}
use mini_sms.Sending.Store.{Db, queued}
use mini_sms.Sending.Store.Messages.{stamp_queued, reap_stuck_sending}
use mini_sms.Sending.Store.Laws.{Balanced}
use mini_sms.Sending.Reserve.{
  Client, Quote, Reads, Stmt, price, force, SubmitOutcome, new_log, quote, reserve,
}
use mini_sms.Sending.Submit.Laws.{reserve-Balanced}
use mini_sms.Sending.Queue.{
  QueuedSms, claim_queued_for_send, queue_reply, after_queue_quote, enqueue, after_dispatch,
  after_route, dispatch_one,
}
use mini_sms.Sending.Queue.Settlement.{
  Held, claim_queued_for_send-Balanced, reap_stuck_sending-Balanced, finalize_undelivered-Balanced,
  finalize_sent-Balanced, requeue_sms-Balanced,
}

module _ (u : Unicode) {lib : Lib} {Template Header : Type 0}
    (reads : Reads lib Template Header) where
  enqueue-Balanced :
      {opening : Text → ℕ} (link : Stmt → Bool) (id : Text) (client : Client)
      (msg : AcceptedMessage) (sid : Resolution) (db : Db)
      → Balanced opening db
      → Balanced opening (enqueue u reads link id client msg sid db).1
  unfolding enqueue stamp_queued
  enqueue-Balanced {opening = opening} link id client msg sid db bal =
      by_quote (quote reads (link price) client msg)
    where
      by_reply :
          (q : Quote) (r : Result SubmitOutcome (ℕ × Db))
          → reserve link
              (new_log queued id client msg sid.source q)
              (stamp_queued id reads.now reads.ttl)
              db
            ≡ r
          → Balanced opening (queue_reply u reads id q db r).1
      by_reply q (err outcome) e = bal
      by_reply q (ok (remaining, after)) e =
          reserve-Balanced link (new_log queued id client msg sid.source q)
            (λ r. record r {
              status = queued;
              next_attempt_at = some reads.now;
              expires_at = some (reads.now + reads.ttl);
            })
            db remaining after (λ c. refl) (λ c. ground arith) bal e

      by_quote :
          (r : Result SubmitOutcome Quote)
          → Balanced opening (after_queue_quote u reads link id client msg sid db r).1
      by_quote (err outcome) = bal
      by_quote (ok q) =
          by_reply q
            (reserve link (new_log queued id client msg sid.source q)
              (stamp_queued id reads.now reads.ttl) db)
            refl

module _ (u : Unicode) {lib : Lib} {Template Header : Type 0} (reads : Reads lib Template Header)
    (env : Text → Env lib) (ready : Text → Bool) (failover_on : Bool) where
  after_dispatch-Balanced :
      {opening : Text → ℕ} (link : Stmt → Bool) (base : ℕ) (q : QueuedSms) (win : Outcome)
      (won : Bool) (db : Db)
      → Held q db
      → Balanced opening db
      → Balanced opening (after_dispatch u reads link base q win won db).0
  after_dispatch-Balanced link base q win true db v bal =
      finalize_sent-Balanced link q db v bal _ _ win
  after_dispatch-Balanced link base q win false db v bal = elim (Bool-cases (link force)) [
    | inl e ↦ rw e (requeue_sms-Balanced link q db v bal _ _ _)
    | inr e ↦ rw e bal
  ]

  dispatch_one-Balanced :
      {opening : Text → ℕ} (link : Stmt → Bool) (base : ℕ) (rr : Option RouteRr) (q : QueuedSms)
      (db : Db)
      → Held q db
      → Balanced opening db
      → Balanced opening (dispatch_one u reads env ready failover_on link base rr q db).0.0
  unfolding dispatch_one
  dispatch_one-Balanced {opening = opening} link base rr q db v bal = elim (Bool-cases q.expired) [
    | inl e ↦ rw e (finalize_undelivered-Balanced link q db v bal _)
    | inr e ↦ rw e (
        by_route
          (lookup_route_entry lib Template Header reads.cache reads.table q.routing_group_id q.to))
  ]
    where
      by_route :
          (r : Result RouteError RouteEntry)
          → Balanced opening (after_route u reads env ready failover_on link base rr q db r).0.0
      by_route (err e) = finalize_undelivered-Balanced link q db v bal _
      by_route (ok route) = after_dispatch-Balanced link base q _ _ db v bal

module _ (u : Unicode) (lib : Lib) (Template Header : Type 0) where
  -- What one worker, the reaper or an accepted message does to the tables. Each step reads the clock,
  -- the routes and the settings, and asks the carriers, anew: a message that is tried again may get
  -- another answer. A worker settles a message whose row is still the one that it claimed.
  pub data Step (db : Db) : Db → Type 1 where
    enqueued :
        (reads : Reads lib Template Header) (link : Stmt → Bool) (id : Text) (client : Client)
        (msg : AcceptedMessage) (sid : Resolution)
        → Step db (enqueue u reads link id client msg sid db).1
    claimed :
        (now limit : ℕ) (locked : Text → Bool)
        → Step db (claim_queued_for_send now limit locked db).1
    dispatched :
        (reads : Reads lib Template Header) (env : Text → Env lib) (ready : Text → Bool)
        (failover_on : Bool) (link : Stmt → Bool) (base : ℕ) (rr : Option RouteRr) (q : QueuedSms)
        → Held q db
        → Step db (dispatch_one u reads env ready failover_on link base rr q db).0.0
    reaped : (now older_than : ℕ) → Step db (reap_stuck_sending now older_than db)

  -- Any number of them, in any order.
  pub data Steps (db : Db) : Db → Type 1 where
    none_yet : Steps db db
    and_then : {mid after : Db} → Steps db mid → Step mid after → Steps db after

  Step-Balanced :
      {opening : Text → ℕ} {db after : Db}
      → Step db after
      → Balanced opening db
      → Balanced opening after
  Step-Balanced (enqueued reads link id client msg sid) bal =
      enqueue-Balanced u reads link id client msg sid _ bal
  Step-Balanced (claimed now limit locked) bal =
      claim_queued_for_send-Balanced now limit locked _ bal
  Step-Balanced (dispatched reads env ready failover_on link base rr q v) bal =
      dispatch_one-Balanced u reads env ready failover_on link base rr q _ v bal
  Step-Balanced (reaped now older_than) bal = reap_stuck_sending-Balanced now older_than _ bal

  -- Along every run of the queue, in which each step has a clock, routes, failures of the database and
  -- answers of the carriers of its own, each client's balance and what its messages hold make up what
  -- it started with if they did at first, provided that a worker only settles rows that are still
  -- being sent.
  pub Steps-Balanced :
      {opening : Text → ℕ} {db after : Db}
      → Steps db after
      → Balanced opening db
      → Balanced opening after
  Steps-Balanced none_yet bal = bal
  Steps-Balanced (and_then steps step) bal = Step-Balanced step (Steps-Balanced steps bal)
