-- ===== src/Sending/Queue/Settlement.antt =====
-- minisms/internal/sending/queue.go: laws of the single statements of the queue.
use mini_sms.Prelude.{
  ℕ, ◌+◌, ◌≤◌, ◌<◌, ◌≡◌, refl, Bool, true, false, ◌&&◌, Option, none, some, List, [], ◌∷◌, arith,
  if◌then◌else◌, ap, ap₂, sym, ◌∙◌, subst, &&_true,
}
use mini_sms.Result.{Result, ok, err, demand, >>=-eq-ok}
use mini_sms.Text.{Text, codes}
use mini_sms.Routing.Cache.{put}
use mini_sms.Sending.Transport.{Outcome}
use mini_sms.Sending.Store.{
  Db, SmsLog, DbError, unavailable, Status, queued, sending, accepted, failed, undelivered,
  credit_client_balance,
}
use mini_sms.Sending.Store.Messages.{
  is_queued, mark_sms_undelivered, requeue_sms, reap_stuck_sending,
}
use mini_sms.Sending.Store.Laws.{
  is_held, charge_of, charge_of-held, held, held-reap_rows, Balanced, BalancedAt, Reserved,
  Reserved-held, Balanced-keep, Balanced-refund,
}
use mini_sms.Sending.Store.Money.{ok-injective, credit_client_balance-Credited}
use mini_sms.Sending.Submit.{force_accepted}
use mini_sms.Sending.Reserve.{Stmt, begin, finish}
use mini_sms.Sending.Submit.Settlement.{force_accepted-Balanced, bill_carrier-Balanced}
use mini_sms.Sending.Queue.{
  QueuedSms, is_due, claim_row, claim_rows, claim_queued_for_send, retry_backoff,
  refund_undelivered, told, finalize_undelivered, bill_if, finalize_sent,
}

-- The pause before a retry is never longer than a minute, however many attempts there were; it is not
-- shorter than the configured pause if that is at most a minute, and it is a minute if that is longer.
pub retry_backoff_bounds :
    (base attempts : ℕ)
    → (retry_backoff base attempts ≤ 60000000000)
      × (base ≤ 60000000000 → base ≤ retry_backoff base attempts)
      × (60000000000 < base → retry_backoff base attempts ≡ 60000000000)
unfolding retry_backoff
retry_backoff_bounds base attempts = (ground arith, λ h. ground arith, λ h. ground arith)

is_held-queued : (s : Status) → is_queued s ≡ true → is_held s ≡ true
is_held-queued queued h = refl
is_held-queued sending h = absurd (cc)
is_held-queued accepted h = absurd (cc)
is_held-queued failed h = absurd (cc)
is_held-queued undelivered h = absurd (cc)

held-claim_rows :
    (c : Text) (now : ℕ) (chosen : Text → Bool) (logs : List SmsLog)
    → held c (claim_rows now chosen logs) ≡ held c logs
unfolding held claim_rows
held-claim_rows c now chosen [] = refl
held-claim_rows c now chosen (r ∷ logs) =
    by_test (is_due now r && chosen r.message_id) refl (held-claim_rows c now chosen logs)
  where
    by_test :
        (t : Bool)
        → (is_due now r && chosen r.message_id) ≡ t
        → held c (claim_rows now chosen logs) ≡ held c logs
        → held c (
            if t
            then claim_row now r ∷ claim_rows now chosen logs
            else r ∷ claim_rows now chosen logs)
          ≡ charge_of c r + held c logs
    by_test true e rest =
        let due = (&&_true _ _ e).0 in
        let was = is_held-queued r.status (&&_true _ _ due).0 in
        ap₂ (λ a b. a + b) (charge_of-held c r sending was refl) rest
    by_test false e rest = ap (λ n. charge_of c r + n) rest

pub claim_queued_for_send-Balanced :
    {opening : Text → ℕ} (now limit : ℕ) (locked : Text → Bool) (db : Db)
    → Balanced opening db
    → Balanced opening (claim_queued_for_send now limit locked db).1
unfolding claim_queued_for_send
claim_queued_for_send-Balanced now limit locked db bal c b h =
    ap (λ n. b + n) (held-claim_rows c now _ db.logs) ∙ bal c b h

pub reap_stuck_sending-Balanced :
    {opening : Text → ℕ} (now older_than : ℕ) (db : Db)
    → Balanced opening db
    → Balanced opening (reap_stuck_sending now older_than db)
unfolding reap_stuck_sending
reap_stuck_sending-Balanced now older_than db bal c b h =
    ap (λ n. b + n) (held-reap_rows c now older_than db.logs) ∙ bal c b h

-- The row that a worker holds is the one that is being sent.
abbrev pub Held : QueuedSms → Db → Type 0
Held q db = Reserved q.message_id q.client_id q.total_charged db.logs

module _ {opening : Text → ℕ} (link : Stmt → Bool) (q : QueuedSms) (db : Db) (v : Held q db)
    (bal : Balanced opening db) where
  refund_undelivered-Balanced :
      (reason : Text) (after : Db)
      → refund_undelivered link q reason db ≡ ok after
      → Balanced opening after
  unfolding refund_undelivered mark_sms_undelivered
  refund_undelivered-Balanced reason after h =
      let (t, h1, e1) = >>=-eq-ok _ (demand (link begin) unavailable) h in
      let marked = mark_sms_undelivered q.message_id reason db in
      let note = codes "undelivered_refund" in
      let (paid, h2, e2) =
        >>=-eq-ok _ (credit_client_balance q.client_id q.total_charged note marked) h1 in
      let (t', h3, e3) = >>=-eq-ok _ (demand (link finish) unavailable) h2 in
      let w =
        credit_client_balance-Credited q.client_id q.total_charged note marked paid.0 paid.1 e2 in
      let paid_back = Balanced-refund _ bal v w.was (λ c. ground arith) in
      subst (λ (d : Db). Balanced opening d) (ok-injective h3)
        (subst (λ m. BalancedAt opening m paid.1.logs) (sym w.clients_now)
          (subst
            (λ l.
              BalancedAt opening (put db.clients q.client_id (some (w.before + q.total_charged))) l)
            (sym w.logs_now) paid_back))

  pub finalize_undelivered-Balanced :
      (reason : Text) → Balanced opening (finalize_undelivered link q reason db).0
  unfolding finalize_undelivered
  finalize_undelivered-Balanced reason = by_result (refund_undelivered link q reason db) refl
    where
      by_result :
          (r : Result DbError Db)
          → refund_undelivered link q reason db ≡ r
          → Balanced opening (told db r).0
      by_result (ok after) e = refund_undelivered-Balanced reason after e
      by_result (err x) e = bal

  pub finalize_sent-Balanced :
      (cost : Option ℕ) (segments : ℕ) (win : Outcome)
      → Balanced opening (finalize_sent link q.message_id cost segments win db)
  unfolding finalize_sent
  finalize_sent-Balanced cost segments win =
      by_result (bill_if link q.message_id cost segments win db) refl
    where
      billed-Balanced :
          (o : Option ℕ) (after : Db)
          → bill_if link q.message_id o segments win db ≡ ok after
          → Balanced opening after
      billed-Balanced none after h = absurd (cc)
      billed-Balanced (some c) after h =
          bill_carrier-Balanced link q.message_id q.client_id q.total_charged c segments win db
            after v bal h

      by_result :
          (r : Result DbError Db)
          → bill_if link q.message_id cost segments win db ≡ r
          → Balanced opening
              (elim r [ ok billed ↦ billed | err e ↦ force_accepted link q.message_id win db ])
      by_result (ok after) e = billed-Balanced cost after e
      by_result (err x) e =
          force_accepted-Balanced link q.message_id q.client_id q.total_charged win db v bal

  pub requeue_sms-Balanced :
      (next : ℕ) (code : Option ℕ) (body : Text)
      → Balanced opening (requeue_sms q.message_id next code body db)
  unfolding requeue_sms
  requeue_sms-Balanced next code body =
      Balanced-keep _ bal v
        (λ c. rw v.row_sending (charge_of-held c v.row queued (Reserved-held v) refl))
