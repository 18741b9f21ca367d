-- ===== src/Sending/Recovery/Balance.antt =====
-- minisms/internal/sending/sync_recover.go: laws of the recovery at boot.
use mini_sms.Prelude.{
  ℕ, ◌+◌, ◌≡◌, refl, Bool, true, false, some, List, [], ◌∷◌, All, if◌then◌else◌, Bool-cases, inl,
  inr, ap, sym, ◌∙◌, subst, arith,
}
use mini_sms.Result.{Result, ok, err, demand, >>=-eq-ok}
use mini_sms.Text.{Text, codes, text_eq}
use mini_sms.Text.Laws.{text_eq_refl, text_eq_iff}
use mini_sms.Routing.Cache.{put}
use mini_sms.Sending.Store.{Db, SmsLog, DbError, unavailable, credit_client_balance}
use mini_sms.Sending.Store.Messages.{is_sending, find_log, update_log, mark_sms_undelivered}
use mini_sms.Sending.Store.Laws.{Balanced, BalancedAt, Reserved, Balanced-refund}
use mini_sms.Sending.Store.Money.{ok-injective, credit_client_balance-Credited}
use mini_sms.Sending.Reserve.{Stmt, begin, finish}
use mini_sms.Sending.Recovery.{
  list_stuck_sending, refund_stuck, or_same, recover_rows, recover_stuck_sync_sends,
}

-- message_id is the primary key.
abbrev pub Distinct : List SmsLog → Type 0
Distinct [] = Unit
Distinct (r ∷ logs) =
    All (λ (x : SmsLog). text_eq r.message_id x.message_id ≡ false) logs × Distinct logs

abbrev pub Stuck : List SmsLog → SmsLog → Type 0
Stuck logs r = Reserved r.message_id r.client_id r.total_charged logs

find_log-other :
    (id other : Text) (f : SmsLog → SmsLog) (logs : List SmsLog)
    → ((x : SmsLog) → (f x).message_id ≡ x.message_id)
    → text_eq id other ≡ false
    → find_log other (update_log id f logs) ≡ find_log other logs
unfolding find_log update_log
find_log-other id other f [] same d = refl
find_log-other id other f (x ∷ logs) same d = elim (Bool-cases (text_eq x.message_id id)) [
  | inl e ↦
      let here : text_eq x.message_id other ≡ false =
        ap (λ m. text_eq m other) ((text_eq_iff x.message_id id).0 e) ∙ d in
      let there : text_eq (f x).message_id other ≡ false =
        ap (λ m. text_eq m other) (same x) ∙ here in
      rw (e, there, here) refl
  | inr e ↦ rw e (
      ap (λ o. if text_eq x.message_id other then some x else o)
        (find_log-other id other f logs same d))
]

found_later :
    (r : SmsLog) (logs xs : List SmsLog)
    → All (λ (x : SmsLog). text_eq r.message_id x.message_id ≡ false) xs
    → All (λ (x : SmsLog). find_log x.message_id logs ≡ some x) xs
    → All (λ (x : SmsLog). find_log x.message_id (r ∷ logs) ≡ some x) xs
unfolding find_log
found_later r logs [] d h = tt
found_later r logs (x ∷ xs) d h = (rw d.0 h.0, found_later r logs xs d.1 h.1)

find_log-Distinct :
    (logs : List SmsLog)
    → Distinct logs
    → All (λ (x : SmsLog). find_log x.message_id logs ≡ some x) logs
unfolding find_log
find_log-Distinct [] d = tt
find_log-Distinct (r ∷ logs) d =
    (rw (text_eq_refl r.message_id) refl, found_later r logs logs d.0 (find_log-Distinct logs d.1))

list_stuck_sending-Stuck :
    (all xs : List SmsLog)
    → All (λ (x : SmsLog). find_log x.message_id all ≡ some x) xs
    → All (Stuck all) (list_stuck_sending xs)
unfolding list_stuck_sending
list_stuck_sending-Stuck all [] h = tt
list_stuck_sending-Stuck all (x ∷ xs) h = elim (Bool-cases (is_sending x.status)) [
  | inl e ↦ rw e (
    record { row = x; row_found = h.0; row_client = refl; row_charge = refl; row_sending = e },
    list_stuck_sending-Stuck all xs h.1,
  )
  | inr e ↦ rw e (list_stuck_sending-Stuck all xs h.1)
]

list_stuck_sending-All :
    (P : SmsLog → Type 0) (xs : List SmsLog) → All P xs → All P (list_stuck_sending xs)
unfolding list_stuck_sending
list_stuck_sending-All P [] h = tt
list_stuck_sending-All P (x ∷ xs) h = elim (Bool-cases (is_sending x.status)) [
  | inl e ↦ rw e (h.0, list_stuck_sending-All P xs h.1)
  | inr e ↦ rw e (list_stuck_sending-All P xs h.1)
]

list_stuck_sending-Distinct : (xs : List SmsLog) → Distinct xs → Distinct (list_stuck_sending xs)
unfolding list_stuck_sending
list_stuck_sending-Distinct [] d = tt
list_stuck_sending-Distinct (x ∷ xs) d = elim (Bool-cases (is_sending x.status)) [
  | inl e ↦ rw e (list_stuck_sending-All _ xs d.0, list_stuck_sending-Distinct xs d.1)
  | inr e ↦ rw e (list_stuck_sending-Distinct xs d.1)
]

-- A transaction on one message leaves the other interrupted messages as they are.
Stuck-other :
    (r y : SmsLog) (f : SmsLog → SmsLog) (logs : List SmsLog)
    → ((x : SmsLog) → (f x).message_id ≡ x.message_id)
    → text_eq r.message_id y.message_id ≡ false
    → Stuck logs y
    → Stuck (update_log r.message_id f logs) y
Stuck-other r y f logs same d v = record {
  row = v.row;
  row_found = find_log-other r.message_id y.message_id f logs same d ∙ v.row_found;
  row_client = v.row_client;
  row_charge = v.row_charge;
  row_sending = v.row_sending;
}

-- What a refund that was committed did, for the balances and for the messages that are left.
refund_stuck-Balanced :
    {opening : Text → ℕ} (link : Stmt → Bool) (r : SmsLog) (db after : Db)
    → Stuck db.logs r
    → Balanced opening db
    → refund_stuck link r db ≡ ok after
    → Balanced opening after
      × ((y : SmsLog)
          → text_eq r.message_id y.message_id ≡ false
          → Stuck db.logs y
          → Stuck after.logs y)
unfolding refund_stuck mark_sms_undelivered
refund_stuck-Balanced {opening = opening} link r db after v bal h =
    let (t, h1, e1) = >>=-eq-ok _ (demand (link begin) unavailable) h in
    let marked = mark_sms_undelivered r.message_id (codes "recovered after restart") db in
    let note = codes "recovery_refund" in
    let (paid, h2, e2) =
      >>=-eq-ok _ (credit_client_balance r.client_id r.total_charged note marked) h1 in
    let (t', h3, e3) = >>=-eq-ok _ (demand (link finish) unavailable) h2 in
    let w =
      credit_client_balance-Credited r.client_id r.total_charged note marked paid.0 paid.1 e2 in
    let paid_back = Balanced-refund _ bal v w.was (λ c. ground arith) in
    let logs : after.logs ≡ marked.logs =
      ap (λ (d : Db). d.logs) (sym (ok-injective h3)) ∙ w.logs_now in
    (
      subst (λ (d : Db). Balanced opening d) (ok-injective h3)
          (subst (λ m. BalancedAt opening m paid.1.logs) (sym w.clients_now)
            (subst
              (λ l.
                BalancedAt opening (put db.clients r.client_id (some (w.before + r.total_charged)))
                  l)
              (sym w.logs_now) paid_back)),
      λ y d s. subst (λ l. Stuck l y) (sym logs) (Stuck-other r y _ db.logs (λ x. refl) d s),
    )

Stuck-rest :
    (r : SmsLog) (old new rows : List SmsLog)
    → ((y : SmsLog) → text_eq r.message_id y.message_id ≡ false → Stuck old y → Stuck new y)
    → All (λ (x : SmsLog). text_eq r.message_id x.message_id ≡ false) rows
    → All (Stuck old) rows
    → All (Stuck new) rows
Stuck-rest r old new [] keep d h = tt
Stuck-rest r old new (x ∷ rows) keep d h = (keep x d.0 h.0, Stuck-rest r old new rows keep d.1 h.1)

recover_rows-Balanced :
    {opening : Text → ℕ} (link : Text → Stmt → Bool) (rows : List SmsLog) (db : Db)
    → Distinct rows
    → All (Stuck db.logs) rows
    → Balanced opening db
    → Balanced opening (recover_rows link rows db).0
unfolding recover_rows
recover_rows-Balanced link [] db d h bal = bal
recover_rows-Balanced {opening = opening} link (r ∷ rows) db d h bal =
    by_result (refund_stuck (link r.message_id) r db) refl
      (λ next hs b. recover_rows-Balanced link rows next d.1 hs b)
  where
    by_result :
        (result : Result DbError Db)
        → refund_stuck (link r.message_id) r db ≡ result
        → ((next : Db)
            → All (Stuck next.logs) rows
            → Balanced opening next
            → Balanced opening (recover_rows link rows next).0)
        → Balanced opening (recover_rows link rows (or_same db result)).0
    by_result (ok after) e go =
        let (kept, others) = refund_stuck-Balanced (link r.message_id) r db after h.0 bal e in
        go after (Stuck-rest r db.logs after.logs rows others d.0 h.1) kept
    by_result (err x) e go = go db h.1 bal

-- Whatever fails during the recovery at boot, and whichever messages were interrupted: if the
-- identifiers of the messages are distinct and each client's balance and what its messages hold made up
-- what it started with, they still do.
pub recover_stuck_sync_sends-Balanced :
    {opening : Text → ℕ} (link : Text → Stmt → Bool) (listed : Bool) (db : Db)
    → Distinct db.logs
    → Balanced opening db
    → Balanced opening (recover_stuck_sync_sends link listed db).0
unfolding recover_stuck_sync_sends
recover_stuck_sync_sends-Balanced link false db d bal = bal
recover_stuck_sync_sends-Balanced link true db d bal =
    recover_rows-Balanced link (list_stuck_sending db.logs) db
      (list_stuck_sending-Distinct db.logs d)
      (list_stuck_sending-Stuck db.logs db.logs (find_log-Distinct db.logs d)) bal
