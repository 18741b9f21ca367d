-- ===== src/Sending/Recovery.antt =====
-- minisms/internal/sending/sync_recover.go: at boot, the messages that an interrupted synchronous send
-- left in sending are refunded, one transaction each.
pub mod Balance
use mini_sms.Prelude.{
  ℕ, ◌+◌, ◌≡◌, refl, Bool, true, false, Option, none, some, List, [], ◌∷◌, All, if◌then◌else◌,
  Bool-cases, inl, inr, ap, sym, ◌∙◌, subst, arith,
}
use mini_sms.Result.{Result, ok, err, ◌>>=◌, demand, >>=-eq-ok}
use mini_sms.Text.{Text, codes, text_eq}
use mini_sms.Text.Laws.{text_eq_refl, text_eq_iff}
use mini_sms.Routing.Cache.{put}
use mini_sms.Sending.Store.{Db, SmsLog, DbError, unavailable, credit_client_balance}
use mini_sms.Sending.Store.Messages.{is_sending, find_log, update_log, mark_sms_undelivered}
use mini_sms.Sending.Store.Laws.{Balanced, BalancedAt, Reserved, Balanced-refund}
use mini_sms.Sending.Store.Money.{ok-injective, credit_client_balance-Credited}
use mini_sms.Sending.Reserve.{Stmt, begin, finish}

-- ListStuckSending
unfoldable pub list_stuck_sending : List SmsLog → List SmsLog
list_stuck_sending [] = []
list_stuck_sending (r ∷ logs) =
    let rest = list_stuck_sending logs in if is_sending r.status then r ∷ rest else rest

-- The transaction for one row.
unfoldable pub refund_stuck : (Stmt → Bool) → SmsLog → Db → Result DbError Db
unfolding mark_sms_undelivered credit_client_balance
refund_stuck link r db = do
  _ ← demand (link begin) unavailable
  paid ←
      credit_client_balance r.client_id r.total_charged (codes "recovery_refund")
        (mark_sms_undelivered r.message_id (codes "recovered after restart") db)
  _ ← demand (link finish) unavailable
  ok paid.1

abbrev pub or_same : Db → Result DbError Db → Db
or_same db (ok after) = after
or_same db (err e) = db

abbrev pub counted : Result DbError Db → ℕ
counted (ok after) = 1
counted (err e) = 0

-- The loop: the tables after it and the number of messages recovered. `link` is the connection that
-- each message's transaction has.
unfoldable pub recover_rows : (Text → Stmt → Bool) → List SmsLog → Db → Db × ℕ
unfolding refund_stuck
recover_rows link [] db = (db, 0)
recover_rows link (r ∷ rows) db =
    let result = refund_stuck (link r.message_id) r db in
    let (after, n) = recover_rows link rows (or_same db result) in (after, counted result + n)

-- RecoverStuckSyncSends; `listed` says whether the list could be read
unfoldable pub recover_stuck_sync_sends : (Text → Stmt → Bool) → Bool → Db → Db × ℕ
unfolding list_stuck_sending recover_rows
recover_stuck_sync_sends link listed db =
    if listed then recover_rows link (list_stuck_sending db.logs) db else (db, 0)
