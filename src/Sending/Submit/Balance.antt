-- ===== src/Sending/Submit/Balance.antt =====
-- minisms/internal/sending/submit.go: laws of Submit as a whole.
use mini_sms.Prelude.{ℕ, ◌+◌, ◌≡◌, refl, Bool, true, false, Option, some, arith, sym, subst}
use mini_sms.Result.{Result, ok, err}
use mini_sms.Text.{Text, Unicode}
use mini_sms.Carrier.NumRules.{Lib}
use mini_sms.Carrier.Eligibility.{Resolution}
use mini_sms.Sending.Failover.{RouteRr}
use mini_sms.Sending.Transport.{AcceptedMessage, Env, Outcome}
use mini_sms.Sending.Store.{Db, SmsLog, sending}
use mini_sms.Sending.Store.Messages.{stamp_sending}
use mini_sms.Sending.Store.Laws.{Balanced, Reserved}
use mini_sms.Sending.Submit.{after_reserve, after_quote, finish_send, submit}
use mini_sms.Sending.Reserve.{
  Client, Quote, Reads, Stmt, price, SubmitOutcome, new_log, reserve_send, quote,
}
use mini_sms.Sending.Submit.Laws.{
  find_log-append, find_log-update_log, reserve-Taken, reserve-Balanced,
}
use mini_sms.Sending.Submit.Settlement.{
  finalize_send_accepted-Balanced, finalize_send_failed-Balanced,
}

module _ (link : Stmt → Bool) (now ttl : ℕ) (id : Text) (client : Client) (msg : AcceptedMessage)
    (source : Text) (q : Quote) where
  abbrev log : SmsLog
  log = new_log sending id client msg source q

  abbrev stamped : SmsLog → SmsLog
  stamped r = record r { status = sending; claimed_at = some now; expires_at = some (now + ttl) }

  reserve_send-Balanced :
      {opening : Text → ℕ} (db : Db) (remaining : ℕ) (after : Db)
      → Balanced opening db
      → reserve_send link now ttl id client msg source q db ≡ ok (remaining, after)
      → Balanced opening after
  unfolding reserve_send stamp_sending
  reserve_send-Balanced db remaining after bal h =
      reserve-Balanced link log stamped db remaining after (λ c. refl) (λ c. ground arith) bal h

  reserve_send-Reserved :
      (db : Db) (remaining : ℕ) (after : Db)
      → reserve_send link now ttl id client msg source q db ≡ ok (remaining, after)
      → Reserved id client.client_id q.charge after.logs
  unfolding reserve_send stamp_sending
  reserve_send-Reserved db remaining after h =
      let w = reserve-Taken link log stamped db remaining after h in
      let found =
        find_log-update_log id stamped _ log (λ x. refl) (find_log-append db.logs log w.free) in
      subst (Reserved id client.client_id q.charge) (sym w.logs_after) (record {
        row = stamped log;
        row_found = found;
        row_client = refl;
        row_charge = refl;
        row_sending = refl;
      })

module _ (u : Unicode) {lib : Lib} {Template Header : Type 0}
    (reads : Reads lib Template Header) where
  finish_send-Balanced :
      {opening : Text → ℕ} (link : Stmt → Bool) (id : Text) (client : Client)
      (msg : AcceptedMessage) (q : Quote) (remaining : ℕ) (win : Outcome) (won : Bool) (db : Db)
      → Reserved id client.client_id q.charge db.logs
      → Balanced opening db
      → Balanced opening (finish_send u reads link true id client msg q remaining win won db).1
  finish_send-Balanced link id client msg q remaining win true db v bal =
      finalize_send_accepted-Balanced link id client.client_id q.charge _ q.segments win db v bal
  finish_send-Balanced link id client msg q remaining win false db v bal =
      finalize_send_failed-Balanced link id client.client_id q.charge win db v bal

  -- With refunds on, whatever the price, the route, the carriers and the failures of the database make of
  -- a synchronous send: if each client's balance and what its messages hold made up what it started with,
  -- they still do. A message holds its charge unless it failed or was not delivered.
  pub submit-Balanced :
      {opening : Text → ℕ} (env : Text → Env lib) (ready : Text → Bool) (failover_on : Bool)
      (first second : Stmt → Bool) (rr : Option RouteRr) (id : Text) (client : Client)
      (msg : AcceptedMessage) (sid : Resolution) (db : Db)
      → Balanced opening db
      → Balanced opening
          (submit u reads env ready failover_on true first second rr id client msg sid db).1
  unfolding submit
  submit-Balanced {opening = opening} env ready failover_on first second rr id client msg sid db
        bal =
      by_quote (quote reads (first price) client msg)
    where
      by_reserve :
          (q : Quote) (r : Result SubmitOutcome (ℕ × Db))
          → reserve_send first reads.now reads.ttl id client msg sid.source q db ≡ r
          → Balanced opening
              (after_reserve u reads env ready failover_on true first second rr id client msg sid db
                q r).1
      by_reserve q (err outcome) e = bal
      by_reserve q (ok (remaining, reserved)) e =
          finish_send-Balanced second id client msg q remaining _ _ reserved
            (reserve_send-Reserved first reads.now reads.ttl id client msg sid.source q db remaining
              reserved e)
            (reserve_send-Balanced first reads.now reads.ttl id client msg sid.source q db remaining
              reserved bal e)

      by_quote :
          (r : Result SubmitOutcome Quote)
          → Balanced opening
              (after_quote u reads env ready failover_on true first second rr id client msg sid db
                r).1
      by_quote (err outcome) = bal
      by_quote (ok q) =
          by_reserve q (reserve_send first reads.now reads.ttl id client msg sid.source q db) refl
