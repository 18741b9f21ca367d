-- ===== src/Sending/Submit/Settlement.antt =====
-- minisms/internal/sending/submit.go: laws of the settlement of a message that was reserved.
use mini_sms.Prelude.{
  ℕ, ◌+◌, ◌≡◌, refl, Bool, true, ◌&&◌, Option, none, some, arith, if◌then◌else◌, Bool-cases, inl,
  inr, sym, subst,
}
use mini_sms.Result.{Result, ok, err, wrap, demand, >>=-eq-ok, wrap-eq-ok}
use mini_sms.Text.{Text, codes}
use mini_sms.Routing.Cache.{put}
use mini_sms.Sending.Transport.{Outcome}
use mini_sms.Sending.Store.{
  Db, DbError, unavailable, accepted, credit_client_balance, deduct_carrier_balance,
  increment_carrier_usage,
}
use mini_sms.Sending.Store.Messages.{mark_sms_accepted, mark_sms_failed, force_mark_accepted}
use mini_sms.Sending.Store.Laws.{
  Balanced, BalancedAt, Reserved, Reserved-held, charge_of-held, Balanced-keep, Balanced-refund,
}
use mini_sms.Sending.Store.Money.{
  ok-injective, credit_client_balance-Credited, deduct_carrier_balance-keeps,
}
use mini_sms.Sending.Submit.{
  bill_carrier, force_accepted, finalize_send_accepted, is_skipped, refund_failed,
  finalize_send_failed,
}
use mini_sms.Sending.Reserve.{Stmt, begin, deduct, finish, force}

module _ {opening : Text → ℕ} (link : Stmt → Bool) (id client : Text) (charge : ℕ) where
  pub force_accepted-Balanced :
      (win : Outcome) (db : Db)
      → Reserved id client charge db.logs
      → Balanced opening db
      → Balanced opening (force_accepted link id win db)
  unfolding force_accepted force_mark_accepted
  force_accepted-Balanced win db v bal = elim (Bool-cases (link force)) [
    | inl e ↦ rw e (
        Balanced-keep _ bal v
          (λ c. rw v.row_sending (charge_of-held c v.row accepted (Reserved-held v) refl)))
    | inr e ↦ rw e bal
  ]

  pub bill_carrier-Balanced :
      (cost segments : ℕ) (win : Outcome) (db after : Db)
      → Reserved id client charge db.logs
      → Balanced opening db
      → bill_carrier link id cost segments win db ≡ ok after
      → Balanced opening after
  unfolding bill_carrier mark_sms_accepted increment_carrier_usage
  bill_carrier-Balanced cost segments win db after v bal h =
      let (t, h1, e1) = >>=-eq-ok _ (demand (link begin && link deduct) unavailable) h in
      let (charged, h2, e2) = >>=-eq-ok _ (deduct_carrier_balance win.carrier_id cost id db) h1 in
      let (t', h3, e3) = >>=-eq-ok _ (demand (link finish) unavailable) h2 in
      let (clients, logs) = deduct_carrier_balance-keeps win.carrier_id cost id db charged e2 in
      let v' : Reserved id client charge charged.logs =
        subst (Reserved id client charge) (sym logs) v in
      let bal' : BalancedAt opening charged.clients charged.logs =
        subst (λ m. BalancedAt opening m charged.logs) (sym clients)
          (subst (λ l. BalancedAt opening db.clients l) (sym logs) bal) in
      subst (λ (d : Db). Balanced opening d) (ok-injective h3)
        (Balanced-keep _ bal' v' (λ c. charge_of-held c v'.row accepted (Reserved-held v') refl))

  refund_failed-Balanced :
      (win : Outcome) (db after : Db)
      → Reserved id client charge db.logs
      → Balanced opening db
      → refund_failed link true id client charge win db ≡ ok after
      → Balanced opening after
  unfolding refund_failed mark_sms_failed
  refund_failed-Balanced win db after v bal h =
      let (t, h1, e1) = >>=-eq-ok _ (demand (link begin) unavailable) h in
      let marked =
        mark_sms_failed id
          (if is_skipped win.skip_reasons win.last_code then none else win.last_code)
          (if is_skipped win.skip_reasons win.last_code
            then codes "all carriers skipped by policy"
            else win.last_body)
          db in
      let (paid, h2, e2) =
        >>=-eq-ok _
          (wrap (λ e. e)
            (credit_client_balance client charge (codes "carrier_failure_refund") marked))
          h1 in
      let (t', h3, e3) = >>=-eq-ok _ (demand (link finish) unavailable) h2 in
      let w =
        credit_client_balance-Credited client charge (codes "carrier_failure_refund") marked paid.0
          paid.1 (wrap-eq-ok _ _ e2) in
      let paid_back = Balanced-refund _ bal v w.was (λ c. ground arith) in
      subst (λ (d : Db). Balanced opening d) (ok-injective h3)
        (subst (λ m. BalancedAt opening m paid.1.logs) (sym w.clients_now)
          (subst (λ l. BalancedAt opening (put db.clients client (some (w.before + charge))) l)
            (sym w.logs_now) paid_back))

  -- Whatever fails in the billing of an accepted message, no client's money moves.
  pub finalize_send_accepted-Balanced :
      (cost : Option ℕ) (segments : ℕ) (win : Outcome) (db : Db)
      → Reserved id client charge db.logs
      → Balanced opening db
      → Balanced opening (finalize_send_accepted link id cost segments win db)
  unfolding finalize_send_accepted
  finalize_send_accepted-Balanced none segments win db v bal = force_accepted-Balanced win db v bal
  finalize_send_accepted-Balanced (some cost) segments win db v bal =
      by_result (bill_carrier link id cost segments win db) refl
    where
      by_result :
          (r : Result DbError Db)
          → bill_carrier link id cost segments win db ≡ r
          → Balanced opening (elim r [ ok billed ↦ billed | err e ↦ force_accepted link id win db ])
      by_result (ok billed) e = bill_carrier-Balanced cost segments win db billed v bal e
      by_result (err x) e = force_accepted-Balanced win db v bal

  -- The refund of a failed message is made together with its mark, or neither is.
  pub finalize_send_failed-Balanced :
      (win : Outcome) (db : Db)
      → Reserved id client charge db.logs
      → Balanced opening db
      → Balanced opening (finalize_send_failed link true id client charge win db).1
  unfolding finalize_send_failed
  finalize_send_failed-Balanced win db v bal =
      by_result (refund_failed link true id client charge win db) refl
    where
      by_result :
          (r : Result DbError Db)
          → refund_failed link true id client charge win db ≡ r
          → Balanced opening (elim r [ ok db' ↦ db' | err e ↦ db ])
      by_result (ok after) e = refund_failed-Balanced win db after v bal e
      by_result (err x) e = bal
