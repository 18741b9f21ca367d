-- ===== src/Sending/Submit/Laws.antt =====
-- minisms/internal/sending/submit.go: laws of the reservation.
use mini_sms.Prelude.{
  ℕ, ◌+◌, ◌≡◌, refl, Bool, true, ◌&&◌, none, some, List, [], ◌∷◌, ◌++◌, arith, leb, Bool-cases, inl,
  inr, ap, sym, ◌∙◌, subst,
}
use mini_sms.Result.{ok, wrap, demand, >>=-eq-ok, wrap-eq-ok}
use mini_sms.Text.{Text, text_eq}
use mini_sms.Text.Laws.{text_eq_refl}
use mini_sms.Routing.Cache.{put}
use mini_sms.Sending.Store.{Db, SmsLog, deduct_client_balance}
use mini_sms.Sending.Store.Messages.{find_log, update_log, on_log, create_sms_log}
use mini_sms.Sending.Store.Laws.{
  charge_of, held, share, held-append, held-release, Balanced, BalancedAt, Balanced-take,
}
use mini_sms.Sending.Store.Money.{
  ok-injective, deduct_client_balance-Debited, create_sms_log-created,
}
use mini_sms.Sending.Reserve.{
  Stmt, begin, lock, create, stamp, deduct, finish, SubmitOutcome, outcome_temporary_unavailable,
  outcome_insufficient_balance, lock_balance, reserve,
}

pub find_log-append :
    (logs : List SmsLog) (log : SmsLog)
    → find_log log.message_id logs ≡ none
    → find_log log.message_id (logs ++ log ∷ []) ≡ some log
unfolding find_log
find_log-append [] log = rw (text_eq_refl log.message_id) (λ h. refl)
find_log-append (x ∷ logs) log = elim (Bool-cases (text_eq x.message_id log.message_id)) [
  | inl e ↦ rw e (λ h. absurd (cc))
  | inr e ↦ rw e (λ h. find_log-append logs log h)
]

pub find_log-update_log :
    (id : Text) (f : SmsLog → SmsLog) (logs : List SmsLog) (r : SmsLog)
    → ((x : SmsLog) → (f x).message_id ≡ x.message_id)
    → find_log id logs ≡ some r
    → find_log id (update_log id f logs) ≡ some (f r)
unfolding find_log update_log
find_log-update_log id f [] r same = λ h. absurd (cc)
find_log-update_log id f (x ∷ logs) r same = elim (Bool-cases (text_eq x.message_id id)) [
  | inl e ↦
      let t : text_eq (f x).message_id id ≡ true = ap (λ m. text_eq m id) (same x) ∙ e in
      rw (e, t) (λ h. let q : x ≡ r = cc in ap (λ y. some (f y)) q)
  | inr e ↦ rw (e, e) (λ h. find_log-update_log id f logs r same h)
]

-- What a reservation that succeeded did.
pub record Taken (log : SmsLog) (f : SmsLog → SmsLog) (db : Db) (remaining : ℕ) (after : Db)
    : Type 0 where
  pub free : find_log log.message_id db.logs ≡ none
  pub had : db.clients log.client_id ≡ some (log.total_charged + remaining)
  pub clients_after : after.clients ≡ put db.clients log.client_id (some remaining)
  pub logs_after : after.logs ≡ update_log log.message_id f (db.logs ++ log ∷ [])

pub reserve-Taken :
    (link : Stmt → Bool) (log : SmsLog) (f : SmsLog → SmsLog) (db : Db) (remaining : ℕ) (after : Db)
    → reserve link log (on_log log.message_id f) db ≡ ok (remaining, after)
    → Taken log f db remaining after
unfolding reserve
reserve-Taken link log f db remaining after h =
    let lacking : ℕ → SubmitOutcome = λ b. outcome_insufficient_balance b log.total_charged in
    let (t, h1, e1) =
      >>=-eq-ok _ (demand (link begin && link lock) outcome_temporary_unavailable) h in
    let (balance, h2, e2) =
      >>=-eq-ok _ (wrap (λ e. outcome_temporary_unavailable) (lock_balance log.client_id db)) h1 in
    let (t', h3, e3) = >>=-eq-ok _ (demand (leb log.total_charged balance) (lacking balance)) h2 in
    let (t'', h4, e4) = >>=-eq-ok _ (demand (link create) outcome_temporary_unavailable) h3 in
    let (created, h5, e5) =
      >>=-eq-ok _ (wrap (λ e. outcome_temporary_unavailable) (create_sms_log log db)) h4 in
    let (t3, h6, e6) = >>=-eq-ok _ (demand (link stamp) outcome_temporary_unavailable) h5 in
    let (t4, h7, e7) = >>=-eq-ok _ (demand (link deduct) (lacking balance)) h6 in
    let stamped = on_log log.message_id f created in
    let (paid, h8, e8) =
      >>=-eq-ok _
        (wrap (λ e. lacking balance)
          (deduct_client_balance log.client_id log.total_charged log.message_id stamped))
        h7 in
    let (t5, h9, e9) = >>=-eq-ok _ (demand (link finish) outcome_temporary_unavailable) h8 in
    let (free, clients, logs) = create_sms_log-created log db created (wrap-eq-ok _ _ e5) in
    let same : paid ≡ (remaining, after) = ok-injective h9 in
    let w =
      deduct_client_balance-Debited log.client_id log.total_charged log.message_id stamped remaining
        after (wrap-eq-ok _ _ e8 ∙ ap (λ (p : ℕ × Db). ok p) same) in
    record {
      free = free;
      had = ap (λ m. m log.client_id) (sym clients) ∙ w.was;
      clients_after = w.clients_now ∙ ap (λ m. put m log.client_id (some remaining)) clients;
      logs_after = w.logs_now ∙ ap (update_log log.message_id f) logs;
    }

-- A reservation with a stamp that keeps the charge keeps every balance with what is held of it.
pub reserve-Balanced :
    {opening : Text → ℕ} (link : Stmt → Bool) (log : SmsLog) (f : SmsLog → SmsLog) (db : Db)
    (remaining : ℕ) (after : Db)
    → ((c : Text) → charge_of c (f log) ≡ charge_of c log)
    → ((c : Text) → charge_of c log ≡ share c log.client_id log.total_charged)
    → Balanced opening db
    → reserve link log (on_log log.message_id f) db ≡ ok (remaining, after)
    → Balanced opening after
reserve-Balanced {opening = opening} link log f db remaining after same whole bal h =
    let w = reserve-Taken link log f db remaining after h in
    let found = find_log-append db.logs log w.free in
    let taken : (c : Text)
        → held c after.logs ≡ held c db.logs + share c log.client_id log.total_charged =
      λ c.
        let moved = held-release c log.message_id f (db.logs ++ log ∷ []) log found in
        let put_in = held-append c db.logs log in
        let s = same c in
        let v = whole c in
        let l = ap (held c) w.logs_after in omega (arith, moved, put_in, s, v, l) in
    subst (λ m. BalancedAt opening m after.logs) (sym w.clients_after)
      (Balanced-take db.logs after.logs log.client_id log.total_charged remaining bal w.had taken)
