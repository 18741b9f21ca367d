-- ===== src/Sending/Store/Money.antt =====
-- deploy/minisms_db.sql below minisms: laws of the functions on balances.
use mini_sms.Prelude.{
  ℕ, ◌+◌, ◌-◌, ◌≡◌, refl, Bool, false, not, ◌||◌, none, some, [], ◌∷◌, ◌++◌, arith, ltb, ◌==◌,
  Bool-cases, Option-cases, inl, inr, ap, sym, ◌∙◌,
}
use mini_sms.Prelude.Int.{ℤ, pos, negsuc}
use mini_sms.Prelude.{suc}
use mini_sms.Result.{Result, ok, err}
use mini_sms.Text.{Text, is_empty}
use mini_sms.Routing.Cache.{put}
use mini_sms.Sending.Store.{
  minus, Db, SmsLog, fits, deduct_client_balance, credit_client_balance, deduct_carrier_balance,
}
use mini_sms.Sending.Store.Messages.{find_log, create_sms_log}

pub ok-injective : {X A : Type 0} {a b : A} → ◌≡◌ {A = Result X A} (ok a) (ok b) → a ≡ b
ok-injective {X} {A = A} {a} {b} h = ap (λ (r : Result X A). or_else r) h
  where
    or_else : Result X A → A
    or_else (ok x) = x
    or_else (err e) = a

-- What a successful debit did.
pub record Debited (client : Text) (amount : ℕ) (db : Db) (remaining : ℕ) (after : Db)
    : Type 0 where
  pub was : db.clients client ≡ some (amount + remaining)
  pub clients_now : after.clients ≡ put db.clients client (some remaining)
  pub logs_now : after.logs ≡ db.logs

pub deduct_client_balance-Debited :
    (client : Text) (amount : ℕ) (message : Text) (db : Db) (remaining : ℕ) (after : Db)
    → deduct_client_balance client amount message db ≡ ok (remaining, after)
    → Debited client amount db remaining after
unfolding deduct_client_balance
deduct_client_balance-Debited client amount message db remaining after =
    elim (Option-cases (db.clients client)) [
      | inl e ↦ rw (e, deduct_client_balance) (λ h. absurd (cc))
      | inr (before, e) ↦ elim (Bool-cases (ltb before amount)) [
        | inl l ↦ rw (e, l, deduct_client_balance) (λ h. absurd (cc))
        | inr l ↦ elim (Bool-cases (amount == 0)) [
          | inl z ↦ rw (e, l, z, deduct_client_balance) (λ h. absurd (cc))
          | inr z ↦
              rw (e, l, z, deduct_client_balance)
                (λ h.
                  let n : before - amount ≡ remaining = ap (λ (r : ℕ × Db). r.0) (ok-injective h) in
                  let fits : amount + remaining ≡ before = ground arith in
                  record {
                    was = e ∙ ap some (sym fits);
                    clients_now =
                        sym (ap (λ (r : ℕ × Db). r.1.clients) (ok-injective h))
                        ∙ ap (λ m. put db.clients client (some m)) n;
                    logs_now = sym (ap (λ (r : ℕ × Db). r.1.logs) (ok-injective h));
                  })
        ]
      ]
    ]

-- What a successful credit did.
pub record Credited (client : Text) (amount : ℕ) (db after : Db) : Type 0 where
  pub before : ℕ
  pub was : db.clients client ≡ some before
  pub clients_now : after.clients ≡ put db.clients client (some (before + amount))
  pub logs_now : after.logs ≡ db.logs

pub credit_client_balance-Credited :
    (client : Text) (amount : ℕ) (reference : Text) (db : Db) (n : ℕ) (after : Db)
    → credit_client_balance client amount reference db ≡ ok (n, after)
    → Credited client amount db after
unfolding credit_client_balance
credit_client_balance-Credited client amount reference db n after =
    elim (Option-cases (db.clients client)) [
      | inl e ↦ rw (e, credit_client_balance) (λ h. absurd (cc))
      | inr (before, e) ↦ elim (Bool-cases (not (fits (before + amount)) || amount == 0)) [
        | inl z ↦ rw (e, z, credit_client_balance) (λ h. absurd (cc))
        | inr z ↦
            rw (e, z, credit_client_balance)
              (λ h. record {
                before = before;
                was = e;
                clients_now = sym (ap (λ (r : ℕ × Db). r.1.clients) (ok-injective h));
                logs_now = sym (ap (λ (r : ℕ × Db). r.1.logs) (ok-injective h));
              })
      ]
    ]

-- A charge to a carrier touches neither the clients nor the messages.
pub deduct_carrier_balance-keeps :
    (carrier : Text) (amount : ℕ) (message : Text) (db after : Db)
    → deduct_carrier_balance carrier amount message db ≡ ok after
    → (after.clients ≡ db.clients) × (after.logs ≡ db.logs)
unfolding deduct_carrier_balance
deduct_carrier_balance-keeps carrier amount message db after =
    elim (Option-cases (db.carriers carrier)) [
      | inl e ↦ rw (e, deduct_carrier_balance) (λ h. absurd (cc))
      | inr (before, e) ↦ elim (Bool-cases (is_out amount before)) [
        | inl z ↦ rw (e, z, deduct_carrier_balance) (λ h. absurd (cc))
        | inr z ↦
            rw (e, z, deduct_carrier_balance)
              (λ h. (
                sym (ap (λ (d : Db). d.clients) (ok-injective h)),
                sym (ap (λ (d : Db). d.logs) (ok-injective h)),
              ))
      ]
    ]
  where
    is_out : ℕ → ℤ → Bool
    is_out a b = a == 0 || (elim (minus b a) [ pos n ↦ false | negsuc n ↦ not (fits (suc n)) ])

-- A row can be created for a client that is there, under an identifier that is not taken.
pub create_sms_log-created :
    (log : SmsLog) (db after : Db)
    → create_sms_log log db ≡ ok after
    → (find_log log.message_id db.logs ≡ none)
      × (after.clients ≡ db.clients)
      × (after.logs ≡ db.logs ++ log ∷ [])
unfolding create_sms_log
create_sms_log-created log db after = elim (Option-cases (db.clients log.client_id)) [
  | inl e ↦ rw (e, create_sms_log) (λ h. absurd (cc))
  | inr (b, e) ↦ elim (Option-cases (find_log log.message_id db.logs)) [
    | inr (r, f) ↦ rw (e, f, create_sms_log) (λ h. absurd (cc))
    | inl f ↦ elim (Bool-cases (is_empty log.message_body)) [
      | inl z ↦ rw (e, f, z, create_sms_log) (λ h. absurd (cc))
      | inr z ↦
          rw (e, f, z, create_sms_log)
            (λ h. (
              refl,
              sym (ap (λ (d : Db). d.clients) (ok-injective h)),
              sym (ap (λ (d : Db). d.logs) (ok-injective h)),
            ))
    ]
  ]
]
