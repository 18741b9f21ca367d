-- ===== src/Sending/Store/Laws.antt =====
-- deploy/minisms_db.sql below minisms: the balance of a client and what its messages hold of it.
use mini_sms.Prelude.{
  ℕ, ◌+◌, ◌≡◌, refl, Bool, true, false, ◌&&◌, Option, none, some, List, [], ◌∷◌, ◌++◌, arith,
  if◌then◌else◌, Bool-cases, inl, inr, ap, ◌∙◌, subst, ap₂, &&_true,
}
use mini_sms.Text.{Text, text_eq}
use mini_sms.Text.Laws.{text_eq_iff}
use mini_sms.Routing.Cache.{put}
use mini_sms.Sending.Store.{Db, SmsLog, Status, queued, sending, accepted, failed, undelivered}
use mini_sms.Sending.Store.Messages.{is_sending, is_before, find_log, update_log, reap_rows}

-- Whether a message holds its charge; what failed or was not delivered has been paid back.
abbrev pub is_held : Status → Bool
is_held failed = false
is_held undelivered = false
is_held _ = true

abbrev pub charge_of : Text → SmsLog → ℕ
charge_of c r = if text_eq r.client_id c && is_held r.status then r.total_charged else 0

-- What the messages of a client hold together.
unfoldable pub held : Text → List SmsLog → ℕ
held c [] = 0
held c (r ∷ logs) = charge_of c r + held c logs

abbrev pub BalancedAt : (Text → ℕ) → (Text → Option ℕ) → List SmsLog → Type 0
BalancedAt opening clients logs =
    (c : Text) (b : ℕ) → clients c ≡ some b → b + held c logs ≡ opening c

-- Every client's balance and what its messages hold make up what it started with.
abbrev pub Balanced : (Text → ℕ) → Db → Type 0
Balanced opening db = BalancedAt opening db.clients db.logs

some-injective : {a b : ℕ} → some a ≡ some b → a ≡ b
some-injective h = cc

pub held-append :
    (c : Text) (logs : List SmsLog) (r : SmsLog)
    → held c (logs ++ r ∷ []) ≡ held c logs + charge_of c r
unfolding held
held-append c [] r = omega arith
held-append c (x ∷ logs) r = omega (arith, held-append c logs r)

-- An update that leaves each charge alone leaves what is held alone.
pub held-update_log :
    (c id : Text) (f : SmsLog → SmsLog) (logs : List SmsLog)
    → ((r : SmsLog) → charge_of c (f r) ≡ charge_of c r)
    → held c (update_log id f logs) ≡ held c logs
unfolding held update_log
held-update_log c id f [] same = refl
held-update_log c id f (r ∷ logs) same = elim (Bool-cases (text_eq r.message_id id)) [
  | inl e ↦ rw e (ap (λ n. n + held c logs) (same r))
  | inr e ↦ rw e (ap (λ n. charge_of c r + n) (held-update_log c id f logs same))
]

-- An update of the row that is found moves what is held by the difference.
pub held-release :
    (c id : Text) (f : SmsLog → SmsLog) (logs : List SmsLog) (r : SmsLog)
    → find_log id logs ≡ some r
    → held c (update_log id f logs) + charge_of c r ≡ held c logs + charge_of c (f r)
unfolding held update_log find_log
held-release c id f [] r = λ h. absurd (cc)
held-release c id f (x ∷ logs) r = elim (Bool-cases (text_eq x.message_id id)) [
  | inl e ↦ rw e (λ h.
      let q : x ≡ r = cc in
      let old : charge_of c x ≡ charge_of c r = ap (charge_of c) q in
      let new : charge_of c (f x) ≡ charge_of c (f r) = ap (λ y. charge_of c (f y)) q in
      omega (arith, old, new))
  | inr e ↦ rw e (λ h. let rest = held-release c id f logs r h in omega (arith, rest))
]

pub charge_of-held :
    (c : Text) (r : SmsLog) (s : Status)
    → is_held r.status ≡ true
    → is_held s ≡ true
    → charge_of c (record r { status = s }) ≡ charge_of c r
charge_of-held c r s h k = rw (h, k) refl

is_held-sending : (s : Status) → is_sending s ≡ true → is_held s ≡ true
is_held-sending queued h = refl
is_held-sending sending h = refl
is_held-sending accepted h = refl
is_held-sending failed h = absurd (cc)
is_held-sending undelivered h = absurd (cc)

pub held-reap_rows :
    (c : Text) (now older_than : ℕ) (logs : List SmsLog)
    → held c (reap_rows now older_than logs) ≡ held c logs
unfolding held reap_rows
held-reap_rows c now older_than [] = refl
held-reap_rows c now older_than (r ∷ logs) =
    ap₂ (λ a b. a + b) (by_test (is_sending r.status && is_before r.claimed_at older_than) refl)
      (held-reap_rows c now older_than logs)
  where
    by_test :
        (t : Bool)
        → (is_sending r.status && is_before r.claimed_at older_than) ≡ t
        → charge_of c (
            if t
            then record r { status = queued; next_attempt_at = some now; claimed_at = none }
            else r)
          ≡ charge_of c r
    by_test true e = charge_of-held c r queued (is_held-sending r.status (&&_true _ _ e).0) refl
    by_test false e = refl

-- The row of a message that is being sent, with the client and the charge that it was taken with.
pub record Reserved (id client : Text) (charge : ℕ) (logs : List SmsLog) : Type 0 where
  pub row : SmsLog
  pub row_found : find_log id logs ≡ some row
  pub row_client : row.client_id ≡ client
  pub row_charge : row.total_charged ≡ charge
  pub row_sending : is_sending row.status ≡ true

pub Reserved-held :
    {id client : Text} {charge : ℕ} {logs : List SmsLog} (v : Reserved id client charge logs)
    → is_held v.row.status ≡ true
Reserved-held v = is_held-sending v.row.status v.row_sending

-- What a client's share of a charge is.
abbrev pub share : Text → Text → ℕ → ℕ
share c client charge = if text_eq client c then charge else 0

pub Reserved-charge :
    {id client : Text} {charge : ℕ} {logs : List SmsLog} (c : Text)
    (v : Reserved id client charge logs)
    → charge_of c v.row ≡ share c client charge
Reserved-charge c v =
    rw (v.row_client, v.row_charge, is_held-sending v.row.status v.row_sending) (ground arith)

-- A message that goes from sending to another state that holds its charge changes nothing.
pub Balanced-keep :
    {opening : Text → ℕ} {clients : Text → Option ℕ} {logs : List SmsLog} {id client : Text}
    {charge : ℕ} (f : SmsLog → SmsLog)
    → BalancedAt opening clients logs
    → (v : Reserved id client charge logs)
    → ((c : Text) → charge_of c (f v.row) ≡ charge_of c v.row)
    → BalancedAt opening clients (update_log id f logs)
Balanced-keep f bal v same c b h =
    let moved = held-release c _ f _ v.row v.row_found in
    let kept = same c in let total = bal c b h in omega (arith, moved, kept, total)

-- A charge that is paid back with the release of its message keeps every balance.
pub Balanced-refund :
    {opening : Text → ℕ} {clients : Text → Option ℕ} {logs : List SmsLog} {id client : Text}
    {charge before : ℕ} (f : SmsLog → SmsLog)
    → BalancedAt opening clients logs
    → (v : Reserved id client charge logs) → clients client ≡ some before
    → ((c : Text) → charge_of c (f v.row) ≡ 0)
    → BalancedAt opening (put clients client (some (before + charge))) (update_log id f logs)
unfolding put
Balanced-refund {opening = opening} {clients} {logs} {id} {client} {charge} {before} f bal v known
      gone c b =
    elim (Bool-cases (text_eq client c)) [
      | inl e ↦
          let own : charge_of c v.row ≡ charge = Reserved-charge c v ∙ rw e refl in
          rw e (λ h.
            let q : before + charge ≡ b = some-injective h in
            let at : clients c ≡ some before =
              subst (λ k. clients k ≡ some before) ((text_eq_iff client c).0 e) known in
            let total = bal c before at in omega (arith, moved, zeroed, own, total, q))
      | inr e ↦
          let own : charge_of c v.row ≡ 0 = Reserved-charge c v ∙ rw e refl in
          rw e (λ h. let total = bal c b h in omega (arith, moved, zeroed, own, total))
    ]
  where
    moved : held c (update_log id f logs) + charge_of c v.row ≡ held c logs + charge_of c (f v.row)
    moved = held-release c id f logs v.row v.row_found

    zeroed : charge_of c (f v.row) ≡ 0
    zeroed = gone c

-- A charge that is taken with a new message that holds it keeps every balance.
pub Balanced-take :
    {opening : Text → ℕ} {clients : Text → Option ℕ} (logs after : List SmsLog) (client : Text)
    (charge remaining : ℕ)
    → BalancedAt opening clients logs
    → clients client ≡ some (charge + remaining)
    → ((c : Text) → held c after ≡ held c logs + share c client charge)
    → BalancedAt opening (put clients client (some remaining)) after
unfolding put
Balanced-take {opening = opening} {clients} logs after client charge remaining bal known taken c b =
    elim (Bool-cases (text_eq client c)) [
      | inl e ↦
          let own : share c client charge ≡ charge = rw e refl in
          rw e (λ h.
            let q : remaining ≡ b = some-injective h in
            let at : clients c ≡ some (charge + remaining) =
              subst (λ k. clients k ≡ some (charge + remaining)) ((text_eq_iff client c).0 e)
                known in
            let total = bal c (charge + remaining) at in
            let all = taken c in omega (arith, all, own, total, q))
      | inr e ↦
          let own : share c client charge ≡ 0 = rw e refl in
          rw e (λ h. let total = bal c b h in let all = taken c in omega (arith, all, own, total))
    ]
