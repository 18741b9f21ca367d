-- ===== src/Smpp/Throttle/Blocking.antt =====
-- When isBindBlocked shuts a key out.
use mini_sms.Prelude.{
  ℕ, ◌+◌, ◌-◌, ◌≤◌, ◌≡◌, ◌⊎◌, refl, sym, subst, ◌∙◌, Bool, true, false, Option, none, some, List,
  [], ◌∷◌, arith, if◌then◌else◌, ltb, Bool-cases, inl, inr, All, length, map,
}
use mini_sms.Text.{Text, text_eq}
use mini_sms.Text.Laws.{text_eq_refl, text_eq_sound}
use mini_sms.Routing.Cache.{put}
use mini_sms.Smpp.Throttle.{
  BindAttempt, Attempts, Call, checks, fails, clears, bind_window, bind_max_attempts, checked,
  bind_block_for, is_shut, is_stale, is_bind_blocked, current, marked, mark_bind_failure,
  clear_bind_failures, run, tally,
}

-- What is stored for a key with `n` failures behind it.
abbrev Counted : ℕ → Option BindAttempt → Type 0
Counted n none = Unit
Counted n (some a) = (a.count ≤ n) × ((a.blocked_til ≡ none) ⊎ (bind_max_attempts ≤ a.count))

Counted-if :
    (b : Bool) (n k : ℕ) (v w : Option BindAttempt)
    → (b ≡ true → Counted n v)
    → (b ≡ false → Counted k w)
    → Counted (if b then n else k) (if b then v else w)
Counted-if true n k v w f g = f refl
Counted-if false n k v w f g = g refl

marked-Counted :
    (n now : ℕ) (o : Option BindAttempt)
    → Counted n o
    → Counted (n + 1) (some (marked (current o now) now))
marked-Counted n now none h = ground arith
marked-Counted n now (some a) h = ground arith

mark-Counted :
    (key : Text) (n : ℕ) (m : Attempts) (k : Text) (now : ℕ)
    → Counted n (m key)
    → Counted (if text_eq k key then n + 1 else n) (mark_bind_failure m k now key)
unfolding mark_bind_failure put
mark-Counted key n m k now h =
    Counted-if (text_eq k key) (n + 1) n (some (marked (current (m k) now) now)) (m key)
      (λ e.
        marked-Counted n now (m k) (subst (λ j. Counted n (m j)) (sym (text_eq_sound k key e)) h))
      (λ _. h)

clear-Counted :
    (key : Text) (n : ℕ) (m : Attempts) (k : Text)
    → Counted n (m key)
    → Counted (if text_eq k key then 0 else n) (clear_bind_failures m k key)
unfolding clear_bind_failures put
clear-Counted key n m k h = Counted-if (text_eq k key) 0 n none (m key) (λ _. tt) (λ _. h)

drop-Counted :
    (key : Text) (n : ℕ) (m : Attempts) (k : Text)
    → Counted n (m key)
    → Counted n (put m k none key)
unfolding put
drop-Counted key n m k h = elim (text_eq k key) as (λ b. Counted n (if b then none else m key)) [
  | true ↦ tt
  | false ↦ h
]

checked-Counted :
    (key : Text) (n : ℕ) (m : Attempts) (k : Text) (now : ℕ) (o : Option BindAttempt)
    → Counted n (m key)
    → Counted n ((checked m k now o).1 key)
checked-Counted key n m k now none h = h
checked-Counted key n m k now (some a) h = elim (Bool-cases (is_shut a now)) [
  | inl e ↦ rw e h
  | inr e ↦ elim (Bool-cases (is_stale a now)) [
    | inl f ↦ rw (e, f) (drop-Counted key n m k h)
    | inr f ↦ rw (e, f) h
  ]
]

check-Counted :
    (key : Text) (n : ℕ) (m : Attempts) (k : Text) (now : ℕ)
    → Counted n (m key)
    → Counted n ((is_bind_blocked m k now).1 key)
unfolding is_bind_blocked
check-Counted key n m k now h = checked-Counted key n m k now (m k) h

run-Counted :
    (key : Text) (cs : List Call) (n : ℕ) (m : Attempts)
    → Counted n (m key)
    → Counted (tally key n cs) (run m cs key)
run-Counted key [] n m h = h
run-Counted key (checks k now ∷ cs) n m h =
    run-Counted key cs n (is_bind_blocked m k now).1 (check-Counted key n m k now h)
run-Counted key (fails k now ∷ cs) n m h =
    run-Counted key cs (if text_eq k key then n + 1 else n) (mark_bind_failure m k now)
      (mark-Counted key n m k now h)
run-Counted key (clears k ∷ cs) n m h =
    run-Counted key cs (if text_eq k key then 0 else n) (clear_bind_failures m k)
      (clear-Counted key n m k h)

checked-shut :
    (m : Attempts) (key : Text) (now n : ℕ) (o : Option BindAttempt)
    → Counted n o
    → (checked m key now o).0 ≡ true
    → bind_max_attempts ≤ n
checked-shut m key now n none h e = absurd (cc)
checked-shut m key now n (some a) h e = ground arith

blocked-Counted :
    (m : Attempts) (key : Text) (now n : ℕ)
    → Counted n (m key)
    → (is_bind_blocked m key now).0 ≡ true
    → bind_max_attempts ≤ n
unfolding is_bind_blocked
blocked-Counted m key now n h e = checked-shut m key now n (m key) h e

-- After any checks, failures and clears of any keys, a key that is blocked has failed five times
-- or more since it was last cleared.
pub blocked_needs_five :
    (cs : List Call) (key : Text) (now : ℕ)
    → (is_bind_blocked (run (λ k. none) cs) key now).0 ≡ true
    → bind_max_attempts ≤ tally key 0 cs
blocked_needs_five cs key now =
    blocked-Counted (run (λ k. none) cs) key now (tally key 0 cs)
      (run-Counted key cs 0 (λ k. none) tt)

put_self : (m : Attempts) (key : Text) (v : Option BindAttempt) → put m key v key ≡ v
unfolding put
put_self m key v = rw (text_eq_refl key) refl

-- The failures of one key, in order.
abbrev pub burst : Attempts → Text → List ℕ → Attempts
burst m key ts = run m (map (fails key) ts)

abbrev Reached : BindAttempt → ℕ → Option BindAttempt → Type 0
Reached a n o = (b : BindAttempt) × (o ≡ some b) × (b.first ≡ a.first) × (b.count ≡ a.count + n)

mark-key :
    (m : Attempts) (key : Text) (t : ℕ) (a : BindAttempt)
    → m key ≡ some a
    → is_stale a t ≡ false
    → mark_bind_failure m key t key ≡ some (marked a t)
unfolding mark_bind_failure
mark-key m key t a e f = put_self m key (some (marked (current (m key) t) t)) ∙ rw (e, f) refl

fresh-key :
    (m : Attempts) (key : Text) (t : ℕ)
    → m key ≡ none
    → mark_bind_failure m key t key
      ≡ some (marked (record { count = 0; first = t; blocked_til = none }) t)
unfolding mark_bind_failure
fresh-key m key t e = put_self m key (some (marked (current (m key) t) t)) ∙ rw e refl

burst-Reached :
    (m : Attempts) (key : Text) (ts : List ℕ) (a : BindAttempt)
    → m key ≡ some a
    → All (λ t. t - a.first ≤ bind_window) ts
    → Reached a (length ts) (burst m key ts key)
burst-Reached m key [] a e h = (a, e, refl, omega arith)
burst-Reached m key (t ∷ ts) a e (p, h) =
    let (b, x, y, z) =
      burst-Reached (mark_bind_failure m key t) key ts (marked a t)
        (mark-key m key t a e (ground arith)) h in
    (b, x, y, omega arith)

-- A key with no failures on record, and then at least four within ten minutes of the first and one
-- more within them, is blocked exactly until fifteen minutes after the last.
pub five_block :
    (m : Attempts) (key : Text) (t : ℕ) (ts : List ℕ) (u now : ℕ)
    → m key ≡ none
    → All (λ s. s - t ≤ bind_window) ts
    → u - t ≤ bind_window
    → 3 ≤ length ts
    → (is_bind_blocked (mark_bind_failure (burst m key (t ∷ ts)) key u) key now).0
      ≡ ltb now (u + bind_block_for)
unfolding is_bind_blocked
five_block m key t ts u now e h w l =
    let (b, x, y, z) =
      burst-Reached (mark_bind_failure m key t) key ts
        (marked (record { count = 0; first = t; blocked_til = none }) t) (fresh-key m key t e) h in
    rw (mark-key (burst m key (t ∷ ts)) key u b x (ground arith)) (ground arith)
