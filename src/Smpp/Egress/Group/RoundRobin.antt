-- ===== src/Smpp/Egress/Group/RoundRobin.antt =====
-- Which session takes the next message.
use mini_sms.Prelude.{
  ℕ, zero, suc, ◌+◌, ◌-◌, ◌%◌, ◌^◌, ◌≤◌, ◌<◌, ◌≡◌, refl, sym, ap, ◌∙◌, subst, Bool, true, false,
  some, get_elem?, List, [], ◌∷◌, length, arith, leb, leb→le, lt→ltb, ◌==◌, Bool-cases, inl, inr,
  ◌⊎◌,
}
use native.Mathlib.Nat.{mod-eq_of_lt, mod-eq-sub-mod, mod-add-mod, mod-lt}
use mini_sms.Smpp.Egress.Group.{
  Pick, on_session, session_unavailable, is_ready, index_at, scan_sessions, pick_session,
}

index_small : (start i n : ℕ) → start + i < 2 ^ 63 → index_at start i n ≡ some ((start + i) % n)
unfolding index_at
index_small start i n h =
    let e : (start + i) % 2 ^ 64 ≡ start + i = mod-eq_of_lt (omega arith) in
    rw e (rw (lt→ltb (start + i) (2 ^ 63) h) refl)

-- No session before the k-th round from `i` on is ready.
abbrev pub NoneReady : List Bool → ℕ → ℕ → ℕ → Type 0
NoneReady sessions start i k =
    (m : ℕ) → i ≤ m → m < k → is_ready sessions ((start + m) % length sessions) ≡ false

-- The first ready session, going round from `start`.
abbrev pub First : List Bool → ℕ → ℕ → ℕ → Pick → Type 0
First sessions start i stop pick =
    ((pick ≡ session_unavailable) × NoneReady sessions start i stop)
    ⊎ ((k : ℕ) × (i ≤ k)
        × (k < stop)
        × (pick ≡ on_session ((start + k) % length sessions))
        × (is_ready sessions ((start + k) % length sessions) ≡ true)
        × NoneReady sessions start i k)

from_here :
    (sessions : List Bool) (start i k : ℕ)
    → is_ready sessions ((start + i) % length sessions) ≡ false
    → NoneReady sessions start (i + 1) k
    → NoneReady sessions start i k
from_here sessions start i k e f m a b = elim (Bool-cases (i == m)) [
  | inl g ↦
      subst (λ (x : ℕ). is_ready sessions ((start + x) % length sessions) ≡ false) (ground arith) e
  | inr g ↦ f m (ground arith) b
]

later :
    (sessions : List Bool) (start i stop : ℕ) (pick : Pick)
    → is_ready sessions ((start + i) % length sessions) ≡ false
    → First sessions start (i + 1) stop pick
    → First sessions start i stop pick
later sessions start i stop pick e (inl (h, f)) = inl (h, from_here sessions start i stop e f)
later sessions start i stop pick e (inr (k, a, b, c, d, f)) =
    inr (k, omega arith, b, c, d, from_here sessions start i k e f)

scan_sessions-First :
    (sessions : List Bool) (start left i : ℕ)
    → start + i + left < 2 ^ 63
    → First sessions start i (i + left) (scan_sessions sessions start left i)
unfolding scan_sessions
scan_sessions-First sessions start zero i h = inl (refl, λ m a b. absurd (omega arith))
scan_sessions-First sessions start (suc left) i h =
    rw (index_small start i (length sessions) (omega arith), scan_sessions)
      (elim (Bool-cases (is_ready sessions ((start + i) % length sessions))) [
        | inl e ↦ rw e (inr (i, omega arith, omega arith, refl, e, λ m a b. absurd (omega arith)))
        | inr e ↦ rw e (
            later sessions start i (i + suc left) (scan_sessions sessions start left (i + 1)) e (
              subst
                (λ (x : ℕ).
                  First sessions start (i + 1) x (scan_sessions sessions start left (i + 1)))
                (omega arith) (scan_sessions-First sessions start left (i + 1) (omega arith))))
      ])

-- Going round from anywhere comes by every session.
cover_small : (s n j : ℕ) → s < n → j < n → (m : ℕ) × (m < n) × ((s + m) % n ≡ j)
cover_small s n j a b = elim (Bool-cases (leb s j)) [
  | inl e ↦
      let h : s ≤ j = leb→le s j e in
      (j - s, omega arith, ap (λ (x : ℕ). x % n) (omega arith) ∙ mod-eq_of_lt b)
  | inr e ↦
      let h : j < s = ground arith in
      (
        j + n - s,
        omega arith,
        ap (λ (x : ℕ). x % n) (omega arith)
            ∙ (mod-eq-sub-mod {n = j + n} {m = n} (omega arith)
                ∙ (ap (λ (x : ℕ). x % n) (omega arith) ∙ mod-eq_of_lt b)),
      )
]

cover : (start n j : ℕ) → j < n → (m : ℕ) × (m < n) × ((start + m) % n ≡ j)
cover start n j b =
    let (m, a, e) = cover_small (start % n) n j (mod-lt start (omega arith)) b in
    (m, a, sym (mod-add-mod start n m) ∙ e)

ready-in : (sessions : List Bool) (j : ℕ) → is_ready sessions j ≡ true → j < length sessions
ready-in [] j h = absurd (cc)
ready-in (b ∷ sessions) zero h = omega arith
ready-in (b ∷ sessions) (suc j) h = omega (arith, ready-in sessions j h)

pick-First :
    (sessions : List Bool) (rr : ℕ)
    → rr + 1 + length sessions < 2 ^ 63
    → 0 < length sessions
    → ((pick_session sessions rr).1 ≡ rr + 1)
      × First sessions (rr + 1) 0 (length sessions) (pick_session sessions rr).0
unfolding pick_session
pick-First sessions rr h p =
    let e : (rr + 1) % 2 ^ 64 ≡ rr + 1 = mod-eq_of_lt (omega arith) in
    let f : (length sessions == 0) ≡ false = ground arith in
    rw (f, e)
      (
        refl,
        subst
            (λ (x : ℕ).
              First sessions (rr + 1) 0 x (scan_sessions sessions (rr + 1) (length sessions) 0))
            (omega arith) (scan_sessions-First sessions (rr + 1) (length sessions) 0 (omega arith)),
      )

-- A session is used: the first one that is ready, going round.
abbrev pub Uses : List Bool → ℕ → Pick → Type 0
Uses sessions start pick =
    (k : ℕ) × (k < length sessions)
    × (pick ≡ on_session ((start + k) % length sessions))
    × (is_ready sessions ((start + k) % length sessions) ≡ true)
    × NoneReady sessions start 0 k

First-Uses :
    (sessions : List Bool) (start j : ℕ) (pick : Pick)
    → is_ready sessions j ≡ true
    → First sessions start 0 (length sessions) pick
    → Uses sessions start pick
First-Uses sessions start j pick e (inl (h, f)) =
    let (m, a, g) = cover start (length sessions) j (ready-in sessions j e) in
    absurd (ground (arith, f m (omega arith) a, ap (is_ready sessions) g))
First-Uses sessions start j pick e (inr (k, a, b, c, d, f)) = (k, b, c, d, f)

-- While the counter is below the range of an int, a group with a ready session submits on one: on
-- the first that is ready, going round from the session after the counter.
pub pick-Uses :
    (sessions : List Bool) (rr j : ℕ)
    → rr + 1 + length sessions < 2 ^ 63
    → is_ready sessions j ≡ true
    → ((pick_session sessions rr).1 ≡ rr + 1) × Uses sessions (rr + 1) (pick_session sessions rr).0
pick-Uses sessions rr j h e =
    let v = pick-First sessions rr h (omega (arith, ready-in sessions j e)) in
    (v.0, First-Uses sessions (rr + 1) j (pick_session sessions rr).0 e v.1)

all_used :
    (sessions : List Bool) (start : ℕ) (pick : Pick)
    → ((i : ℕ) → i < length sessions → is_ready sessions i ≡ true)
    → Uses sessions start pick
    → pick ≡ on_session (start % length sessions)
all_used sessions start pick h (zero, a, b, c, d) =
    b ∙ ap (λ (x : ℕ). on_session (x % length sessions)) (omega arith)
all_used sessions start pick h (suc k, a, b, c, d) = absurd (
    ground (
      arith,
      d 0,
      h ((start + 0) % length sessions),
      mod-lt (start + 0) {m = length sessions} (omega arith),
    ))

-- The picks of as many messages in a row, each with the counter that the one before it left.
abbrev pub picks : List Bool → ℕ → ℕ → List Pick
picks sessions zero rr = []
picks sessions (suc n) rr =
    let (pick, rr') = pick_session sessions rr in pick ∷ picks sessions n rr'

picks-at :
    (sessions : List Bool) (n m rr : ℕ)
    → ((k : ℕ) → k < n → (pick_session sessions (rr + k)).1 ≡ rr + k + 1)
    → m < n
    → get_elem? (picks sessions n rr) m ≡ some (pick_session sessions (rr + m)).0
picks-at sessions zero m rr h b = absurd (omega arith)
picks-at sessions (suc n) zero rr h b =
    ap (λ (x : ℕ). some (pick_session sessions x).0) (omega arith)
picks-at sessions (suc n) (suc m) rr h b =
    let moved : (pick_session sessions rr).1 ≡ rr + 1 =
      ap (λ (x : ℕ). (pick_session sessions x).1) (omega arith) ∙ h 0 (omega arith) ∙ omega arith in
    ap (λ (x : ℕ). get_elem? (picks sessions n x) m) moved
    ∙ picks-at sessions n m (rr + 1)
        (λ k c.
          ap (λ (x : ℕ). (pick_session sessions x).1) (omega arith)
          ∙ h (k + 1) (omega arith)
          ∙ omega arith)
        (omega arith)
    ∙ ap (λ (x : ℕ). some (pick_session sessions x).0) (omega arith)

-- While all the sessions of a group are ready, and the counter is below the range of an int, each
-- of them takes one of as many messages in a row as there are sessions.
pub picks_fair :
    (sessions : List Bool) (rr j : ℕ)
    → rr + length sessions + length sessions < 2 ^ 63
    → ((i : ℕ) → i < length sessions → is_ready sessions i ≡ true)
    → j < length sessions
    → (i : ℕ) × (i < length sessions)
      × (get_elem? (picks sessions (length sessions) rr) i ≡ some (on_session j))
picks_fair sessions rr j h ready b =
    let (m, a, e) = cover (rr + 1) (length sessions) j b in
    let v = pick-Uses sessions (rr + m) j (omega arith) (ready j b) in
    (
      m,
      a,
      picks-at sessions (length sessions) m rr
            (λ k c. (pick-Uses sessions (rr + k) j (omega arith) (ready j b)).0) a
          ∙ ap some (
              all_used sessions (rr + m + 1) (pick_session sessions (rr + m)).0 ready v.1
              ∙ ap on_session (ap (λ (x : ℕ). x % length sessions) (omega arith) ∙ e)),
    )
