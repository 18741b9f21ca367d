-- ===== src/Sending/Failover/Fairness.antt =====
-- minisms/internal/sending/failover.go: laws of the weighted round-robin of orderLoadbalance.
use native.Mathlib.Nat.{mod-eq_of_lt}
use mini_sms.Prelude.{
  ℕ, zero, suc, ◌+◌, ◌-◌, ◌%◌, ◌^◌, ◌<◌, ◌≡◌, refl, Bool, true, false, Option, none, some, List, [],
  ◌∷◌, arith, ltb, ◌==◌, if◌then◌else◌, ap, ap₂, ◌∙◌,
}
use mini_sms.Prelude.Int.{ℤ, pos, negsuc, pos_part, is_pos}
use mini_sms.Text.{Text}
use mini_sms.Text.Laws.{text_eq_refl}
use mini_sms.Sending.Failover.{WeightedCarrier, RouteRr, next, total_weight, find_pick, choose}

-- How many of the n numbers from `from` on pass a test.
count_from : (ℕ → Bool) → ℕ → ℕ → ℕ
count_from f from zero = 0
count_from f from (suc n) = (if f from then 1 else 0) + count_from f (from + 1) n

count_from-append :
    (f : ℕ → Bool) (from m n : ℕ)
    → count_from f from (m + n) ≡ count_from f from m + count_from f (from + m) n
unfolding count_from
count_from-append f from zero n =
    let e : 0 + n ≡ n = omega arith in
    let d : from + 0 ≡ from = omega arith in rw (e, d) (omega arith)
count_from-append f from (suc m) n =
    let e : suc m + n ≡ suc (m + n) = omega arith in
    let d : from + suc m ≡ from + 1 + m = omega arith in
    rw (e, d) (omega (arith, count_from-append f (from + 1) m n))

count_from-congr :
    (f g : ℕ → Bool) (from d n : ℕ)
    → ((j : ℕ) → j < n → f (from + j) ≡ g (d + j))
    → count_from f from n ≡ count_from g d n
unfolding count_from
count_from-congr f g from d zero h = refl
count_from-congr f g from d (suc n) h =
    let head : f from ≡ g d = ap f (omega arith) ∙ h 0 (omega arith) ∙ ap g (omega arith) in
    let rest : count_from f (from + 1) n ≡ count_from g (d + 1) n =
      count_from-congr f g (from + 1) (d + 1) n
        (λ j lt. ap f (omega arith) ∙ h (j + 1) (omega arith) ∙ ap g (omega arith)) in
    rw (head, rest)

count_one : (f : ℕ → Bool) (from : ℕ) → count_from f from 1 ≡ (if f from then 1 else 0)
unfolding count_from
count_one f from = omega arith

-- Any window as long as the period counts the same.
count_from-period :
    (f : ℕ → Bool) (period from : ℕ)
    → ((j : ℕ) → f (j + period) ≡ f j)
    → count_from f from period ≡ count_from f 0 period
count_from-period f period zero h = refl
count_from-period f period (suc from) h =
    let front : count_from f from (1 + period)
        ≡ (if f from then 1 else 0) + count_from f (suc from) period =
      count_from-append f from 1 period
      ∙ ap₂ (λ a b. a + count_from f b period) (count_one f from) (omega arith) in
    let back : count_from f from (1 + period)
        ≡ count_from f from period + (if f from then 1 else 0) =
      ap (count_from f from) (omega arith)
      ∙ count_from-append f from period 1
      ∙ ap (λ a. count_from f from period + a)
          (count_one f (from + period) ∙ ap (λ b. if b then 1 else 0) (h from)) in
    omega (arith, front, back, count_from-period f period from h)

pub hits : ℕ → Option ℕ → Bool
hits k none = false
hits k (some i) = i == k

-- The weight that the carrier at index k has, in a list whose indices begin at i.
pub weight_at : ℕ → ℕ → List WeightedCarrier → ℕ
weight_at k i [] = 0
weight_at k i (c ∷ cs) = (if i == k then pos_part c.w else 0) + weight_at k (i + 1) cs

find_pick-cons :
    (i p : ℕ) (c : WeightedCarrier) (cs : List WeightedCarrier)
    → find_pick i p (c ∷ cs)
      ≡ (if ltb p (pos_part c.w) then some i else find_pick (i + 1) (p - pos_part c.w) cs)
unfolding find_pick
find_pick-cons i p c cs = ground arith

find_pick_above :
    (k i p : ℕ) (cs : List WeightedCarrier) → k < i → hits k (find_pick i p cs) ≡ false
unfolding hits
find_pick_above k i p [] h = unfold find_pick in refl
find_pick_above k i p (c ∷ cs) h =
    rw find_pick-cons (ground (arith, find_pick_above k (i + 1) (p - pos_part c.w) cs))

weight_cons : (w : ℤ) → (if is_pos w then pos_part w else 0) ≡ pos_part w
weight_cons (pos zero) = refl
weight_cons (pos (suc n)) = refl
weight_cons (negsuc n) = refl

count_const :
    (b : Bool) (f : ℕ → Bool) (from n : ℕ)
    → ((j : ℕ) → j < n → f (from + j) ≡ b)
    → count_from f from n ≡ (if b then n else 0)
unfolding count_from
count_const true f from zero h = refl
count_const false f from zero h = refl
count_const b f from (suc n) h =
    let head : f from ≡ b = ap f (omega arith) ∙ h 0 (omega arith) in
    let rest : count_from f (from + 1) n ≡ (if b then n else 0) =
      count_const b f (from + 1) n (λ j lt. ap f (omega arith) ∙ h (j + 1) (omega arith)) in
    rw (head, rest) (by_value b)
  where
    by_value : (b : Bool) → (if b then 1 else 0) + (if b then n else 0) ≡ (if b then suc n else 0)
    by_value true = omega arith
    by_value false = refl

later_pick :
    (w j i : ℕ) (find : ℕ → List WeightedCarrier → Option ℕ) (k : ℕ) (cs : List WeightedCarrier)
    → hits k (if ltb (0 + w + j) w then some i else find (0 + w + j - w) cs)
      ≡ hits k (find (0 + j) cs)
later_pick w j i find k cs =
    let past : ltb (0 + w + j) w ≡ false = ground arith in
    let back : 0 + w + j - w ≡ 0 + j = omega arith in rw (past, back)

-- Of the positions below the total weight, each index is picked as often as its weight.
count_picks :
    (k i : ℕ) (cs : List WeightedCarrier)
    → count_from (λ p. hits k (find_pick i p cs)) 0 (total_weight cs) ≡ weight_at k i cs
count_picks k i [] = unfold total_weight weight_at count_from in refl
count_picks k i (c ∷ cs) =
    let w = pos_part c.w in
    let f : ℕ → Bool = λ p. hits k (find_pick i p (c ∷ cs)) in
    let size : total_weight (c ∷ cs) ≡ w + total_weight cs =
      unfold total_weight in rw (weight_cons c.w) in
    let first : count_from f 0 w ≡ (if i == k then w else 0) =
      count_const (i == k) f 0 w (λ j lt. rw find_pick-cons (unfold hits in ground arith)) in
    let second : count_from f (0 + w) (total_weight cs) ≡ weight_at k (i + 1) cs =
      count_from-congr f (λ p. hits k (find_pick (i + 1) p cs)) (0 + w) 0 (total_weight cs)
        (λ j lt. rw find_pick-cons (later_pick w j i (find_pick (i + 1)) k cs))
      ∙ count_picks k (i + 1) cs in
    rw size (
      count_from-append f 0 w (total_weight cs)
      ∙ ap₂ (λ a b. a + b) first second
      ∙ unfold weight_at in refl)

-- The picks of n messages in a row on one route.
pub pick_run : ℕ → Option RouteRr → Text → List WeightedCarrier → List (Option ℕ)
pick_run zero rr route cands = []
pick_run (suc n) rr route cands =
    let (pick, rr') = choose rr route cands in pick ∷ pick_run n rr' route cands

pub count_hits : ℕ → List (Option ℕ) → ℕ
count_hits k [] = 0
count_hits k (o ∷ os) = (if hits k o then 1 else 0) + count_hits k os

next_self :
    (rr : RouteRr) (route : Text) → rr route + 1 < 2 ^ 64 → (next rr route).1 route ≡ rr route + 1
unfolding next
next_self rr route room = rw (text_eq_refl route) (omega arith)

choose-some :
    (rr : RouteRr) (route : Text) (cands : List WeightedCarrier)
    → 0 < total_weight cands
    → rr route + 1 < 2 ^ 64
    → choose (some rr) route cands
      ≡ (find_pick 0 ((rr route + 1) % total_weight cands) cands, some (next rr route).1)
unfolding choose
choose-some rr route cands h room =
    let t : (total_weight cands == 0) ≡ false = ground arith in
    let v : (rr route + 1) % 2 ^ 64 ≡ rr route + 1 = omega arith in rw (t, v)

-- With no wrap of the counter, the run reads off the positions in a row.
pick_run-count :
    (k n : ℕ) (rr : RouteRr) (route : Text) (cands : List WeightedCarrier)
    → 0 < total_weight cands
    → rr route + n < 2 ^ 64
    → count_hits k (pick_run n (some rr) route cands)
      ≡ count_from (λ v. hits k (find_pick 0 (v % total_weight cands) cands)) (rr route + 1) n
unfolding pick_run count_hits count_from
pick_run-count k zero rr route cands h room = refl
pick_run-count k (suc n) rr route cands h room =
    let fits : rr route + 1 < 2 ^ 64 = omega arith in
    let self = next_self rr route fits in
    let f : ℕ → Bool = λ v. hits k (find_pick 0 (v % total_weight cands) cands) in
    rw (choose-some rr route cands h fits) (
      ap (λ a. (if f (rr route + 1) then 1 else 0) + a)
        (pick_run-count k n (next rr route).1 route cands h (omega (arith, self))
          ∙ ap (λ b. count_from f (b + 1) n) self))

-- Of as many load-balanced messages in a row on one route as the positive weights of its carriers sum
-- to, each carrier is the preferred one of exactly as many as its weight: wherever the route's counter
-- stands, as long as it does not reach 2^64 in between.
pub loadbalance_fair :
    (k : ℕ) (rr : RouteRr) (route : Text) (cands : List WeightedCarrier)
    → 0 < total_weight cands
    → rr route + total_weight cands < 2 ^ 64
    → count_hits k (pick_run (total_weight cands) (some rr) route cands) ≡ weight_at k 0 cands
loadbalance_fair k rr route cands h room =
    let t = total_weight cands in
    let f : ℕ → Bool = λ v. hits k (find_pick 0 (v % t) cands) in
    pick_run-count k t rr route cands h room
    ∙ count_from-period f t (rr route + 1)
        (λ j. ap (λ v. hits k (find_pick 0 v cands)) (grind arith))
    ∙ count_from-congr f (λ v. hits k (find_pick 0 v cands)) 0 0 t
        (λ j lt. ap (λ v. hits k (find_pick 0 v cands)) (mod-eq_of_lt (omega arith)))
    ∙ count_picks k 0 cands
