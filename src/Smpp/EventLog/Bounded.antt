-- ===== src/Smpp/EventLog/Bounded.antt =====
-- How much the hub holds.
use mini_sms.Prelude.{
  ℕ, ◌-◌, ◌≤◌, true, false, List, [], ◌∷◌, ◌++◌, map, length, length-append, arith, if◌then◌else◌,
  ◌==◌, All, All-append, Bool-cases, inl, inr,
}
use mini_sms.Text.{Text, text_eq, is_empty}
use mini_sms.Routing.Cache.{put}
use mini_sms.Smpp.EventLog.History.{length-drop, last_of-drop}
use mini_sms.Smpp.EventLog.{
  Hub, Viewer, Call, appends, subscribes, cancels, max_lines_per_carrier, subscriber_buffer,
  new_hub, last_of, flatten, offer, append, subscribe, without, cancel, after, run,
}

abbrev Slow : Viewer → Type 0
Slow v = length v.unread ≤ subscriber_buffer

abbrev pub Bounded : Hub → Type 0
Bounded h =
    (key : Text)
    → (length (h.history key) ≤ max_lines_per_carrier)
      × All (λ v. length v.unread ≤ subscriber_buffer) (h.subs key)

offer-Slow : (line : Text) (v : Viewer) → Slow v → Slow (offer line v)
offer-Slow line v h = ground (arith, length-append v.unread (line ∷ []))

offers-Slow : (line : Text) (vs : List Viewer) → All Slow vs → All Slow (map (offer line) vs)
offers-Slow line [] h = tt
offers-Slow line (v ∷ vs) h = (offer-Slow line v h.0, offers-Slow line vs h.1)

without-Slow : (i : ℕ) (vs : List Viewer) → All Slow vs → All Slow (without i vs)
unfolding without
without-Slow i [] h = tt
without-Slow i (v ∷ vs) h = elim (Bool-cases (v.id == i)) [
  | inl e ↦ rw e (without-Slow i vs h.1)
  | inr e ↦ rw e (h.0, without-Slow i vs h.1)
]

length-last_of : (n : ℕ) (xs : List Text) → length (last_of n xs) ≤ n
length-last_of n xs = rw (last_of-drop n xs) (omega (arith, length-drop (length xs - n) xs))

-- One key is written, and the others keep what they have.
put-keeps {ℓ} :
    {V : Type 0} (P : V → Type ℓ) (m : Text → V) (k : Text) (v : V) (key : Text)
    → P v
    → P (m key)
    → P (put m k v key)
unfolding put
put-keeps P m k v key h g = elim (text_eq k key) as (λ b. P (if b then v else m key)) [
  | true ↦ h
  | false ↦ g
]

append-Bounded : (h : Hub) (k line : Text) → Bounded h → Bounded (append h k line)
unfolding append
append-Bounded h k line v key = elim (Bool-cases (is_empty k)) [
  | inl e ↦ rw e (v key)
  | inr e ↦ rw e (
    put-keeps (λ (l : List Text). length l ≤ max_lines_per_carrier) h.history k
        (last_of max_lines_per_carrier (h.history k ++ (flatten line ∷ []))) key
        (length-last_of max_lines_per_carrier (h.history k ++ (flatten line ∷ []))) (v key).0,
    put-keeps (All Slow) h.subs k (map (offer (flatten line)) (h.subs k)) key
        (offers-Slow (flatten line) (h.subs k) (v k).1) (v key).1,
  )
]

after-Bounded : (h : Hub) (c : Call) → Bounded h → Bounded (after h c)
unfolding subscribe cancel
after-Bounded h (appends k line) v = append-Bounded h k line v
after-Bounded h (subscribes k) v = λ key. (
  (v key).0,
  put-keeps (All Slow) h.subs k (h.subs k ++ (record { id = h.next_id; unread = [] } ∷ [])) key
      (All-append Slow (h.subs k) (record { id = h.next_id; unread = [] } ∷ []) (v k).1
        (omega arith, tt))
      (v key).1,
)
after-Bounded h (cancels k i) v = λ key. (
  (v key).0,
  put-keeps (All Slow) h.subs k (without i (h.subs k)) key (without-Slow i (h.subs k) (v k).1)
      (v key).1,
)

run-Bounded : (cs : List Call) (h : Hub) → Bounded h → Bounded (run h cs)
run-Bounded [] h v = v
run-Bounded (c ∷ cs) h v = run-Bounded cs (after h c) (after-Bounded h c v)

-- After any appends, subscriptions and cancellations the hub holds at most 500 lines for each key,
-- and at most 256 unread ones for each viewer.
pub hub-Bounded : (cs : List Call) → Bounded (run new_hub cs)
unfolding new_hub
hub-Bounded cs = run-Bounded cs new_hub (λ key. (omega arith, tt))
