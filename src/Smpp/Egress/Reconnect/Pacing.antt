-- ===== src/Smpp/Egress/Reconnect/Pacing.antt =====
-- How long a session waits before it binds again.
use mini_sms.Prelude.{
  ℕ, ◌*◌, ◌/◌, ◌≤◌, ◌<◌, List, [], ◌∷◌, arith, All, All-append, leb, ltb, if◌then◌else◌,
}
use mini_sms.Smpp.Egress.Reconnect.{
  Loop, Round, bind_rejected, bind_unreached, bind_held, min_reconnect, max_reconnect,
  max_cap_backoff, cap_reject_backoff, stable_reset_after, next_backoff, jitter, round_once,
  run_rounds,
}

-- The random numbers are below twice the span of what is slept, as rand.Int63n gives them.
abbrev pub InRange : Loop → Round → ℕ → Type 0
InRange l bind_rejected r =
    r < 2 * ((if ltb l.backoff cap_reject_backoff then cap_reject_backoff else l.backoff) / 4)
InRange l bind_unreached r = r < 2 * (l.backoff / 4)
InRange l (bind_held uptime) r =
    r
    < 2
      * ((if leb stable_reset_after uptime
            then min_reconnect
            else next_backoff l.backoff max_reconnect)
          / 4)

abbrev pub AllInRange : Loop → List (Round × ℕ) → Type 0
AllInRange l [] = Unit
AllInRange l ((x, r) ∷ rounds) = InRange l x r × AllInRange (round_once l x r) rounds

-- Every sleep is between three quarters of the least delay and five quarters of the longest.
abbrev pub IsPaced : ℕ → Type 0
IsPaced d = (min_reconnect * 3 ≤ d * 4) × (d * 4 ≤ max_cap_backoff * 5)

pub record Paced (l : Loop) : Type 0 where
  pub low : min_reconnect ≤ l.backoff
  pub high : l.backoff ≤ max_cap_backoff
  pub sleeps : All IsPaced l.slept

jitter-IsPaced :
    (d r : ℕ) → min_reconnect ≤ d → d ≤ max_cap_backoff → r < 2 * (d / 4) → IsPaced (jitter d r)
unfolding jitter
jitter-IsPaced d r l h k = ground arith

next_low : (b c : ℕ) → min_reconnect ≤ next_backoff b c
unfolding next_backoff
next_low b c = ground arith

next_high : (b c : ℕ) → min_reconnect ≤ c → next_backoff b c ≤ c
unfolding next_backoff
next_high b c h = ground arith

round-Paced : (l : Loop) (x : Round) (r : ℕ) → InRange l x r → Paced l → Paced (round_once l x r)
unfolding round_once
round-Paced l bind_rejected r k v =
    let b : ℕ = if ltb l.backoff cap_reject_backoff then cap_reject_backoff else l.backoff in
    let lo : min_reconnect ≤ b = ground (arith, v.low) in
    let hi : b ≤ max_cap_backoff = ground (arith, v.high) in
    record {
      low = next_low b max_cap_backoff;
      high = next_high b max_cap_backoff (omega arith);
      sleeps =
          All-append IsPaced l.slept (jitter b r ∷ []) v.sleeps (jitter-IsPaced b r lo hi k, tt);
    }
round-Paced l bind_unreached r k v = record {
  low = next_low l.backoff max_reconnect;
  high = omega (arith, next_high l.backoff max_reconnect (omega arith));
  sleeps =
      All-append IsPaced l.slept (jitter l.backoff r ∷ []) v.sleeps
        (jitter-IsPaced l.backoff r v.low v.high k, tt);
}
round-Paced l (bind_held uptime) r k v =
    let b : ℕ =
      if leb stable_reset_after uptime
      then min_reconnect
      else next_backoff l.backoff max_reconnect in
    let lo : min_reconnect ≤ b = ground (arith, next_low l.backoff max_reconnect) in
    let hi : b ≤ max_cap_backoff = ground (arith, next_high l.backoff max_reconnect) in
    record {
      low = lo;
      high = hi;
      sleeps =
          All-append IsPaced l.slept (jitter b r ∷ []) v.sleeps (jitter-IsPaced b r lo hi k, tt);
    }

-- Whatever its binds come to, a session never sleeps less than three quarters of 3 seconds or more
-- than five quarters of 5 minutes, and its delay stays between 3 seconds and 5 minutes, if they
-- did at first and the random numbers are in range.
pub run-Paced :
    (l : Loop) (rounds : List (Round × ℕ))
    → AllInRange l rounds
    → Paced l
    → Paced (run_rounds l rounds)
unfolding run_rounds
run-Paced l [] h v = v
run-Paced l ((x, r) ∷ rounds) (k, h) v =
    run-Paced (round_once l x r) rounds h (round-Paced l x r k v)
