-- ===== src/Smpp/Egress/Reconnect.antt =====
-- minisms/internal/smpp/egress/session.go: the loop of one session at a carrier, and its delays. A
-- duration is a number of nanoseconds; what rand.Int63n returns stands in the event.
pub mod Pacing
use mini_sms.Prelude.{
  ℕ, ◌+◌, ◌-◌, ◌*◌, ◌/◌, Bool, true, false, List, [], ◌∷◌, ◌++◌, if◌then◌else◌, ltb, leb,
}
use mini_sms.Smpp.Throttle.{second, minute}

abbrev pub min_reconnect : ℕ
min_reconnect = 3 * second

abbrev pub max_reconnect : ℕ
max_reconnect = 60 * second

abbrev pub stable_reset_after : ℕ
stable_reset_after = 45 * second

abbrev pub cap_reject_backoff : ℕ
cap_reject_backoff = 45 * second

abbrev pub max_cap_backoff : ℕ
max_cap_backoff = 5 * minute

-- nextBackoff
unfoldable pub next_backoff : ℕ → ℕ → ℕ
next_backoff cur ceiling =
    let next = if ltb ceiling (cur * 2) then ceiling else cur * 2 in
    if ltb next min_reconnect then min_reconnect else next

-- jitter; `r` is what rand.Int63n(2*span) returns, below 2*span
unfoldable pub jitter : ℕ → ℕ → ℕ
jitter d r = if leb (d / 4) 0 then d else d + r - d / 4

-- startupStagger
unfoldable pub startup_stagger : ℕ → ℕ → ℕ
unfolding jitter
startup_stagger idx r = if leb idx 1 then 0 else jitter ((idx - 1) * 400000000) r

pub data LinkStatus : Type 0 where
  binding up down : LinkStatus

-- One round of the loop: the bind is refused by the carrier, is not reached, or holds for a time.
pub data Round : Type 0 where
  bind_rejected bind_unreached : Round
  bind_held : ℕ → Round

pub record Loop : Type 0 where
  pub backoff : ℕ
  pub ready : Bool
  pub slept : List ℕ
  pub statuses : List LinkStatus

-- The end of a round: the session is down, and the loop sleeps.
abbrev pub sleep : Loop → ℕ → ℕ → ℕ → Loop
sleep l delay r backoff = record l {
  backoff = backoff;
  ready = false;
  slept = l.slept ++ (jitter delay r ∷ []);
  statuses = l.statuses ++ (down ∷ []);
}

abbrev pub tell : Loop → LinkStatus → Loop
tell l s = record l { statuses = l.statuses ++ (s ∷ []) }

-- One turn of the loop in run, with the random number of its sleep.
unfoldable pub round_once : Loop → Round → ℕ → Loop
unfolding next_backoff jitter
round_once l bind_rejected r =
    let b = if ltb l.backoff cap_reject_backoff then cap_reject_backoff else l.backoff in
    sleep (tell l binding) b r (next_backoff b max_cap_backoff)
round_once l bind_unreached r =
    sleep (tell l binding) l.backoff r (next_backoff l.backoff max_reconnect)
round_once l (bind_held uptime) r =
    let b =
      if leb stable_reset_after uptime
      then min_reconnect
      else next_backoff l.backoff max_reconnect in
    sleep (tell (tell l binding) up) b r b

-- run, after the stagger
unfoldable pub run_rounds : Loop → List (Round × ℕ) → Loop
unfolding round_once
run_rounds l [] = l
run_rounds l ((x, r) ∷ rounds) = run_rounds (round_once l x r) rounds

abbrev pub started : Loop
started = record { backoff = min_reconnect; ready = false; slept = []; statuses = [] }
