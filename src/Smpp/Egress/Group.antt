-- ===== src/Smpp/Egress/Group.antt =====
-- minisms/internal/smpp/egress/group.go: the parallel sessions of one carrier. The counter is a
-- uint64, and an int has 64 bits.
pub mod RoundRobin
use mini_sms.Prelude.{
  ℕ, zero, suc, ◌+◌, ◌-◌, ◌%◌, ◌^◌, Bool, true, false, Option, none, some, List, [], ◌∷◌, length,
  get_elem?, if◌then◌else◌, ltb, ◌==◌,
}
use mini_sms.Text.{Text, codes}

pub data Pick : Type 0 where
  on_session : ℕ → Pick
  session_unavailable panicked : Pick

-- isReady of the session at an index, in a list of what each says
abbrev pub is_ready : List Bool → ℕ → Bool
is_ready sessions i = elim (get_elem? sessions i) [ none ↦ false | some b ↦ b ]

-- readyCount
unfoldable pub ready_count : List Bool → ℕ
ready_count [] = 0
ready_count (b ∷ sessions) = (if b then 1 else 0) + ready_count sessions

-- aggregateStatus
unfoldable pub aggregate_status : List Bool → Text
unfolding ready_count
aggregate_status sessions = if ltb 0 (ready_count sessions) then codes "up" else codes "down"

-- (start + i) % n on ints, as an index; none is a negative one
unfoldable pub index_at : ℕ → ℕ → ℕ → Option ℕ
index_at start i n =
    let v = (start + i) % 2 ^ 64 in
    if ltb v (2 ^ 63) then some (v % n) else if (2 ^ 64 - v) % n == 0 then some 0 else none

-- The loop of submit from `i` on, with `left` rounds to go.
unfoldable pub scan_sessions : List Bool → ℕ → ℕ → ℕ → Pick
unfolding index_at
scan_sessions sessions start zero i = session_unavailable
scan_sessions sessions start (suc left) i =
    let rest = scan_sessions sessions start left (i + 1) in
    elim (index_at start i (length sessions)) [
      | none ↦ panicked
      | some j ↦ if is_ready sessions j then on_session j else rest
    ]

-- atomic.AddUint64(&g.rr, 1)
abbrev pub next_counter : ℕ → ℕ
next_counter rr = (rr + 1) % 2 ^ 64

-- submit, up to the session that it submits on; the counter moves if there is a session
unfoldable pub pick_session : List Bool → ℕ → Pick × ℕ
unfolding scan_sessions
pick_session sessions rr =
    if length sessions == 0
    then (session_unavailable, rr)
    else (scan_sessions sessions (next_counter rr) (length sessions) 0, next_counter rr)
