-- ===== src/Smpp/Throttle.antt =====
-- minisms/internal/smpp/server/bind_limit.go: failed binds are counted for each key, and a key with
-- too many of them is shut out for a while. A time is a number of nanoseconds; the map is a function.
-- The package variable bindAttempts is passed along.
pub mod Blocking
use mini_sms.Prelude.{
  ℕ, ◌+◌, ◌-◌, ◌*◌, ◌^◌, ◌≤◌, ◌<◌, ◌≡◌, refl, sym, ◌⊎◌, Bool, true, false, not, ◌||◌, ◌&&◌, Option,
  none, some, List, [], ◌∷◌, ◌++◌, arith, if◌then◌else◌, ltb, leb, Bool-cases, Option-cases, inl,
  inr, ltb→lt, All,
}
use mini_sms.Text.{Text, Unicode, codes, text_eq, trim_space}
use mini_sms.Text.Laws.{text_eq_refl, text_eq_sound}
use mini_sms.Routing.Cache.{put}

pub record BindAttempt : Type 0 where
  pub count : ℕ
  pub first : ℕ
  pub blocked_til : Option ℕ

abbrev pub Attempts : Type 0
Attempts = Text → Option BindAttempt

abbrev pub second : ℕ
second = 1000000000

abbrev pub minute : ℕ
minute = 60 * second

abbrev pub bind_window : ℕ
bind_window = 10 * minute

abbrev pub bind_max_attempts : ℕ
bind_max_attempts = 5

abbrev pub bind_block_for : ℕ
bind_block_for = 15 * minute

-- bindThrottleKey
unfoldable pub bind_throttle_key : Unicode → Text → Text → Text
bind_throttle_key u remote_host system_id =
    u.to_lower (trim_space system_id) ++ (codes "|" ++ trim_space remote_host)

-- !a.BlockedTil.IsZero() && now.Before(a.BlockedTil)
abbrev pub is_shut : BindAttempt → ℕ → Bool
is_shut a now = elim a.blocked_til [ none ↦ false | some til ↦ ltb now til ]

-- now.Sub(a.First) > bindWindow
abbrev pub is_stale : BindAttempt → ℕ → Bool
is_stale a now = ltb bind_window (now - a.first)

-- isBindBlocked, on what the map holds at the key
abbrev pub checked : Attempts → Text → ℕ → Option BindAttempt → Bool × Attempts
checked m key now none = (false, m)
checked m key now (some a) =
    if is_shut a now
    then (true, m)
    else if is_stale a now
    then (false, put m key none)
    else (false, m)

-- isBindBlocked
unfoldable pub is_bind_blocked : Attempts → Text → ℕ → Bool × Attempts
is_bind_blocked m key now = checked m key now (m key)

-- The attempt that markBindFailure goes on from.
abbrev pub current : Option BindAttempt → ℕ → BindAttempt
current none now = record { count = 0; first = now; blocked_til = none }
current (some a) now =
    if is_stale a now then record { count = 0; first = now; blocked_til = none } else a

abbrev pub marked : BindAttempt → ℕ → BindAttempt
marked a now = record a {
  count = a.count + 1;
  blocked_til =
      if leb bind_max_attempts (a.count + 1) then some (now + bind_block_for) else a.blocked_til;
}

-- markBindFailure
unfoldable pub mark_bind_failure : Attempts → Text → ℕ → Attempts
unfolding put
mark_bind_failure m key now = put m key (some (marked (current (m key) now) now))

-- clearBindFailures
unfoldable pub clear_bind_failures : Attempts → Text → Attempts
unfolding put
clear_bind_failures m key = put m key none

-- The calls of the server, in the order in which they take the lock.
pub data Call : Type 0 where
  checks : Text → ℕ → Call
  fails : Text → ℕ → Call
  clears : Text → Call

abbrev pub after : Attempts → Call → Attempts
after m (checks key now) = (is_bind_blocked m key now).1
after m (fails key now) = mark_bind_failure m key now
after m (clears key) = clear_bind_failures m key

abbrev pub run : Attempts → List Call → Attempts
run m [] = m
run m (c ∷ cs) = run (after m c) cs

-- How many failures a key has met since it was last cleared, `n` before the calls.
abbrev pub tally : Text → ℕ → List Call → ℕ
tally key n [] = n
tally key n (checks k now ∷ cs) = tally key n cs
tally key n (fails k now ∷ cs) = tally key (if text_eq k key then n + 1 else n) cs
tally key n (clears k ∷ cs) = tally key (if text_eq k key then 0 else n) cs
