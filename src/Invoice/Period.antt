-- ===== src/Invoice/Period.antt =====
-- minisms/internal/invoice/period.go. A date is its number of days since 1 January 1970, a Thursday.
use mini_sms.Prelude.{ℕ, ◌+◌, ◌-◌, ◌%◌, ◌≤◌, ◌<◌, ◌≡◌, arith, if◌then◌else◌, ◌==◌}

-- (time.Time).Weekday; Sunday is 0
abbrev pub weekday : ℕ → ℕ
weekday day = (day + 4) % 7

-- DefaultPeriod, on the date of `now`
unfoldable pub default_period : ℕ → ℕ × ℕ
default_period day =
    let wd = if weekday day == 0 then 7 else weekday day in
    let this_monday = day - (wd - 1) in
    let last_monday = this_monday - 7 in (last_monday, last_monday + 6)

pub default_period_week :
    (day : ℕ)
    → 13 ≤ day
    → let (from, to) = default_period day in
      (weekday from ≡ 1) × (weekday to ≡ 0) × (to ≡ from + 6) × (to < day) × (day ≤ to + 7)
unfolding default_period
default_period_week day h = ground arith
