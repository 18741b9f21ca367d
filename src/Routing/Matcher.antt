-- ===== src/Routing/Matcher.antt =====
-- minisms/internal/routing/matcher.go: LongestPrefixMatch, which skips the entries that are not active.
use mini_sms.Prelude.{◌≡◌, refl, Bool, Option, List, [], ◌∷◌, if◌then◌else◌, Bool-cases, inl, inr}
use mini_sms.Text.{Text, codes, text_eq}
use mini_sms.Matching.{normalize, Scan, start, or_else, scan_entry, scan, longest}
use mini_sms.Matching.Laws.{Answers, longest-Answers}

pub record RouteEntry : Type 0 where
  pub prefix : Text
  pub status : Text

abbrev pub prefix_of : RouteEntry → Text
prefix_of e = e.prefix

abbrev pub is_active : RouteEntry → Bool
is_active e = text_eq e.status (codes "active")

-- The loop, with its `continue`.
unfoldable pub match_scan : Text → List RouteEntry → Scan RouteEntry → Scan RouteEntry
match_scan dst [] s = s
match_scan dst (e ∷ es) s =
    match_scan dst es (if is_active e then scan_entry prefix_of dst e s else s)

-- none is ErrNoRoute
unfoldable pub longest_prefix_match : List RouteEntry → Text → Option RouteEntry
unfolding match_scan
longest_prefix_match entries destination =
    let s = match_scan (normalize destination) entries start in or_else s.best s.catch_all

pub active_only : List RouteEntry → List RouteEntry
active_only [] = []
active_only (e ∷ es) = if is_active e then e ∷ active_only es else active_only es

match_scan-active_only :
    (dst : Text) (es : List RouteEntry) (s : Scan RouteEntry)
    → match_scan dst es s ≡ scan prefix_of dst (active_only es) s
unfolding match_scan active_only scan
match_scan-active_only dst [] s = refl
match_scan-active_only dst (e ∷ es) s = elim (Bool-cases (is_active e)) [
  | inl h ↦ rw h (match_scan-active_only dst es (scan_entry prefix_of dst e s))
  | inr h ↦ rw h (match_scan-active_only dst es s)
]

-- LongestPrefixMatch returns the first of the longest matching prefixes among the active entries; if
-- none of those matches, their first catch-all; and ErrNoRoute only if there is neither.
pub longest_prefix_match-Answers :
    (entries : List RouteEntry) (destination : Text)
    → Answers prefix_of
        (normalize destination)
        (active_only entries)
        (longest_prefix_match entries destination)
unfolding longest_prefix_match longest
longest_prefix_match-Answers entries destination =
    rw match_scan-active_only
      (longest-Answers prefix_of (normalize destination) (active_only entries))
