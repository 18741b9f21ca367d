-- ===== src/Matching.antt =====
-- The longest-prefix scan that the rate lookup, the route lookup, the route cache and the matcher of
-- package routing each write out: one loop over the entries with the variables `catchAll`, `best` and
-- `bestLen`, over the digits of the destination.
pub mod Laws
use mini_sms.Prelude.{ℕ, ◌+◌, Bool, ◌&&◌, Option, none, some, List, [], ◌∷◌, leb, if◌then◌else◌}
use mini_sms.Text.{
  Text, codes, text_eq, byte_len, has_prefix, trim_plus, trim_space, is_ascii_digit, keep,
}

-- normalizeDestination, billingSegmentNormalize and normalizeDigits are the same function
unfoldable pub normalize : Text → Text
normalize destination = keep is_ascii_digit (trim_plus (trim_space destination))

abbrev pub star : Text
star = codes "*"

-- `floor` is bestLen + 1: the shortest prefix, in bytes, that would still be taken
pub record Scan {ℓ} (E : Type ℓ) : Type ℓ where
  pub catch_all : Option E
  pub best : Option E
  pub floor : ℕ

abbrev pub or_else {ℓ} : {A : Type ℓ} → Option A → Option A → Option A
or_else none d = d
or_else (some a) d = some a

abbrev pub start {ℓ} : {E : Type ℓ} → Scan E
start = record { catch_all = none; best = none; floor = 0 }

module _ {ℓ} {E : Type ℓ} (prefix_of : E → Text) (dst : Text) where
  -- one round of the loop
  unfoldable pub scan_entry : E → Scan E → Scan E
  scan_entry e s =
      if text_eq (prefix_of e) star
      then record s { catch_all = or_else s.catch_all (some e) }
      else if has_prefix dst (prefix_of e) && leb s.floor (byte_len (prefix_of e))
      then record s { best = some e; floor = byte_len (prefix_of e) + 1 }
      else s

  unfoldable pub scan : List E → Scan E → Scan E
  scan [] s = s
  scan (e ∷ es) s = scan es (scan_entry e s)

  -- `if best != nil { return best }; return catchAll`
  unfoldable pub longest : List E → Option E
  longest es = let s = scan es start in or_else s.best s.catch_all
