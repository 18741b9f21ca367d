-- ===== src/Text.antt =====
-- Go strings as lists of code points, and the functions of package strings that the program calls.
-- A text is valid UTF-8: it comes from PostgreSQL, from JSON or from a Go literal.
pub mod Laws
pub mod Trim
use Prim.Native.Char.{code}
use mathlib.Core.List.{reverse}
use mini_sms.Prelude.{
  ℕ, ◌+◌, ◌-◌, ◌≡◌, refl, Bool, true, false, ◌&&◌, ◌||◌, String, List, [], ◌∷◌, map, ltb, leb, ◌==◌,
  if◌then◌else◌,
}

abbrev pub Text : Type 0
Text = List ℕ

-- The functions of package strings that read Unicode's case tables are parameters.
pub record Unicode : Type 0 where
  pub to_lower : Text → Text
  pub to_upper : Text → Text
  pub equal_fold : Text → Text → Bool

-- The code points of a literal. `String` has its own `[]` and `∷`.
abbrev pub codes : String → Text
codes String.[] = []
codes (String.◌∷◌ c s) = code c ∷ codes s

unfoldable pub text_eq : Text → Text → Bool
text_eq [] [] = true
text_eq [] (d ∷ t) = false
text_eq (c ∷ s) [] = false
text_eq (c ∷ s) (d ∷ t) = c == d && text_eq s t

abbrev pub is_empty : Text → Bool
is_empty [] = true
is_empty (c ∷ s) = false

-- len(s) counts the bytes of the UTF-8 form
unfoldable pub rune_len : ℕ → ℕ
rune_len c = if ltb c 128 then 1 else if ltb c 2048 then 2 else if ltb c 65536 then 3 else 4

unfoldable pub byte_len : Text → ℕ
unfolding rune_len
byte_len [] = 0
byte_len (c ∷ s) = rune_len c + byte_len s

-- strings.HasPrefix(s, p)
unfoldable pub has_prefix : Text → Text → Bool
has_prefix s [] = true
has_prefix [] (d ∷ p) = false
has_prefix (c ∷ s) (d ∷ p) = c == d && has_prefix s p

-- strings.TrimPrefix(s, "+")
unfoldable pub trim_plus : Text → Text
trim_plus [] = []
trim_plus (c ∷ s) = if c == b'+' then s else c ∷ s

-- unicode.IsSpace
unfoldable pub is_space : ℕ → Bool
is_space c =
    (leb 9 c && leb c 13)
    || c == 32
    || c == 133
    || c == 160
    || c == 5760
    || (leb 8192 c && leb c 8202)
    || c == 8232
    || c == 8233
    || c == 8239
    || c == 8287
    || c == 12288

-- strings.TrimLeftFunc(s, f)
unfoldable pub trim_left : (ℕ → Bool) → Text → Text
trim_left f [] = []
trim_left f (c ∷ s) = if f c then trim_left f s else c ∷ s

-- strings.TrimSpace(s)
unfoldable pub trim_space : Text → Text
unfolding trim_left is_space
trim_space s = reverse (trim_left is_space (reverse (trim_left is_space s)))

-- r >= '0' && r <= '9'
unfoldable pub is_ascii_digit : ℕ → Bool
is_ascii_digit c = leb b'0' c && leb c b'9'

-- strings.Builder loops that keep the runes that pass a test
unfoldable pub keep : (ℕ → Bool) → Text → Text
keep f [] = []
keep f (c ∷ s) = if f c then c ∷ keep f s else keep f s

trim_space_runs : trim_space (codes " \tok \n") ≡ codes "ok"
unfolding trim_space
trim_space_runs = refl
