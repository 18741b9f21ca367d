-- ===== src/Carrier/TonNpi.antt =====
-- minisms/internal/carrier/smpp.go: type of number and numbering plan of the two addresses.
-- `possible` is phonenumbers.Parse with region ZZ followed by IsPossibleNumber.
use mini_sms.Prelude.{
  ℕ, zero, suc, ◌+◌, ◌-◌, ◌*◌, ◌%◌, ◌^◌, ◌≡◌, refl, ◌⊎◌, inl, inr, Bool, true, false, not, ◌&&◌,
  ◌||◌, Option, none, some, [], ◌∷◌, all, ltb, ◌==◌, if◌then◌else◌,
}
use mini_sms.Prelude.Int.{ℤ, pos, negsuc}
use mini_sms.Text.{Text, codes, text_eq, is_empty, trim_space, is_ascii_digit}

pub record SmppConfig : Type 0 where
  pub source_addr_ton : Text
  pub source_addr_npi : Text
  pub dest_addr_ton : Text
  pub dest_addr_npi : Text

-- int16 fields
pub record SmppParams : Type 0 where
  pub source_addr_ton : ℤ
  pub source_addr_npi : ℤ
  pub dest_addr_ton : ℤ
  pub dest_addr_npi : ℤ

-- The value of digits behind n, none at a rune that is no digit.
unfoldable pub digits_value : ℕ → Text → Option ℕ
digits_value n [] = some n
digits_value n (c ∷ s) =
    let rest = digits_value (n * 10 + (c - b'0')) s in if is_ascii_digit c then rest else none

unfoldable pub unsigned : Text → Option ℕ
unfolding digits_value is_ascii_digit
unsigned [] = none
unsigned (c ∷ s) = digits_value 0 (c ∷ s)

abbrev fits_pos : Option ℕ → Option ℤ
fits_pos none = none
fits_pos (some n) = if ltb n (2 ^ 63) then some (pos n) else none

abbrev fits_neg : Option ℕ → Option ℤ
fits_neg none = none
fits_neg (some zero) = some (pos 0)
fits_neg (some (suc n)) = if ltb n (2 ^ 63) then some (negsuc n) else none

-- strconv.Atoi, none is an error
unfoldable pub atoi : Text → Option ℤ
unfolding unsigned
atoi [] = none
atoi (c ∷ s) =
    if c == b'-'
    then fits_neg (unsigned s)
    else if c == b'+'
    then fits_pos (unsigned s)
    else fits_pos (unsigned (c ∷ s))

-- The signed number whose 16 low bits are n.
abbrev from_bits16 : ℕ → ℤ
from_bits16 n = if ltb n (2 ^ 15) then pos n else negsuc (2 ^ 16 - 1 - n)

-- int16(n)
unfoldable pub int16 : ℤ → ℤ
int16 (pos n) = from_bits16 (n % 2 ^ 16)
int16 (negsuc n) = from_bits16 (2 ^ 16 - 1 - n % 2 ^ 16)

-- isDigitsOnly
unfoldable pub is_digits_only : Text → Bool
unfolding is_ascii_digit
is_digits_only [] = false
is_digits_only (c ∷ s) = all is_ascii_digit (c ∷ s)

-- The number that a configured value fixes; none leaves the choice dynamic.
unfoldable pub fixed : Text → Option ℤ
unfolding atoi int16 trim_space
fixed v =
    let t = trim_space v in
    if not (is_empty t) && not (text_eq t (codes "dynamic"))
    then elim (atoi t) [ none ↦ none | some n ↦ some (int16 n) ]
    else none

module _ (possible : Text → Bool) where
  abbrev dynamic_ton : Text → Bool → ℤ
  dynamic_ton s true =
      if is_empty s
      then pos 5
      else if possible s
      then pos 1
      else if is_digits_only s
      then pos 2
      else pos 5
  dynamic_ton s false = if possible s then pos 1 else pos 0

  -- resolveTON
  unfoldable pub resolve_ton : Text → Text → Bool → ℤ
  resolve_ton v value is_source = elim (fixed v) [
    | some n ↦ n
    | none ↦ dynamic_ton (trim_space value) is_source
  ]

  abbrev is_one_or_two : ℤ → Bool
  is_one_or_two (pos n) = n == 1 || n == 2
  is_one_or_two (negsuc n) = false

  -- resolveNPI
  unfoldable pub resolve_npi : Text → ℤ → ℤ
  resolve_npi v ton = elim (fixed v) [
    | some n ↦ n
    | none ↦ if is_one_or_two ton then pos 1 else pos 0
  ]

  -- ResolveTONNPI
  unfoldable pub resolve_ton_npi : SmppConfig → Text → Text → SmppParams
  resolve_ton_npi cfg sender destination =
      let st = resolve_ton cfg.source_addr_ton sender true in
      let dt = resolve_ton cfg.dest_addr_ton destination false in
      record {
        source_addr_ton = st;
        source_addr_npi = resolve_npi cfg.source_addr_npi st;
        dest_addr_ton = dt;
        dest_addr_npi = resolve_npi cfg.dest_addr_npi dt;
      }

  -- A value of TON and NPI that may go together when neither is configured.
  abbrev pub Consistent : ℤ → ℤ → Type 0
  Consistent ton npi =
      ((ton ≡ pos 1) × (npi ≡ pos 1))
      ⊎ ((ton ≡ pos 2) × (npi ≡ pos 1))
      ⊎ ((ton ≡ pos 0) × (npi ≡ pos 0))
      ⊎ ((ton ≡ pos 5) × (npi ≡ pos 0))

  dynamic-Consistent :
      (s : Text) (b : Bool)
      → Consistent (dynamic_ton s b) (if is_one_or_two (dynamic_ton s b) then pos 1 else pos 0)
  dynamic-Consistent [] true = inr (inr (inr (refl, refl)))
  dynamic-Consistent (c ∷ s) true = by_test (possible (c ∷ s)) (is_digits_only (c ∷ s))
    where
      by_test :
          (p d : Bool)
          → Consistent (if p then pos 1 else if d then pos 2 else pos 5) (
              if is_one_or_two (if p then pos 1 else if d then pos 2 else pos 5)
              then pos 1
              else pos 0)
      by_test true d = inl (refl, refl)
      by_test false true = inr (inl (refl, refl))
      by_test false false = inr (inr (inr (refl, refl)))
  dynamic-Consistent s false = by_test (possible s)
    where
      by_test :
          (p : Bool)
          → Consistent
              (if p then pos 1 else pos 0)
              (if is_one_or_two (if p then pos 1 else pos 0) then pos 1 else pos 0)
      by_test true = inl (refl, refl)
      by_test false = inr (inr (inl (refl, refl)))

  ton_dynamic :
      (v value : Text) (b : Bool)
      → fixed v ≡ none
      → resolve_ton v value b ≡ dynamic_ton (trim_space value) b
  unfolding resolve_ton
  ton_dynamic v value b e = rw (e, resolve_ton)

  npi_dynamic :
      (v : Text) (ton : ℤ)
      → fixed v ≡ none
      → resolve_npi v ton ≡ (if is_one_or_two ton then pos 1 else pos 0)
  unfolding resolve_npi
  npi_dynamic v ton e = rw (e, resolve_npi)

  pair_dynamic :
      (v w value : Text) (b : Bool)
      → fixed v ≡ none
      → fixed w ≡ none
      → Consistent (resolve_ton v value b) (resolve_npi w (resolve_ton v value b))
  pair_dynamic v w value b e d =
      rw (ton_dynamic v value b e, npi_dynamic w (dynamic_ton (trim_space value) b) d)
        (dynamic-Consistent (trim_space value) b)

  -- Where the carrier configures none of the four values, both addresses get one of the pairs
  -- international and ISDN, national and ISDN, unknown and unknown, alphanumeric and unknown.
  pub resolve_dynamic :
      (cfg : SmppConfig) (sender destination : Text)
      → fixed cfg.source_addr_ton ≡ none
      → fixed cfg.source_addr_npi ≡ none
      → fixed cfg.dest_addr_ton ≡ none
      → fixed cfg.dest_addr_npi ≡ none
      → Consistent
          (resolve_ton_npi cfg sender destination).source_addr_ton
          (resolve_ton_npi cfg sender destination).source_addr_npi
        × Consistent
            (resolve_ton_npi cfg sender destination).dest_addr_ton
            (resolve_ton_npi cfg sender destination).dest_addr_npi
  unfolding resolve_ton_npi
  resolve_dynamic cfg sender destination a b c d = (
    pair_dynamic cfg.source_addr_ton cfg.source_addr_npi sender true a b,
    pair_dynamic cfg.dest_addr_ton cfg.dest_addr_npi destination false c d,
  )

int16_wraps : int16 (pos 40000) ≡ negsuc 25535
unfolding int16
int16_wraps = refl

atoi_runs : atoi (codes "-7") ≡ some (negsuc 6)
unfolding atoi
atoi_runs = refl
