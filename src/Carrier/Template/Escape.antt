-- ===== src/Carrier/Template/Escape.antt =====
-- url.QueryEscape in the values of a query: no value adds a parameter to it.
use mini_sms.Prelude.{
  ℕ, ◌+◌, ◌≡◌, ◌<◌, refl, sym, ap, ap₂, ◌∙◌, Bool, false, ◌||◌, List, [], ◌∷◌, ◌++◌, if◌then◌else◌,
  ◌==◌, All, arith, Bool-cases, inl, inr,
}
use mini_sms.Text.{Text, text_eq}
use mini_sms.Text.Laws.{text_eq_sound}
use mini_sms.Carrier.Template.{
  encoded_key, query_value, query_escape, inject_query_variables, is_unreserved, escape_byte,
  escape_bytes, utf8_bytes,
}
use mini_sms.Carrier.Template.Expansion.{
  Piece, literal, variable, Plain, WellFormed, holds, value, print, expand, inject-Expands,
}

-- The characters of an escaped value.
abbrev pub is_safe : ℕ → Bool
is_safe c = is_unreserved c || c == b'%' || c == b'+'

-- How often a character occurs.
abbrev pub occurrences : ℕ → Text → ℕ
occurrences d [] = 0
occurrences d (c ∷ s) = (if c == d then 1 else 0) + occurrences d s

occurrences-append :
    (d : ℕ) (s t : Text) → occurrences d (s ++ t) ≡ occurrences d s + occurrences d t
occurrences-append d [] t = omega arith
occurrences-append d (c ∷ s) t = ground (arith, occurrences-append d s t)

-- The code points of Unicode.
abbrev pub IsUnicode : Text → Type 0
IsUnicode s = All (λ c. c < 1114112) s

occurrences-escape_byte :
    (d b : ℕ) → is_safe d ≡ false → b < 256 → occurrences d (escape_byte b) ≡ 0
occurrences-escape_byte d b h l = ground arith

occurrences-escape_bytes :
    (d : ℕ) (bs : List ℕ)
    → is_safe d ≡ false
    → All (λ b. b < 256) bs
    → occurrences d (escape_bytes bs) ≡ 0
occurrences-escape_bytes d [] h l = refl
occurrences-escape_bytes d (b ∷ bs) h l = ground (
  arith,
  occurrences-append d (escape_byte b) (escape_bytes bs),
  occurrences-escape_byte d b h l.0,
  occurrences-escape_bytes d bs h l.1,
)

utf8_bytes-bytes : (c : ℕ) → c < 1114112 → All (λ b. b < 256) (utf8_bytes c)
utf8_bytes-bytes c h = ground arith

occurrences-query_escape :
    (d : ℕ) (s : Text) → is_safe d ≡ false → IsUnicode s → occurrences d (query_escape s) ≡ 0
unfolding query_escape
occurrences-query_escape d [] h l = refl
occurrences-query_escape d (c ∷ s) h l = ground (
  arith,
  occurrences-append d (escape_bytes (utf8_bytes c)) (query_escape s),
  occurrences-escape_bytes d (utf8_bytes c) h (utf8_bytes-bytes c l.0),
  occurrences-query_escape d s h l.1,
)

occurrences-query_value :
    (d : ℕ) (vars : Text → Text) (k : Text)
    → is_safe d ≡ false
    → ((j : Text) → IsUnicode (vars j))
    → occurrences d (vars encoded_key) ≡ 0
    → occurrences d (query_value vars k) ≡ 0
unfolding query_value
occurrences-query_value d vars k h u z = elim (Bool-cases (text_eq k encoded_key)) [
  | inl e ↦ rw e (ap (λ j. occurrences d (vars j)) (text_eq_sound k encoded_key e) ∙ z)
  | inr e ↦ rw e (occurrences-query_escape d (vars k) h (u k))
]

occurrences-value :
    (d : ℕ) (f : Text → Text) (keys : List Text) (k : Text)
    → occurrences d (f k) ≡ 0
    → occurrences d (value f keys k) ≡ occurrences d (value (λ j. []) keys k)
occurrences-value d f keys k z = elim (Bool-cases (holds keys k)) [
  | inl e ↦ rw e z
  | inr e ↦ rw e refl
]

occurrences-expand :
    (d : ℕ) (f : Text → Text) (keys : List Text) (ps : List Piece)
    → ((k : Text) → occurrences d (f k) ≡ 0)
    → occurrences d (expand f keys ps) ≡ occurrences d (expand (λ j. []) keys ps)
occurrences-expand d f keys [] z = refl
occurrences-expand d f keys (literal c ∷ ps) z =
    ap (λ n. (if c == d then 1 else 0) + n) (occurrences-expand d f keys ps z)
occurrences-expand d f keys (variable k ∷ ps) z =
    occurrences-append d (value f keys k) (expand f keys ps)
    ∙ ap₂ (λ a b. a + b) (occurrences-value d f keys k (z k)) (occurrences-expand d f keys ps z)
    ∙ sym (occurrences-append d (value (λ j. []) keys k) (expand (λ j. []) keys ps))

-- Whatever the values are, a query has each character that is not a letter, a digit or one of -_.~%+
-- (each & and =, say) as often as its template without the placeholders of the map has it, where the
-- callback URL that comes encoded has none of that character.
pub inject_query-Separators :
    (keys : List Text) (vars : Text → Text) (ps : List Piece) (d : ℕ)
    → All Plain keys
    → All WellFormed ps
    → is_safe d ≡ false
    → ((k : Text) → IsUnicode (vars k))
    → occurrences d (vars encoded_key) ≡ 0
    → occurrences d (inject_query_variables keys vars (print ps))
      ≡ occurrences d (expand (λ k. []) keys ps)
inject_query-Separators keys vars ps d h w safe u z =
    ap (occurrences d) (inject-Expands keys vars ps h w).1
    ∙ occurrences-expand d (query_value vars) keys ps
        (λ k. occurrences-query_value d vars k safe u z)
