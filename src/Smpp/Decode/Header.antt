-- ===== src/Smpp/Decode/Header.antt =====
-- The header of a part of a long message, and what an address is read as.
use mini_sms.Prelude.{
  ℕ, ◌≡◌, ◌<◌, ◌⊎◌, ◌&&◌, ◌||◌, not, Bool, if◌then◌else◌, ltb, leb, ◌==◌, Option-cases, refl, sym,
  subst, true, false, Option, none, some, [], ◌∷◌, ◌++◌, length, length-append, drop, arith,
  Bool-cases, inl, inr,
}
use mini_sms.Result.{ok}
use mini_sms.Text.{Text, is_ascii_digit, keep, is_empty, trim_space, has_prefix}
use mini_sms.Smpp.Decode.{
  Bytes, Codecs, SubmitFields, DecodedSubmit, has_bit, strip_header, only_digits, format_address,
  decode_submit_sm, plus_sign, value_or_zero, field_uint8,
}
use mini_sms.Smpp.Bind.{field_string}

drop-append : (h b : Bytes) → drop (length h) (h ++ b) ≡ b
drop-append [] b = refl
drop-append (x ∷ h) b = drop-append h b

-- A user data header that is put before a text, with its length in front, is taken off again if
-- the class says that there is one and the text is not empty, and else the bytes stay as they are.
pub strip_header-append :
    (esm_class : ℕ) (h b : Bytes)
    → 0 < length h
    → strip_header esm_class (length h ∷ (h ++ b))
      ≡ (if has_bit 64 esm_class && ltb 0 (length b) then b else length h ∷ (h ++ b))
unfolding strip_header
strip_header-append esm_class h b p = ground (arith, length-append h b, drop-append h b)

-- The digits of an address.
abbrev pub digits_of : Text → Text
digits_of raw = keep is_ascii_digit (trim_space raw)

module _ (codecs : Codecs) where
  -- The library of phone numbers is asked about an address without a plus sign that is of the
  -- international type, or of the unknown type with ten digits or more.
  abbrev pub is_dialled : Text → ℕ → Bool
  is_dialled raw ton =
      not (has_prefix (trim_space raw) plus_sign)
      && (ton == 1 || (ton == 0 && leb 10 (length (digits_of raw))))

  -- What an address with a digit is read as: the library's form of its digits, if the library is asked
  -- and knows the number, and else a plus sign and the digits.
  pub data ReadAs (raw : Text) (ton : ℕ) (s : Text) : Type 0 where
    as_written :
        is_empty (digits_of raw) ≡ false
        → (is_dialled raw ton ≡ false) ⊎ (codecs.phone (b'+' ∷ digits_of raw) ≡ none)
        → s ≡ b'+' ∷ digits_of raw
        → ReadAs raw ton s
    as_formatted :
        is_empty (digits_of raw) ≡ false
        → is_dialled raw ton ≡ true
        → codecs.phone (b'+' ∷ digits_of raw) ≡ some s
        → ReadAs raw ton s

  -- An address, or an empty one for a field without a digit.
  abbrev pub Address : Text → ℕ → Text → Type 0
  Address raw ton s = ((is_empty (digits_of raw) ≡ true) × (s ≡ [])) ⊎ ReadAs raw ton s

  phone-ReadAs :
      (raw : Text) (ton : ℕ) (o : Option Text)
      → is_empty (digits_of raw) ≡ false
      → is_dialled raw ton ≡ true
      → codecs.phone (b'+' ∷ digits_of raw) ≡ o
      → ReadAs raw ton (elim o [ none ↦ b'+' ∷ digits_of raw | some e164 ↦ e164 ])
  phone-ReadAs raw ton none e k h = as_written e (inr h) refl
  phone-ReadAs raw ton (some e164) e k h = as_formatted e k h

  empty_digits : (s : Text) → is_empty s ≡ true → is_empty (keep is_ascii_digit s) ≡ true
  unfolding keep
  empty_digits [] h = refl
  empty_digits (c ∷ s) h = absurd (cc)

  format_address-Address : (raw : Text) (ton : ℕ) → Address raw ton (format_address codecs raw ton)
  unfolding format_address only_digits
  format_address-Address raw ton = elim (Bool-cases (is_empty (trim_space raw))) [
    | inl e ↦ rw e (inl (empty_digits (trim_space raw) e, refl))
    | inr e ↦ elim (Bool-cases (is_empty (digits_of raw))) [
      | inl f ↦ rw (e, f) (inl (refl, refl))
      | inr f ↦ elim (Bool-cases (has_prefix (trim_space raw) plus_sign)) [
        | inl g ↦ rw (e, f, g) (inr (as_written f (inl (ground arith)) refl))
        | inr g ↦ elim (Bool-cases (ton == 1 || (ton == 0 && leb 10 (length (digits_of raw))))) [
          | inl k ↦
              rw (e, f, g, k)
                (inr (
                  phone-ReadAs raw ton (codecs.phone (b'+' ∷ digits_of raw)) f (ground arith) refl))
          | inr k ↦ rw (e, f, g, k) (inr (as_written f (inl (ground arith)) refl))
        ]
      ]
    ]
  ]

  abbrev to_of : SubmitFields → Text
  to_of f =
      format_address codecs (field_string f.destination_addr)
        (value_or_zero (field_uint8 f.dest_addr_ton))

  abbrev from_of : SubmitFields → Text
  from_of f =
      format_address codecs (field_string f.source_addr)
        (value_or_zero (field_uint8 f.source_addr_ton))

  decode_addresses :
      (f : SubmitFields) (d : DecodedSubmit)
      → decode_submit_sm codecs f ≡ ok d
      → (d.to ≡ to_of f) × (d.from ≡ from_of f) × (is_empty (to_of f) ≡ false)
  unfolding decode_submit_sm
  decode_addresses f d h = elim (Option-cases f.short_message) [
    | inl e ↦ absurd (ground arith)
    | inr (bytes, e) ↦ elim (Bool-cases (is_empty (to_of f))) [
      | inl g ↦ absurd (ground arith)
      | inr g ↦ (ground arith, ground arith, g)
    ]
  ]

  -- A submit_sm that is decoded has a destination with a digit. The destination, and the sender if its field has a digit, is the library's form of the digits if
  -- the library is asked and knows the number, and else a plus sign and the digits; the library is
  -- asked about an address without a plus sign that is of the international type, or of the unknown
  -- type with ten digits or more. A sender without a digit is empty.
  pub decode-Address :
      (f : SubmitFields) (d : DecodedSubmit)
      → decode_submit_sm codecs f ≡ ok d
      → ReadAs (field_string f.destination_addr) (value_or_zero (field_uint8 f.dest_addr_ton)) d.to
        × Address
            (field_string f.source_addr)
            (value_or_zero (field_uint8 f.source_addr_ton))
            d.from
  decode-Address f d h =
      let (to, from, filled) = decode_addresses f d h in
      (
        with_digit (field_string f.destination_addr) (value_or_zero (field_uint8 f.dest_addr_ton))
            d.to (to_of f) to filled
            (format_address-Address (field_string f.destination_addr)
              (value_or_zero (field_uint8 f.dest_addr_ton))),
        subst (Address (field_string f.source_addr) (value_or_zero (field_uint8 f.source_addr_ton)))
            (sym from)
            (format_address-Address (field_string f.source_addr)
              (value_or_zero (field_uint8 f.source_addr_ton))),
      )
    where
      with_digit :
          (raw : Text) (ton : ℕ) (s t : Text)
          → s ≡ t
          → is_empty t ≡ false
          → Address raw ton t
          → ReadAs raw ton s
      with_digit raw ton s t e k (inl (a, b)) = absurd (ground arith)
      with_digit raw ton s t e k (inr w) = subst (ReadAs raw ton) (sym e) w
