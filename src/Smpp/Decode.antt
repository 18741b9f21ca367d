-- ===== src/Smpp/Decode.antt =====
-- minisms/internal/smpp/server/decode.go: what a submit_sm says. The character sets and the library of
-- phone numbers are parameters; the bytes of a field are a list of numbers below 256.
pub mod Header
use mini_sms.Prelude.{
  ℕ, ◌+◌, ◌/◌, ◌%◌, Bool, true, false, not, ◌&&◌, ◌||◌, Option, none, some, List, [], ◌∷◌, length,
  drop, if◌then◌else◌, ltb, leb, ◌==◌,
}
use mini_sms.Result.{Result, ok, err}
use mini_sms.Text.{Text, codes, is_empty, trim_space, has_prefix, is_ascii_digit, keep}
use mini_sms.Smpp.Bind.{field_string}

abbrev pub Bytes : Type 0
Bytes = List ℕ

-- The fields of a submit_sm; none is a nil field.
pub record SubmitFields : Type 0 where
  pub source_addr : Option Text
  pub destination_addr : Option Text
  pub source_addr_ton : Option Bytes
  pub source_addr_npi : Option Bytes
  pub dest_addr_ton : Option Bytes
  pub dest_addr_npi : Option Bytes
  pub data_coding : Option Bytes
  pub esm_class : Option Bytes
  pub registered_delivery : Option Bytes
  pub short_message : Option Bytes

pub record DecodedSubmit : Type 0 where
  pub from : Text
  pub to : Text
  pub body : Text
  pub encoding : Text

-- GSM 7 and UCS-2 decoders, and Parse followed by Format as E.164; none is an error.
pub record Codecs : Type 0 where
  pub gsm7 : Bytes → Text
  pub ucs2 : Bytes → Text
  pub phone : Text → Option Text

pub data DecodeError : Type 0 where
  missing_short_message invalid_destination : DecodeError

-- fieldUint8; none is false
unfoldable pub field_uint8 : Option Bytes → Option ℕ
field_uint8 none = none
field_uint8 (some []) = none
field_uint8 (some (b ∷ bs)) = some b

-- The value beside the flag.
abbrev pub value_or_zero : Option ℕ → ℕ
value_or_zero none = 0
value_or_zero (some b) = b

-- b & 1 << k != 0
abbrev pub has_bit : ℕ → ℕ → Bool
has_bit weight b = (b / weight) % 2 == 1

-- onlyDigits
unfoldable pub only_digits : Text → Text
unfolding keep is_ascii_digit
only_digits s = keep is_ascii_digit s

-- The user data header goes, if text is left after it.
unfoldable pub strip_header : ℕ → Bytes → Bytes
strip_header esm_class [] = []
strip_header esm_class (n ∷ rest) =
    if has_bit 64 esm_class && ltb 0 n && ltb (n + 1) (length (n ∷ rest))
    then drop (n + 1) (n ∷ rest)
    else n ∷ rest

abbrev pub plus_sign : Text
plus_sign = codes "+"

module _ (codecs : Codecs) where
  -- decodeMessageBody, the text of it; 8 is UCS-2
  unfoldable pub decode_message_body : Bytes → ℕ → Text × Text
  decode_message_body raw data_coding =
      if data_coding == 8 then (codecs.ucs2 raw, codes "UCS2") else (codecs.gsm7 raw, codes "GSM7")

  -- formatAddress
  unfoldable pub format_address : Text → ℕ → Text
  unfolding only_digits has_prefix
  format_address raw ton =
      let addr = trim_space raw in
      let digits = only_digits addr in
      if is_empty addr || is_empty digits
      then []
      else if has_prefix addr plus_sign
      then b'+' ∷ digits
      else if ton == 1 || (ton == 0 && leb 10 (length digits))
      then elim (codecs.phone (b'+' ∷ digits)) [ none ↦ b'+' ∷ digits | some e164 ↦ e164 ]
      else b'+' ∷ digits

  -- decodeSubmitSM
  unfoldable pub decode_submit_sm : SubmitFields → Result DecodeError DecodedSubmit
  unfolding strip_header decode_message_body format_address field_uint8
  decode_submit_sm f = elim f.short_message [
    | none ↦ err missing_short_message
    | some bytes ↦
        let raw = strip_header (value_or_zero (field_uint8 f.esm_class)) bytes in
        let (body, enc) = decode_message_body raw (value_or_zero (field_uint8 f.data_coding)) in
        let to =
          format_address (field_string f.destination_addr)
            (value_or_zero (field_uint8 f.dest_addr_ton)) in
        if is_empty to
        then err invalid_destination
        else ok (record {
          from =
              format_address (field_string f.source_addr)
                (value_or_zero (field_uint8 f.source_addr_ton));
          to = to;
          body = body;
          encoding = enc;
        })
  ]

-- validateMessageBody; false is an error
unfoldable pub validate_message_body : Text → Bool
validate_message_body body = not (ltb (length body) 1 || ltb 1600 (length body))

-- registeredDLRRequested
unfoldable pub registered_dlr_requested : SubmitFields → Bool
unfolding field_uint8
registered_dlr_requested f = elim (field_uint8 f.registered_delivery) [
  | none ↦ false
  | some reg ↦ has_bit 1 reg || has_bit 2 reg || has_bit 4 reg
]
