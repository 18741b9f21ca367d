-- ===== src/Carrier/Sender.antt =====
-- minisms/internal/carrier/senderid.go and client_sender.go: the sender that a message goes out under,
-- and the ones that a client may ask for. The queries are parameters; a nil pool is none.
pub mod Allowed
use mini_sms.Prelude.{
  ℕ, ◌≡◌, Bool, true, false, not, ◌&&◌, ◌||◌, Option, none, some, List, [], ◌∷◌, length, all, any,
  ltb, leb, ◌==◌, if◌then◌else◌,
}
use mini_sms.Result.{Result, ok, err}
use mini_sms.Text.{Text, Unicode, codes, text_eq, is_empty, trim_space, is_ascii_digit}
use mini_sms.Dlr.Status.{is_one_of, value_or_empty}
use mini_sms.Carrier.Eligibility.{
  Lookup, found, no_rows, failed, Resolution, matches_numeric, matches_e164,
}

-- clients.allowed_sender_ids_mode
pub data SenderMode : Type 0 where
  allowed_sender_list allowed_sender_phone allowed_sender_any : SenderMode

pub data SenderError : Type 0 where
  sender_not_allowed sender_required sender_too_long invalid_mode sender_query : SenderError

-- The row of client_sender_ids that is the default.
pub data DefaultRow : Type 0 where
  default_found : Text → DefaultRow
  default_missing default_failed : DefaultRow

-- The queries of a pool, each for one client; none is an error or NULL.
pub record SenderQueries : Type 0 where
  pub mode_of : Text → Option Text
  pub listed : Text → Text → Lookup
  pub active_anywhere : Text → Lookup
  pub any_pattern : Text
  pub default_value : Text → Option Text
  pub default_row : Text → DefaultRow

pub record SenderClient : Type 0 where
  pub client_id : Text
  pub allowed_sender_ids_mode : Text
  pub default_sender_id_value : Option Text

abbrev pub max_sender_id_runes : ℕ
max_sender_id_runes = 15

-- [A-Za-z0-9 _.-]
abbrev pub is_sender_char : ℕ → Bool
is_sender_char c =
    (leb b'A' c && leb c b'Z')
    || (leb b'a' c && leb c b'z')
    || is_ascii_digit c
    || c == b' '
    || c == b'_'
    || c == b'.'
    || c == b'-'

-- ^[A-Za-z0-9 _.-]{1,15}$
unfoldable pub matches_default_any : Text → Bool
matches_default_any s = all is_sender_char s && leb 1 (length s) && leb (length s) 15

abbrev pub default_any_sender_pattern : Text
default_any_sender_pattern = codes "^[A-Za-z0-9 _.-]{1,15}$"

-- IsValidPhoneSenderID
unfoldable pub is_valid_phone_sender_id : Text → Bool
is_valid_phone_sender_id raw =
    let value = trim_space raw in
    not (is_empty value) && (matches_numeric value || matches_e164 value)

-- What is stored as the client's default sender: the field, or else the query.
abbrev pub client_default : SenderQueries → SenderClient → Text
client_default q c =
    let own = trim_space (value_or_empty c.default_sender_id_value) in
    if not (is_empty own) then own else trim_space (value_or_empty (q.default_value c.client_id))

-- The mode of the client: the field, or else the query.
abbrev pub client_mode : SenderQueries → SenderClient → Text
client_mode q c =
    let own = trim_space c.allowed_sender_ids_mode in
    if not (is_empty own) then own else value_or_empty (q.mode_of c.client_id)

abbrev pub default_row_or : Text → DefaultRow → Result SenderError Resolution
default_row_or d (default_found sid) = ok (record { value = sid; source = codes "client_default" })
default_row_or d default_missing = ok (record { value = d; source = codes "client_default" })
default_row_or d default_failed = err sender_query

abbrev pub is_nil : Option SenderError → Bool
is_nil none = true
is_nil (some e) = false

-- The pattern of IsValidAnySenderID.
abbrev pub pattern_of : Option SenderQueries → Text
pattern_of none = default_any_sender_pattern
pattern_of (some q) = trim_space q.any_pattern

-- `compile` is regexp.Compile with MatchString.
module _ (u : Unicode) (compile : Text → Option (Text → Bool)) where
  -- ParseAllowedSenderIDsMode
  unfoldable pub parse_allowed_sender_ids_mode : Text → Option SenderMode
  parse_allowed_sender_ids_mode raw =
      let v = u.to_lower (trim_space raw) in
      if is_one_of v (codes "list" ∷ codes "from_sender_id_list" ∷ [])
      then some allowed_sender_list
      else if is_one_of v
          (codes "phone" ∷ codes "any_valid_phone_number" ∷ codes "e164" ∷ codes "numeric" ∷ [])
      then some allowed_sender_phone
      else if text_eq v (codes "any")
      then some allowed_sender_any
      else none

  -- IsValidAnySenderID
  unfoldable pub is_valid_any_sender_id : Option SenderQueries → Text → Bool
  unfolding matches_default_any
  is_valid_any_sender_id pool raw =
      let value = trim_space raw in
      if is_empty value || ltb max_sender_id_runes (length value)
      then false
      else elim (compile (pattern_of pool)) [
        | none ↦ matches_default_any value
        | some re ↦ re value
      ]

  -- The switch of ValidateClientSenderID; none is nil.
  unfoldable pub check_mode : Option SenderQueries → Text → SenderMode → Text → Option SenderError
  unfolding is_valid_phone_sender_id is_valid_any_sender_id
  check_mode none client allowed_sender_list value = some sender_not_allowed
  check_mode (some q) client allowed_sender_list value = elim (q.listed client value) [
    | found ↦ none
    | no_rows ↦ some sender_not_allowed
    | failed ↦ some sender_query
  ]
  check_mode pool client allowed_sender_phone value =
      if is_valid_phone_sender_id value then none else some sender_not_allowed
  check_mode pool client allowed_sender_any value =
      if is_valid_any_sender_id pool value then none else some sender_not_allowed

  -- ValidateClientSenderID
  unfoldable pub validate_client_sender_id :
      Option SenderQueries → Text → Text → Text → Option SenderError
  unfolding parse_allowed_sender_ids_mode check_mode
  validate_client_sender_id pool client mode raw =
      let value = trim_space raw in
      if is_empty value
      then some sender_required
      else if ltb max_sender_id_runes (length value)
      then some sender_too_long
      else elim (parse_allowed_sender_ids_mode mode) [
        | none ↦ some invalid_mode
        | some m ↦ check_mode pool client m value
      ]

  -- ClientAllowsSenderID
  unfoldable pub client_allows_sender_id : Option SenderQueries → Text → Text → Text → Bool
  unfolding validate_client_sender_id
  client_allows_sender_id pool client mode value =
      is_nil (validate_client_sender_id pool client mode value)

  -- ValidateDefaultSenderID; with no pool the query of a new client's list is a panic
  unfoldable pub validate_default_sender_id :
      SenderQueries → Text → Text → Text → Option SenderError
  unfolding validate_client_sender_id parse_allowed_sender_ids_mode
  validate_default_sender_id q client mode raw =
      let value = trim_space raw in
      if is_empty value then none else elim (parse_allowed_sender_ids_mode mode) [
        | none ↦ some invalid_mode
        | some allowed_sender_list ↦
            if is_empty (trim_space client)
            then elim (q.active_anywhere value) [
              | found ↦ none
              | no_rows ↦ some sender_not_allowed
              | failed ↦ some sender_query
            ]
            else validate_client_sender_id (some q) client (codes "list") value
        | some allowed_sender_phone ↦
            validate_client_sender_id (some q) client (codes "phone") value
        | some allowed_sender_any ↦ validate_client_sender_id (some q) client (codes "any") value
      ]

  -- The second half of ResolveSenderID: no sender is asked for.
  unfoldable pub default_sender :
      SenderQueries → SenderClient → Text → Result SenderError Resolution
  unfolding client_allows_sender_id
  default_sender q c system_default =
      let val = client_default q c in
      if not (is_empty val) && client_allows_sender_id (some q) c.client_id (client_mode q c) val
      then ok (record { value = val; source = codes "client_default" })
      else default_row_or system_default (q.default_row c.client_id)

  -- The first half: `req` is asked for.
  unfoldable pub requested_sender :
      SenderQueries → SenderClient → Text → Result SenderError Resolution
  unfolding client_allows_sender_id
  requested_sender q c req = elim (q.mode_of c.client_id) [
    | none ↦ err sender_query
    | some mode ↦
        if client_allows_sender_id (some q) c.client_id mode req
        then ok (record { value = req; source = codes "client_provided" })
        else err sender_not_allowed
  ]

  -- ResolveSenderID
  unfoldable pub resolve_sender_id :
      Option SenderQueries → SenderClient → Text → Text → Result SenderError Resolution
  unfolding requested_sender default_sender
  resolve_sender_id pool c requested system_default =
      let req = trim_space requested in
      if text_eq req (codes "any")
      then ok (record { value = system_default; source = codes "carrier_default" })
      else elim pool [
        | none ↦
            if not (is_empty req)
            then err sender_not_allowed
            else ok (record { value = system_default; source = codes "client_default" })
        | some q ↦
            if not (is_empty req)
            then requested_sender q c req
            else default_sender q c system_default
      ]
