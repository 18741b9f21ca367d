-- ===== src/Carrier/Template.antt =====
-- minisms/internal/carrier/template.go: the placeholders of a request to a carrier. The map of the
-- variables is a function, empty for a missing key, with its keys in the order of an iteration.
pub mod Escape
pub mod Expansion
use mini_sms.Prelude.{
  ℕ, ◌+◌, ◌-◌, ◌*◌, ◌/◌, ◌%◌, Bool, true, false, ◌&&◌, ◌||◌, Option, none, some, List, [], ◌∷◌,
  ◌++◌, map, length, if◌then◌else◌, leb, ltb, ◌==◌,
}
use mini_sms.Text.{Text, codes, text_eq, has_prefix, is_empty}

-- "{{" + k + "}}"
abbrev pub braced : Text → Text
braced k = b'{' ∷ b'{' ∷ (k ++ (b'}' ∷ b'}' ∷ []))

-- The first pair of a strings.Replacer whose old text begins here.
abbrev pub find_pair : List (Text × Text) → Text → Option (Text × Text)
find_pair [] s = none
find_pair ((old, new) ∷ pairs) s = if has_prefix s old then some (old, new) else find_pair pairs s

-- What is written for a place in the text, and how much of an old text is still to be passed over.
abbrev pub step_at : ℕ → Option (Text × Text) → Text × ℕ
step_at c none = (c ∷ [], 0)
step_at c (some (old, new)) = (new, length old - 1)

-- (*strings.Replacer).Replace, with as many characters of an old text as are still to be passed over
unfoldable pub replace_from : List (Text × Text) → ℕ → Text → Text
replace_from pairs n [] = []
replace_from pairs n (c ∷ s) =
    let (out, skip) = if ltb 0 n then ([], n - 1) else step_at c (find_pair pairs (c ∷ s)) in
    out ++ replace_from pairs skip s

unfoldable pub replace : List (Text × Text) → Text → Text
unfolding replace_from
replace pairs s = replace_from pairs 0 s

-- The variables that InjectVariables names.
abbrev pub template_keys : List Text
template_keys =
    codes "to"
    ∷ codes "from"
    ∷ codes "message"
    ∷ codes "message_id"
    ∷ codes "timestamp"
    ∷ codes "client_id"
    ∷ codes "dlr_callback_url"
    ∷ codes "dlr_callback_url_encoded"
    ∷ codes "source_addr_ton"
    ∷ codes "source_addr_npi"
    ∷ codes "dest_addr_ton"
    ∷ codes "dest_addr_npi"
    ∷ []

-- The pairs of old and new texts that a replacer is made of.
abbrev pub pairs_of : (Text → Text) → List Text → List (Text × Text)
pairs_of f keys = map (λ k. (braced k, f k)) keys

-- InjectVariables
unfoldable pub inject_variables : (Text → Text) → Text → Text
unfolding replace
inject_variables vars tmpl =
    if is_empty tmpl then [] else replace (pairs_of vars template_keys) tmpl

-- The bytes of a code point in UTF-8.
abbrev pub utf8_bytes : ℕ → List ℕ
utf8_bytes c =
    if ltb c 128
    then c ∷ []
    else if ltb c 2048
    then (192 + c / 64) ∷ (128 + c % 64) ∷ []
    else if ltb c 65536
    then (224 + c / 4096) ∷ (128 + (c / 64) % 64) ∷ (128 + c % 64) ∷ []
    else (240 + c / 262144) ∷ (128 + (c / 4096) % 64) ∷ (128 + (c / 64) % 64) ∷ (128 + c % 64) ∷ []

-- The bytes that url.QueryEscape leaves as they are.
abbrev pub is_unreserved : ℕ → Bool
is_unreserved b =
    (leb b'a' b && leb b b'z')
    || (leb b'A' b && leb b b'Z')
    || (leb b'0' b && leb b b'9')
    || b == b'-'
    || b == b'_'
    || b == b'.'
    || b == b'~'

-- "0123456789ABCDEF"[n]
abbrev pub hex_digit : ℕ → ℕ
hex_digit n = if ltb n 10 then b'0' + n else 55 + n

abbrev pub escape_byte : ℕ → Text
escape_byte b =
    if is_unreserved b
    then b ∷ []
    else if b == 32
    then b'+' ∷ []
    else b'%' ∷ hex_digit (b / 16) ∷ hex_digit (b % 16) ∷ []

abbrev pub escape_bytes : List ℕ → Text
escape_bytes [] = []
escape_bytes (b ∷ bytes) = escape_byte b ++ escape_bytes bytes

-- url.QueryEscape
unfoldable pub query_escape : Text → Text
query_escape [] = []
query_escape (c ∷ s) = escape_bytes (utf8_bytes c) ++ query_escape s

abbrev pub encoded_key : Text
encoded_key = codes "dlr_callback_url_encoded"

-- The value that InjectQueryVariables puts in.
unfoldable pub query_value : (Text → Text) → Text → Text
unfolding query_escape
query_value vars k = if text_eq k encoded_key then vars k else query_escape (vars k)

-- InjectQueryVariables
unfoldable pub inject_query_variables : List Text → (Text → Text) → Text → Text
unfolding replace query_value
inject_query_variables keys vars tmpl =
    if is_empty tmpl then [] else replace (pairs_of (query_value vars) keys) tmpl
