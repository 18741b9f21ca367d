-- ===== src/Tests/Requests.antt =====
-- Templates of requests to carriers, and receipts to sessions, on small inputs.
use mini_sms.Prelude.{
  ℕ, ◌≡◌, ◌<◌, refl, true, Option, none, some, List, [], ◌∷◌, All, arith, if◌then◌else◌, Bool-cases,
  inl, inr,
}
use mini_sms.Text.{Text, codes, text_eq, trim_space}
use mini_sms.Tests.Delivery.{ascii}
use mini_sms.Tests.Office.{end, unsent}
use mini_sms.Tests.Smpp.{sessions_at, one_bound, one_bound-History}
use mini_sms.Dlr.Status.{delivered}
use mini_sms.Dlr.Forward.{forward_to_client, receipt_stat}
use mini_sms.Smpp.Sessions.Registered.{Longest}
use mini_sms.Smpp.Deliver.{build_delivery_receipt, deliver_on}
use mini_sms.Smpp.Deliver.Forwarded.{with_server, settled, forward-with_server}
use mini_sms.Carrier.UrlGuard.{Resolver, validate_endpoint_url}
use mini_sms.Carrier.UrlGuard.Public.{
  Accepted, GivesBytes, addresses, validate_endpoint_url-Accepted,
}
use mini_sms.Carrier.Template.{
  template_keys, inject_variables, inject_query_variables, query_value, encoded_key,
}
use mini_sms.Carrier.Template.Expansion.{
  Piece, literal, variable, Plain, WellFormed, print, expand, inject-Expands,
}
use mini_sms.Carrier.Template.Escape.{IsUnicode, occurrences, inject_query-Separators}

-- t={{to}}&{{x}}
abbrev pieces : List Piece
pieces =
    literal b't' ∷ literal b'=' ∷ variable (codes "to") ∷ literal b'&' ∷ variable (codes "x") ∷ []

abbrev keys : List Text
keys = codes "text" ∷ codes "to" ∷ []

abbrev vars : Text → Text
vars k = if text_eq k (codes "to") then codes "+1 &" else []

keys-Plain : All Plain keys
keys-Plain = ground arith

pieces-WellFormed : All WellFormed pieces
pieces-WellFormed = ground arith

inject-Expands_example :
    (inject_variables vars (print pieces) ≡ expand vars template_keys pieces)
    × (inject_query_variables keys vars (print pieces) ≡ expand (query_value vars) keys pieces)
inject-Expands_example = inject-Expands keys vars pieces keys-Plain pieces-WellFormed

query_runs : inject_query_variables keys vars (codes "t={{to}}&{{x}}") ≡ codes "t=%2B1+%26&{{x}}"
unfolding inject_query_variables text_eq mini_sms.Text.has_prefix
query_runs = refl

vars-IsUnicode : (k : Text) → IsUnicode (vars k)
vars-IsUnicode k = elim (Bool-cases (text_eq k (codes "to"))) [
  | inl e ↦ rw e (ground arith)
  | inr e ↦ rw e tt
]

no_callback : occurrences b'&' (vars encoded_key) ≡ 0
unfolding text_eq
no_callback = refl

inject_query-Separators_example :
    occurrences b'&' (inject_query_variables keys vars (print pieces))
    ≡ occurrences b'&' (expand (λ k. []) keys pieces)
inject_query-Separators_example =
    inject_query-Separators keys vars pieces b'&' keys-Plain pieces-WellFormed refl vars-IsUnicode
      no_callback

abbrev now : Text
now = codes "2601021504"

smpp_mode : ascii.to_lower (trim_space (codes " smpp")) ≡ codes "smpp"
unfolding trim_space
smpp_mode = refl

forward-with_server_example :
    (o : Option ℕ) × Longest sessions_at (codes "acme") one_bound.sessions o
    × (forward_to_client
          (with_server end ascii (λ p s. true) now one_bound (codes "acme") (codes "m"))
          ascii
          (codes " smpp")
          none
          delivered
          unsent
        ≡ settled end.stores
            (deliver_on
              (λ p s. true)
              (build_delivery_receipt now (codes "m") (receipt_stat ascii delivered))
              o)
            unsent)
forward-with_server_example =
    forward-with_server end ascii (λ p s. true) now sessions_at one_bound (codes "acme") (codes "m")
      (codes " smpp") none delivered unsent one_bound-History smpp_mode

-- Every URL is one of https on example.org, which has one address.
abbrev net : Resolver
net = record {
  parse_url = λ s. some (record { scheme = codes "https"; hostname = codes "example.org" });
  parse_ip = λ s. none;
  lookup_ip = λ s. some ((93 ∷ 184 ∷ 216 ∷ 34 ∷ []) ∷ []);
}

net-GivesBytes : (host : Text) → GivesBytes (addresses net host)
net-GivesBytes host = (by_bytes, tt)
  where
    by_bytes : All (λ b. b < 256) (93 ∷ 184 ∷ 216 ∷ 34 ∷ [])
    by_bytes = ground arith

net_is_allowed : validate_endpoint_url ascii net (codes "https://example.org") ≡ none
unfolding validate_endpoint_url trim_space text_eq mini_sms.Text.has_prefix
net_is_allowed = refl

validate_endpoint_url-Accepted_example :
    Accepted net (net.parse_url (trim_space (codes "https://example.org")))
validate_endpoint_url-Accepted_example =
    validate_endpoint_url-Accepted ascii net (codes "https://example.org") net-GivesBytes
      net_is_allowed
