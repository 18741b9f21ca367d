-- ===== src/Carrier/UrlGuard.antt =====
-- minisms/internal/carrier/urlguard.go: which addresses a request may go to. url.Parse,
-- net.ParseIP and net.LookupIP are parameters; a net.IP is its list of bytes, empty for nil.
pub mod Public
use mathlib.Core.List.{reverse}
use mini_sms.Prelude.{
  ℕ, ◌/◌, ◌%◌, Bool, true, false, not, ◌&&◌, ◌||◌, Option, none, some, List, [], ◌∷◌, any, all,
  length, take, drop, if◌then◌else◌, ◌==◌,
}
use mini_sms.Text.{Text, Unicode, codes, text_eq, has_prefix, is_empty, trim_space}

abbrev pub Ip : Type 0
Ip = List ℕ

pub record Url : Type 0 where
  pub scheme : Text
  pub hostname : Text

-- none is an error
pub record Resolver : Type 0 where
  pub parse_url : Text → Option Url
  pub parse_ip : Text → Option Ip
  pub lookup_ip : Text → Option (List Ip)

pub data UrlError : Type 0 where
  invalid_url scheme_not_http host_required host_not_allowed ip_not_allowed : UrlError
  lookup_failed no_addresses resolves_to_blocked : UrlError

abbrev pub four_of : List ℕ → Option (ℕ × ℕ × ℕ × ℕ)
four_of (a ∷ b ∷ c ∷ d ∷ []) = some (a, b, c, d)
four_of bytes = none

-- (net.IP).To4
unfoldable pub to4 : Ip → Option (ℕ × ℕ × ℕ × ℕ)
to4 ip =
    if length ip == 4
    then four_of ip
    else if length ip == 16
        && (all (λ z. z == 0) (take 10 ip) && text_eq (take 2 (drop 10 ip)) (255 ∷ 255 ∷ []))
    then four_of (drop 12 ip)
    else none

-- The tests that blockedIP makes of an IPv4 address: loopback, link-local unicast and multicast,
-- private, unspecified.
abbrev pub is_blocked4 : ℕ × ℕ × ℕ × ℕ → Bool
is_blocked4 (a, b, c, d) =
    a == 127
    || (a == 169 && b == 254)
    || (a == 224 && b == 0 && c == 0)
    || (a == 10 || (a == 172 && b / 16 == 1) || (a == 192 && b == 168))
    || (a == 0 && b == 0 && c == 0 && d == 0)
    || (a == 169 && b == 254 && c == 169 && d == 254)

-- ::1, or :: where the last byte is 0
abbrev pub ends_in : ℕ → Ip → Bool
ends_in n [] = false
ends_in n (b ∷ []) = b == n
ends_in n (b ∷ c ∷ ip) = b == 0 && ends_in n (c ∷ ip)

-- The same tests of another address, which has 16 bytes.
abbrev pub is_blocked6 : Ip → Bool
is_blocked6 (a ∷ b ∷ ip) =
    ends_in 1 (a ∷ b ∷ ip)
    || (a == 254 && b / 64 == 2)
    || (a == 255 && b % 16 == 2)
    || a / 2 == 126
    || ends_in 0 (a ∷ b ∷ ip)
is_blocked6 ip = false

abbrev pub blocked_by : Ip → Option (ℕ × ℕ × ℕ × ℕ) → Bool
blocked_by ip none = is_blocked6 ip
blocked_by ip (some four) = is_blocked4 four

-- blockedIP
unfoldable pub blocked_ip : Ip → Bool
unfolding to4
blocked_ip [] = true
blocked_ip (b ∷ ip) = blocked_by (b ∷ ip) (to4 (b ∷ ip))

-- strings.HasSuffix(s, p)
abbrev pub has_suffix : Text → Text → Bool
has_suffix s p = has_prefix (reverse s) (reverse p)

-- strings.TrimSuffix(s, ".")
abbrev pub trim_dot : Text → Text
trim_dot [] = []
trim_dot (c ∷ s) = if is_empty s && c == b'.' then [] else c ∷ trim_dot s

-- blockedHostname
unfoldable pub blocked_hostname : Unicode → Text → Bool
blocked_hostname u host =
    let h = u.to_lower (trim_dot host) in
    any (text_eq h) (
      codes "localhost"
      ∷ codes "localhost.localdomain"
      ∷ codes "metadata"
      ∷ codes "metadata.google.internal"
      ∷ [])
    || has_suffix h (codes ".localhost")
    || has_suffix h (codes ".local")

abbrev pub check_addresses : Option (List Ip) → Option UrlError
check_addresses none = some lookup_failed
check_addresses (some []) = some no_addresses
check_addresses (some (ip ∷ ips)) =
    if any blocked_ip (ip ∷ ips) then some resolves_to_blocked else none

abbrev pub check_host : Unicode → Resolver → Text → Option UrlError
check_host u net host =
    if is_empty host
    then some host_required
    else if blocked_hostname u host
    then some host_not_allowed
    else elim (net.parse_ip host) [
      | some ip ↦ if blocked_ip ip then some ip_not_allowed else none
      | none ↦ check_addresses (net.lookup_ip host)
    ]

-- The URL as it is parsed.
abbrev pub check_url : Unicode → Resolver → Option Url → Option UrlError
check_url u net none = some invalid_url
check_url u net (some url) =
    if not (text_eq url.scheme (codes "http")) && not (text_eq url.scheme (codes "https"))
    then some scheme_not_http
    else check_host u net (trim_space url.hostname)

-- ValidateEndpointURL; none is no error
unfoldable pub validate_endpoint_url : Unicode → Resolver → Text → Option UrlError
unfolding blocked_hostname blocked_ip
validate_endpoint_url u net raw = check_url u net (net.parse_url (trim_space raw))
