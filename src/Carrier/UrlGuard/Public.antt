-- ===== src/Carrier/UrlGuard/Public.antt =====
-- The addresses that are left when ValidateEndpointURL accepts a URL.
use mini_sms.Prelude.{
  ℕ, ◌+◌, ◌*◌, ◌/◌, ◌==◌, ◌≡◌, ◌≢◌, ◌<◌, ◌⊎◌, Bool, false, ◌&&◌, ◌||◌, Option, none, some, List, [],
  ◌∷◌, any, all, All, length, take, drop, zero, suc, if◌then◌else◌, arith, Bool-cases, inl, inr,
}
use mini_sms.Text.{Text, Unicode, codes, is_empty, trim_space, text_eq}
use mini_sms.Text.Laws.{text_eq_sound}
use mini_sms.Carrier.UrlGuard.{
  Ip, Url, Resolver, ip_not_allowed, four_of, to4, is_blocked4, is_blocked6, ends_in, blocked_by,
  blocked_ip, blocked_hostname, check_addresses, check_host, check_url, validate_endpoint_url,
}

-- A network is the size of its blocks and which of them it is.
abbrev pub within : ℕ × ℕ → ℕ → Bool
within (size, k) n = n / size == k

-- 127.0.0.0/8, 169.254.0.0/16, 224.0.0.0/24, 10.0.0.0/8, 172.16.0.0/12, 192.168.0.0/16, 0.0.0.0/32
abbrev pub ranges4 : List (ℕ × ℕ)
ranges4 =
    (16777216, 127)
    ∷ (65536, 43518)
    ∷ (256, 14680064)
    ∷ (16777216, 10)
    ∷ (1048576, 2753)
    ∷ (65536, 49320)
    ∷ (1, 0)
    ∷ []

-- fe80::/10 and fc00::/7, by the first 16 bits
abbrev pub ranges6 : List (ℕ × ℕ)
ranges6 = (64, 1018) ∷ (512, 126) ∷ []

-- An IPv4 address as a number.
abbrev pub number : ℕ × ℕ × ℕ × ℕ → ℕ
number (a, b, c, d) = a * 16777216 + b * 65536 + c * 256 + d

abbrev pub AreBytes : List ℕ → Type 0
AreBytes bytes = All (λ b. b < 256) bytes

none_holds :
    (x y z p q r v w : Bool)
    → (x || y || z || (p || q || r) || v || w) ≡ false
    → (x || (y || (z || (p || (q || (r || (v || false))))))) ≡ false
none_holds x y z p q r v w h = ground arith

module _ (a b c d : ℕ) (ha : a < 256) (hb : b < 256) (hc : c < 256) (hd : d < 256) where
  by_24 : number (a, b, c, d) / 16777216 ≡ a
  by_24 = omega arith

  by_20 : number (a, b, c, d) / 1048576 ≡ a * 16 + b / 16
  by_20 = omega arith

  by_16 : number (a, b, c, d) / 65536 ≡ a * 256 + b
  by_16 = omega arith

  by_8 : number (a, b, c, d) / 256 ≡ a * 65536 + b * 256 + c
  by_8 = omega arith

  by_1 : number (a, b, c, d) / 1 ≡ number (a, b, c, d)
  by_1 = omega arith

  test_16 : (p q : ℕ) → q < 256 → (a * 256 + b == p * 256 + q) ≡ (a == p && b == q)
  test_16 p q l = ground arith

  test_20 : (a * 16 + b / 16 == 2753) ≡ (a == 172 && b / 16 == 1)
  test_20 = ground arith

  test_8 : (a * 65536 + b * 256 + c == 14680064) ≡ (a == 224 && b == 0 && c == 0)
  test_8 = ground arith

  test_1 : (number (a, b, c, d) == 0) ≡ (a == 0 && b == 0 && c == 0 && d == 0)
  test_1 = ground arith

  blocked4_ranges :
      is_blocked4 (a, b, c, d) ≡ false → any (λ r. within r (number (a, b, c, d))) ranges4 ≡ false
  blocked4_ranges h =
      rw
        (
          by_24,
          by_20,
          by_16,
          by_8,
          by_1,
          test_16 169 254 (omega arith),
          test_16 192 168 (omega arith),
          test_20,
          test_8,
          test_1,
        )
        (none_holds (a == 127) (a == 169 && b == 254) (a == 224 && b == 0 && c == 0) (a == 10)
          (a == 172 && b / 16 == 1) (a == 192 && b == 168) (a == 0 && b == 0 && c == 0 && d == 0)
          (a == 169 && b == 254 && c == 169 && d == 254) h)

blocked6_ranges :
    (a b : ℕ) (ip : Ip)
    → a < 256
    → b < 256
    → is_blocked6 (a ∷ b ∷ ip) ≡ false
    → any (λ r. within r (a * 256 + b)) ranges6 ≡ false
blocked6_ranges a b ip ha hb h = ground arith

-- What is left of the addresses.
abbrev pub PublicSix : Ip → Type 0
PublicSix (a ∷ b ∷ rest) =
    (any (λ r. within r (a * 256 + b)) ranges6 ≡ false)
    × (ends_in 0 (a ∷ b ∷ rest) ≡ false)
    × (ends_in 1 (a ∷ b ∷ rest) ≡ false)
PublicSix rest = Unit

abbrev pub PublicBy : Ip → Option (ℕ × ℕ × ℕ × ℕ) → Type 0
PublicBy ip none = PublicSix ip
PublicBy ip (some four) = any (λ r. within r (number four)) ranges4 ≡ false

abbrev pub IsPublic : Ip → Type 0
IsPublic ip = PublicBy ip (to4 ip)

abbrev FourBytes : Option (ℕ × ℕ × ℕ × ℕ) → Type 0
FourBytes none = Unit
FourBytes (some (a, b, c, d)) = (a < 256) × (b < 256) × (c < 256) × (d < 256)

four_of-FourBytes : (bytes : List ℕ) → AreBytes bytes → FourBytes (four_of bytes)
four_of-FourBytes [] h = tt
four_of-FourBytes (a ∷ []) h = tt
four_of-FourBytes (a ∷ b ∷ []) h = tt
four_of-FourBytes (a ∷ b ∷ c ∷ []) h = tt
four_of-FourBytes (a ∷ b ∷ c ∷ d ∷ []) h = (h.0, h.1.0, h.1.1.0, h.1.1.1.0)
four_of-FourBytes (a ∷ b ∷ c ∷ d ∷ e ∷ bytes) h = tt

AreBytes-drop : (n : ℕ) (bytes : List ℕ) → AreBytes bytes → AreBytes (drop n bytes)
AreBytes-drop zero bytes h = h
AreBytes-drop (suc n) [] h = tt
AreBytes-drop (suc n) (b ∷ bytes) h = AreBytes-drop n bytes h.1

to4-FourBytes : (ip : Ip) → AreBytes ip → FourBytes (to4 ip)
unfolding to4
to4-FourBytes ip h = elim (Bool-cases (length ip == 4)) [
  | inl e ↦ rw e (four_of-FourBytes ip h)
  | inr e ↦
      elim (Bool-cases (
        length ip == 16
        && (all (λ z. z == 0) (take 10 ip) && text_eq (take 2 (drop 10 ip)) (255 ∷ 255 ∷ [])))) [
          | inl f ↦ rw (e, f) (four_of-FourBytes (drop 12 ip) (AreBytes-drop 12 ip h))
          | inr f ↦ rw (e, f) tt
        ]
]

six-PublicSix : (ip : Ip) → AreBytes ip → is_blocked6 ip ≡ false → PublicSix ip
six-PublicSix [] h e = tt
six-PublicSix (a ∷ []) h e = tt
six-PublicSix (a ∷ b ∷ ip) h e = (blocked6_ranges a b ip h.0 h.1.0 e, ground arith, ground arith)

by-PublicBy :
    (ip : Ip) (o : Option (ℕ × ℕ × ℕ × ℕ))
    → AreBytes ip
    → FourBytes o
    → blocked_by ip o ≡ false
    → PublicBy ip o
by-PublicBy ip none h f e = six-PublicSix ip h e
by-PublicBy ip (some (a, b, c, d)) h f e = blocked4_ranges a b c d f.0 f.1 f.2 f.3 e

blocked_ip-IsPublic : (ip : Ip) → AreBytes ip → blocked_ip ip ≡ false → IsPublic ip
unfolding blocked_ip
blocked_ip-IsPublic [] h e = absurd (cc)
blocked_ip-IsPublic (b ∷ ip) h e =
    by-PublicBy (b ∷ ip) (to4 (b ∷ ip)) h (to4-FourBytes (b ∷ ip) h) e

blocked_ips-IsPublic :
    (ips : List Ip) → All AreBytes ips → any blocked_ip ips ≡ false → All IsPublic ips
blocked_ips-IsPublic [] h e = tt
blocked_ips-IsPublic (ip ∷ ips) h e =
    let (this, rest) = neither (blocked_ip ip) (any blocked_ip ips) e in
    (blocked_ip-IsPublic ip h.0 this, blocked_ips-IsPublic ips h.1 rest)
  where
    neither : (x y : Bool) → (x || y) ≡ false → (x ≡ false) × (y ≡ false)
    neither x y e = ground arith

-- The addresses of a host: the one that it is, or those that it resolves to.
abbrev pub addresses : Resolver → Text → Option (List Ip)
addresses net host = elim (net.parse_ip host) [
  | some ip ↦ some (ip ∷ [])
  | none ↦ net.lookup_ip host
]

abbrev pub AllPublic : Option (List Ip) → Type 0
AllPublic none = ⊥
AllPublic (some ips) = (ips ≢ []) × All IsPublic ips

-- What net promises of the addresses that it gives.
abbrev pub GivesBytes : Option (List Ip) → Type 0
GivesBytes none = Unit
GivesBytes (some ips) = All AreBytes ips

check_addresses-AllPublic :
    (o : Option (List Ip)) → GivesBytes o → check_addresses o ≡ none → AllPublic o
check_addresses-AllPublic none g e = absurd (cc)
check_addresses-AllPublic (some []) g e = absurd (cc)
check_addresses-AllPublic (some (ip ∷ ips)) g e = elim (Bool-cases (any blocked_ip (ip ∷ ips))) [
  | inl f ↦ absurd (ground (arith))
  | inr f ↦ (λ q. absurd (cc), blocked_ips-IsPublic (ip ∷ ips) g f)
]

host-AllPublic :
    (net : Resolver) (host : Text) (o : Option Ip)
    → GivesBytes (elim o [ some ip ↦ some (ip ∷ []) | none ↦ net.lookup_ip host ])
    → elim o [
      | some ip ↦ if blocked_ip ip then some ip_not_allowed else none
      | none ↦ check_addresses (net.lookup_ip host)
    ]
      ≡ none
    → AllPublic (elim o [ some ip ↦ some (ip ∷ []) | none ↦ net.lookup_ip host ])
host-AllPublic net host none g e = check_addresses-AllPublic (net.lookup_ip host) g e
host-AllPublic net host (some ip) g e = elim (Bool-cases (blocked_ip ip)) [
  | inl f ↦ absurd (ground arith)
  | inr f ↦ (λ q. absurd (cc), (blocked_ip-IsPublic ip g.0 f, tt))
]

check_host-AllPublic :
    (u : Unicode) (net : Resolver) (host : Text)
    → GivesBytes (addresses net host)
    → check_host u net host ≡ none
    → AllPublic (addresses net host)
check_host-AllPublic u net host g e = elim (Bool-cases (is_empty host)) [
  | inl f ↦ absurd (ground arith)
  | inr f ↦ elim (Bool-cases (blocked_hostname u host)) [
    | inl k ↦ absurd (ground arith)
    | inr k ↦ host-AllPublic net host (net.parse_ip host) g (rw (f, k) at e)
  ]
]

abbrev pub Accepted : Resolver → Option Url → Type 0
Accepted net none = ⊥
Accepted net (some url) =
    ((url.scheme ≡ codes "http") ⊎ (url.scheme ≡ codes "https"))
    × AllPublic (addresses net (trim_space url.hostname))

check_url-Accepted :
    (u : Unicode) (net : Resolver) (o : Option Url)
    → ((host : Text) → GivesBytes (addresses net host))
    → check_url u net o ≡ none
    → Accepted net o
check_url-Accepted u net none g e = absurd (cc)
check_url-Accepted u net (some url) g e =
    let safe = check_host-AllPublic u net (trim_space url.hostname) (g (trim_space url.hostname)) in
    elim (Bool-cases (text_eq url.scheme (codes "http"))) [
      | inl f ↦ (inl (text_eq_sound url.scheme (codes "http") f), safe (rw f at e))
      | inr f ↦ elim (Bool-cases (text_eq url.scheme (codes "https"))) [
        | inl k ↦ (inr (text_eq_sound url.scheme (codes "https") k), safe (rw (f, k) at e))
        | inr k ↦ absurd (ground arith)
      ]
    ]

-- A URL that ValidateEndpointURL accepts is one of http or https whose host is an address, or
-- resolves to at least one; all of these are outside of the networks that are written out as ranges.
-- The parts of the addresses that the resolver gives are bytes.
pub validate_endpoint_url-Accepted :
    (u : Unicode) (net : Resolver) (raw : Text)
    → ((host : Text) → GivesBytes (addresses net host))
    → validate_endpoint_url u net raw ≡ none
    → Accepted net (net.parse_url (trim_space raw))
unfolding validate_endpoint_url
validate_endpoint_url-Accepted u net raw g e =
    check_url-Accepted u net (net.parse_url (trim_space raw)) g e
