-- ===== src/Smpp/Cidr.antt =====
-- minisms/internal/smpp/server/cidr.go: the addresses that a client may bind from. Package net is a
-- parameter; the remote address is what addr.String() prints, none for nil.
use mini_sms.Prelude.{
  ℕ, Bool, true, false, Option, none, some, List, [], ◌∷◌, if◌then◌else◌, ◌==◌, any,
}
use mini_sms.Text.{Text, is_empty, trim_space}

pub record Net : Type 1 where
  pub Ip : Type 0
  pub Network : Type 0
  pub split_host_port : Text → Option Text
  pub parse_ip : Text → Option Ip
  pub parse_cidr : Text → Option Network
  pub contains : Network → Ip → Bool
  pub equal : Ip → Ip → Bool

-- A character goes before the first piece.
abbrev pub onto_first : ℕ → List Text → List Text
onto_first c [] = (c ∷ []) ∷ []
onto_first c (p ∷ ps) = (c ∷ p) ∷ ps

-- strings.Split at one character
unfoldable pub split_at : ℕ → Text → List Text
split_at sep [] = [] ∷ []
split_at sep (c ∷ s) =
    let rest = split_at sep s in if c == sep then [] ∷ rest else onto_first c rest

module _ (n : Net) where
  -- The host of the remote address, as both remoteIP and remoteHost find it.
  abbrev pub host_part : Text → Text
  host_part addr = elim (n.split_host_port addr) [ none ↦ addr | some host ↦ host ]

  -- remoteIP
  unfoldable pub remote_ip : Option Text → Option n.Ip
  remote_ip none = none
  remote_ip (some addr) = n.parse_ip (host_part addr)

  -- remoteHost
  unfoldable pub remote_host : Option Text → Option Text
  remote_host none = none
  remote_host (some addr) = if is_empty (host_part addr) then none else some (host_part addr)

  -- One part of the list, trimmed.
  unfoldable pub part_allows : n.Ip → Text → Bool
  part_allows ip part =
      if is_empty part
      then false
      else if any (λ c. c == b'/') part
      then elim (n.parse_cidr part) [ none ↦ false | some network ↦ n.contains network ip ]
      else elim (n.parse_ip part) [ none ↦ false | some pip ↦ n.equal pip ip ]

  abbrev pub some_part : n.Ip → List Text → Bool
  some_part ip [] = false
  some_part ip (p ∷ ps) =
      let rest = some_part ip ps in if part_allows ip (trim_space p) then true else rest

  -- cidrAllowed
  unfoldable pub cidr_allowed : Option Text → Option Text → Bool
  unfolding remote_ip part_allows split_at
  cidr_allowed addr none = false
  cidr_allowed addr (some allowed) =
      if is_empty (trim_space allowed)
      then false
      else elim (remote_ip addr) [ none ↦ false | some ip ↦ some_part ip (split_at b',' allowed) ]
