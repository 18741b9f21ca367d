-- ===== src/Billing/Rate.antt =====
-- minisms/internal/billing/rate.go and carrier_charge.go: the rate of a destination.
-- The rows of a query come as a list, in the order in which PostgreSQL returns them.
use mini_sms.Prelude.{ℕ, ◌≡◌, refl, Option, none, some, List, [], ◌∷◌, arith, if◌then◌else◌}
use mini_sms.Text.{Text, is_empty}
use mini_sms.Matching.{normalize, longest}
use mini_sms.Matching.Laws.{Answers, longest-Answers}

pub record RateEntry : Type 0 where
  pub rate_entry_id : Text
  pub prefix : Text
  pub rate_per_sms : ℕ

abbrev pub prefix_of : RateEntry → Text
prefix_of e = e.prefix

unfoldable pub longest_prefix_rate : List RateEntry → Text → Option RateEntry
longest_prefix_rate entries destination = longest prefix_of (normalize destination) entries

pub data RateError : Type 0 where
  query_failed no_rate : RateError

pub data RateResult : Type 0 where
  found : RateEntry → RateResult
  failed : RateError → RateResult

-- `rows` is none if the query, a Scan or rows.Err() reports an error
unfoldable pub lookup_rate : Option (List RateEntry) → Text → RateResult
lookup_rate none destination = failed query_failed
lookup_rate (some entries) destination = elim (longest_prefix_rate entries destination) [
  | none ↦ failed no_rate
  | some e ↦ found e
]

-- The answer of the query for a carrier's rate group.
pub data CarrierRow : Type 0 where
  missing broken : CarrierRow
  row : Option Text → CarrierRow

-- LookupCarrierCost; none is an error
unfoldable pub lookup_carrier_cost :
    CarrierRow → (Text → Option (List RateEntry)) → Text → ℕ → Option ℕ
lookup_carrier_cost missing rows destination fallback = some fallback
lookup_carrier_cost broken rows destination fallback = none
lookup_carrier_cost (row none) rows destination fallback = some fallback
lookup_carrier_cost (row (some g)) rows destination fallback =
    if is_empty g then some fallback else elim (lookup_rate (rows g) destination) [
      | found e ↦ some e.rate_per_sms
      | failed x ↦ some fallback
    ]

-- What a lookup's answer says of the entries of the rate group.
abbrev pub RateAnswers : List RateEntry → Text → RateResult → Type 0
RateAnswers entries destination (found e) =
    Answers prefix_of (normalize destination) entries (some e)
RateAnswers entries destination (failed no_rate) =
    Answers prefix_of (normalize destination) entries none
RateAnswers entries destination (failed query_failed) = ⊥

-- When the query succeeds, the price of a destination is that of the first of the longest matching
-- prefixes among the entries of the rate group; if no prefix matches, that of the first `*` entry;
-- and ErrNoRate is returned only if no entry matches and none is `*`.
pub lookup_rate-RateAnswers :
    (entries : List RateEntry) (destination : Text)
    → RateAnswers entries destination (lookup_rate (some entries) destination)
unfolding lookup_rate longest_prefix_rate
lookup_rate-RateAnswers entries destination =
    answer _ (longest-Answers prefix_of (normalize destination) entries)
  where
    answer :
        (o : Option RateEntry)
        → Answers prefix_of (normalize destination) entries o
        → RateAnswers entries destination (elim o [ none ↦ failed no_rate | some e ↦ found e ])
    answer none h = h
    answer (some e) h = h

-- The cost lookup fails only if the carrier's own row cannot be read: a missing carrier, a carrier
-- without a rate group and a rate lookup that fails in any way fall back to the client's rate.
pub lookup_carrier_cost-none :
    (r : CarrierRow) (rows : Text → Option (List RateEntry)) (destination : Text) (fallback : ℕ)
    → lookup_carrier_cost r rows destination fallback ≡ none
    → r ≡ broken
unfolding lookup_carrier_cost
lookup_carrier_cost-none missing rows destination fallback h = cc
lookup_carrier_cost-none broken rows destination fallback h = refl
lookup_carrier_cost-none (row none) rows destination fallback h = cc
lookup_carrier_cost-none (row (some [])) rows destination fallback h = cc
lookup_carrier_cost-none (row (some (c ∷ g))) rows destination fallback h = ground arith
