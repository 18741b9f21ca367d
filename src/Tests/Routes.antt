-- ===== src/Tests/Routes.antt =====
-- minisms/internal/billing, routing, routecache and sending/route.go at small tables.
use mini_sms.Prelude.{◌≡◌, refl, true, none, some, List, [], ◌∷◌, All, length, ◌⊎◌}
use mini_sms.Prelude.Int.{pos}
use mini_sms.Text.{Text, codes}
use mini_sms.Matching.{normalize}
use mini_sms.Matching.Laws.{Answers}
use mini_sms.Billing.Rate
use mini_sms.Billing.Rate.{
  RateEntry, RateAnswers, row, broken, lookup_rate, lookup_rate-RateAnswers, lookup_carrier_cost,
  lookup_carrier_cost-none, found,
}
use mini_sms.Billing.Segments.{gsm7, ucs2, in_gsm7, Holds, segment_info, segment_info-Holds}
use mini_sms.Routing.Matcher
use mini_sms.Routing.Matcher.{longest_prefix_match, active_only, longest_prefix_match-Answers}
use mini_sms.Routing.Cache
use mini_sms.Routing.Cache.{RouteEntry, RouteRow, Source, new, reload}
use mini_sms.Routing.Lookup.{lookup_route_entry, cache-agrees}
use mini_sms.Tests.Carriers.{no_regexp}

abbrev pub rates : List RateEntry
rates =
    (record { rate_entry_id = codes "a"; prefix = codes "*"; rate_per_sms = 50000 }
      ∷ record { rate_entry_id = codes "b"; prefix = codes "44"; rate_per_sms = 30000 }
      ∷ record { rate_entry_id = codes "c"; prefix = codes "4477"; rate_per_sms = 20000 }
      ∷ [])

lookup_rate_example :
    RateAnswers rates (codes "+44 7700") (lookup_rate (some rates) (codes "+44 7700"))
lookup_rate_example = lookup_rate-RateAnswers rates (codes "+44 7700")

cheapest_is_longest :
    lookup_rate (some rates) (codes "+44 7700")
    ≡ found (record { rate_entry_id = codes "c"; prefix = codes "4477"; rate_per_sms = 20000 })
unfolding lookup_rate Rate.longest_prefix_rate mini_sms.Matching.longest mini_sms.Matching.scan
    mini_sms.Matching.scan_entry mini_sms.Text.text_eq mini_sms.Text.has_prefix normalize
    mini_sms.Text.keep mini_sms.Text.trim_plus mini_sms.Text.trim_space mini_sms.Text.is_ascii_digit
    mini_sms.Text.byte_len
cheapest_is_longest = refl

segment_info-Holds_example :
    (((segment_info (codes "10€")).encoding ≡ gsm7)
      × All (λ r. in_gsm7 r ≡ true) (codes "10€")
      × Holds (length (codes "10€")) 160 (segment_info (codes "10€")).segments)
    ⊎ (((segment_info (codes "10€")).encoding ≡ ucs2)
        × (¬ All (λ r. in_gsm7 r ≡ true) (codes "10€"))
        × Holds (length (codes "10€")) 70 (segment_info (codes "10€")).segments)
segment_info-Holds_example = segment_info-Holds (codes "10€")

abbrev entries : List Matcher.RouteEntry
entries =
    (record { prefix = codes "44"; status = codes "inactive" }
      ∷ record { prefix = codes "*"; status = codes "active" }
      ∷ [])

longest_prefix_match-Answers_example :
    Answers Matcher.prefix_of
      (normalize (codes "447"))
      (active_only entries)
      (longest_prefix_match entries (codes "447"))
longest_prefix_match-Answers_example = longest_prefix_match-Answers entries (codes "447")

abbrev entry : RouteEntry
entry = record {
  route_entry_id = codes "r";
  prefix = codes "44";
  primary_carrier_id = codes "c";
  failover1_carrier_id = none;
  failover2_carrier_id = none;
  distribution_mode = codes "failover";
  primary_weight = pos 100;
  failover1_weight = pos 0;
  failover2_weight = pos 0;
}

abbrev pub table : List RouteRow
table = record { routing_group_id = codes "g"; status = codes "active"; entry = entry } ∷ []

abbrev source : Source no_regexp Unit Unit
source = record {
  route_rows = some table;
  carrier_rows = some [];
  template_map = none;
  header_map = none;
  rule_configs = none;
}

abbrev loaded : Cache.Cache no_regexp Unit Unit
loaded = (reload no_regexp Unit Unit (λ t. t) (new no_regexp Unit Unit) source).0

cache-agrees_example :
    lookup_route_entry no_regexp Unit Unit (some loaded) none (some (codes "g")) (codes "447")
    ≡ lookup_route_entry no_regexp Unit Unit none (some table) (some (codes "g")) (codes "447")
cache-agrees_example =
    cache-agrees no_regexp Unit Unit (λ t. t) (new no_regexp Unit Unit) source table none
      (some (codes "g")) (codes "447") refl (unfold reload in refl)
