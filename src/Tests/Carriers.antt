-- ===== src/Tests/Carriers.antt =====
-- minisms/internal/carrier at small configurations.
use mini_sms.Prelude.{ℕ, ◌≡◌, ◌↔◌, refl, true, false, ◌&&◌, Option, none, some, [], ◌∷◌, leb, All}
use mini_sms.Result.{ok, IsOk}
use mini_sms.Text.{Text, codes, is_ascii_digit}
use mini_sms.Carrier.NumRules.{
  Lib, Rule, Config, Compiled, CompiledRule, strip_leading_plus, add_prefix, compile, sender,
  destination, apply_rule,
}
use mini_sms.Carrier.NumRules.Laws.{
  WellFormed, compile-WellFormed, compile_refines, Ensures, apply_rule-Ensures, run,
}
use mini_sms.Carrier.TonNpi.{SmppConfig, fixed}
use mini_sms.Carrier.Eligibility.{
  Queries, Verdict, skipped, in_loss, found, Resolution, eligible, check_carrier_eligibility,
  effective_sender,
}
use mini_sms.Carrier.Eligibility.Laws.{PolicyHolds, LossHolds, eligible_sound}

-- No pattern compiles.
abbrev pub no_regexp : Lib
no_regexp = record {
  Re = Unit;
  compile_re = λ p. none;
  replace_all = λ re s r. s;
  is_letter = λ c. leb b'A' c && leb c b'z';
  is_digit = is_ascii_digit;
  to_upper = λ s. s;
}

abbrev pub plain_rule : Rule
plain_rule = record { type = strip_leading_plus; prefix = []; pattern = []; replacement = [] }

abbrev pub prefix_rule : Rule
prefix_rule = record { type = add_prefix; prefix = codes "00"; pattern = []; replacement = [] }

abbrev pub rules : Config
rules = record { sender = plain_rule ∷ []; destination = plain_rule ∷ prefix_rule ∷ [] }

compile-WellFormed_example :
    IsOk (compile no_regexp rules)
    ↔ (All (WellFormed no_regexp) rules.sender × All (WellFormed no_regexp) rules.destination)
compile-WellFormed_example = compile-WellFormed no_regexp rules

abbrev pub compiled : Option (Compiled no_regexp)
compiled = some (record {
  sender = record { rule = plain_rule; re = none } ∷ [];
  dest = record { rule = plain_rule; re = none } ∷ record { rule = prefix_rule; re = none } ∷ [];
})

compiles : compile no_regexp rules ≡ ok compiled
unfolding compile mini_sms.Carrier.NumRules.compile_rule
compiles = refl

compile_refines_example :
    (sender no_regexp compiled (codes "+44") ≡ run no_regexp rules.sender (codes "+44"))
    × (destination no_regexp compiled (codes "+44") ≡ run no_regexp rules.destination (codes "+44"))
compile_refines_example = compile_refines no_regexp rules compiled (codes "+44") compiles

destination_runs : destination no_regexp compiled (codes "+44") ≡ codes "0044"
unfolding destination apply_rule
destination_runs = refl

abbrev prefix_compiled : CompiledRule no_regexp
prefix_compiled = record { rule = prefix_rule; re = none }

abbrev unset : SmppConfig
unset = record {
  source_addr_ton = codes "dynamic";
  source_addr_npi = codes "dynamic";
  dest_addr_ton = codes "dynamic";
  dest_addr_npi = codes "dynamic";
}

dynamic_is_open : fixed (codes "dynamic") ≡ none
unfolding fixed mini_sms.Text.text_eq
dynamic_is_open = refl

apply_rule-Ensures_example :
    Ensures no_regexp add_prefix prefix_rule
      (apply_rule no_regexp add_prefix prefix_compiled (codes "44"))
apply_rule-Ensures_example = apply_rule-Ensures no_regexp prefix_compiled (codes "44")

abbrev pub queries : Queries
queries = record {
  default_sender = none;
  sender_listed = λ s. found;
  allow_in_loss = some false;
  rate_rows = λ g. some (record { rate = 20000; prefix = codes "44" } ∷ []);
  compare_ok = true;
}

abbrev pub acme : Resolution
acme = record { value = codes "ACME"; source = codes "request" }

-- The carrier costs 20000, and the client pays 30000.
abbrev verdict : ℕ → Verdict
verdict rate =
    check_carrier_eligibility (some queries) (codes "list") none (some (codes "g")) acme rate
      (codes "44770")

covers_cost : verdict 30000 ≡ eligible (codes "ACME")
unfolding check_carrier_eligibility mini_sms.Text.text_eq mini_sms.Text.trim_space
    mini_sms.Text.has_prefix mini_sms.Text.byte_len
covers_cost = refl

in_loss_is_skipped : verdict 10000 ≡ skipped (codes "ACME") in_loss
unfolding check_carrier_eligibility mini_sms.Text.text_eq mini_sms.Text.trim_space
    mini_sms.Text.has_prefix mini_sms.Text.byte_len
in_loss_is_skipped = refl

eligible_sound_example :
    (effective_sender (some queries) (codes "list") none acme ≡ some (codes "ACME"))
    × PolicyHolds (some queries) (codes "list") (codes "ACME")
    × LossHolds (some queries) (some (codes "g")) (codes "44770") 30000
eligible_sound_example =
    eligible_sound (some queries) (codes "list") none (some (codes "g")) acme 30000 (codes "44770")
      (codes "ACME") covers_cost
