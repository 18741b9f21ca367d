-- ===== src/Tests/Delivery.antt =====
-- minisms/internal/sending at one route and a few carriers.
use mathlib.Core.List.{Perm}
use mini_sms.Prelude.{◌≡◌, refl, Bool, true, none, some, List, [], ◌∷◌, arith, if◌then◌else◌}
use mini_sms.Prelude.Int.{pos}
use mini_sms.Text.{Text, Unicode, codes, text_eq}
use mini_sms.Routing.Cache.{CarrierProfile, RouteEntry}
use mini_sms.Sending.Failover.{
  WeightedCarrier, FailoverCarrier, RouteRr, slot_order, candidates, order_carriers, total_weight,
}
use mini_sms.Sending.Failover.Order.{order_carriers-perm}
use mini_sms.Sending.Failover.Fairness.{pick_run, count_hits, weight_at, loadbalance_fair}
use mini_sms.Sending.Dispatch.{try_carriers}
use mini_sms.Sending.Transport.{AcceptedMessage, Env, Outcome, replied, nothing}
use mini_sms.Sending.Dispatch.Laws.{FirstTaker, try_carriers-FirstTaker}
use mini_sms.Tests.Carriers.{no_regexp, queries, acme, compiled}

abbrev pub ascii : Unicode
ascii = record { to_lower = λ s. s; to_upper = λ s. s; equal_fold = text_eq }

abbrev carriers : List WeightedCarrier
carriers =
    (record { id = codes "a"; n = 0; w = pos 2 }
      ∷ record { id = codes "b"; n = 1; w = pos 0 }
      ∷ record { id = codes "c"; n = 2; w = pos 1 }
      ∷ [])

abbrev pub up : Text → Bool
up id = text_eq id (codes "c")

abbrev route : RouteEntry
route = record {
  route_entry_id = codes "r";
  prefix = codes "44";
  primary_carrier_id = codes "a";
  failover1_carrier_id = some (codes "b");
  failover2_carrier_id = none;
  distribution_mode = codes "overflow";
  primary_weight = pos 1;
  failover1_weight = pos 1;
  failover2_weight = pos 0;
}

order_carriers-perm_example :
    Perm (order_carriers ascii up none route true).0 (slot_order (candidates route))
order_carriers-perm_example = order_carriers-perm ascii up none route

abbrev counters : RouteRr
counters = λ r. 7

loadbalance_fair_example :
    count_hits 0 (pick_run (total_weight carriers) (some counters) (codes "r") carriers)
    ≡ weight_at 0 0 carriers
loadbalance_fair_example =
    loadbalance_fair 0 counters (codes "r") carriers (unfold total_weight in omega arith)
      (unfold total_weight in omega arith)

abbrev profile : CarrierProfile
profile = record {
  carrier_id = codes "a";
  name = codes "A";
  status = codes "active";
  egress_transport = codes "http";
  endpoint_url = codes "u";
  http_method = codes "POST";
  sender_id_policy = codes "any";
  default_sender_id_value = none;
  rate_group_id = none;
  dlr_callback_url_template = none;
  smpp_source_addr_ton = codes "5";
  smpp_source_addr_npi = codes "0";
  smpp_dest_addr_ton = codes "1";
  smpp_dest_addr_npi = codes "1";
}

-- Carrier `a` is disabled, and `b` answers 202.
abbrev pub env : Env no_regexp
env = record {
  profiles = λ id. some (if up id then profile else record profile { status = codes "disabled" });
  rules = λ id. compiled;
  queries = λ id. queries;
  query_error = codes "e";
  possible = λ s. true;
  egress = none;
  template_ready = λ id. true;
  headers_ready = λ id. true;
  post = λ r. replied 202 (codes "ok");
}

abbrev pub message : AcceptedMessage
message = record { to = codes "44770"; from = codes "ACME"; body = codes "hi" }

abbrev tries : List FailoverCarrier
tries = record { id = codes "a"; n = 0 } ∷ record { id = codes "c"; n = 1 } ∷ []

abbrev run_tries : Outcome × Bool
run_tries = try_carriers ascii env (codes "m") (codes "cl") 30000 acme message tries nothing

second_takes : run_tries ≡ (run_tries.0, true)
unfolding try_carriers text_eq mini_sms.Text.trim_space
second_takes = refl

second_is_told : run_tries.0.carrier_id ≡ codes "c"
unfolding try_carriers text_eq mini_sms.Text.trim_space
second_is_told = refl

try_carriers-FirstTaker_example :
    FirstTaker ascii env (codes "m") (codes "cl") 30000 acme message tries nothing run_tries.0
try_carriers-FirstTaker_example =
    try_carriers-FirstTaker ascii env (codes "m") (codes "cl") 30000 acme message tries nothing
      run_tries.0 second_takes
