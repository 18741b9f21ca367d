-- ===== src/Tests/Egress.antt =====
-- Senders, and minisms/internal/smpp/egress with its log, on small inputs.
use mini_sms.Prelude.{
  get_elem?, ℕ, zero, suc, ◌<◌, ◌≡◌, refl, Bool, true, false, Option, none, some, List, [], ◌∷◌,
  length, arith,
}
use mini_sms.Result.{ok}
use mini_sms.Text.{Text, codes}
use mini_sms.Tests.Delivery.{ascii}
use mini_sms.Carrier.Eligibility.{Resolution, no_rows}
use mini_sms.Carrier.Sender.{SenderQueries, SenderClient, default_missing, resolve_sender_id}
use mini_sms.Carrier.Sender.Allowed.{Justified, resolve-Justified}
use mini_sms.Smpp.Throttle.{second}
use mini_sms.Smpp.Egress.Group.{pick_session, on_session, is_ready}
use mini_sms.Smpp.Egress.Group.RoundRobin.{Uses, pick-Uses, picks, picks_fair}
use mini_sms.Smpp.Egress.Reconnect.{
  bind_rejected, bind_unreached, started, run_rounds, round_once, next_backoff,
}
use mini_sms.Smpp.Egress.Reconnect.Pacing.{Paced, run-Paced}
use mini_sms.Smpp.EventLog.{Call, appends, subscribes, new_hub, run, last_of, max_lines_per_carrier}
use mini_sms.Smpp.EventLog.History.{lines_for, history-last}

abbrev pub sender_queries : SenderQueries
sender_queries = record {
  mode_of = λ c. some (codes "phone");
  listed = λ c v. no_rows;
  active_anywhere = λ v. no_rows;
  any_pattern = [];
  default_value = λ c. none;
  default_row = λ c. default_missing;
}

abbrev pub any_sender : SenderClient
any_sender = record {
  client_id = codes "acme";
  allowed_sender_ids_mode = codes "phone";
  default_sender_id_value = none;
}

abbrev resolved : Resolution
resolved = record { value = codes "1234567"; source = codes "client_provided" }

abbrev no_pattern : Text → Option (Text → Bool)
no_pattern p = none

is_resolved :
    resolve_sender_id ascii no_pattern
      (some sender_queries)
      any_sender
      (codes " 1234567 ")
      (codes "MiniSMS")
    ≡ ok resolved
unfolding resolve_sender_id mini_sms.Text.text_eq mini_sms.Text.trim_space
    mini_sms.Carrier.Eligibility.matches_numeric mini_sms.Text.is_ascii_digit
is_resolved = refl

resolve-Justified_example :
    Justified ascii no_pattern sender_queries any_sender
      (codes " 1234567 ")
      (codes "MiniSMS")
      resolved
resolve-Justified_example =
    resolve-Justified ascii no_pattern sender_queries any_sender (codes " 1234567 ")
      (codes "MiniSMS") resolved is_resolved

abbrev half_up : List Bool
half_up = false ∷ true ∷ false ∷ []

pick-Uses_example : ((pick_session half_up 8).1 ≡ 9) × Uses half_up 9 (pick_session half_up 8).0
pick-Uses_example = pick-Uses half_up 8 1 (omega arith) refl

abbrev all_up : List Bool
all_up = true ∷ true ∷ []

all_up-ready : (i : ℕ) → i < length all_up → is_ready all_up i ≡ true
all_up-ready zero h = refl
all_up-ready (suc zero) h = refl
all_up-ready (suc (suc i)) h = absurd (omega arith)

picks_fair_example : (i : ℕ) × (i < 2) × (get_elem? (picks all_up 2 5) i ≡ some (on_session 1))
picks_fair_example = picks_fair all_up 5 1 (omega arith) all_up-ready (omega arith)

run-Paced_example : Paced (run_rounds started ((bind_rejected, second) ∷ (bind_unreached, 0) ∷ []))
unfolding round_once next_backoff
run-Paced_example =
    run-Paced started ((bind_rejected, second) ∷ (bind_unreached, 0) ∷ [])
      (omega arith, (omega arith, tt))
      (record { low = omega arith; high = omega arith; sleeps = tt })

abbrev calls : List Call
calls =
    appends (codes "c1") (codes "bind established")
    ∷ subscribes (codes "c1")
    ∷ appends (codes "c1") (codes "session disconnected")
    ∷ []

history-last_example :
    (run new_hub calls).history (codes "c1")
    ≡ last_of max_lines_per_carrier (lines_for (codes "c1") calls)
history-last_example = history-last (codes "c1") calls refl
