-- ===== src/Tests/Money.antt =====
-- minisms/internal/sending/submit.go and queue.go on one client and one message.
use mini_sms.Prelude.{ℕ, ◌+◌, ◌≡◌, refl, Bool, true, false, none, some, [], ◌∷◌, arith}
use mini_sms.Result.{ok}
use mini_sms.Text.{Text, codes}
use mini_sms.Billing.Rate.{missing}
use mini_sms.Routing.Cache.{put}
use mini_sms.Sending.Store.{Db, SmsLog, debit, sending, deduct_client_balance}
use mini_sms.Sending.Store.Laws.{held, Balanced, Reserved}
use mini_sms.Sending.Store.Messages.{on_log, find_log}
use mini_sms.Sending.Submit.{submit}
use mini_sms.Sending.Reserve.{Client, Reads, Stmt, reserve}
use mini_sms.Sending.Submit.Laws.{Taken, reserve-Taken}
use mini_sms.Sending.Submit.Balance.{submit-Balanced}
use mini_sms.Sending.Queue.{
  QueuedSms, queued_of, claim_queued_for_send, dispatch_one, finalize_undelivered,
}
use mini_sms.Sending.Queue.Balance.{none_yet, and_then, claimed, dispatched, Steps-Balanced}
use mini_sms.Sending.Recovery.{recover_stuck_sync_sends}
use mini_sms.Sending.Recovery.Balance.{Distinct, recover_stuck_sync_sends-Balanced}
use mini_sms.Tests.Carriers.{no_regexp, acme}
use mini_sms.Tests.Routes.{rates, table}
use mini_sms.Sending.Transport.{Env}
use mini_sms.Tests.Delivery.{ascii, env, message, up}

abbrev reads : Reads no_regexp Unit Unit
reads = record {
  rates = λ g. some rates;
  cache = none;
  table = some table;
  carrier_rows = λ id. missing;
  ttl = 3600;
  now = 1000;
}

abbrev client : Client
client = record {
  client_id = codes "cl";
  rate_group_id = some (codes "g");
  routing_group_id = some (codes "g");
}

-- Every client has a tenth of a unit.
abbrev start : Db
start = record {
  clients = λ c. some 100000;
  ledger = [];
  logs = [];
  carriers = λ c. none;
  carrier_ledger = [];
  usage = λ c. none;
}

abbrev opening : Text → ℕ
opening c = 100000

start-Balanced : Balanced opening start
unfolding held
start-Balanced c b h = grind arith

-- The connection holds.
abbrev works : Stmt → Bool
works s = true

submit-Balanced_example :
    Balanced opening
      (submit ascii reads
        (λ id. env)
        up
        true
        true
        works
        works
        none
        (codes "m")
        client
        message
        acme
        start).1
submit-Balanced_example =
    submit-Balanced ascii reads (λ id. env) up true works works none (codes "m") client message acme
      start start-Balanced

abbrev row : SmsLog
row = record {
  message_id = codes "m";
  client_id = codes "cl";
  to_number = codes "44770";
  from_number = none;
  message_body = codes "hi";
  segments = 1;
  routing_group_id = none;
  rate_applied = 30000;
  total_charged = 30000;
  sender_id_source = codes "request";
  status = sending;
  attempts = 1;
  next_attempt_at = none;
  expires_at = some 900;
  claimed_at = some 950;
  carrier_id = none;
  carrier_message_id = [];
  failover_sequence = 0;
  carrier_response_code = none;
  carrier_response_body = [];
  dispatched_sender = [];
  dispatched_destination = [];
}

abbrev plain : SmsLog → SmsLog
plain r = record r { status = sending }

abbrev reserved : Db
reserved = record start {
  clients = put start.clients (codes "cl") (some 70000);
  ledger =
      record {
        client_id = codes "cl";
        entry_type = debit;
        amount = 30000;
        balance_before = 100000;
        balance_after = 70000;
        reference = codes "m";
      }
      ∷ [];
  logs = plain row ∷ [];
}

reserve-works : reserve works row (on_log (codes "m") plain) start ≡ ok (70000, reserved)
unfolding reserve mini_sms.Sending.Store.Messages.update_log mini_sms.Text.text_eq
reserve-works = refl

reserve-Taken_example : Taken row plain start 70000 reserved
reserve-Taken_example = reserve-Taken works row plain start 70000 reserved reserve-works

abbrev in_flight : Db
in_flight = record start { logs = row ∷ [] }

abbrev row_in_flight : QueuedSms
row_in_flight = queued_of 1000 row

row-Reserved : Reserved (codes "m") (codes "cl") 30000 in_flight.logs
unfolding find_log mini_sms.Text.text_eq
row-Reserved = record {
  row = row;
  row_found = refl;
  row_client = refl;
  row_charge = refl;
  row_sending = refl;
}

-- The balance, and the charge of the message in flight if it is the client's.
abbrev with_charge : Text → ℕ
with_charge c = 100000 + held c in_flight.logs

in_flight-Balanced : Balanced with_charge in_flight
in_flight-Balanced c b h = grind arith

-- The same message with time left.
abbrev fresh_row : SmsLog
fresh_row = record row { routing_group_id = some (codes "g"); expires_at = some 9000000000000 }

abbrev fresh : Db
fresh = record start { logs = fresh_row ∷ [] }

abbrev fresh_in_flight : QueuedSms
fresh_in_flight = queued_of 1000 fresh_row

fresh-Reserved : Reserved (codes "m") (codes "cl") 30000 fresh.logs
unfolding find_log mini_sms.Text.text_eq
fresh-Reserved = record {
  row = fresh_row;
  row_found = refl;
  row_client = refl;
  row_charge = refl;
  row_sending = refl;
}

-- No carrier is known: the message is put back.
abbrev dead : Env no_regexp
dead = record env { profiles = λ id. none }

abbrev put_back : Db
put_back = (dispatch_one ascii reads (λ id. dead) up true works 1000 none fresh_in_flight fresh).0.0

-- A minute later it is claimed again.
abbrev again : Db
again = (claim_queued_for_send 70000000000 6 (λ id. false) put_back).1

abbrev row_of : Db → SmsLog
row_of db = elim (find_log (codes "m") db.logs) [ none ↦ fresh_row | some r ↦ r ]

again-Reserved : Reserved (codes "m") (codes "cl") 30000 again.logs
unfolding find_log mini_sms.Text.text_eq claim_queued_for_send dispatch_one
    mini_sms.Routing.Lookup.lookup_route_entry mini_sms.Matching.longest mini_sms.Matching.scan
    mini_sms.Matching.scan_entry mini_sms.Text.has_prefix mini_sms.Matching.normalize
    mini_sms.Text.keep mini_sms.Text.trim_plus mini_sms.Text.trim_space mini_sms.Text.is_ascii_digit
    mini_sms.Text.byte_len mini_sms.Sending.Queue.retry_backoff
again-Reserved = record {
  row = row_of again;
  row_found = refl;
  row_client = refl;
  row_charge = refl;
  row_sending = refl;
}

-- Then the carriers are there.
abbrev settled : Db
settled =
    (dispatch_one ascii (record reads { now = 70000000000 }) (λ id. env) up true works 1000 none
      fresh_in_flight again).0.0

abbrev fresh_charge : Text → ℕ
fresh_charge c = 100000 + held c fresh.logs

fresh-Balanced : Balanced fresh_charge fresh
fresh-Balanced c b h = grind arith

Steps-Balanced_example : Balanced fresh_charge settled
Steps-Balanced_example =
    Steps-Balanced ascii no_regexp Unit Unit
      (and_then
        (and_then
          (and_then none_yet
            (dispatched reads (λ id. dead) up true works 1000 none fresh_in_flight fresh-Reserved))
          (claimed 70000000000 6 (λ id. false)))
        (dispatched (record reads { now = 70000000000 }) (λ id. env) up true works 1000 none
          fresh_in_flight again-Reserved))
      fresh-Balanced

in_flight-Distinct : Distinct in_flight.logs
in_flight-Distinct = (tt, tt)

recover_stuck_sync_sends-Balanced_example :
    Balanced with_charge (recover_stuck_sync_sends (λ id. works) true in_flight).0
recover_stuck_sync_sends-Balanced_example =
    recover_stuck_sync_sends-Balanced (λ id. works) true in_flight in_flight-Distinct
      in_flight-Balanced

-- A worker that settles a row which another one has settled already refunds it again.
refunded_twice :
    (finalize_undelivered works row_in_flight
        (codes "x")
        (finalize_undelivered works row_in_flight (codes "x") in_flight).0).0.clients
      (codes "cl")
    ≡ some 160000
unfolding finalize_undelivered put mini_sms.Text.text_eq
refunded_twice = refl
