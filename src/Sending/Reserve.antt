-- ===== src/Sending/Reserve.antt =====
-- minisms/internal/sending/submit.go and helpers.go: the price and the route of a message, and the
-- transaction that takes its charge.
use mini_sms.Prelude.{ℕ, Bool, ◌&&◌, Option, none, some, List, [], leb, if◌then◌else◌}
use mini_sms.Result.{Result, ok, err, wrap, ◌>>=◌, demand}
use mini_sms.Text.{Text, is_empty}
use mini_sms.Billing.Rate.{RateEntry, CarrierRow, found, failed, lookup_rate}
use mini_sms.Billing.Segments.{segment_info}
use mini_sms.Carrier.NumRules.{Lib}
use mini_sms.Routing.Cache
use mini_sms.Routing.Cache.{RouteEntry, RouteRow}
use mini_sms.Routing.Lookup.{lookup_route_entry}
use mini_sms.Sending.Transport.{AcceptedMessage}
use mini_sms.Sending.Store.{
  Db, SmsLog, DbError, rejected, sending, Status, mul_numeric, deduct_client_balance,
}
use mini_sms.Sending.Store.Messages.{create_sms_log, stamp_sending, optional_string}

pub record Client : Type 0 where
  pub client_id : Text
  pub rate_group_id : Option Text
  pub routing_group_id : Option Text

pub record AcceptedPayload : Type 0 where
  pub message_id : Text
  pub segments : ℕ
  pub charged : ℕ
  pub balance_remaining : ℕ
  pub carrier : Text
  pub failover_sequence : ℕ

pub data SubmitOutcome : Type 0 where
  outcome_accepted : AcceptedPayload → SubmitOutcome
  outcome_insufficient_balance : ℕ → ℕ → SubmitOutcome
  outcome_no_rate outcome_no_route outcome_temporary_unavailable : SubmitOutcome
  outcome_no_eligible_carrier : SubmitOutcome
  outcome_carrier_failure : Text → SubmitOutcome

-- Where the connection to the database may fail; `finish` is the last statements and the commit.
pub data Stmt : Type 0 where
  price begin lock create stamp deduct finish force : Stmt

-- What the price and the route of a message are.
pub record Quote : Type 0 where
  pub rate : RateEntry
  pub segments : ℕ
  pub charge : ℕ
  pub route : RouteEntry

-- The tables and settings of a send that it only reads.
pub record Reads (lib : Lib) (Template Header : Type 0) : Type 1 where
  pub rates : Text → Option (List RateEntry)
  pub cache : Option (Cache.Cache lib Template Header)
  pub table : Option (List RouteRow)
  pub carrier_rows : Text → CarrierRow
  pub ttl : ℕ
  pub now : ℕ

abbrev pub text_of : Option Text → Text
text_of none = []
text_of (some s) = s

module _ {lib : Lib} {Template Header : Type 0} (reads : Reads lib Template Header) where
  -- The first part of Submit and of enqueue.
  unfoldable pub quote : Bool → Client → AcceptedMessage → Result SubmitOutcome Quote
  quote priced client msg =
      if is_empty (text_of client.rate_group_id)
      then err outcome_no_rate
      else elim (lookup_rate (reads.rates (text_of client.rate_group_id)) msg.to) [
        | failed e ↦ err outcome_no_rate
        | found rate ↦
            let segments = (segment_info msg.body).segments in
            elim (if priced then mul_numeric rate.rate_per_sms segments else none) [
              | none ↦ err outcome_temporary_unavailable
              | some charge ↦
                  elim (lookup_route_entry lib Template Header reads.cache reads.table
                    client.routing_group_id msg.to) [
                      | err e ↦ err outcome_no_route
                      | ok route ↦ ok (record {
                        rate = rate;
                        segments = segments;
                        charge = charge;
                        route = route;
                      })
                    ]
            ]
      ]

-- The row that CreateSMSLog writes.
abbrev pub new_log : Status → Text → Client → AcceptedMessage → Text → Quote → SmsLog
new_log status id client msg source q = record {
  message_id = id;
  client_id = client.client_id;
  to_number = msg.to;
  from_number = optional_string msg.from;
  message_body = msg.body;
  segments = q.segments;
  routing_group_id = client.routing_group_id;
  rate_applied = q.rate.rate_per_sms;
  total_charged = q.charge;
  sender_id_source = source;
  status = status;
  attempts = 0;
  next_attempt_at = none;
  expires_at = none;
  claimed_at = none;
  carrier_id = none;
  carrier_message_id = [];
  failover_sequence = 0;
  carrier_response_code = none;
  carrier_response_body = [];
  dispatched_sender = [];
  dispatched_destination = [];
}

-- lockAndCheckBalance, the balance of it
unfoldable pub lock_balance : Text → Db → Result DbError ℕ
lock_balance client db = elim (db.clients client) [ none ↦ err rejected | some b ↦ ok b ]

-- The transaction that writes a row and takes its charge; `stamped` is StampSending or StampQueued.
unfoldable pub reserve : (Stmt → Bool) → SmsLog → (Db → Db) → Db → Result SubmitOutcome (ℕ × Db)
unfolding lock_balance create_sms_log deduct_client_balance
reserve link log stamped db = do
  _ ← demand (link begin && link lock) outcome_temporary_unavailable
  balance ← wrap (λ e. outcome_temporary_unavailable) (lock_balance log.client_id db)
  _ ←
      demand (leb log.total_charged balance)
        (outcome_insufficient_balance balance log.total_charged)
  _ ← demand (link create) outcome_temporary_unavailable
  created ← wrap (λ e. outcome_temporary_unavailable) (create_sms_log log db)
  _ ← demand (link stamp) outcome_temporary_unavailable
  _ ← demand (link deduct) (outcome_insufficient_balance balance log.total_charged)
  paid ←
      wrap (λ e. outcome_insufficient_balance balance log.total_charged)
        (deduct_client_balance log.client_id log.total_charged log.message_id (stamped created))
  _ ← demand (link finish) outcome_temporary_unavailable
  ok paid

-- reserveSend
unfoldable pub reserve_send :
    (Stmt → Bool)
    → ℕ
    → ℕ
    → Text
    → Client
    → AcceptedMessage
    → Text
    → Quote
    → Db
    → Result SubmitOutcome (ℕ × Db)
unfolding reserve stamp_sending
reserve_send link now ttl id client msg source q db =
    reserve link (new_log sending id client msg source q) (stamp_sending id now ttl) db
