-- ===== src/Sending/Store.antt =====
-- deploy/minisms_db.sql and internal/db/sms_queue.go, sms_logs.go below minisms: the tables that a send
-- reads and writes, and the statements on them. An amount is a number of millionths, NUMERIC(18,6).
-- Of a row the columns that a later statement reads are kept; message_id is the primary key, so that an
-- UPDATE of one message changes the first row with its identifier. A new identifier and the time are
-- arguments.
pub mod Messages
pub mod Laws
pub mod Money
use mini_sms.Prelude.{
  ℕ, suc, ◌+◌, ◌*◌, ◌-◌, ◌^◌, Bool, true, false, not, ◌&&◌, ◌||◌, Option, none, some, List, [], ◌∷◌,
  ◌++◌, length, ltb, leb, ◌==◌, if◌then◌else◌,
}
use mini_sms.Prelude.Int.{ℤ, pos, negsuc}
use mini_sms.Result.{Result, ok, err}
use mini_sms.Text.{Text, text_eq, is_empty, trim_space}
use mini_sms.Routing.Cache.{put}

pub data Status : Type 0 where
  queued sending accepted failed undelivered : Status

pub record SmsLog : Type 0 where
  pub message_id : Text
  pub client_id : Text
  pub to_number : Text
  pub from_number : Option Text
  pub message_body : Text
  pub segments : ℕ
  pub routing_group_id : Option Text
  pub rate_applied : ℕ
  pub total_charged : ℕ
  pub sender_id_source : Text
  pub status : Status
  pub attempts : ℕ
  pub next_attempt_at : Option ℕ
  pub expires_at : Option ℕ
  pub claimed_at : Option ℕ
  pub carrier_id : Option Text
  pub carrier_message_id : Text
  pub failover_sequence : ℕ
  pub carrier_response_code : Option ℕ
  pub carrier_response_body : Text
  pub dispatched_sender : Text
  pub dispatched_destination : Text

pub data EntryType : Type 0 where
  debit credit : EntryType

pub record LedgerEntry : Type 0 where
  pub client_id : Text
  pub entry_type : EntryType
  pub amount : ℕ
  pub balance_before : ℕ
  pub balance_after : ℕ
  pub reference : Text

pub record CarrierEntry : Type 0 where
  pub carrier_id : Text
  pub amount : ℕ
  pub balance_before : ℤ
  pub balance_after : ℤ
  pub message_id : Text

pub record Usage : Type 0 where
  pub total_messages : ℕ
  pub total_segments : ℕ
  pub total_amount : ℕ

-- `clients` and `carriers` hold the balances; none is a row that is not there.
pub record Db : Type 0 where
  pub clients : Text → Option ℕ
  pub ledger : List LedgerEntry
  pub logs : List SmsLog
  pub carriers : Text → Option ℤ
  pub carrier_ledger : List CarrierEntry
  pub usage : Text → Option Usage

-- `unavailable`: the statement did not get through; `rejected`: a constraint, or no row.
pub data DbError : Type 0 where
  unavailable insufficient rejected : DbError

-- What NUMERIC(18,6) can hold.
abbrev pub fits : ℕ → Bool
fits n = ltb n (10 ^ 18)

-- mulNumeric; none is the error
unfoldable pub mul_numeric : ℕ → ℕ → Option ℕ
mul_numeric per_sms segments = if fits (per_sms * segments) then some (per_sms * segments) else none

-- SELECT deduct_client_balance(…); the ledger wants an amount above 0
unfoldable pub deduct_client_balance : Text → ℕ → Text → Db → Result DbError (ℕ × Db)
deduct_client_balance client amount message db = elim (db.clients client) [
  | none ↦ err rejected
  | some before ↦
      if ltb before amount
      then err insufficient
      else if amount == 0
      then err rejected
      else ok (
        before - amount,
        record db {
          clients = put db.clients client (some (before - amount));
          ledger =
              db.ledger
              ++ record {
                client_id = client;
                entry_type = debit;
                amount = amount;
                balance_before = before;
                balance_after = before - amount;
                reference = message;
              }
                ∷ [];
        },
      )
]

-- SELECT credit_client_balance(…)
unfoldable pub credit_client_balance : Text → ℕ → Text → Db → Result DbError (ℕ × Db)
credit_client_balance client amount reference db = elim (db.clients client) [
  | none ↦ err rejected
  | some before ↦
      if not (fits (before + amount)) || amount == 0
      then err rejected
      else ok (
        before + amount,
        record db {
          clients = put db.clients client (some (before + amount));
          ledger =
              db.ledger
              ++ record {
                client_id = client;
                entry_type = credit;
                amount = amount;
                balance_before = before;
                balance_after = before + amount;
                reference = reference;
              }
                ∷ [];
        },
      )
]

abbrev pub minus : ℤ → ℕ → ℤ
minus (pos n) a = if ltb n a then negsuc (a - n - 1) else pos (n - a)
minus (negsuc n) a = negsuc (n + a)

-- SELECT deduct_carrier_balance(…), which lets the balance go below 0 but not out of range
unfoldable pub deduct_carrier_balance : Text → ℕ → Text → Db → Result DbError Db
deduct_carrier_balance carrier amount message db = elim (db.carriers carrier) [
  | none ↦ err rejected
  | some before ↦
      if amount == 0
        || (elim (minus before amount) [ pos n ↦ false | negsuc n ↦ not (fits (suc n)) ])
      then err rejected
      else ok (record db {
        carriers = put db.carriers carrier (some (minus before amount));
        carrier_ledger =
            db.carrier_ledger
            ++ record {
              carrier_id = carrier;
              amount = amount;
              balance_before = before;
              balance_after = minus before amount;
              message_id = message;
            }
              ∷ [];
      })
]

-- SELECT increment_carrier_usage(…)
unfoldable pub increment_carrier_usage : Text → ℕ → ℕ → Db → Db
increment_carrier_usage carrier segments amount db = record db {
  usage = put db.usage carrier (
      some (elim (db.usage carrier) [
        | none ↦ record { total_messages = 1; total_segments = segments; total_amount = amount }
        | some t ↦ record {
          total_messages = t.total_messages + 1;
          total_segments = t.total_segments + segments;
          total_amount = t.total_amount + amount;
        }
      ]));
}
