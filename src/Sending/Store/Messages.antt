-- ===== src/Sending/Store/Messages.antt =====
-- internal/db/sms_queue.go and sms_logs.go below minisms: the statements on table sms_logs.
use mini_sms.Prelude.{
  ℕ, ◌+◌, Bool, true, false, ◌&&◌, Option, none, some, List, [], ◌∷◌, ◌++◌, ltb, if◌then◌else◌,
}
use mini_sms.Result.{Result, ok, err}
use mini_sms.Text.{Text, text_eq, is_empty, trim_space}
use mini_sms.Sending.Store.{
  Db, SmsLog, DbError, rejected, Status, queued, sending, accepted, failed, undelivered,
}

unfoldable pub find_log : Text → List SmsLog → Option SmsLog
find_log id [] = none
find_log id (r ∷ logs) =
    let rest = find_log id logs in if text_eq r.message_id id then some r else rest

-- UPDATE sms_logs SET … WHERE message_id = id
unfoldable pub update_log : Text → (SmsLog → SmsLog) → List SmsLog → List SmsLog
update_log id f [] = []
update_log id f (r ∷ logs) =
    let rest = update_log id f logs in if text_eq r.message_id id then f r ∷ logs else r ∷ rest

abbrev pub on_log : Text → (SmsLog → SmsLog) → Db → Db
on_log id f db = record db { logs = update_log id f db.logs }

-- optionalString
unfoldable pub optional_string : Text → Option Text
optional_string s = if is_empty (trim_space s) then none else some s

-- CreateSMSLog, with the table's constraints
unfoldable pub create_sms_log : SmsLog → Db → Result DbError Db
unfolding find_log
create_sms_log log db = elim (db.clients log.client_id) [
  | none ↦ err rejected
  | some b ↦ elim (find_log log.message_id db.logs) [
    | some r ↦ err rejected
    | none ↦
        if is_empty log.message_body
        then err rejected
        else ok (record db { logs = db.logs ++ log ∷ [] })
  ]
]

unfoldable pub stamp_queued : Text → ℕ → ℕ → Db → Db
unfolding update_log
stamp_queued id now ttl db =
    on_log id
      (λ r. record r { status = queued; next_attempt_at = some now; expires_at = some (now + ttl) })
      db

unfoldable pub stamp_sending : Text → ℕ → ℕ → Db → Db
unfolding update_log
stamp_sending id now ttl db =
    on_log id
      (λ r. record r { status = sending; claimed_at = some now; expires_at = some (now + ttl) }) db

-- What MarkSMSAccepted writes of the outcome.
pub record Delivery : Type 0 where
  pub carrier_id : Text
  pub failover_sequence : ℕ
  pub carrier_message_id : Text
  pub status_code : ℕ
  pub body : Text
  pub sender : Text
  pub destination : Text

unfoldable pub mark_sms_accepted : Text → Delivery → Db → Db
unfolding update_log
mark_sms_accepted id d db =
    on_log id
      (λ r. record r {
        status = accepted;
        carrier_id = some d.carrier_id;
        failover_sequence = d.failover_sequence;
        carrier_message_id = d.carrier_message_id;
        carrier_response_code = some d.status_code;
        carrier_response_body = d.body;
        dispatched_sender = d.sender;
        dispatched_destination = d.destination;
      })
      db

unfoldable pub mark_sms_failed : Text → Option ℕ → Text → Db → Db
unfolding update_log
mark_sms_failed id code body db =
    on_log id
      (λ r. record r {
        status = failed;
        carrier_response_code = code;
        carrier_response_body = body;
      })
      db

unfoldable pub mark_sms_undelivered : Text → Text → Db → Db
unfolding update_log
mark_sms_undelivered id body db =
    on_log id
      (λ r. record r {
        status = undelivered;
        carrier_response_code = none;
        carrier_response_body = body;
        claimed_at = none;
      })
      db

abbrev pub is_sending : Status → Bool
is_sending sending = true
is_sending _ = false

abbrev pub is_queued : Status → Bool
is_queued queued = true
is_queued _ = false

unfoldable pub force_mark_accepted : Text → Delivery → Db → Db
unfolding update_log
force_mark_accepted id d db =
    on_log id
      (λ r.
        if is_sending r.status
        then record r {
          status = accepted;
          carrier_id = some d.carrier_id;
          carrier_message_id = d.carrier_message_id;
          claimed_at = none;
        }
        else r)
      db

unfoldable pub requeue_sms : Text → ℕ → Option ℕ → Text → Db → Db
unfolding update_log
requeue_sms id next code body db =
    on_log id
      (λ r.
        if is_sending r.status
        then record r {
          status = queued;
          next_attempt_at = some next;
          claimed_at = none;
          carrier_response_code = code;
          carrier_response_body = body;
        }
        else r)
      db

abbrev pub is_before : Option ℕ → ℕ → Bool
is_before none t = true
is_before (some s) t = ltb s t

-- The rows that ReapStuckSending puts back.
abbrev pub reap_row : ℕ → ℕ → SmsLog → SmsLog
reap_row now older_than r =
    if is_sending r.status && is_before r.claimed_at older_than
    then record r { status = queued; next_attempt_at = some now; claimed_at = none }
    else r

unfoldable pub reap_rows : ℕ → ℕ → List SmsLog → List SmsLog
reap_rows now older_than [] = []
reap_rows now older_than (r ∷ logs) = reap_row now older_than r ∷ reap_rows now older_than logs

unfoldable pub reap_stuck_sending : ℕ → ℕ → Db → Db
unfolding reap_rows
reap_stuck_sending now older_than db = record db { logs = reap_rows now older_than db.logs }
