-- ===== src/Smpp/Ingress.antt =====
-- minisms/internal/smpp/server/server.go: handleSubmit, and status.go; sending/helpers.go:
-- ResolveDLRWebhookURL. The rate limiter, the query of the client and the send itself are parameters,
-- the last over a state of its own.
pub mod Answers
use mini_sms.Prelude.{ℕ, Bool, true, false, not, Option, none, some, List, [], ◌∷◌, if◌then◌else◌}
use mini_sms.Result.{Result, ok, err}
use mini_sms.Text.{Text, Unicode, is_empty, trim_space}
use mini_sms.Dlr.Status.{value_or_empty}
use mini_sms.Carrier.Eligibility.{Resolution}
use mini_sms.Carrier.Sender.{SenderError, SenderQueries, SenderClient, resolve_sender_id}
use mini_sms.Sending.Reserve.{
  Client, SubmitOutcome, AcceptedPayload, outcome_accepted, outcome_carrier_failure,
  outcome_insufficient_balance, outcome_no_eligible_carrier, outcome_no_rate, outcome_no_route,
  outcome_temporary_unavailable,
}
use mini_sms.Sending.Store.Messages.{optional_string}
use mini_sms.Sending.Transport.{AcceptedMessage}
use mini_sms.Smpp.Bind.{status_r_ok, status_r_throttled}
use mini_sms.Smpp.Decode.{
  Codecs, SubmitFields, DecodedSubmit, DecodeError, decode_submit_sm, validate_message_body,
  registered_dlr_requested,
}

abbrev pub status_r_inv_msg_len : ℕ
status_r_inv_msg_len = 1

abbrev pub status_r_inv_src_addr : ℕ
status_r_inv_src_addr = 10

abbrev pub status_r_inv_dst_addr : ℕ
status_r_inv_dst_addr = 11

abbrev pub status_r_submit_fail : ℕ
status_r_submit_fail = 69

abbrev pub status_r_query_fail : ℕ
status_r_query_fail = 103

-- CommandStatusForOutcome
unfoldable pub command_status_for_outcome : SubmitOutcome → ℕ
command_status_for_outcome (outcome_accepted a) = status_r_ok
command_status_for_outcome (outcome_insufficient_balance balance required) = status_r_query_fail
command_status_for_outcome outcome_no_rate = status_r_inv_dst_addr
command_status_for_outcome outcome_no_route = status_r_inv_dst_addr
command_status_for_outcome outcome_no_eligible_carrier = status_r_submit_fail
command_status_for_outcome (outcome_carrier_failure id) = status_r_submit_fail
command_status_for_outcome outcome_temporary_unavailable = status_r_submit_fail

-- ResolveDLRWebhookURL
unfoldable pub resolve_dlr_webhook_url : Bool → Text → Option Text → Option Text
resolve_dlr_webhook_url dlr_requested req_url client_url =
    if not dlr_requested
    then none
    else if not (is_empty (trim_space req_url))
    then optional_string req_url
    else if not (is_empty (trim_space (value_or_empty client_url)))
    then optional_string (trim_space (value_or_empty client_url))
    else none

-- The fields of db.Client that a submit reads.
pub record IngressClient : Type 0 where
  pub account : Client
  pub sender : SenderClient
  pub dlr_webhook_url : Option Text

pub record SubmitParams : Type 0 where
  pub client : IngressClient
  pub message : AcceptedMessage
  pub dlr_requested : Bool
  pub dlr_webhook_url : Option Text
  pub sender_id : Resolution

-- What a handler calls. `wait` is the limiter of a session: false is an error.
pub record SubmitEnv (S : Type 0) : Type 0 where
  pub unicode : Unicode
  pub compile : Text → Option (Text → Bool)
  pub codecs : Codecs
  pub wait : ℕ → Bool
  pub get_client : Text → Option IngressClient
  pub pool : Option SenderQueries
  pub system_default : Text
  pub send : S → SubmitParams → SubmitOutcome × S

-- The command status and the message id of a submit_sm_resp.
pub record Answer (S : Type 0) : Type 0 where
  pub status : ℕ
  pub message_id : Option Text
  pub store : S

module _ {S : Type 0} (env : SubmitEnv S) where
  abbrev pub turned_down : S → ℕ → Answer S
  turned_down s status = record { status = status; message_id = none; store = s }

  abbrev pub answered : SubmitOutcome × S → Answer S
  answered (outcome_accepted a, s) = record {
    status = status_r_ok;
    message_id = some a.message_id;
    store = s;
  }
  answered (out, s) = record {
    status = command_status_for_outcome out;
    message_id = none;
    store = s;
  }

  -- The parameters of Submit for an SMPP message.
  unfoldable pub smpp_params :
      IngressClient → SubmitFields → DecodedSubmit → Resolution → SubmitParams
  unfolding resolve_dlr_webhook_url registered_dlr_requested
  smpp_params c f d sid = record {
    client = c;
    message = record {
      to = d.to;
      from = if is_empty (trim_space d.from) then env.system_default else sid.value;
      body = d.body;
    };
    dlr_requested = registered_dlr_requested f;
    dlr_webhook_url = resolve_dlr_webhook_url (registered_dlr_requested f) [] c.dlr_webhook_url;
    sender_id = sid;
  }

  abbrev pub with_sender :
      S → IngressClient → SubmitFields → DecodedSubmit → Result SenderError Resolution → Answer S
  with_sender s c f d (err e) = turned_down s status_r_inv_src_addr
  with_sender s c f d (ok sid) = answered (env.send s (smpp_params c f d sid))

  abbrev pub with_client : S → SubmitFields → DecodedSubmit → Option IngressClient → Answer S
  with_client s f d none = turned_down s status_r_submit_fail
  with_client s f d (some c) =
      with_sender s c f d
        (resolve_sender_id env.unicode env.compile env.pool c.sender d.from env.system_default)

  abbrev pub with_decoded : S → Text → SubmitFields → Result DecodeError DecodedSubmit → Answer S
  with_decoded s client f (err e) = turned_down s status_r_inv_msg_len
  with_decoded s client f (ok d) =
      if validate_message_body d.body
      then with_client s f d (env.get_client client)
      else turned_down s status_r_inv_msg_len

  -- handleSubmit, for the session at an address and its client
  unfoldable pub handle_submit : S → ℕ → Text → SubmitFields → Answer S
  unfolding decode_submit_sm validate_message_body resolve_sender_id
  handle_submit s session client f =
      if env.wait session
      then with_decoded s client f (decode_submit_sm env.codecs f)
      else turned_down s status_r_throttled
