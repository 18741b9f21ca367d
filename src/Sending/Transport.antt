-- ===== src/Sending/Transport.antt =====
-- minisms/internal/sending/dispatch.go, outcome.go and message.go: what a dispatch hands to a carrier and
-- what it writes down of the reply. Of a timeline event the kind and the values of its metadata are kept,
-- not the wording.
use mini_sms.Prelude.{
  ℕ, Bool, true, false, ◌&&◌, Option, none, some, List, [], ◌∷◌, ◌++◌, leb, ◌==◌, if◌then◌else◌,
}
use mini_sms.Text.{Text, Unicode, codes, text_eq, trim_space}
use mini_sms.Billing.Segments.{Encoding}
use mini_sms.Carrier.NumRules.{Lib, Compiled}
use mini_sms.Carrier.TonNpi.{SmppParams}
use mini_sms.Carrier.Eligibility.{Queries, SkipReason}
use mini_sms.Routing.Cache.{CarrierProfile}

pub data EgressTransport : Type 0 where
  egress_http egress_smpp : EgressTransport

pub record AcceptedMessage : Type 0 where
  pub to : Text
  pub from : Text
  pub body : Text

pub record CarrierSkip : Type 0 where
  pub carrier_id : Text
  pub carrier_name : Text
  pub reason : SkipReason

pub data Event : Type 0 where
  inactive : Text → ℕ → Event
  ineligible : Text → ℕ → SkipReason → Event
  sending : Text → ℕ → EgressTransport → Event
  response : Text → ℕ → Bool → Option ℕ → Text → Option EgressTransport → Event
  accepted : Text → ℕ → Text → Event

-- dispatchOutcome
pub record Outcome : Type 0 where
  pub carrier_id : Text
  pub carrier_name : Text
  pub failover_sequence : ℕ
  pub status_code : ℕ
  pub carrier_message_id : Text
  pub last_code : Option ℕ
  pub last_body : Text
  pub last_body_text : Text
  pub skip_reasons : List CarrierSkip
  pub timeline : List Event
  pub params : Option SmppParams
  pub egress : Option EgressTransport
  pub dispatched_sender : Text
  pub dispatched_destination : Text

pub record SmppRequest : Type 0 where
  pub src : Text
  pub dst : Text
  pub body : Text
  pub params : SmppParams
  pub encoding : Encoding
  pub segments : ℕ

pub record SubmitResult : Type 0 where
  pub command_status : ℕ
  pub carrier_message_id : Text
  pub response_body : Text

-- The pair of a result, nil or not, and an error, nil or not.
pub data SmppReply : Type 0 where
  submitted : Option SubmitResult → SmppReply
  submit_error : Option SubmitResult → Text → SmppReply

pub record HttpRequest : Type 0 where
  pub carrier_id : Text
  pub message_id : Text
  pub client_id : Text
  pub from : Text
  pub message : AcceptedMessage
  pub method : Text
  pub endpoint_url : Text
  pub dlr_callback_url_template : Option Text
  pub params : SmppParams

pub data HttpReply : Type 0 where
  replied : ℕ → Text → HttpReply
  transport_error : Text → HttpReply

-- `template_ready` and `headers_ready`: the template is there, the headers can be read. `post` builds
-- the request from the template and sends it. `possible` is phonenumbers' test.
pub record Env (lib : Lib) : Type 0 where
  pub profiles : Text → Option CarrierProfile
  pub rules : Text → Option (Compiled lib)
  pub queries : Text → Queries
  pub query_error : Text
  pub possible : Text → Bool
  pub egress : Option (Text → SmppRequest → SmppReply)
  pub template_ready : Text → Bool
  pub headers_ready : Text → Bool
  pub post : HttpRequest → HttpReply

abbrev pub nothing : Outcome
nothing = record {
  carrier_id = [];
  carrier_name = [];
  failover_sequence = 0;
  status_code = 0;
  carrier_message_id = [];
  last_code = none;
  last_body = [];
  last_body_text = [];
  skip_reasons = [];
  timeline = [];
  params = none;
  egress = none;
  dispatched_sender = [];
  dispatched_destination = [];
}

abbrev pub event : Event → Outcome → Outcome
event e out = record out { timeline = out.timeline ++ e ∷ [] }

-- smppHTTPStatus
unfoldable pub smpp_http_status : ℕ → ℕ
smpp_http_status command_status = if command_status == 0 then 200 else 502

pub data Attempt : Type 0 where
  attempt : Outcome → Bool → Option Text → Attempt

-- What trySMPPDispatch writes down of a result.
abbrev pub note_result : ℕ → SubmitResult → Outcome → Outcome
note_result code res out = record out {
  last_code = some code;
  last_body = res.response_body;
  last_body_text = res.response_body;
  status_code = code;
  carrier_message_id = res.carrier_message_id;
}

-- The last argument of an attempt is its error.
unfoldable pub read_smpp_reply : SmppReply → Outcome → Attempt
unfolding smpp_http_status
read_smpp_reply (submit_error none e) out = attempt (record out { last_body = e }) false (some e)
read_smpp_reply (submit_error (some res) e) out =
    if res.command_status == 0
    then attempt (record out { last_body = e }) false (some e)
    else (let noted = note_result (smpp_http_status res.command_status) res out in
        attempt (record noted { egress = some egress_smpp }) false none)
read_smpp_reply (submitted none) out = attempt out false none
read_smpp_reply (submitted (some res)) out =
    if res.command_status == 0
    then (let noted = note_result 200 res out in
        attempt (record noted { egress = some egress_smpp }) true none)
    else attempt (note_result (smpp_http_status res.command_status) res out) false none

unfoldable pub read_http_reply : HttpReply → Outcome → Attempt
read_http_reply (transport_error e) out = attempt out false (some e)
read_http_reply (replied code body) out =
    let noted = record out { last_code = some code; last_body = body; last_body_text = body } in
    if leb 200 code && leb code 299
    then attempt
        (record noted { status_code = code; carrier_message_id = []; egress = some egress_http })
        true none
    else attempt noted false none

-- egressAttempts
unfoldable pub egress_attempts : Unicode → Text → List EgressTransport
egress_attempts u t =
    if text_eq (u.to_lower (trim_space t)) (codes "smpp")
    then egress_smpp ∷ []
    else egress_http ∷ []

abbrev pub with_error : Option Text → Outcome → Outcome
with_error none out = out
with_error (some e) out = record out { last_code = some 503; last_body = e }
