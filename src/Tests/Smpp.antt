-- ===== src/Tests/Smpp.antt =====
-- minisms/internal/smpp on small servers.
use mini_sms.Prelude.{
  ◌<◌, ◌+◌, ◌++◌, drop, if◌then◌else◌, ℕ, ◌+◌, ◌≤◌, ◌≡◌, ◌↔◌, refl, true, false, none, some, List,
  [], ◌∷◌, length, ltb, arith,
}
use mini_sms.Prelude.Int.{pos}
use mini_sms.Result.{ok}
use mini_sms.Text.{Text, codes, is_ascii_digit, has_prefix}
use mini_sms.Tests.Delivery.{ascii}
use mini_sms.Tests.Egress.{any_sender, sender_queries}
use mini_sms.Smpp.Throttle
use mini_sms.Smpp.Throttle.{
  Attempts, second, minute, bind_block_for, is_bind_blocked, mark_bind_failure, bind_max_attempts,
  tally,
}
use mini_sms.Smpp.Throttle.Blocking.{burst, five_block, blocked_needs_five}
use mini_sms.Smpp.Sessions.{
  bind_trx, Session, Registry, new_registry, add, remove, pick_deliver, bind_count, select, member,
}
use mini_sms.Smpp.Sessions.Registered.{
  History, starts, binds, of_client, Longest, Registered, History-Registered, pick_deliver-Longest,
  remove_twice,
}
use mini_sms.Smpp.Sessions.RoundTrip.{Same}
use mini_sms.Smpp.Cidr.{Net}
use mini_sms.Smpp.Bind.{
  BindEnv, BindRequest, Profile, profile_found, Server, handle_bind, status_r_ok, accept, log_event,
}
use mini_sms.Smpp.Bind.Admission.{Admissible, handle_bind-Admissible}
use mini_sms.Smpp.Bind.Concurrent.{Interleaved, starts_below, checked, added, binds-Bounded}
use mini_sms.Smpp.Ingress.{IngressClient, SubmitEnv, handle_submit}
use mini_sms.Smpp.Ingress.Answers.{Handled, Accepted, handle_submit-Accepted}
use mini_sms.Smpp.Decode.{Codecs, SubmitFields, DecodedSubmit, decode_submit_sm}
use mini_sms.Smpp.Decode.Header.{ReadAs, Address, decode-Address}
use mini_sms.Sending.Reserve.{outcome_accepted}
use mini_sms.Smpp.Conn.{Read, got, bind_pdu, enquire_link}
use mini_sms.Smpp.Conn.Cleanup.{serve, serve-Clean}

abbrev key : Text
key = codes "acme|10.0.0.1"

abbrev nobody : Attempts
nobody k = none

five_block_example :
    (is_bind_blocked (mark_bind_failure (burst nobody key (0 ∷ 1 ∷ 2 ∷ 3 ∷ [])) key 4) key minute).0
    ≡ ltb minute (4 + bind_block_for)
five_block_example =
    five_block nobody key 0 (1 ∷ 2 ∷ 3 ∷ []) 4 minute refl
      (omega arith, (omega arith, (omega arith, tt))) (omega arith) (omega arith)

abbrev five_failures : List Throttle.Call
five_failures =
    Throttle.fails key 1
    ∷ Throttle.fails key 2
    ∷ Throttle.fails key 3
    ∷ Throttle.fails key 4
    ∷ Throttle.fails key 5
    ∷ []

blocked_needs_five_example : bind_max_attempts ≤ tally key 0 five_failures
unfolding is_bind_blocked mark_bind_failure mini_sms.Routing.Cache.put mini_sms.Text.text_eq
blocked_needs_five_example = blocked_needs_five five_failures key 6 refl

abbrev pub sessions_at : ℕ → Session
sessions_at p = record {
  client_id = codes "acme";
  client_name = codes "Acme";
  mode = bind_trx;
  remote = none;
  limit = 50;
}

abbrev pub one_bound : Registry
one_bound = add sessions_at new_registry 7

pub one_bound-History : History sessions_at one_bound
unfolding new_registry
one_bound-History = binds new_registry one_bound 7 (starts new_registry refl) refl refl

pick_deliver-Longest_example :
    (bind_count one_bound (codes "acme")
      ≡ length (select (of_client sessions_at (codes "acme")) one_bound.sessions))
    × Longest sessions_at (codes "acme") one_bound.sessions (pick_deliver one_bound (codes "acme"))
pick_deliver-Longest_example =
    pick_deliver-Longest sessions_at one_bound (codes "acme") one_bound-History

remove_twice_example :
    let (s, found) = remove sessions_at one_bound 7 in
    (found ≡ member 7 one_bound.sessions) × (remove sessions_at s 7 ≡ (s, false))
remove_twice_example = remove_twice sessions_at one_bound 7 one_bound-History

-- Addresses are texts, and a network is its own text.
abbrev net : Net
net = record {
  Ip = Text;
  Network = Text;
  split_host_port = λ s. some s;
  parse_ip = λ s. some s;
  parse_cidr = λ s. some s;
  contains = λ n i. true;
  equal = λ i j. true;
}

abbrev profile : Profile
profile = record {
  client_id = codes "acme";
  name = codes "Acme";
  status = codes "active";
  allowed_cidrs = some (codes "10.0.0.1");
  password_enc = none;
  max_binds = pos 1;
  throughput_per_s = pos 50;
}

abbrev request : BindRequest
request = record {
  mode = bind_trx;
  system_id = some (codes "acme");
  password = some (codes "secret");
  remote = some (codes "10.0.0.1");
}

abbrev bind_env : BindEnv
bind_env = record {
  unicode = ascii;
  net = net;
  lookup = λ s. profile_found profile;
  verify_password = λ e p. true;
  at = λ p. record {
    client_id = codes "acme";
    client_name = codes "Acme";
    mode = bind_trx;
    remote = some (codes "10.0.0.1");
    limit = 50;
  };
  alloc = λ s. 7;
}

abbrev server : Server
server = record { attempts = nobody; registry = new_registry; events = []; log = [] }

handle_bind-Admissible_example :
    ((handle_bind bind_env server request 0).status ≡ status_r_ok)
    ↔ Admissible bind_env server request 0
handle_bind-Admissible_example = (handle_bind-Admissible bind_env server request 0).0

-- Two binds pass the check before the first of them is added, and the client has one too many.
abbrev one_added : Server
one_added = (accept bind_env server request profile).server

abbrev two_added : Server
two_added = (accept bind_env one_added request profile).server

both_bind : Interleaved bind_env (codes "acme") 1 2 two_added []
unfolding new_registry
both_bind = added one_added [] [] request profile refl (
    added server [] ((request, profile) ∷ []) request profile refl (
      checked server ((request, profile) ∷ []) request profile refl refl refl (omega arith) (
        checked server [] request profile refl refl refl (omega arith)
          (starts_below server (omega arith)))))

one_too_many : bind_count two_added.registry (codes "acme") ≡ 2
unfolding new_registry accept add mini_sms.Routing.Cache.put mini_sms.Text.text_eq log_event
one_too_many = refl

binds-Bounded_example : bind_count two_added.registry (codes "acme") + 0 < 1 + 2
binds-Bounded_example =
    binds-Bounded bind_env (codes "acme") 1 2 two_added [] (omega arith) (omega arith) both_bind

-- The library knows the numbers of one country.
abbrev trim_zero : Text → Text
trim_zero s = if has_prefix s (codes "+440") then codes "+44" ++ drop 4 s else s

abbrev codecs : Codecs
codecs = record {
  gsm7 = λ b. b;
  ucs2 = λ b. b;
  phone = λ s. if has_prefix s (codes "+44") then some (trim_zero s) else none;
}

abbrev fields : SubmitFields
fields = record {
  source_addr = some (codes "1234567");
  destination_addr = some (codes "4407700900123");
  source_addr_ton = none;
  source_addr_npi = none;
  dest_addr_ton = none;
  dest_addr_npi = none;
  data_coding = none;
  esm_class = none;
  registered_delivery = none;
  short_message = some (codes "hi");
}

abbrev decoded : DecodedSubmit
decoded = record {
  from = codes "+1234567";
  to = codes "+447700900123";
  body = codes "hi";
  encoding = codes "GSM7";
}

fields-decoded : decode_submit_sm codecs fields ≡ ok decoded
unfolding decode_submit_sm mini_sms.Text.trim_space mini_sms.Text.has_prefix
fields-decoded = refl

decode-Address_example :
    ReadAs codecs (codes "4407700900123") 0 decoded.to
    × Address codecs (codes "1234567") 0 decoded.from
unfolding mini_sms.Text.trim_space mini_sms.Smpp.Decode.field_uint8
decode-Address_example = decode-Address codecs fields decoded fields-decoded

abbrev ingress_client : IngressClient
ingress_client = record {
  account = record { client_id = codes "acme"; rate_group_id = none; routing_group_id = none };
  sender = any_sender;
  dlr_webhook_url = none;
}

abbrev submit_env : SubmitEnv ℕ
submit_env = record {
  unicode = ascii;
  compile = λ p. none;
  codecs = codecs;
  wait = λ p. true;
  get_client = λ c. some ingress_client;
  pool = some sender_queries;
  system_default = codes "MiniSMS";
  send = λ n p. (
    outcome_accepted (record {
      message_id = codes "m";
      segments = 1;
      charged = 0;
      balance_remaining = 0;
      carrier = codes "c";
      failover_sequence = 0;
    }),
    n + 1,
  );
}

handle_submit-Accepted_example :
    let a = handle_submit submit_env 0 7 (codes "acme") fields in
    Handled submit_env 0 (codes "acme") fields a
    × (a.status ≡ status_r_ok → Accepted submit_env 0 (codes "acme") fields a)
handle_submit-Accepted_example = handle_submit-Accepted submit_env 0 7 (codes "acme") fields

abbrev reads : List Read
reads = got 1 0 (bind_pdu request) ∷ got 2 5 enquire_link ∷ []

new-Registered_here : Registered bind_env.at server.registry
new-Registered_here = History-Registered bind_env.at server.registry (starts new_registry refl)

serve-Clean_example :
    let c = serve bind_env submit_env server 0 reads in
    (c.session ≡ none) × Same c.server.registry server.registry
unfolding new_registry
serve-Clean_example = serve-Clean bind_env submit_env server 0 reads new-Registered_here fresh
  where
    fresh : (x : Session) → member 7 server.registry.sessions ≡ false
    fresh x = refl
