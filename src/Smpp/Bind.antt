-- ===== src/Smpp/Bind.antt =====
-- minisms/internal/smpp/server/server.go: handleBind and endSession. The queries, the decryption of
-- passwords and package net are parameters, and so is the address of a new session. Times are read
-- once for each bind. In handle_bind nothing comes between the check of the number of binds and the
-- adding of the session, as with one bind at a time; Concurrent has the two as steps of their own. Wire
-- logs are left out.
pub mod Admission
pub mod Concurrent
use mini_sms.Prelude.{
  ℕ, ◌+◌, ◌≡◌, Bool, true, false, not, ◌&&◌, ◌||◌, Option, none, some, List, [], ◌∷◌, ◌++◌,
  if◌then◌else◌, leb,
}
use mini_sms.Prelude.Int.{ℤ, is_pos, pos_part}
use mini_sms.Text.{Text, Unicode, codes, text_eq, is_empty, trim_space}
use mini_sms.Dlr.Status.{value_or_empty}
use mini_sms.Smpp.Throttle.{
  Attempts, bind_throttle_key, is_bind_blocked, mark_bind_failure, clear_bind_failures,
}
use mini_sms.Smpp.Sessions.{BindMode, mode_name, Session, Registry, bind_count, add, remove}
use mini_sms.Smpp.Cidr.{Net, cidr_allowed, remote_host}

abbrev pub status_r_ok : ℕ
status_r_ok = 0

abbrev pub status_r_bind_fail : ℕ
status_r_bind_fail = 13

abbrev pub status_r_inv_sys_id : ℕ
status_r_inv_sys_id = 21

abbrev pub status_r_throttled : ℕ
status_r_throttled = 88

pub record Profile : Type 0 where
  pub client_id : Text
  pub name : Text
  pub status : Text
  pub allowed_cidrs : Option Text
  pub password_enc : Option Text
  pub max_binds : ℤ
  pub throughput_per_s : ℤ

-- What LookupClientSMPPIngress answers.
pub data ProfileLookup : Type 0 where
  profile_found : Profile → ProfileLookup
  profile_missing lookup_failed : ProfileLookup

-- A row of smpp_bind_events.
pub record BindEvent : Type 0 where
  pub client_id : Text
  pub event : Text
  pub mode : Text
  pub remote : Option Text
  pub status : Option ℕ
  pub detail : Text

-- A line that logEvent adds for a client, without its details.
pub record LogLine : Type 0 where
  pub client_id : Text
  pub level : Text
  pub message : Text

pub record Server : Type 0 where
  pub attempts : Attempts
  pub registry : Registry
  pub events : List BindEvent
  pub log : List LogLine

pub record BindRequest : Type 0 where
  pub mode : BindMode
  pub system_id : Option Text
  pub password : Option Text
  pub remote : Option Text

-- fieldString
abbrev pub field_string : Option Text → Text
field_string v = trim_space (value_or_empty v)

-- logEvent
unfoldable pub log_event : Server → Text → Text → Text → Server
log_event s client level message = if is_empty client then s else record s {
  log = s.log ++ (record { client_id = client; level = level; message = message } ∷ []);
}

-- InsertSMPPBindEvent, whose errors are dropped
abbrev pub insert_event : Server → BindEvent → Server
insert_event s e = record s { events = s.events ++ (e ∷ []) }

pub record BindEnv : Type 1 where
  pub unicode : Unicode
  pub net : Net
  pub lookup : Text → ProfileLookup
  pub verify_password : Option Text → Text → Bool
  pub at : ℕ → Session
  pub alloc : Session → ℕ

-- What one bind comes to: the status of its response, the new session, and the server.
pub record Bound : Type 0 where
  pub status : ℕ
  pub session : Option ℕ
  pub server : Server

abbrev pub at_limit : Server → Profile → Bool
at_limit s p = is_pos p.max_binds && leb (pos_part p.max_binds) (bind_count s.registry p.client_id)

abbrev pub new_session : BindRequest → Profile → Session
new_session b p = record {
  client_id = p.client_id;
  client_name = p.name;
  mode = b.mode;
  remote = b.remote;
  limit = if is_pos p.throughput_per_s then pos_part p.throughput_per_s else 50;
}

module _ (env : BindEnv) where
  abbrev pub key_of : BindRequest → Text
  key_of b =
      bind_throttle_key env.unicode (value_or_empty (remote_host env.net b.remote))
        (field_string b.system_id)

  abbrev pub refused : ℕ → Server → Bound
  refused status s = record { status = status; session = none; server = s }

  -- The lines that a refusal with a known client shares.
  unfoldable pub reject : Server → BindRequest → Profile → ℕ → Text → Bound
  unfolding log_event
  reject s b p status detail = refused status (
      insert_event (log_event s p.client_id (codes "ERROR") (codes "bind rejected")) (record {
        client_id = p.client_id;
        event = codes "bind_fail";
        mode = mode_name b.mode;
        remote = remote_host env.net b.remote;
        status = some status;
        detail = detail;
      }))

  abbrev pub failed_once : Server → BindRequest → ℕ → Server
  failed_once s b now = record s { attempts = mark_bind_failure s.attempts (key_of b) now }

  unfoldable pub accept : Server → BindRequest → Profile → Bound
  unfolding log_event
  accept s b p =
      let new = env.alloc (new_session b p) in
      let t = record s {
        attempts = clear_bind_failures s.attempts (key_of b);
        registry = add env.at s.registry new;
      } in
      record {
        status = status_r_ok;
        session = some new;
        server =
            insert_event (log_event t p.client_id (codes "INFO") (codes "bind accepted")) (record {
              client_id = p.client_id;
              event = codes "bind_ok";
              mode = mode_name b.mode;
              remote = remote_host env.net b.remote;
              status = some 0;
              detail = [];
            });
      }

  -- handleBind, once the profile is there
  unfoldable pub admit : Server → BindRequest → ℕ → Profile → Bound
  admit s b now p =
      if not (text_eq p.status (codes "active"))
      then reject (failed_once s b now) b p status_r_bind_fail (codes "client not active")
      else if not (cidr_allowed env.net b.remote p.allowed_cidrs)
      then reject (failed_once s b now) b p status_r_bind_fail (codes "cidr denied")
      else if not (env.verify_password p.password_enc (field_string b.password))
      then reject (failed_once s b now) b p status_r_bind_fail (codes "bad password")
      else if at_limit s p
      then reject s b p status_r_throttled (codes "max binds")
      else accept s b p

  abbrev pub looked_up : Server → BindRequest → ℕ → ProfileLookup → Bound
  looked_up s b now (profile_found p) = admit s b now p
  looked_up s b now profile_missing = refused status_r_bind_fail (failed_once s b now)
  looked_up s b now lookup_failed = refused status_r_bind_fail s

  -- handleBind
  unfoldable pub handle_bind : Server → BindRequest → ℕ → Bound
  handle_bind s b now =
      if is_empty (field_string b.system_id) || is_empty (field_string b.password)
      then refused status_r_inv_sys_id s
      else let (blocked, attempts) = is_bind_blocked s.attempts (key_of b) now in
        let t = record s { attempts = attempts } in
        if blocked
        then refused status_r_bind_fail t
        else looked_up t b now (env.lookup (field_string b.system_id))

  -- endSession
  unfoldable pub end_session : Server → ℕ → Text → Server
  unfolding log_event
  end_session s p event =
      let x = env.at p in
      let (registry, present) = remove env.at s.registry p in
      let t = record s { registry = registry } in
      insert_event
        (if present then log_event t x.client_id (codes "INFO") (codes "session " ++ event) else t)
        (record {
          client_id = x.client_id;
          event = event;
          mode = mode_name x.mode;
          remote = remote_host env.net x.remote;
          status = none;
          detail = [];
        })
