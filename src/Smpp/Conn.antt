-- ===== src/Smpp/Conn.antt =====
-- minisms/internal/smpp/server/server.go: handleConn, the loop over the PDUs of one connection.
-- Wire logs, deadlines and write errors are left out; replies are kept in the order of the writes.
pub mod Cleanup
use mini_sms.Prelude.{
  ℕ, Bool, true, false, not, Option, none, some, List, [], ◌∷◌, ◌++◌, if◌then◌else◌,
}
use mini_sms.Text.{Text, codes}
use mini_sms.Smpp.Sessions.{BindMode, Session, can_submit}
use mini_sms.Smpp.Bind.{
  BindEnv, BindRequest, Server, Bound, status_r_bind_fail, handle_bind, end_session,
}
use mini_sms.Smpp.Decode.{SubmitFields}
use mini_sms.Smpp.Ingress.{SubmitEnv, Answer, handle_submit}

pub data Pdu : Type 0 where
  bind_pdu : BindRequest → Pdu
  submit_sm : SubmitFields → Pdu
  enquire_link unbind deliver_sm_resp other_pdu : Pdu

-- What c.Read returns, with the sequence number and the time of arrival.
pub data Read : Type 0 where
  read_failed no_pdu : Read
  got : ℕ → ℕ → Pdu → Read

pub data ReplyBody : Type 0 where
  bind_resp : BindMode → ℕ → ReplyBody
  submit_sm_resp : ℕ → Option Text → ReplyBody
  enquire_link_resp unbind_resp generic_nack : ReplyBody

pub record Reply : Type 0 where
  pub seq : ℕ
  pub body : ReplyBody

-- isBindPDU
abbrev pub is_bind_pdu : Pdu → Bool
is_bind_pdu (bind_pdu b) = true
is_bind_pdu _ = false

module _ {S : Type 0} (env : BindEnv) (submit : SubmitEnv S) where
  -- The variables of the loop, and what it has changed.
  pub record Conn : Type 0 where
    pub session : Option ℕ
    pub server : Server
    pub store : S
    pub sent : List Reply

  abbrev pub write : Conn → ℕ → ReplyBody → Conn
  write c seq body = record c { sent = c.sent ++ (record { seq = seq; body = body } ∷ []) }

  -- A bind while no session is there.
  abbrev pub bound_conn : Conn → ℕ → BindMode → Bound → Conn
  bound_conn c seq mode r =
      write (record c { session = r.session; server = r.server }) seq (bind_resp mode r.status)

  abbrev pub submit_conn : Conn → ℕ → Answer S → Conn
  submit_conn c seq a =
      write (record c { store = a.store }) seq (submit_sm_resp a.status a.message_id)

  -- One turn with no session; true goes on.
  unfoldable pub unbound_turn : Conn → ℕ → ℕ → Pdu → Conn × Bool
  unfolding handle_bind
  unbound_turn c seq now (bind_pdu b) =
      (bound_conn c seq b.mode (handle_bind env c.server b now), true)
  unbound_turn c seq now _ = (c, false)

  -- One turn with a session.
  unfoldable pub bound_turn : Conn → ℕ → ℕ → ℕ → Pdu → Conn × Bool
  unfolding handle_submit end_session
  bound_turn c p seq now (bind_pdu b) = (write c seq (bind_resp b.mode status_r_bind_fail), true)
  bound_turn c p seq now (submit_sm f) =
      if not (can_submit (env.at p).mode)
      then (write c seq (submit_sm_resp status_r_bind_fail none), true)
      else (submit_conn c seq (handle_submit submit c.store p (env.at p).client_id f), true)
  bound_turn c p seq now enquire_link = (write c seq enquire_link_resp, true)
  bound_turn c p seq now unbind =
      let w = write c seq unbind_resp in
      (record w { session = none; server = end_session env c.server p (codes "unbind") }, false)
  bound_turn c p seq now deliver_sm_resp = (c, true)
  bound_turn c p seq now other_pdu = (write c seq generic_nack, true)

  abbrev pub turn_on : Option ℕ → Conn → ℕ → ℕ → Pdu → Conn × Bool
  turn_on none c seq now pdu = unbound_turn c seq now pdu
  turn_on (some p) c seq now pdu = bound_turn c p seq now pdu

  abbrev pub turn : Conn → ℕ → ℕ → Pdu → Conn × Bool
  turn c seq now pdu = turn_on c.session c seq now pdu

  abbrev pub disconnect_on : Option ℕ → Conn → Conn
  disconnect_on none c = c
  disconnect_on (some p) c = record c {
    session = none;
    server = end_session env c.server p (codes "disconnect");
  }

  -- The deferred end of the session.
  abbrev pub disconnect : Conn → Conn
  disconnect c = disconnect_on c.session c

  -- handleConn; the reads end with an error
  unfoldable pub handle_conn : Conn → List Read → Conn
  unfolding unbound_turn bound_turn end_session
  handle_conn c [] = disconnect c
  handle_conn c (read_failed ∷ reads) = disconnect c
  handle_conn c (no_pdu ∷ reads) = handle_conn c reads
  handle_conn c (got seq now pdu ∷ reads) =
      let rest = handle_conn (turn c seq now pdu).0 reads in
      if (turn c seq now pdu).1 then rest else disconnect (turn c seq now pdu).0
