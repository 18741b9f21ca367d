-- ===== src/Smpp/Conn/Cleanup.antt =====
-- What a connection leaves behind.
use mini_sms.Prelude.{
  ℕ, ◌≡◌, ◌⊎◌, refl, sym, subst, Bool, true, false, Option, none, some, List, [], ◌∷◌, arith, ◌==◌,
  Bool-cases, inl, inr,
}
use mini_sms.Text.{Text, codes}
use mini_sms.Smpp.Sessions.{Session, Registry, member, add, remove, can_submit}
use mini_sms.Smpp.Sessions.Registered.{Registered}
use mini_sms.Smpp.Sessions.RoundTrip.{Same, remove-add}
use mini_sms.Smpp.Bind.{
  BindEnv, BindRequest, Server, status_r_ok, handle_bind, end_session, accept, new_session,
  log_event,
}
use mini_sms.Smpp.Bind.Admission.{Admissible-accept, handle_bind-Admissible}
use mini_sms.Smpp.Ingress.{SubmitEnv}
use mini_sms.Smpp.Conn.{
  Pdu, bind_pdu, submit_sm, enquire_link, unbind, deliver_sm_resp, other_pdu, Read, read_failed,
  no_pdu, got, Conn, turn, turn_on, disconnect_on, unbound_turn, bound_turn, disconnect,
  handle_conn,
}

module _ (env : BindEnv) (r : Registry) where
  -- The registry is the first one, or that one with the session of the connection.
  abbrev Held : Option ℕ → Registry → Type 0
  Held none now = now ≡ r
  Held (some p) now = (member p r.sessions ≡ false) × (now ≡ add env.at r p)

  registry-end :
      (s : Server) (p : ℕ) (event : Text)
      → (end_session env s p event).registry ≡ (remove env.at s.registry p).0
  unfolding end_session log_event
  registry-end s p event = ground arith

  bind-Held :
      (s : Server) (b : BindRequest) (now : ℕ)
      → ((x : Session) → member (env.alloc x) r.sessions ≡ false)
      → s.registry ≡ r
      → Held (handle_bind env s b now).session (handle_bind env s b now).server.registry
  unfolding accept log_event
  bind-Held s b now fresh e = elim (Bool-cases ((handle_bind env s b now).status == status_r_ok)) [
    | inl g ↦
        let v = (handle_bind-Admissible env s b now).0.0 (ground arith) in
        rw (Admissible-accept env s b now v) (fresh (new_session b v.profile), ground arith)
    | inr g ↦
        let (none_yet, kept) = (handle_bind-Admissible env s b now).1 (ground arith) in
        rw (none_yet, kept) e
  ]

  -- Nothing of the connection is left.
  abbrev pub Clean : Option ℕ → Registry → Type 0
  Clean session now = (session ≡ none) × Same now r

  kept_registry : (now : Registry) → now ≡ r → Same now r
  kept_registry now e =
      subst (λ q. Same q r) (sym e)
        (record { sessions = refl; by_client = λ c. refl; deliver = λ c. refl })

  end-Clean :
      (s : Server) (p : ℕ) (event : Text)
      → Registered env.at r
      → Held (some p) s.registry
      → Same (end_session env s p event).registry r
  end-Clean s p event v (f, e) = rw (registry-end s p event, e) (remove-add env.at r p v f)

  -- After a turn that goes on the registry is held, and after one that stops it is that or clean.
  abbrev After : Bool → Option ℕ → Registry → Type 0
  After true session now = Held session now
  After false session now = Held session now ⊎ Clean session now

  unbound-After :
      {S : Type 0} (submit : SubmitEnv S) (c : Conn env submit) (seq now : ℕ) (pdu : Pdu)
      → ((x : Session) → member (env.alloc x) r.sessions ≡ false)
      → c.session ≡ none
      → c.server.registry ≡ r
      → let (d, go) = unbound_turn env submit c seq now pdu in After go d.session d.server.registry
  unfolding unbound_turn
  unbound-After submit c seq now (bind_pdu b) fresh n e = bind-Held c.server b now fresh e
  unbound-After submit c seq now (submit_sm f) fresh n e = inl (rw n e)
  unbound-After submit c seq now enquire_link fresh n e = inl (rw n e)
  unbound-After submit c seq now unbind fresh n e = inl (rw n e)
  unbound-After submit c seq now deliver_sm_resp fresh n e = inl (rw n e)
  unbound-After submit c seq now other_pdu fresh n e = inl (rw n e)

  bound-After :
      {S : Type 0} (submit : SubmitEnv S) (c : Conn env submit) (p seq now : ℕ) (pdu : Pdu)
      → Registered env.at r
      → c.session ≡ some p
      → Held (some p) c.server.registry
      → let (d, go) = bound_turn env submit c p seq now pdu in After go d.session d.server.registry
  unfolding bound_turn
  bound-After submit c p seq now (bind_pdu b) v n h = rw n h
  bound-After submit c p seq now (submit_sm f) v n h =
      elim (Bool-cases (can_submit (env.at p).mode)) [ inl e ↦ rw (e, n) h | inr e ↦ rw (e, n) h ]
  bound-After submit c p seq now enquire_link v n h = rw n h
  bound-After submit c p seq now unbind v n h =
      inr (refl, end-Clean c.server p (codes "unbind") v h)
  bound-After submit c p seq now deliver_sm_resp v n h = rw n h
  bound-After submit c p seq now other_pdu v n h = rw n h

  turn-After :
      {S : Type 0} (submit : SubmitEnv S) (o : Option ℕ) (c : Conn env submit) (seq now : ℕ)
      (pdu : Pdu)
      → ((x : Session) → member (env.alloc x) r.sessions ≡ false)
      → Registered env.at r
      → c.session ≡ o
      → Held o c.server.registry
      → let (d, go) = turn_on env submit o c seq now pdu in After go d.session d.server.registry
  turn-After submit none c seq now pdu fresh v e h = unbound-After submit c seq now pdu fresh e h
  turn-After submit (some p) c seq now pdu fresh v e h = bound-After submit c p seq now pdu v e h

  Held-Clean :
      {S : Type 0} (submit : SubmitEnv S) (o : Option ℕ) (c : Conn env submit)
      → Registered env.at r
      → c.session ≡ o
      → Held o c.server.registry
      → Clean (disconnect_on env submit o c).session (disconnect_on env submit o c).server.registry
  Held-Clean submit none c v e h = (e, kept_registry c.server.registry h)
  Held-Clean submit (some p) c v e h = (refl, end-Clean c.server p (codes "disconnect") v h)

  disconnect-Clean :
      {S : Type 0} (submit : SubmitEnv S) (c : Conn env submit)
      → Registered env.at r
      → After false c.session c.server.registry
      → Clean (disconnect env submit c).session (disconnect env submit c).server.registry
  disconnect-Clean submit c v (inl h) = Held-Clean submit c.session c v refl h
  disconnect-Clean submit c v (inr (n, h)) =
      subst
        (λ o.
          Clean (disconnect_on env submit o c).session
            (disconnect_on env submit o c).server.registry)
        (sym n) (n, h)

  loop-Clean :
      {S : Type 0} (submit : SubmitEnv S) (c : Conn env submit) (reads : List Read)
      → ((x : Session) → member (env.alloc x) r.sessions ≡ false)
      → Registered env.at r
      → Held c.session c.server.registry
      → let d = handle_conn env submit c reads in Clean d.session d.server.registry
  unfolding handle_conn
  loop-Clean submit c [] fresh v h = disconnect-Clean submit c v (inl h)
  loop-Clean submit c (read_failed ∷ reads) fresh v h = disconnect-Clean submit c v (inl h)
  loop-Clean submit c (no_pdu ∷ reads) fresh v h = loop-Clean submit c reads fresh v h
  loop-Clean submit c (got seq now pdu ∷ reads) fresh v h =
      let a = turn-After submit c.session c seq now pdu fresh v refl h in
      let rest = loop-Clean submit (turn env submit c seq now pdu).0 reads fresh v in
      elim (Bool-cases (turn env submit c seq now pdu).1) [
        | inl e ↦ rw e (
            rest (
              subst
                (λ b.
                  After b (turn env submit c seq now pdu).0.session
                    (turn env submit c seq now pdu).0.server.registry)
                e a))
        | inr e ↦ rw e (
            disconnect-Clean submit (turn env submit c seq now pdu).0 v (
              subst
                (λ b.
                  After b (turn env submit c seq now pdu).0.session
                    (turn env submit c seq now pdu).0.server.registry)
                e a))
      ]

-- The whole of a connection: it starts with no session and no reply.
abbrev pub serve :
    {S : Type 0} (env : BindEnv) (submit : SubmitEnv S) → Server → S → List Read → Conn env submit
serve env submit s store reads =
    handle_conn env submit (record { session = none; server = s; store = store; sent = [] }) reads

-- Whatever a connection reads, and however it ends, it leaves no session: the registry has the
-- sessions, the counts and the receivers that it had before, if it was consistent and a new
-- session is none of the registered ones.
pub serve-Clean :
    {S : Type 0} (env : BindEnv) (submit : SubmitEnv S) (s : Server) (store : S) (reads : List Read)
    → Registered env.at s.registry
    → ((x : Session) → member (env.alloc x) s.registry.sessions ≡ false)
    → let c = serve env submit s store reads in
      (c.session ≡ none) × Same c.server.registry s.registry
serve-Clean env submit s store reads v fresh =
    loop-Clean env s.registry submit
      (record { session = none; server = s; store = store; sent = [] }) reads fresh v refl
