-- ===== src/Smpp/Bind/Concurrent.antt =====
-- minisms/internal/smpp/server/server.go: binds on several connections. handleBind reads the number of
-- binds under one lock and adds the session under another, so other binds and ends come in between.
use mini_sms.Prelude.{
  ℕ, ◌+◌, ◌≤◌, ◌<◌, ◌≡◌, sym, subst, ap, false, List, [], ◌∷◌, ◌++◌, arith, length, length-append,
  ltb, Bool-cases, inl, inr,
}
use mini_sms.Prelude.Int.{pos}
use mini_sms.Text.{Text, text_eq, is_empty}
use mini_sms.Text.Laws.{text_eq_sound}
use mini_sms.Routing.Cache.{put}
use mini_sms.Smpp.Sessions.{Session, Registry, bind_count, member, remove}
use mini_sms.Smpp.Bind.{
  BindEnv, BindRequest, Profile, Server, at_limit, new_session, accept, end_session, log_event,
}
use mini_sms.Smpp.Bind.Admission.{accept-count, room}

remove-count :
    (at : ℕ → Session) (r : Registry) (p : ℕ) (c : Text)
    → bind_count (remove at r p).0 c ≤ bind_count r c
unfolding remove put
remove-count at r p c = elim (Bool-cases (member p r.sessions)) [
  | inr e ↦ rw e (omega arith)
  | inl e ↦ elim (Bool-cases (ltb 0 (r.by_client (at p).client_id))) [
    | inr f ↦ rw (e, f) (omega arith)
    | inl f ↦ elim (Bool-cases (text_eq (at p).client_id c)) [
      | inl g ↦
          let same : r.by_client (at p).client_id ≡ r.by_client c =
            ap r.by_client (text_eq_sound (at p).client_id c g) in
          rw (e, f, g) (omega arith)
      | inr g ↦ rw (e, f, g) (omega arith)
    ]
  ]
]

module _ (env : BindEnv) (c : Text) (n k : ℕ) where
  -- The binds of a client that have passed the check and are not added yet.
  abbrev pub Pending : Type 0
  Pending = List (BindRequest × Profile)

  -- What the server and the pending binds of a client with a limit of `n` come to, where no more than
  -- `k` of its binds are handled at the same time.
  pub data Interleaved : Server → Pending → Type 1 where
    starts_below : (s : Server) → bind_count s.registry c ≤ n → Interleaved s []
    checked :
        (s : Server) (ps : Pending) (b : BindRequest) (p : Profile)
        → p.client_id ≡ c
        → p.max_binds ≡ pos n
        → at_limit s p ≡ false
        → length ps < k
        → Interleaved s ps
        → Interleaved s ((b, p) ∷ ps)
    added :
        (s : Server) (before after : Pending) (b : BindRequest) (p : Profile)
        → env.at (env.alloc (new_session b p)) ≡ new_session b p
        → Interleaved s (before ++ (b, p) ∷ after)
        → Interleaved (accept env s b p).server (before ++ after)
    added_elsewhere :
        (s : Server) (ps : Pending) (b : BindRequest) (p : Profile)
        → env.at (env.alloc (new_session b p)) ≡ new_session b p
        → text_eq p.client_id c ≡ false
        → Interleaved s ps
        → Interleaved (accept env s b p).server ps
    ended :
        (s : Server) (ps : Pending) (q : ℕ) (event : Text)
        → Interleaved s ps
        → Interleaved (end_session env s q event) ps
    noted :
        (s t : Server) (ps : Pending)
        → t.registry ≡ s.registry
        → Interleaved s ps
        → Interleaved t ps

  end-count :
      (s : Server) (q : ℕ) (event : Text)
      → bind_count (end_session env s q event).registry c ≤ bind_count s.registry c
  unfolding end_session log_event
  end-count s q event = elim (Bool-cases (remove env.at s.registry q).1) [
    | inl e ↦ elim (Bool-cases (is_empty (env.at q).client_id)) [
      | inl f ↦ rw (e, f) (remove-count env.at s.registry q c)
      | inr f ↦ rw (e, f) (remove-count env.at s.registry q c)
    ]
    | inr e ↦ rw e (remove-count env.at s.registry q c)
  ]

  length-between :
      (before after : Pending) (x : BindRequest × Profile)
      → length (before ++ x ∷ after) ≡ length (before ++ after) + 1
  length-between before after x =
      omega (arith, length-append before (x ∷ after), length-append before after)

  -- A client's binds, with those that have passed the check, are fewer than its limit and the number of
  -- binds that are handled at the same time together: one at a time never exceeds the limit, and k at a
  -- time exceed it by at most k - 1.
  pub binds-Bounded :
      (s : Server) (ps : Pending)
      → 0 < n
      → 0 < k
      → Interleaved s ps
      → bind_count s.registry c + length ps < n + k
  binds-Bounded s ps p q (starts_below t h) = omega arith
  binds-Bounded s ps p q (checked t rest b x own limit free few run) =
      let below = room env x.max_binds (bind_count t.registry x.client_id) n limit p free in
      let same : bind_count t.registry x.client_id ≡ bind_count t.registry c =
        ap t.registry.by_client own in
      omega (arith, binds-Bounded t rest p q run)
  binds-Bounded s ps p q (added t before after b x at run) =
      elim (Bool-cases (text_eq x.client_id c)) [
        | inl e ↦
            let same : bind_count t.registry x.client_id ≡ bind_count t.registry c =
              ap t.registry.by_client (text_eq_sound x.client_id c e) in
            rw (accept-count env t b x c at, e)
              (omega (
                arith,
                binds-Bounded t (before ++ (b, x) ∷ after) p q run,
                length-between before after (b, x),
              ))
        | inr e ↦
            rw (accept-count env t b x c at, e)
              (omega (
                arith,
                binds-Bounded t (before ++ (b, x) ∷ after) p q run,
                length-between before after (b, x),
              ))
      ]
  binds-Bounded s ps p q (added_elsewhere t ps' b x at e run) =
      rw (accept-count env t b x c at, e) (binds-Bounded t ps p q run)
  binds-Bounded s ps p q (ended t ps' x event run) =
      omega (arith, end-count t x event, binds-Bounded t ps p q run)
  binds-Bounded s ps p q (noted t s' ps' e run) =
      subst (λ (r : Registry). bind_count r c + length ps < n + k) (sym e)
        (binds-Bounded t ps p q run)
