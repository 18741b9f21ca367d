-- ===== src/Smpp/Bind/Admission.antt =====
-- Which binds handleBind admits.
use mini_sms.Prelude.{
  ℕ, zero, suc, ◌+◌, ◌≤◌, ◌<◌, ◌≡◌, ◌≢◌, ◌↔◌, refl, subst, true, false, ◌&&◌, ◌||◌, none, arith,
  if◌then◌else◌, leb, ◌==◌, Bool-cases, inl, inr,
}
use mini_sms.Prelude.Int.{ℤ, pos, is_pos, pos_part}
use mini_sms.Text.{Text, codes, text_eq, is_empty}
use mini_sms.Text.Laws.{text_eq_sound}
use mini_sms.Routing.Cache.{put}
use mini_sms.Smpp.Throttle.{is_bind_blocked}
use mini_sms.Smpp.Sessions.{Registry, add, bind_count}
use mini_sms.Smpp.Cidr.{cidr_allowed}
use mini_sms.Smpp.Bind.{
  BindEnv, BindRequest, Profile, ProfileLookup, profile_found, profile_missing, lookup_failed,
  Server, Bound, status_r_ok, key_of, field_string, at_limit, new_session, admit, looked_up,
  handle_bind, reject, accept, log_event,
}

module _ (env : BindEnv) where
  -- What a profile must say of a bind.
  pub record Fits (s : Server) (b : BindRequest) (p : Profile) : Type 0 where
    pub active : text_eq p.status (codes "active") ≡ true
    pub from_inside : cidr_allowed env.net b.remote p.allowed_cidrs ≡ true
    pub password_right : env.verify_password p.password_enc (field_string b.password) ≡ true
    pub below_limit : at_limit s p ≡ false

  pub record Admissible (s : Server) (b : BindRequest) (now : ℕ) : Type 0 where
    pub profile : Profile
    pub has_system_id : is_empty (field_string b.system_id) ≡ false
    pub has_password : is_empty (field_string b.password) ≡ false
    pub not_blocked : (is_bind_blocked s.attempts (key_of env b) now).0 ≡ false
    pub known : env.lookup (field_string b.system_id) ≡ profile_found profile
    pub fits : Fits s b profile

  admit-Fits :
      (s : Server) (b : BindRequest) (now : ℕ) (p : Profile)
      → (admit env s b now p).status ≡ status_r_ok
      → Fits s b p
  unfolding admit reject
  admit-Fits s b now p h = record {
    active = ground arith;
    from_inside = ground arith;
    password_right = ground arith;
    below_limit = ground arith;
  }

  Fits-admit :
      (s : Server) (b : BindRequest) (now : ℕ) (p : Profile)
      → Fits s b p
      → admit env s b now p ≡ accept env s b p
  unfolding admit
  Fits-admit s b now p v = rw (v.active, v.from_inside, v.password_right, v.below_limit) refl

  looked_up-Admissible :
      (s t : Server) (b : BindRequest) (now : ℕ) (l : ProfileLookup)
      → t.registry ≡ s.registry
      → is_empty (field_string b.system_id) ≡ false
      → is_empty (field_string b.password) ≡ false
      → (is_bind_blocked s.attempts (key_of env b) now).0 ≡ false
      → env.lookup (field_string b.system_id) ≡ l
      → (looked_up env t b now l).status ≡ status_r_ok
      → Admissible s b now
  looked_up-Admissible s t b now (profile_found p) r e f g h k =
      let v = admit-Fits t b now p k in
      record {
        profile = p;
        has_system_id = e;
        has_password = f;
        not_blocked = g;
        known = h;
        fits = record {
          active = v.active;
          from_inside = v.from_inside;
          password_right = v.password_right;
          below_limit =
              subst
                (λ (x : Registry).
                  (is_pos p.max_binds && leb (pos_part p.max_binds) (x.by_client p.client_id))
                  ≡ false)
                r v.below_limit;
        };
      }
  looked_up-Admissible s t b now profile_missing r e f g h k = absurd (cc)
  looked_up-Admissible s t b now lookup_failed r e f g h k = absurd (cc)

  pub ok-Admissible :
      (s : Server) (b : BindRequest) (now : ℕ)
      → (handle_bind env s b now).status ≡ status_r_ok
      → Admissible s b now
  unfolding handle_bind
  ok-Admissible s b now h = elim (Bool-cases (is_empty (field_string b.system_id))) [
    | inl e ↦ absurd (ground arith)
    | inr e ↦ elim (Bool-cases (is_empty (field_string b.password))) [
      | inl f ↦ absurd (ground arith)
      | inr f ↦ elim (Bool-cases (is_bind_blocked s.attempts (key_of env b) now).0) [
        | inl g ↦ absurd (ground arith)
        | inr g ↦
            looked_up-Admissible s
              (record s { attempts = (is_bind_blocked s.attempts (key_of env b) now).1 }) b now
              (env.lookup (field_string b.system_id)) refl e f g refl (ground arith)
      ]
    ]
  ]

  -- The server after the check of the key.
  abbrev pub checked_server : Server → BindRequest → ℕ → Server
  checked_server s b now = record s { attempts = (is_bind_blocked s.attempts (key_of env b) now).1 }

  pub Admissible-accept :
      (s : Server) (b : BindRequest) (now : ℕ) (v : Admissible s b now)
      → handle_bind env s b now ≡ accept env (checked_server s b now) b v.profile
  unfolding handle_bind
  Admissible-accept s b now v =
      rw (v.has_system_id, v.has_password, v.not_blocked, v.known)
        (Fits-admit (checked_server s b now) b now v.profile (record {
          active = v.fits.active;
          from_inside = v.fits.from_inside;
          password_right = v.fits.password_right;
          below_limit = v.fits.below_limit;
        }))

  abbrev pub Unchanged : Server → Bound → Type 0
  Unchanged s r = (r.session ≡ none) × (r.server.registry ≡ s.registry)

  admit-Unchanged :
      (s : Server) (b : BindRequest) (now : ℕ) (p : Profile)
      → (admit env s b now p).status ≢ status_r_ok
      → Unchanged s (admit env s b now p)
  unfolding admit reject log_event accept
  admit-Unchanged s b now p h = ground arith

  looked_up-Unchanged :
      (s : Server) (b : BindRequest) (now : ℕ) (l : ProfileLookup)
      → (looked_up env s b now l).status ≢ status_r_ok
      → Unchanged s (looked_up env s b now l)
  looked_up-Unchanged s b now (profile_found p) h = admit-Unchanged s b now p h
  looked_up-Unchanged s b now profile_missing h = (refl, refl)
  looked_up-Unchanged s b now lookup_failed h = (refl, refl)

  refused-Unchanged :
      (s : Server) (b : BindRequest) (now : ℕ)
      → (handle_bind env s b now).status ≢ status_r_ok
      → Unchanged s (handle_bind env s b now)
  unfolding handle_bind
  refused-Unchanged s b now h =
      elim (Bool-cases
        (is_empty (field_string b.system_id) || is_empty (field_string b.password))) [
          | inl e ↦ rw e (refl, refl)
          | inr e ↦ elim (Bool-cases (is_bind_blocked s.attempts (key_of env b) now).0) [
            | inl g ↦ rw (e, g) (refl, refl)
            | inr g ↦
                rw (e, g)
                  (looked_up-Unchanged (checked_server s b now) b now
                    (env.lookup (field_string b.system_id)) (ground arith))
          ]
        ]

  -- A bind is answered with ROK exactly if it names a system id and a password, its key is not
  -- shut out, the client is known and active, its address is allowed, its password is verified and
  -- the client is below its limit of binds; any other bind gets no session and leaves the registry
  -- as it was.
  pub handle_bind-Admissible :
      (s : Server) (b : BindRequest) (now : ℕ)
      → (((handle_bind env s b now).status ≡ status_r_ok) ↔ Admissible s b now)
        × ((handle_bind env s b now).status ≢ status_r_ok → Unchanged s (handle_bind env s b now))
  unfolding accept
  handle_bind-Admissible s b now = (
    (ok-Admissible s b now, λ v. rw (Admissible-accept s b now v) refl),
    refused-Unchanged s b now,
  )

  pub room :
      (m : ℤ) (k n : ℕ) → m ≡ pos n → 0 < n → (is_pos m && leb (pos_part m) k) ≡ false → k + 1 ≤ n
  room m k zero e h f = omega arith
  room m k (suc n) e h f = ground arith

  -- An accepted bind adds one session of the client.
  pub accept-count :
      (s : Server) (b : BindRequest) (p : Profile) (c : Text)
      → env.at (env.alloc (new_session b p)) ≡ new_session b p
      → bind_count (accept env s b p).server.registry c ≡ (
          if text_eq p.client_id c
          then bind_count s.registry p.client_id + 1
          else bind_count s.registry c)
  unfolding accept log_event add put
  accept-count s b p c at = elim (Bool-cases (is_empty p.client_id)) [
    | inl e ↦ rw (e, at) refl
    | inr e ↦ rw (e, at) refl
  ]

  accepted-count :
      (s : Server) (b : BindRequest) (now : ℕ) (v : Admissible s b now) (c : Text)
      → env.at (env.alloc (new_session b v.profile)) ≡ new_session b v.profile
      → bind_count (handle_bind env s b now).server.registry c ≡ (
          if text_eq v.profile.client_id c
          then bind_count s.registry v.profile.client_id + 1
          else bind_count s.registry c)
  accepted-count s b now v c at =
      rw (Admissible-accept s b now v) (accept-count (checked_server s b now) b v.profile c at)

  -- A bind never takes a client above its limit of binds, where that is positive, the profile that
  -- is found states it, and the new session has the fields it is made with.
  pub handle_bind_limit :
      (s : Server) (b : BindRequest) (now : ℕ) (c : Text) (n : ℕ)
      → ((p : Profile)
          → env.lookup (field_string b.system_id) ≡ profile_found p
          → env.at (env.alloc (new_session b p)) ≡ new_session b p)
      → ((p : Profile)
          → env.lookup (field_string b.system_id) ≡ profile_found p
          → p.client_id ≡ c
          → p.max_binds ≡ pos n)
      → 0 < n
      → bind_count s.registry c ≤ n
      → bind_count (handle_bind env s b now).server.registry c ≤ n
  handle_bind_limit s b now c n at max positive h =
      elim (Bool-cases ((handle_bind env s b now).status == status_r_ok)) [
        | inl e ↦
            let v = ok-Admissible s b now (ground arith) in
            rw (accepted-count s b now v c (at v.profile v.known))
              (elim (Bool-cases (text_eq v.profile.client_id c)) [
                | inl f ↦ rw f (
                    room v.profile.max_binds (bind_count s.registry v.profile.client_id) n
                      (max v.profile v.known (text_eq_sound v.profile.client_id c f)) positive
                      v.fits.below_limit)
                | inr f ↦ rw f h
              ])
        | inr e ↦ rw ((refused-Unchanged s b now (ground arith)).1) h
      ]
