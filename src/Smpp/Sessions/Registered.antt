-- ===== src/Smpp/Sessions/Registered.antt =====
-- What the registry holds after any binds and ends of sessions.
use mini_sms.Prelude.{
  ℕ, ◌-◌, ◌≡◌, refl, sym, subst, ap, Bool, true, false, ◌&&◌, Option, none, some, List, [], ◌∷◌,
  ◌++◌, arith, if◌then◌else◌, ltb, length, All, Bool-cases, inl, inr, length-append,
}
use mini_sms.Text.{Text, text_eq}
use mini_sms.Text.Laws.{text_eq_sound}
use mini_sms.Routing.Cache.{put}
use mini_sms.Smpp.Sessions.Pointers.{
  Distinct, Distinct-erase, Distinct-snoc, erase-select, length-erase, member-erase_self,
  member-select, select-erase, select-snoc,
}
use mini_sms.Smpp.Sessions.{
  Session, Registry, can_deliver, member, erase, select, new_registry, pick_deliver, add, remove,
  head_of, bind_count,
}

module _ (at : ℕ → Session) where
  abbrev pub of_client : Text → ℕ → Bool
  of_client c p = text_eq (at p).client_id c

  abbrev pub receives : Text → ℕ → Bool
  receives c p = can_deliver (at p).mode && text_eq (at p).client_id c

  pub record Registered (r : Registry) : Type 0 where
    pub distinct : Distinct r.sessions
    pub counted : (c : Text) → r.by_client c ≡ length (select (of_client c) r.sessions)
    pub listed : (c : Text) → r.deliver c ≡ select (receives c) r.sessions

  new-Registered : Registered new_registry
  unfolding new_registry select
  new-Registered = record { distinct = tt; counted = λ c. refl; listed = λ c. refl }

  add-Registered :
      (r : Registry) (p : ℕ) → member p r.sessions ≡ false → Registered r → Registered (add at r p)
  unfolding add put
  add-Registered r p e v = record {
    distinct = rw e (Distinct-snoc p r.sessions e v.distinct);
    counted = λ c.
        rw (e, select-snoc (of_client c) r.sessions p)
          (ground (
            arith,
            v.counted c,
            text_eq_sound (at p).client_id c,
            length-append (select (of_client c) r.sessions) (p ∷ []),
          ));
    listed = λ c.
        rw (e, select-snoc (receives c) r.sessions p)
          (ground (arith, v.listed c, text_eq_sound (at p).client_id c));
  }

  removed-counted :
      (r : Registry) (p : ℕ) (c : Text)
      → member p r.sessions ≡ true
      → Registered r
      → (if ltb 0 (r.by_client (at p).client_id)
            then put r.by_client (at p).client_id (r.by_client (at p).client_id - 1)
            else r.by_client)
          c
        ≡ length (select (of_client c) (erase p r.sessions))
  unfolding put
  removed-counted r p c e v = rw (select-erase (of_client c) r.sessions p) (
      ground (
        arith,
        v.counted c,
        text_eq_sound (at p).client_id c,
        member-select (of_client c) r.sessions p,
        length-erase (select (of_client c) r.sessions) p,
      ))

  removed-listed :
      (r : Registry) (p : ℕ) (c : Text)
      → Registered r
      → put r.deliver (at p).client_id (erase p (r.deliver (at p).client_id)) c
        ≡ select (receives c) (erase p r.sessions)
  unfolding put
  removed-listed r p c v = rw (select-erase (receives c) r.sessions p) (
      ground (
        arith,
        v.listed c,
        text_eq_sound (at p).client_id c,
        erase-select (receives c) r.sessions p,
      ))

  remove-Registered : (r : Registry) (p : ℕ) → Registered r → Registered (remove at r p).0
  unfolding remove
  remove-Registered r p v = elim (Bool-cases (member p r.sessions)) [
    | inl e ↦ rw e (record {
      distinct = Distinct-erase p r.sessions v.distinct;
      counted = λ c. removed-counted r p c e v;
      listed = λ c. removed-listed r p c v;
    })
    | inr e ↦ rw e v
  ]

  -- A registry after binds of new sessions and ends of any.
  pub data History : Registry → Type 0 where
    starts : (r : Registry) → r ≡ new_registry → History r
    binds :
        (r s : Registry) (p : ℕ)
        → History r
        → member p r.sessions ≡ false
        → s ≡ add at r p
        → History s
    ends : (r s : Registry) (p : ℕ) → History r → s ≡ (remove at r p).0 → History s

  pub History-Registered : (r : Registry) → History r → Registered r
  History-Registered _ (starts r e) = subst Registered (sym e) new-Registered
  History-Registered _ (binds r s p h f e) =
      subst Registered (sym e) (add-Registered r p f (History-Registered r h))
  History-Registered _ (ends r s p h e) =
      subst Registered (sym e) (remove-Registered r p (History-Registered r h))

  -- What pickDeliver is for: the session that has been bound longest, of those that receive.
  abbrev pub Longest : Text → List ℕ → Option ℕ → Type 0
  Longest c ps none = All (λ q. receives c q ≡ false) ps
  Longest c ps (some p) =
      (before : List ℕ) × (rest : List ℕ) × (ps ≡ before ++ (p ∷ rest))
      × All (λ q. receives c q ≡ false) before
      × (receives c p ≡ true)

  Longest-cons :
      (c : Text) (p : ℕ) (ps : List ℕ)
      → receives c p ≡ false
      → (o : Option ℕ) → Longest c ps o
      → Longest c (p ∷ ps) o
  Longest-cons c p ps e none h = (e, h)
  Longest-cons c p ps e (some q) (before, rest, x, y, z) =
      (p ∷ before, rest, ap (λ l. p ∷ l) x, (e, y), z)

  select-Longest : (c : Text) (ps : List ℕ) → Longest c ps (head_of (select (receives c) ps))
  unfolding select
  select-Longest c [] = tt
  select-Longest c (p ∷ ps) = elim (Bool-cases (receives c p)) [
    | inl e ↦ rw e ([], ps, refl, tt, e)
    | inr e ↦ rw e (Longest-cons c p ps e (head_of (select (receives c) ps)) (select-Longest c ps))
  ]

  -- After any binds of new sessions and any ends, a client is counted with as many binds as it has
  -- sessions, and pickDeliver gives the one of its receiving sessions that was bound first, and
  -- none exactly if there is none.
  pub pick_deliver-Longest :
      (r : Registry) (c : Text)
      → History r
      → (bind_count r c ≡ length (select (of_client c) r.sessions))
        × Longest c r.sessions (pick_deliver r c)
  unfolding pick_deliver
  pick_deliver-Longest r c h =
      let v = History-Registered r h in
      (
        v.counted c,
        subst (λ o. Longest c r.sessions (head_of o)) (sym (v.listed c))
            (select-Longest c r.sessions),
      )

  pub remove_twice :
      (r : Registry) (p : ℕ)
      → History r
      → let (s, found) = remove at r p in
        (found ≡ member p r.sessions) × (remove at s p ≡ (s, false))
  unfolding remove
  remove_twice r p h = elim (Bool-cases (member p r.sessions)) [
    | inl e ↦
        rw e (refl, rw (member-erase_self p r.sessions (History-Registered r h).distinct) refl)
    | inr e ↦ rw (e, e) (refl, refl)
  ]
