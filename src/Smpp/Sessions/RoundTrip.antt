-- ===== src/Smpp/Sessions/RoundTrip.antt =====
-- A session that comes and goes.
use mini_sms.Prelude.{ℕ, ◌≡◌, refl, Bool, true, false, List, [], ◌∷◌, ◌++◌, arith}
use mini_sms.Text.{Text}
use mini_sms.Text.Laws.{text_eq_refl, text_eq_sound}
use mini_sms.Routing.Cache.{put}
use mini_sms.Smpp.Sessions.{Session, Registry, member, erase, select, add, remove}
use mini_sms.Smpp.Sessions.Registered.{Registered, receives}

erase-snoc : (p : ℕ) (ps : List ℕ) → member p ps ≡ false → erase p (ps ++ (p ∷ [])) ≡ ps
unfolding erase
erase-snoc p [] h = ground arith
erase-snoc p (q ∷ ps) h = ground (arith, erase-snoc p ps)

member-snoc_self : (p : ℕ) (ps : List ℕ) → member p (ps ++ (p ∷ [])) ≡ true
member-snoc_self p [] = ground arith
member-snoc_self p (q ∷ ps) = ground (arith, member-snoc_self p ps)

erase_absent : (p : ℕ) (ps : List ℕ) → member p ps ≡ false → erase p ps ≡ ps
unfolding erase
erase_absent p [] h = refl
erase_absent p (q ∷ ps) h = ground (arith, erase_absent p ps)

select_absent :
    (f : ℕ → Bool) (p : ℕ) (ps : List ℕ) → member p ps ≡ false → member p (select f ps) ≡ false
unfolding select
select_absent f p [] h = refl
select_absent f p (q ∷ ps) h = ground (arith, select_absent f p ps)

-- Two registries that no call can tell apart.
pub record Same (r s : Registry) : Type 0 where
  pub sessions : r.sessions ≡ s.sessions
  pub by_client : (c : Text) → r.by_client c ≡ s.by_client c
  pub deliver : (c : Text) → r.deliver c ≡ s.deliver c

module _ {at : ℕ → Session} where
  absent :
      (r : Registry) (p : ℕ)
      → Registered at r
      → member p r.sessions ≡ false
      → (c : Text) → member p (r.deliver c) ≡ false
  absent r p v h c = rw (v.listed c) (select_absent (receives at c) p r.sessions h)

pub remove-add :
    (at : ℕ → Session) (r : Registry) (p : ℕ)
    → Registered at r
    → member p r.sessions ≡ false
    → Same (remove at (add at r p) p).0 r
unfolding remove add put
remove-add at r p v h =
    rw (h, member-snoc_self p r.sessions)
      (record {
        sessions = erase-snoc p r.sessions h;
        by_client =
            λ c. ground (arith, text_eq_sound (at p).client_id c, text_eq_refl (at p).client_id);
        deliver = λ c. ground (
          arith,
          text_eq_sound (at p).client_id c,
          text_eq_refl (at p).client_id,
          absent r p v h (at p).client_id,
          erase-snoc p (r.deliver (at p).client_id),
          erase_absent p (r.deliver (at p).client_id),
        );
      })
