-- ===== src/Smpp/Sessions/Pointers.antt =====
-- Lists of pointers: what `select` and `erase` keep of them.
use mini_sms.Prelude.{
  ℕ, suc, ◌≡◌, refl, Bool, true, false, List, [], ◌∷◌, ◌++◌, arith, if◌then◌else◌, ◌==◌, length,
  Bool-cases, inl, inr,
}
use mini_sms.Smpp.Sessions.{member, erase, select}

pub select-snoc :
    (f : ℕ → Bool) (ps : List ℕ) (p : ℕ)
    → select f (ps ++ (p ∷ [])) ≡ (if f p then select f ps ++ (p ∷ []) else select f ps)
unfolding select
select-snoc f [] p = refl
select-snoc f (q ∷ ps) p = ground (arith, select-snoc f ps p)

pub select-erase :
    (f : ℕ → Bool) (ps : List ℕ) (p : ℕ)
    → select f (erase p ps) ≡ (if f p then erase p (select f ps) else select f ps)
unfolding select erase
select-erase f [] p = ground arith
select-erase f (q ∷ ps) p = ground (arith, select-erase f ps p)

pub erase-select :
    (f : ℕ → Bool) (ps : List ℕ) (p : ℕ) → f p ≡ false → erase p (select f ps) ≡ select f ps
unfolding select erase
erase-select f [] p e = refl
erase-select f (q ∷ ps) p e = ground (arith, erase-select f ps p e)

pub member-select :
    (f : ℕ → Bool) (ps : List ℕ) (p : ℕ)
    → f p ≡ true
    → member p ps ≡ true
    → member p (select f ps) ≡ true
unfolding select
member-select f [] p e h = absurd (cc)
member-select f (q ∷ ps) p e h = ground (arith, member-select f ps p e)

pub length-erase :
    (ps : List ℕ) (p : ℕ) → member p ps ≡ true → length ps ≡ suc (length (erase p ps))
unfolding erase
length-erase [] p h = absurd (cc)
length-erase (q ∷ ps) p h = ground (arith, length-erase ps p)

abbrev pub Distinct : List ℕ → Type 0
Distinct [] = Unit
Distinct (p ∷ ps) = (member p ps ≡ false) × Distinct ps

pub member-snoc :
    (q p : ℕ) (ps : List ℕ)
    → member q ps ≡ false
    → (p == q) ≡ false
    → member q (ps ++ (p ∷ [])) ≡ false
member-snoc q p [] h e = ground arith
member-snoc q p (x ∷ ps) h e = ground (arith, member-snoc q p ps)

pub Distinct-snoc :
    (p : ℕ) (ps : List ℕ) → member p ps ≡ false → Distinct ps → Distinct (ps ++ (p ∷ []))
Distinct-snoc p [] h d = (refl, tt)
Distinct-snoc p (x ∷ ps) h d =
    (member-snoc x p ps d.0 (ground arith), Distinct-snoc p ps (ground arith) d.1)

pub member-erase : (q p : ℕ) (ps : List ℕ) → member q ps ≡ false → member q (erase p ps) ≡ false
unfolding erase
member-erase q p [] h = refl
member-erase q p (x ∷ ps) h = ground (arith, member-erase q p ps)

pub Distinct-erase : (p : ℕ) (ps : List ℕ) → Distinct ps → Distinct (erase p ps)
unfolding erase
Distinct-erase p [] d = tt
Distinct-erase p (x ∷ ps) d = elim (Bool-cases (x == p)) [
  | inl e ↦ rw e d.1
  | inr e ↦ rw e (member-erase x p ps d.0, Distinct-erase p ps d.1)
]

pub member-erase_self : (p : ℕ) (ps : List ℕ) → Distinct ps → member p (erase p ps) ≡ false
unfolding erase
member-erase_self p [] d = refl
member-erase_self p (x ∷ ps) d = ground (arith, member-erase_self p ps d.1)
