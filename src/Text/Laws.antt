-- ===== src/Text/Laws.antt =====
-- Laws of the text functions.
use mini_sms.Prelude.{
  ℕ, ◌≡◌, refl, ◌↔◌, Bool, true, [], ◌∷◌, ◌++◌, arith, Bool-cases, inl, inr, All,
}
use mini_sms.Text.{Text, text_eq, has_prefix, keep}

pub text_eq_refl : (s : Text) → text_eq s s ≡ true
unfolding text_eq
text_eq_refl [] = refl
text_eq_refl (c ∷ s) = ground (arith, text_eq_refl s)

pub text_eq_sound : (s t : Text) → text_eq s t ≡ true → s ≡ t
unfolding text_eq
text_eq_sound [] [] h = refl
text_eq_sound [] (d ∷ t) h = cc
text_eq_sound (c ∷ s) [] h = cc
text_eq_sound (c ∷ s) (d ∷ t) h = ground (arith, text_eq_sound s t)

pub text_eq_iff : (s t : Text) → (text_eq s t ≡ true) ↔ (s ≡ t)
text_eq_iff s t = (text_eq_sound s t, λ e. rw e (text_eq_refl t))

-- HasPrefix finds exactly the texts that begin with the prefix.
pub has_prefix_sound : (s p : Text) → has_prefix s p ≡ true → (r : Text) × (s ≡ p ++ r)
unfolding has_prefix
has_prefix_sound s [] h = (s, refl)
has_prefix_sound [] (d ∷ p) h = absurd (cc)
has_prefix_sound (c ∷ s) (d ∷ p) h = elim (Bool-cases (has_prefix s p)) [
  | inl e ↦ let (r, q) = has_prefix_sound s p e in (r, ground arith)
  | inr e ↦ absurd (ground arith)
]

pub has_prefix-append : (p r : Text) → has_prefix (p ++ r) p ≡ true
unfolding has_prefix
has_prefix-append [] [] = refl
has_prefix-append [] (c ∷ r) = refl
has_prefix-append (d ∷ p) r = ground (arith, has_prefix-append p r)

pub keep-All : (f : ℕ → Bool) (s : Text) → All (λ c. f c ≡ true) (keep f s)
unfolding keep
keep-All f [] = tt
keep-All f (c ∷ s) = elim (Bool-cases (f c)) [
  | inl e ↦ rw e (e, keep-All f s)
  | inr e ↦ rw e (keep-All f s)
]

pub keep_idem : (f : ℕ → Bool) (s : Text) → keep f (keep f s) ≡ keep f s
unfolding keep
keep_idem f [] = refl
keep_idem f (c ∷ s) = ground (arith, keep_idem f s)
