-- ===== src/Text/Trim.antt =====
-- strings.TrimSpace once more: trimming a trimmed text.
use mathlib.Core.List.{reverse, reverse-cons, reverse-append}
use mini_sms.Prelude.{
  ℕ, ◌≡◌, refl, sym, ap, subst, ◌∙◌, Bool, true, false, ◌&&◌, [], ◌∷◌, ◌++◌, arith, if◌then◌else◌,
  Bool-cases, inl, inr,
}
use mini_sms.Text.{Text, is_empty, is_space, trim_left, trim_space}

-- The end of a text without the characters of `f`, from the front.
trim_right : (ℕ → Bool) → Text → Text
trim_right f [] = []
trim_right f (c ∷ s) = let rest = trim_right f s in if is_empty rest && f c then [] else c ∷ rest

trim_left-snoc :
    (f : ℕ → Bool) (s : Text) (c : ℕ)
    → trim_left f (s ++ (c ∷ [])) ≡ (
        if is_empty (trim_left f s)
        then (if f c then [] else c ∷ [])
        else trim_left f s ++ (c ∷ []))
unfolding trim_left
trim_left-snoc f [] c = refl
trim_left-snoc f (d ∷ s) c = ground (arith, trim_left-snoc f s c)

is_empty-reverse : (s : Text) → is_empty (reverse s) ≡ is_empty s
is_empty-reverse [] = refl
is_empty-reverse (c ∷ s) = rw (reverse-cons c s) (snoc (reverse s))
  where
    snoc : (t : Text) → is_empty (t ++ (c ∷ [])) ≡ false
    snoc [] = refl
    snoc (d ∷ t) = refl

trim_right-reverse : (f : ℕ → Bool) (s : Text) → reverse (trim_left f (reverse s)) ≡ trim_right f s
unfolding trim_right trim_left
trim_right-reverse f [] = refl
trim_right-reverse f (c ∷ s) =
    rw (reverse-cons c s, trim_left-snoc f (reverse s) c)
      (step (trim_left f (reverse s)) (trim_right f s) (trim_right-reverse f s))
  where
    step :
        (t r : Text)
        → reverse t ≡ r
        → reverse (if is_empty t then (if f c then [] else c ∷ []) else t ++ (c ∷ []))
          ≡ (if is_empty r && f c then [] else c ∷ r)
    step [] r e =
        subst
          (λ q. reverse (if f c then [] else c ∷ []) ≡ (if is_empty q && f c then [] else c ∷ q)) e
          (elim (f c) as (λ b. reverse (if b then [] else c ∷ []) ≡ (if b then [] else c ∷ [])) [
            | true ↦ refl
            | false ↦ refl
          ])
    step (d ∷ t) r e =
        let filled : is_empty r ≡ false = sym (ap is_empty e) ∙ is_empty-reverse (d ∷ t) in
        reverse-append (d ∷ t) (c ∷ []) ∙ rw filled (ap (λ x. c ∷ x) e)

trim_right_idem : (f : ℕ → Bool) (s : Text) → trim_right f (trim_right f s) ≡ trim_right f s
unfolding trim_right
trim_right_idem f [] = refl
trim_right_idem f (c ∷ s) = ground (arith, trim_right_idem f s)

-- A text that starts with none of the characters.
abbrev Starts : (ℕ → Bool) → Text → Type 0
Starts f [] = Unit
Starts f (c ∷ s) = f c ≡ false

trim_left-Starts : (f : ℕ → Bool) (s : Text) → Starts f (trim_left f s)
unfolding trim_left
trim_left-Starts f [] = tt
trim_left-Starts f (c ∷ s) = elim (Bool-cases (f c)) [
  | inl e ↦ rw e (trim_left-Starts f s)
  | inr e ↦ rw e e
]

trim_left_id : (f : ℕ → Bool) (s : Text) → Starts f s → trim_left f s ≡ s
unfolding trim_left
trim_left_id f [] h = refl
trim_left_id f (c ∷ s) h = rw h refl

trim_right-Starts : (f : ℕ → Bool) (s : Text) → Starts f s → Starts f (trim_right f s)
unfolding trim_right
trim_right-Starts f [] h = tt
trim_right-Starts f (c ∷ s) h =
    elim (trim_right f s) as (λ r. Starts f (if is_empty r && f c then [] else c ∷ r)) [
      | [] ↦ rw h h
      | d ∷ r ↦ h
    ]

trim_space-eq : (s : Text) → trim_space s ≡ trim_right is_space (trim_left is_space s)
unfolding trim_space
trim_space-eq s = trim_right-reverse is_space (trim_left is_space s)

pub trim_space_idem : (s : Text) → trim_space (trim_space s) ≡ trim_space s
trim_space_idem s =
    rw
      (
        trim_space-eq (trim_space s),
        trim_space-eq s,
        trim_left_id is_space (trim_right is_space (trim_left is_space s))
            (trim_right-Starts is_space (trim_left is_space s) (trim_left-Starts is_space s)),
      )
      (trim_right_idem is_space (trim_left is_space s))
