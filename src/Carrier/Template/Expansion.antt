-- ===== src/Carrier/Template/Expansion.antt =====
-- Templates as literal characters and variables, and what the two injections make of them.
use mini_sms.Prelude.{
  ℕ, ◌-◌, ◌≡◌, refl, ap, ◌∙◌, Bool, false, none, some, List, [], ◌∷◌, ◌++◌, length, if◌then◌else◌,
  ◌==◌, All, any, arith, Bool-cases, inl, inr,
}
use mini_sms.Text.{Text, text_eq, has_prefix, is_empty}
use mini_sms.Text.Laws.{text_eq_sound}
use mini_sms.Carrier.Template.{
  braced, find_pair, replace_from, replace, template_keys, pairs_of, inject_variables, query_value,
  inject_query_variables,
}

pub data Piece : Type 0 where
  literal : ℕ → Piece
  variable : Text → Piece

abbrev pub holds : List Text → Text → Bool
holds keys k = any (λ j. text_eq j k) keys

-- No brace in a name.
abbrev pub Plain : Text → Type 0
Plain k = All (λ c. ((c == b'{') ≡ false) × ((c == b'}') ≡ false)) k

abbrev pub WellFormed : Piece → Type 0
WellFormed (literal c) = (c == b'{') ≡ false
WellFormed (variable k) = Plain k

abbrev pub print : List Piece → Text
print [] = []
print (literal c ∷ ps) = c ∷ print ps
print (variable k ∷ ps) = braced k ++ print ps

-- What a variable stands for: one without a value stays as it is written.
abbrev pub value : (Text → Text) → List Text → Text → Text
value f keys k = if holds keys k then f k else braced k

abbrev pub expand : (Text → Text) → List Text → List Piece → Text
expand f keys [] = []
expand f keys (literal c ∷ ps) = c ∷ expand f keys ps
expand f keys (variable k ∷ ps) = value f keys k ++ expand f keys ps

module _ (f : Text → Text) where
  find-literal :
      (keys : List Text) (c : ℕ) (s : Text)
      → (c == b'{') ≡ false
      → find_pair (pairs_of f keys) (c ∷ s) ≡ none
  unfolding has_prefix
  find-literal [] c s h = refl
  find-literal (j ∷ keys) c s h = rw h (find-literal keys c s h)

  find-second :
      (keys : List Text) (c : ℕ) (s : Text)
      → (c == b'{') ≡ false
      → find_pair (pairs_of f keys) (b'{' ∷ c ∷ s) ≡ none
  unfolding has_prefix
  find-second [] c s h = refl
  find-second (j ∷ keys) c s h = rw h (find-second keys c s h)

  prefix-name :
      (k j s : Text)
      → Plain k
      → Plain j
      → has_prefix ((k ++ (b'}' ∷ b'}' ∷ [])) ++ s) (j ++ (b'}' ∷ b'}' ∷ [])) ≡ text_eq j k
  unfolding has_prefix text_eq
  prefix-name [] [] [] pk pj = refl
  prefix-name [] [] (c ∷ s) pk pj = refl
  prefix-name [] (d ∷ j) s pk pj = ground arith
  prefix-name (c ∷ k) [] s pk pj = ground arith
  prefix-name (c ∷ k) (d ∷ j) s pk pj = ground (arith, prefix-name k j s pk.1 pj.1)

  find-variable :
      (keys : List Text) (k s : Text)
      → Plain k
      → All Plain keys
      → find_pair (pairs_of f keys) (braced k ++ s)
        ≡ (if holds keys k then some (braced k, f k) else none)
  unfolding has_prefix
  find-variable [] k s pk h = refl
  find-variable (j ∷ keys) k s pk h = elim (Bool-cases (text_eq j k)) [
    | inl e ↦
        rw (prefix-name k j s pk h.0, e) (ap (λ t. some (braced t, f t)) (text_eq_sound j k e))
    | inr e ↦ rw (prefix-name k j s pk h.0, e) (find-variable keys k s pk h.1)
  ]

  replace-skip :
      (pairs : List (Text × Text)) (old s : Text)
      → replace_from pairs (length old) (old ++ s) ≡ replace_from pairs 0 s
  unfolding replace_from
  replace-skip pairs [] s = refl
  replace-skip pairs (c ∷ old) s = ground (arith, replace-skip pairs old s)

  -- Once an old text has been found, the rest of it is passed over.
  replace-old :
      (pairs : List (Text × Text)) (c : ℕ) (old s : Text)
      → replace_from pairs (length (c ∷ old) - 1) (old ++ s) ≡ replace_from pairs 0 s
  replace-old pairs c old s =
      let one_less : length (c ∷ old) - 1 ≡ length old = omega arith in
      ap (λ n. replace_from pairs n (old ++ s)) one_less ∙ replace-skip pairs old s

  replace-literals :
      (keys : List Text) (t s : Text)
      → All (λ c. (c == b'{') ≡ false) t
      → replace_from (pairs_of f keys) 0 (t ++ s) ≡ t ++ replace_from (pairs_of f keys) 0 s
  unfolding replace_from
  replace-literals keys [] s h = refl
  replace-literals keys (c ∷ t) s h =
      rw (find-literal keys c (t ++ s) h.0) (ap (λ r. c ∷ r) (replace-literals keys t s h.1))

  Plain-literals : (k : Text) → Plain k → All (λ c. (c == b'{') ≡ false) (k ++ (b'}' ∷ b'}' ∷ []))
  Plain-literals [] h = (refl, (refl, tt))
  Plain-literals (c ∷ k) h = (h.0.0, Plain-literals k h.1)

  -- The second brace of a placeholder starts none.
  find-inner :
      (keys : List Text) (t s : Text)
      → All (λ c. (c == b'{') ≡ false) (t ++ (b'}' ∷ b'}' ∷ []))
      → find_pair (pairs_of f keys) (b'{' ∷ ((t ++ (b'}' ∷ b'}' ∷ [])) ++ s)) ≡ none
  find-inner keys [] s h = find-second keys b'}' (b'}' ∷ s) h.0
  find-inner keys (c ∷ t) s h = find-second keys c ((t ++ (b'}' ∷ b'}' ∷ [])) ++ s) h.0

  replace-variable :
      (keys : List Text) (k s : Text)
      → Plain k
      → All Plain keys
      → replace_from (pairs_of f keys) 0 (braced k ++ s)
        ≡ value f keys k ++ replace_from (pairs_of f keys) 0 s
  unfolding replace_from
  replace-variable keys k s pk h = elim (Bool-cases (holds keys k)) [
    | inl e ↦
        rw (find-variable keys k s pk h, e)
          (ap (λ r. f k ++ r)
            (replace-old (pairs_of f keys) b'{' (b'{' ∷ (k ++ (b'}' ∷ b'}' ∷ []))) s))
    | inr e ↦
        rw (find-variable keys k s pk h, e, find-inner keys k s (Plain-literals k pk))
          (ap (λ r. b'{' ∷ b'{' ∷ r)
            (replace-literals keys (k ++ (b'}' ∷ b'}' ∷ [])) s (Plain-literals k pk)))
  ]

  replace-print :
      (keys : List Text) (ps : List Piece)
      → All Plain keys
      → All WellFormed ps
      → replace_from (pairs_of f keys) 0 (print ps) ≡ expand f keys ps
  unfolding replace_from
  replace-print keys [] h w = refl
  replace-print keys (literal c ∷ ps) h w =
      rw (find-literal keys c (print ps) w.0) (ap (λ r. c ∷ r) (replace-print keys ps h w.1))
  replace-print keys (variable k ∷ ps) h w =
      replace-variable keys k (print ps) w.0 h
      ∙ ap (λ r. value f keys k ++ r) (replace-print keys ps h w.1)

unless_empty :
    (pairs : List (Text × Text)) (s : Text)
    → (if is_empty s then [] else replace pairs s) ≡ replace_from pairs 0 s
unfolding replace replace_from
unless_empty pairs [] = refl
unless_empty pairs (c ∷ s) = refl

template_keys-Plain : All Plain template_keys
template_keys-Plain = ground arith

-- On a template of literal characters, none of them an opening brace, and of variables, whose names
-- have no brace, InjectVariables puts in the value of each variable that it names, and
-- InjectQueryVariables that of each key of the map, in whatever order these come; nothing else
-- changes, and no value is read again for placeholders.
pub inject-Expands :
    (keys : List Text) (vars : Text → Text) (ps : List Piece)
    → All Plain keys
    → All WellFormed ps
    → (inject_variables vars (print ps) ≡ expand vars template_keys ps)
      × (inject_query_variables keys vars (print ps) ≡ expand (query_value vars) keys ps)
unfolding inject_variables inject_query_variables
inject-Expands keys vars ps h w = (
  unless_empty (pairs_of vars template_keys) (print ps)
      ∙ replace-print vars template_keys ps template_keys-Plain w,
  unless_empty (pairs_of (query_value vars) keys) (print ps)
      ∙ replace-print (query_value vars) keys ps h w,
)
