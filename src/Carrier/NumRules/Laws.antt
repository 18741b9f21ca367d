-- ===== src/Carrier/NumRules/Laws.antt =====
-- minisms/internal/carrier/numrules/numrules.go: laws of Compile and of the transforms.
use mini_sms.Prelude.{
  ℕ, ◌+◌, ◌≡◌, ◌≢◌, ◌↔◌, refl, Bool, true, false, not, ◌&&◌, ◌||◌, Option, none, some, List, [],
  ◌∷◌, ◌++◌, ◌==◌, arith, if◌then◌else◌, All, All-map, Bool-cases, Option-cases, inl, inr, ap, sym,
  ◌∙◌,
}
use mini_sms.Result.{Result, ok, err, wrap, IsOk, ◌>>=◌, >>=-eq-ok, wrap-eq-ok}
use mini_sms.Text.{Text, has_prefix, is_empty, trim_left, keep}
use mini_sms.Text.Laws.{has_prefix-append, keep-All}
use mini_sms.Carrier.NumRules.{
  Lib, RuleType, strip_leading_zeros, strip_leading_plus, strip_digits, strip_alpha, strip_symbols,
  uppercase, add_prefix, regex_replace, unknown, Rule, Config, RuleError, sender_rules,
  destination_rules, CompiledRule, Compiled, compile_rule, compile_list, compile, some_rules,
  apply_rule, apply, sender, destination,
}

-- The text is empty or begins with a rune off the set.
abbrev pub StartsOff : (ℕ → Bool) → Text → Type 0
StartsOff f [] = Unit
StartsOff f (c ∷ s) = f c ≡ false

trim_left-StartsOff : (f : ℕ → Bool) (s : Text) → StartsOff f (trim_left f s)
unfolding trim_left
trim_left-StartsOff f [] = tt
trim_left-StartsOff f (c ∷ s) = elim (Bool-cases (f c)) [
  | inl e ↦ rw e (trim_left-StartsOff f s)
  | inr e ↦ rw e e
]

module _ (lib : Lib) where
  open lib use {Re, compile_re, replace_all, is_letter, is_digit, to_upper}

  -- A rule that Compile accepts.
  abbrev WellFormedAt : RuleType → Rule → Type 0
  WellFormedAt add_prefix r = is_empty r.prefix ≡ false
  WellFormedAt regex_replace r = compile_re r.pattern ≢ none
  WellFormedAt (unknown t) r = ⊥
  WellFormedAt _ r = Unit

  abbrev pub WellFormed : Rule → Type 0
  WellFormed r = WellFormedAt r.type r

  compile_rule-WellFormed :
      (i : ℕ) (t : RuleType) (r : Rule) → IsOk (compile_rule lib i t r) ↔ WellFormedAt t r
  unfolding compile_rule
  compile_rule-WellFormed i add_prefix r = elim (Bool-cases (is_empty r.prefix)) [
    | inl e ↦ rw e (λ h. elim h [ ], λ h. cc)
    | inr e ↦ rw e (λ h. refl, λ h. tt)
  ]
  compile_rule-WellFormed i regex_replace r = elim (Option-cases (compile_re r.pattern)) [
    | inl e ↦ rw (e, compile_rule) (λ h. elim h [ ], λ h. h refl)
    | inr (re, e) ↦ rw (e, compile_rule) (λ h p. cc, λ h. tt)
  ]
  compile_rule-WellFormed i (unknown t) r = (λ h. h, λ h. h)
  compile_rule-WellFormed i strip_digits r = (λ h. tt, λ h. tt)
  compile_rule-WellFormed i _ r = (λ h. tt, λ h. tt)

  -- The meaning of one rule, read off the configuration.
  abbrev pub meaning : RuleType → Rule → Text → Text
  meaning strip_leading_zeros r s = trim_left (λ c. c == b'0') s
  meaning strip_leading_plus r s = trim_left (λ c. c == b'+') s
  meaning strip_digits r s = keep (λ c. not (is_digit c)) s
  meaning strip_alpha r s = keep (λ c. not (is_letter c)) s
  meaning strip_symbols r s = keep (λ c. is_letter c || is_digit c) s
  meaning uppercase r s = to_upper s
  meaning add_prefix r s = if has_prefix s r.prefix then s else r.prefix ++ s
  meaning regex_replace r s = elim (compile_re r.pattern) [
    | none ↦ s
    | some re ↦ replace_all re s r.replacement
  ]
  meaning (unknown t) r s = s

  -- The rules of a list, one after the other from the left.
  pub run : List Rule → Text → Text
  run [] s = s
  run (r ∷ rules) s = run rules (meaning r.type r s)

  keep_congr : (f g : ℕ → Bool) (s : Text) → ((c : ℕ) → f c ≡ g c) → keep f s ≡ keep g s
  unfolding keep
  keep_congr f g [] h = refl
  keep_congr f g (c ∷ s) h = ground (arith, h c, keep_congr f g s h)

  compile_rule-meaning :
      (i : ℕ) (t : RuleType) (r : Rule) (cr : CompiledRule lib) (s : Text)
      → compile_rule lib i t r ≡ ok cr
      → (cr.rule ≡ r) × (apply_rule lib t cr s ≡ meaning t r s)
  unfolding compile_rule apply_rule
  compile_rule-meaning i add_prefix r cr s h = ground arith
  compile_rule-meaning i regex_replace r cr s h = ground arith
  compile_rule-meaning i (unknown t) r cr s h = absurd (cc)
  compile_rule-meaning i strip_symbols r cr s h =
      (ground arith, keep_congr _ _ s (λ c. ground arith))
  compile_rule-meaning i strip_digits r cr s h = ground arith
  compile_rule-meaning i _ r cr s h = ground arith

  compile_list_sound :
      (i : ℕ) (rules : List Rule) (out : List (CompiledRule lib))
      → compile_list lib i rules ≡ ok out
      → (s : Text) → apply lib out s ≡ run rules s
  unfolding compile_list apply run
  compile_list_sound i [] out h s = ground arith
  compile_list_sound i (r ∷ rules) out h s =
      let (cr, rest, first) = >>=-eq-ok _ (compile_rule lib i r.type r) h in
      let (tail, e, compiled) = >>=-eq-ok _ (compile_list lib (i + 1) rules) rest in
      let (same, meant) = compile_rule-meaning i r.type r cr s first in
      let q : cr ∷ tail ≡ out = cc in
      sym (ap (λ o. apply lib o s) q)
      ∙ ap (λ (x : Rule). apply lib tail (apply_rule lib x.type cr s)) same
      ∙ ap (apply lib tail) meant
      ∙ compile_list_sound (i + 1) rules tail compiled (meaning r.type r s)

  compile_list-WellFormed :
      (i : ℕ) (rules : List Rule) → IsOk (compile_list lib i rules) ↔ All WellFormed rules
  unfolding compile_list
  compile_list-WellFormed i [] = (λ h. tt, λ h. tt)
  compile_list-WellFormed i (r ∷ rules) =
      both (compile_rule lib i r.type r) (compile_list lib (i + 1) rules)
        (compile_rule-WellFormed i r.type r) (compile_list-WellFormed (i + 1) rules)
    where
      both :
          (a : Result RuleError (CompiledRule lib)) (b : Result RuleError (List (CompiledRule lib)))
          → IsOk a ↔ WellFormed r
          → IsOk b ↔ All WellFormed rules
          → IsOk (a >>= λ cr. b >>= λ out. ok (cr ∷ out)) ↔ (WellFormed r × All WellFormed rules)
      both (ok a) (ok b) p q = (λ h. (p.0 h, q.0 h), λ h. tt)
      both (ok a) (err y) p q = (λ h. elim h [ ], λ h. q.1 h.1)
      both (err x) b p q = (λ h. elim h [ ], λ h. p.1 h.0)

  -- Compile accepts a configuration exactly if every rule of both lists is well formed: a known type,
  -- a prefix for add_prefix, and a pattern that package regexp compiles for regex_replace.
  pub compile-WellFormed :
      (cfg : Config)
      → IsOk (compile lib cfg) ↔ (All WellFormed cfg.sender × All WellFormed cfg.destination)
  unfolding compile
  compile-WellFormed cfg =
      both (compile_list lib 0 cfg.sender) (compile_list lib 0 cfg.destination)
        (compile_list-WellFormed 0 cfg.sender) (compile_list-WellFormed 0 cfg.destination)
    where
      both :
          (a b : Result RuleError (List (CompiledRule lib)))
          → IsOk a ↔ All WellFormed cfg.sender
          → IsOk b ↔ All WellFormed cfg.destination
          → IsOk (
              wrap sender_rules a >>= λ s.
              wrap destination_rules b >>= λ d. ok (some_rules lib s d))
            ↔ (All WellFormed cfg.sender × All WellFormed cfg.destination)
      both (ok a) (ok b) p q = (λ h. (p.0 h, q.0 h), λ h. tt)
      both (ok a) (err y) p q = (λ h. elim h [ ], λ h. q.1 h.1)
      both (err x) b p q = (λ h. elim h [ ], λ h. p.1 h.0)

  sender-some_rules :
      (a b : List (CompiledRule lib)) (s : Text)
      → (sender lib (some_rules lib a b) s ≡ apply lib a s)
        × (destination lib (some_rules lib a b) s ≡ apply lib b s)
  unfolding sender destination
  sender-some_rules [] [] s = (refl, refl)
  sender-some_rules [] (y ∷ b) s = (refl, refl)
  sender-some_rules (x ∷ a) [] s = (refl, refl)
  sender-some_rules (x ∷ a) (y ∷ b) s = (refl, refl)

  -- Of an accepted configuration, Sender applies the sender rules and Destination the destination
  -- rules, each from left to right with the meaning that the configuration gives them; a nil rule set
  -- included.
  pub compile_refines :
      (cfg : Config) (c : Option (Compiled lib)) (s : Text)
      → compile lib cfg ≡ ok c
      → (sender lib c s ≡ run cfg.sender s) × (destination lib c s ≡ run cfg.destination s)
  unfolding compile
  compile_refines cfg c s h =
      let (a, rest, first) = >>=-eq-ok _ (wrap sender_rules (compile_list lib 0 cfg.sender)) h in
      let (b, e, second) =
        >>=-eq-ok _ (wrap destination_rules (compile_list lib 0 cfg.destination)) rest in
      let (left, right) = sender-some_rules a b s in
      let p = compile_list_sound 0 cfg.sender a (wrap-eq-ok _ _ first) s in
      let q = compile_list_sound 0 cfg.destination b (wrap-eq-ok _ _ second) s in
      (cc (e, left, p), cc (e, right, q))

  -- What a transform guarantees of its result.
  abbrev pub Ensures : RuleType → Rule → Text → Type 0
  Ensures strip_leading_zeros r out = StartsOff (λ c. c == b'0') out
  Ensures strip_leading_plus r out = StartsOff (λ c. c == b'+') out
  Ensures strip_digits r out = All (λ c. is_digit c ≡ false) out
  Ensures strip_alpha r out = All (λ c. is_letter c ≡ false) out
  Ensures strip_symbols r out = All (λ c. (is_letter c || is_digit c) ≡ true) out
  Ensures add_prefix r out = has_prefix out r.prefix ≡ true
  Ensures _ r out = Unit

  -- Whatever the input, a strip rule leaves none of the runes that it is named after (at the front, for
  -- the two that strip a leading run), and add_prefix leaves a text that begins with its prefix.
  pub apply_rule-Ensures :
      (cr : CompiledRule lib) (s : Text)
      → Ensures cr.rule.type cr.rule (apply_rule lib cr.rule.type cr s)
  unfolding apply_rule
  apply_rule-Ensures cr s = by_type cr.rule.type
    where
      by_type : (t : RuleType) → Ensures t cr.rule (apply_rule lib t cr s)
      by_type strip_leading_zeros = trim_left-StartsOff _ s
      by_type strip_leading_plus = trim_left-StartsOff _ s
      by_type strip_digits = All-map (λ c h. ground arith) _ (keep-All (λ c. not (is_digit c)) s)
      by_type strip_alpha = All-map (λ c h. ground arith) _ (keep-All (λ c. not (is_letter c)) s)
      by_type strip_symbols =
          All-map (λ c h. ground arith) _
            (keep-All (λ r. not (not (is_letter r) && not (is_digit r))) s)
      by_type add_prefix = elim (Bool-cases (has_prefix s cr.rule.prefix)) [
        | inl e ↦ rw e e
        | inr e ↦ rw e (has_prefix-append cr.rule.prefix s)
      ]
      by_type uppercase = tt
      by_type regex_replace = tt
      by_type (unknown t) = tt
