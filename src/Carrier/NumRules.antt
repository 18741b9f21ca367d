-- ===== src/Carrier/NumRules.antt =====
-- minisms/internal/carrier/numrules/numrules.go: the ordered number-translation rules of a carrier.
-- The tables of package unicode and the engine of package regexp are parameters.
pub mod Laws
use mini_sms.Prelude.{
  ℕ, suc, ◌+◌, ◌≡◌, Bool, true, false, not, ◌&&◌, ◌||◌, Option, none, some, List, [], ◌∷◌, ◌++◌,
  ◌==◌, if◌then◌else◌,
}
use mini_sms.Result.{Result, ok, err, ◌>>=◌, wrap}
use mini_sms.Text.{Text, has_prefix, is_empty, trim_left, keep}

pub record Lib : Type 1 where
  pub Re : Type 0
  pub compile_re : Text → Option Re
  pub replace_all : Re → Text → Text → Text
  pub is_letter : ℕ → Bool
  pub is_digit : ℕ → Bool
  pub to_upper : Text → Text

-- RuleType is a string; `unknown` holds any other value
pub data RuleType : Type 0 where
  strip_leading_zeros strip_leading_plus strip_digits strip_alpha strip_symbols : RuleType
  uppercase add_prefix regex_replace : RuleType
  unknown : Text → RuleType

pub record Rule : Type 0 where
  pub type : RuleType
  pub prefix : Text
  pub pattern : Text
  pub replacement : Text

pub record Config : Type 0 where
  pub sender : List Rule
  pub destination : List Rule

-- ValidRuleType
unfoldable pub valid_rule_type : RuleType → Bool
valid_rule_type (unknown t) = false
valid_rule_type _ = true

-- the number is i + 1, as in the message
pub data RuleError : Type 0 where
  prefix_required invalid_pattern unknown_type : ℕ → RuleError

pub data CompileError : Type 0 where
  sender_rules destination_rules : RuleError → CompileError

-- removeFunc
unfoldable pub remove_func : (ℕ → Bool) → Text → Text
unfolding keep
remove_func drop s = keep (λ c. not (drop c)) s

module _ (lib : Lib) where
  open lib use {Re, compile_re, replace_all, is_letter, is_digit, to_upper}

  pub record CompiledRule : Type 0 where
    pub rule : Rule
    pub re : Option Re

  pub record Compiled : Type 0 where
    pub sender : List CompiledRule
    pub dest : List CompiledRule

  -- The switch of compileList, for the rule at index i.
  unfoldable pub compile_rule : ℕ → RuleType → Rule → Result RuleError CompiledRule
  compile_rule i add_prefix r =
      if is_empty r.prefix
      then err (prefix_required (i + 1))
      else ok (record { rule = r; re = none })
  compile_rule i regex_replace r = elim (compile_re r.pattern) [
    | none ↦ err (invalid_pattern (i + 1))
    | some re ↦ ok (record { rule = r; re = some re })
  ]
  compile_rule i (unknown t) r = err (unknown_type (i + 1))
  compile_rule i _ r = ok (record { rule = r; re = none })

  -- compileList from index i on; `out` is the tail of the result
  unfoldable pub compile_list : ℕ → List Rule → Result RuleError (List CompiledRule)
  compile_list i [] = ok []
  compile_list i (r ∷ rules) = do
    cr ← compile_rule i r.type r
    out ← compile_list (i + 1) rules
    ok (cr ∷ out)

  abbrev some_rules : List CompiledRule → List CompiledRule → Option Compiled
  some_rules [] [] = none
  some_rules s d = some (record { sender = s; dest = d })

  -- Compile; `ok none` is the nil rule set
  unfoldable pub compile : Config → Result CompileError (Option Compiled)
  unfolding compile_list
  compile cfg = do
    s ← wrap sender_rules (compile_list 0 cfg.sender)
    d ← wrap destination_rules (compile_list 0 cfg.destination)
    ok (some_rules s d)

  -- (cr compiledRule) apply
  unfoldable pub apply_rule : RuleType → CompiledRule → Text → Text
  unfolding trim_left remove_func has_prefix
  apply_rule strip_leading_zeros cr s = trim_left (λ c. c == b'0') s
  apply_rule strip_leading_plus cr s = trim_left (λ c. c == b'+') s
  apply_rule strip_digits cr s = remove_func is_digit s
  apply_rule strip_alpha cr s = remove_func is_letter s
  apply_rule strip_symbols cr s = remove_func (λ r. not (is_letter r) && not (is_digit r)) s
  apply_rule uppercase cr s = to_upper s
  apply_rule add_prefix cr s = if has_prefix s cr.rule.prefix then s else cr.rule.prefix ++ s
  apply_rule regex_replace cr s = elim cr.re [
    | none ↦ s
    | some re ↦ replace_all re s cr.rule.replacement
  ]
  apply_rule (unknown t) cr s = s

  unfoldable pub apply : List CompiledRule → Text → Text
  apply [] s = s
  apply (cr ∷ rules) s = apply rules (apply_rule cr.rule.type cr s)

  -- cListOf, on a receiver that may be nil
  unfoldable pub list_of : Option Compiled → Bool → List CompiledRule
  list_of none sender = []
  list_of (some c) true = c.sender
  list_of (some c) false = c.dest

  unfoldable pub sender : Option Compiled → Text → Text
  unfolding apply list_of
  sender c s = apply (list_of c true) s

  unfoldable pub destination : Option Compiled → Text → Text
  unfolding apply list_of
  destination c s = apply (list_of c false) s
