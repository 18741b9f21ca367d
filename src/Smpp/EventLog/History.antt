-- ===== src/Smpp/EventLog/History.antt =====
-- Which lines the hub keeps.
use mini_sms.Prelude.{
  ℕ, zero, suc, ◌+◌, ◌-◌, ◌≤◌, ◌≡◌, refl, sym, ap, ◌∙◌, false, List, [], ◌∷◌, ◌++◌, append_assoc,
  append-nil, length, length-append, drop, arith, if◌then◌else◌, ltb, Bool-cases, inl, inr,
}
use mini_sms.Text.{Text, text_eq, is_empty}
use mini_sms.Text.Laws.{text_eq_refl, text_eq_sound}
use mini_sms.Routing.Cache.{put}
use mini_sms.Smpp.EventLog.{
  Hub, Call, appends, subscribes, cancels, max_lines_per_carrier, new_hub, last_of, flatten, append,
  subscribe, cancel, after, run,
}

drop-nil : (n : ℕ) → drop {A = Text} n [] ≡ []
drop-nil zero = refl
drop-nil (suc n) = refl

drop-drop : (a b : ℕ) (xs : List Text) → drop b (drop a xs) ≡ drop (a + b) xs
drop-drop zero b xs = ap (λ (n : ℕ). drop n xs) (omega arith)
drop-drop (suc a) b [] = drop-nil b ∙ sym (drop-nil (suc a + b))
drop-drop (suc a) b (x ∷ xs) =
    let e : suc (a + b) ≡ suc a + b = omega arith in
    drop-drop a b xs ∙ ap (λ (n : ℕ). drop n (x ∷ xs)) e

pub length-drop : (a : ℕ) (xs : List Text) → length (drop a xs) ≡ length xs - a
length-drop zero xs = omega arith
length-drop (suc a) [] = omega arith
length-drop (suc a) (x ∷ xs) = omega (arith, length-drop a xs)

drop-append : (a : ℕ) (xs ys : List Text) → a ≤ length xs → drop a (xs ++ ys) ≡ drop a xs ++ ys
drop-append zero xs ys h = refl
drop-append (suc a) [] ys h = absurd (omega arith)
drop-append (suc a) (x ∷ xs) ys h = drop-append a xs ys (omega arith)

pub last_of-drop : (n : ℕ) (xs : List Text) → last_of n xs ≡ drop (length xs - n) xs
last_of-drop n xs = elim (Bool-cases (ltb n (length xs))) [
  | inl e ↦ rw e refl
  | inr e ↦ let f : 0 ≡ length xs - n = ground arith in rw e (ap (λ (k : ℕ). drop k xs) f)
]

-- Keeping the last lines early changes nothing later.
last_of-append : (n : ℕ) (xs ys : List Text) → last_of n (last_of n xs ++ ys) ≡ last_of n (xs ++ ys)
last_of-append n xs ys =
    let a : ℕ = length xs - n in
    ap (λ zs. last_of n (zs ++ ys)) (last_of-drop n xs)
    ∙ (ap (last_of n) (sym (drop-append a xs ys (omega arith)))
        ∙ (last_of-drop n (drop a (xs ++ ys))
            ∙ (drop-drop a (length (drop a (xs ++ ys)) - n) (xs ++ ys)
                ∙ (ap (λ (k : ℕ). drop k (xs ++ ys))
                      (omega (arith, length-drop a (xs ++ ys), length-append xs ys))
                    ∙ sym (last_of-drop n (xs ++ ys))))))

-- The lines that are added for a key, each on one line.
abbrev pub lines_for : Text → List Call → List Text
lines_for key [] = []
lines_for key (appends k line ∷ cs) =
    let rest = lines_for key cs in if text_eq k key then flatten line ∷ rest else rest
lines_for key (subscribes k ∷ cs) = lines_for key cs
lines_for key (cancels k i ∷ cs) = lines_for key cs

append-history :
    (h : Hub) (k line key : Text)
    → is_empty key ≡ false
    → (append h k line).history key ≡ (
        if text_eq k key
        then last_of max_lines_per_carrier (h.history key ++ (flatten line ∷ []))
        else h.history key)
unfolding append put
append-history h k line key e = elim (Bool-cases (text_eq k key)) [
  | inl f ↦ rw (text_eq_sound k key f, e, text_eq_refl key) refl
  | inr f ↦ elim (Bool-cases (is_empty k)) [ inl g ↦ rw (g, f) refl | inr g ↦ rw (g, f) refl ]
]

run-history :
    (key : Text) (cs : List Call) (h : Hub) (old : List Text)
    → is_empty key ≡ false
    → h.history key ≡ last_of max_lines_per_carrier old
    → (run h cs).history key ≡ last_of max_lines_per_carrier (old ++ lines_for key cs)
unfolding subscribe cancel
run-history key [] h old e p = p ∙ ap (last_of max_lines_per_carrier) (sym (append-nil old))
run-history key (appends k line ∷ cs) h old e p = elim (Bool-cases (text_eq k key)) [
  | inl f ↦ rw f (
      run-history key cs (append h k line) (old ++ (flatten line ∷ [])) e (
        append-history h k line key e
        ∙ rw (f, p) (last_of-append max_lines_per_carrier old (flatten line ∷ [])))
      ∙ ap (last_of max_lines_per_carrier)
          (append_assoc old (flatten line ∷ []) (lines_for key cs)))
  | inr f ↦
      rw f (run-history key cs (append h k line) old e (append-history h k line key e ∙ rw f p))
]
run-history key (subscribes k ∷ cs) h old e p = run-history key cs (after h (subscribes k)) old e p
run-history key (cancels k i ∷ cs) h old e p = run-history key cs (after h (cancels k i)) old e p

-- After any appends, subscriptions and cancellations the hub holds for a key that is not empty the
-- last 500 lines that were added for it, each flattened to one line.
pub history-last :
    (key : Text) (cs : List Call)
    → is_empty key ≡ false
    → (run new_hub cs).history key ≡ last_of max_lines_per_carrier (lines_for key cs)
unfolding new_hub
history-last key cs e = run-history key cs new_hub [] e refl
