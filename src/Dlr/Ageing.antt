-- ===== src/Dlr/Ageing.antt =====
-- minisms/internal/runtime/aging.go (sweep) and db/sms_aging.go: accepted messages that never got a
-- final receipt. The messages are those that the query lists, up to the one at which the context is
-- cancelled; `stores` says which updates get through.
use mini_sms.Prelude.{
  ℕ, ◌+◌, ◌≡◌, refl, sym, ap, ◌∙◌, Bool, true, false, not, ◌&&◌, ◌||◌, Option, none, some, List, [],
  ◌∷◌, arith, if◌then◌else◌, any, Bool-cases, inl, inr,
}
use mini_sms.Text.{Text, Unicode, codes, text_eq}
use mini_sms.Text.Laws.{text_eq_sound}
use mini_sms.Routing.Cache.{put}
use mini_sms.Dlr.Receipt.{DlrRow}
use mini_sms.Dlr.Forward.{ForwardRow, ClientEnd, age_out, resend_to_client}

-- The messages, and how each client is reached.
pub record Sweep : Type 0 where
  pub rows : Text → Option DlrRow
  pub forwards : Text → ForwardRow

-- An accepted message is closed as failed, with the receipt undelivered; no other one changes.
abbrev pub closed : DlrRow → DlrRow
closed row = if not (text_eq row.status (codes "accepted")) then row else (record {
  status = codes "failed";
  dlr_status = some (codes "undelivered");
  is_received = true;
  dlr_requested = row.dlr_requested;
  status_field = row.status_field;
  status_map = row.status_map;
})

-- What becomes of a message: it is closed if it is listed and its update gets through.
abbrev pub aged : Bool → Option DlrRow → Option DlrRow
aged b none = none
aged b (some row) = if b then some (closed row) else some row

abbrev pub touched : (Text → Bool) → List Text → Text → Bool
touched stores ids j = any (λ id. text_eq id j && stores id) ids

closed_idem : (row : DlrRow) → closed (closed row) ≡ closed row
unfolding text_eq
closed_idem row = elim (Bool-cases (text_eq row.status (codes "accepted"))) [
  | inl e ↦ rw e refl
  | inr e ↦ rw (e, e) refl
]

aged_twice : (a b : Bool) (o : Option DlrRow) → aged b (aged a o) ≡ aged (a || b) o
aged_twice a b none = refl
aged_twice true true (some row) = ap some (closed_idem row)
aged_twice true false (some row) = refl
aged_twice false b (some row) = refl

aged_unless_stored : (o : Option DlrRow) → aged false o ≡ o
aged_unless_stored none = refl
aged_unless_stored (some row) = refl

same_row :
    (s : Sweep) (id j : Text) (o : Option DlrRow)
    → text_eq id j ≡ true
    → s.rows id ≡ o
    → s.rows j ≡ o
same_row s id j o f e = ap s.rows (sym (text_eq_sound id j f)) ∙ e

module _ (u : Unicode) (is_uuid stores : Text → Bool) (end : Text → ClientEnd) (mode : Text → Text)
    (url : Text → Option Text) where
  -- One round of the loop, on what the table holds; the number is what it adds to aged.
  abbrev pub age_found : Sweep → Text → Option DlrRow → Sweep × ℕ
  age_found s id none = (s, 0)
  age_found s id (some row) =
      let (after, applied) = age_out row in
      if not applied then (s, 0) else (
        record {
          rows = put s.rows id (some after);
          forwards =
              put s.forwards id
                (resend_to_client (end id) u is_uuid id (mode id) (url id) (some after)
                  (s.forwards id)).1;
        },
        1,
      )

  unfoldable pub age_one : Sweep → Text → Sweep × ℕ
  unfolding age_out put resend_to_client
  age_one s id = if not (stores id) then (s, 0) else age_found s id (s.rows id)

  -- sweep
  unfoldable pub sweep : List Text → Sweep → Sweep × ℕ
  unfolding age_one
  sweep [] s = (s, 0)
  sweep (id ∷ ids) s = let (t, n) = age_one s id in let (after, m) = sweep ids t in (after, n + m)

  found-aged :
      (s : Sweep) (id : Text) (o : Option DlrRow) (j : Text)
      → s.rows id ≡ o
      → (age_found s id o).0.rows j ≡ aged (text_eq id j) (s.rows j)
  unfolding put age_out
  found-aged s id none j e = elim (Bool-cases (text_eq id j)) [
    | inl f ↦ rw (f, same_row s id j none f e) refl
    | inr f ↦ rw f (sym (aged_unless_stored (s.rows j)))
  ]
  found-aged s id (some row) j e = elim (Bool-cases (text_eq row.status (codes "accepted"))) [
    | inl a ↦ elim (Bool-cases (text_eq id j)) [
      | inl f ↦ rw (a, f, same_row s id j (some row) f e, a) refl
      | inr f ↦ rw (a, f) (sym (aged_unless_stored (s.rows j)))
    ]
    | inr a ↦ elim (Bool-cases (text_eq id j)) [
      | inl f ↦ rw (a, f, same_row s id j (some row) f e, a) refl
      | inr f ↦ rw (a, f) (sym (aged_unless_stored (s.rows j)))
    ]
  ]

  one-aged :
      (s : Sweep) (id j : Text)
      → (age_one s id).0.rows j ≡ aged (text_eq id j && stores id) (s.rows j)
  unfolding age_one
  one-aged s id j = elim (Bool-cases (stores id)) [
    | inl e ↦
        let g : text_eq id j ≡ (text_eq id j && true) = ground arith in
        rw e (found-aged s id (s.rows id) j refl ∙ ap (λ b. aged b (s.rows j)) g)
    | inr e ↦
        let g : false ≡ (text_eq id j && false) = ground arith in
        rw e (sym (aged_unless_stored (s.rows j)) ∙ ap (λ b. aged b (s.rows j)) g)
  ]

  -- After a sweep each message that was accepted, is listed and whose update gets through is failed,
  -- with the receipt undelivered, which counts as received; every other message is as it was, one
  -- that got a final status in the meantime among them.
  pub sweep-aged :
      (ids : List Text) (s : Sweep) (j : Text)
      → (sweep ids s).0.rows j ≡ aged (touched stores ids j) (s.rows j)
  unfolding sweep
  sweep-aged [] s j = sym (aged_unless_stored (s.rows j))
  sweep-aged (id ∷ ids) s j =
      sweep-aged ids (age_one s id).0 j
      ∙ (ap (aged (touched stores ids j)) (one-aged s id j)
          ∙ aged_twice (text_eq id j && stores id) (touched stores ids j) (s.rows j))
