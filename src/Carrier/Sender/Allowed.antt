-- ===== src/Carrier/Sender/Allowed.antt =====
-- Which senders ResolveSenderID lets through.
use mini_sms.Prelude.{
  ◌≤◌, ◌≡◌, ◌≢◌, ◌∙◌, ltb, inl, inr, refl, sym, subst, Bool, true, false, Option, none, some, [],
  ◌∷◌, length, arith, Bool-cases, Option-cases,
}
use mathlib.Core.Bool.{false≢true}
use mini_sms.Result.{ok}
use mini_sms.Text.{Text, Unicode, codes, text_eq, is_empty, trim_space}
use mini_sms.Text.Laws.{text_eq_sound, text_eq_refl}
use mini_sms.Text.Trim.{trim_space_idem}
use mini_sms.Sending.Store.Money.{ok-injective}
use mini_sms.Dlr.Status.{value_or_empty}
use mini_sms.Carrier.Eligibility.{Resolution}
use mini_sms.Carrier.Sender.{
  SenderMode, SenderError, DefaultRow, default_found, default_missing, default_failed,
  SenderQueries, SenderClient, max_sender_id_runes, parse_allowed_sender_ids_mode, check_mode,
  validate_client_sender_id, client_allows_sender_id, client_default, client_mode, default_row_or,
  default_sender, requested_sender, resolve_sender_id,
}

nonempty : (v : Text) → is_empty v ≡ false → 1 ≤ length v
nonempty [] h = absurd (cc)
nonempty (c ∷ v) h = ground arith

filled : (v : Text) → 1 ≤ length v → is_empty v ≡ false
filled [] h = absurd (omega arith)
filled (c ∷ v) h = refl

true_not_false : ¬ (true ≡ false)
true_not_false h = false≢true (sym h)

not_equal : (s : Text) → text_eq s (codes "any") ≡ false → s ≢ codes "any"
not_equal s e h =
    true_not_false
      (sym (subst (λ t. text_eq t (codes "any") ≡ true) (sym h) (text_eq_refl (codes "any"))) ∙ e)

module _ (u : Unicode) (compile : Text → Option (Text → Bool)) where
  -- The client's mode lets the sender through, and its length is that of a sender.
  abbrev pub Permitted : SenderQueries → Text → Text → Text → Type 0
  Permitted q client mode value =
      (1 ≤ length value)
      × (length value ≤ max_sender_id_runes)
      × (m : SenderMode) × (parse_allowed_sender_ids_mode u compile mode ≡ some m)
      × (check_mode u compile (some q) client m value ≡ none)

  validate-Permitted :
      (q : SenderQueries) (client mode value : Text)
      → client_allows_sender_id u compile (some q) client mode value ≡ true
      → Permitted q client mode (trim_space value)
  unfolding client_allows_sender_id validate_client_sender_id
  validate-Permitted q client mode value h =
      elim (Option-cases (parse_allowed_sender_ids_mode u compile mode)) [
        | inl e ↦ absurd (ground arith)
        | inr (m, e) ↦
            elim (Option-cases (check_mode u compile (some q) client m (trim_space value))) [
              | inl f ↦ (ground (arith, nonempty (trim_space value)), ground arith, m, e, f)
              | inr (x, f) ↦ absurd (ground arith)
            ]
      ]

  Permitted-validate :
      (q : SenderQueries) (client mode value : Text)
      → Permitted q client mode (trim_space value)
      → client_allows_sender_id u compile (some q) client mode value ≡ true
  unfolding client_allows_sender_id validate_client_sender_id
  Permitted-validate q client mode value (low, high, m, e, f) =
      let some_letter : is_empty (trim_space value) ≡ false = filled (trim_space value) low in
      let short : ltb max_sender_id_runes (length (trim_space value)) ≡ false = ground arith in
      rw (some_letter, short, e, f) refl

  -- The client has a default of its own that its mode lets through.
  abbrev pub HasDefault : SenderQueries → SenderClient → Type 0
  HasDefault q c =
      (is_empty (client_default q c) ≡ false)
      × Permitted q c.client_id (client_mode q c) (client_default q c)

  -- Where a sender that ResolveSenderID returns comes from.
  pub data Justified (q : SenderQueries) (c : SenderClient) (requested default : Text)
      (r : Resolution) : Type 0 where
    any_wanted :
        trim_space requested ≡ codes "any"
        → r ≡ record { value = default; source = codes "carrier_default" }
        → Justified q c requested default r
    asked_for :
        (mode : Text)
        → trim_space requested ≢ codes "any"
        → is_empty (trim_space requested) ≡ false
        → q.mode_of c.client_id ≡ some mode
        → Permitted q c.client_id mode (trim_space requested)
        → r ≡ record { value = trim_space requested; source = codes "client_provided" }
        → Justified q c requested default r
    own_default :
        is_empty (trim_space requested) ≡ true
        → HasDefault q c
        → r ≡ record { value = client_default q c; source = codes "client_default" }
        → Justified q c requested default r
    listed_default :
        (sid : Text)
        → is_empty (trim_space requested) ≡ true
        → ¬ HasDefault q c
        → q.default_row c.client_id ≡ default_found sid
        → r ≡ record { value = sid; source = codes "client_default" }
        → Justified q c requested default r
    system_default :
        is_empty (trim_space requested) ≡ true
        → ¬ HasDefault q c
        → q.default_row c.client_id ≡ default_missing
        → r ≡ record { value = default; source = codes "client_default" }
        → Justified q c requested default r

  requested-Justified :
      (q : SenderQueries) (c : SenderClient) (requested d : Text) (r : Resolution)
      → trim_space requested ≢ codes "any"
      → is_empty (trim_space requested) ≡ false
      → requested_sender u compile q c (trim_space requested) ≡ ok r
      → Justified q c requested d r
  unfolding requested_sender
  requested-Justified q c requested d r n e h = elim (Option-cases (q.mode_of c.client_id)) [
    | inl f ↦ absurd (ground arith)
    | inr (mode, f) ↦
        elim (Bool-cases
          (client_allows_sender_id u compile (some q) c.client_id mode (trim_space requested))) [
            | inl g ↦
                asked_for mode n e f
                  (subst (Permitted q c.client_id mode) (trim_space_idem requested)
                    (validate-Permitted q c.client_id mode (trim_space requested) g))
                  (ok-injective {X = SenderError} (ground arith))
            | inr g ↦ absurd (ground arith)
          ]
  ]

  row-Justified :
      (q : SenderQueries) (c : SenderClient) (requested d : Text) (r : Resolution)
      (row : DefaultRow)
      → is_empty (trim_space requested) ≡ true
      → ¬ HasDefault q c
      → q.default_row c.client_id ≡ row
      → default_row_or d row ≡ ok r
      → Justified q c requested d r
  row-Justified q c requested d r (default_found sid) e n f h =
      listed_default sid e n f (sym (ok-injective h))
  row-Justified q c requested d r default_missing e n f h =
      system_default e n f (sym (ok-injective h))
  row-Justified q c requested d r default_failed e n f h = absurd (cc)

  client_default-trim :
      (q : SenderQueries) (c : SenderClient) → trim_space (client_default q c) ≡ client_default q c
  client_default-trim q c =
      elim (Bool-cases (is_empty (trim_space (value_or_empty c.default_sender_id_value)))) [
        | inl e ↦ rw e (trim_space_idem (value_or_empty (q.default_value c.client_id)))
        | inr e ↦ rw e (trim_space_idem (value_or_empty c.default_sender_id_value))
      ]

  default-Justified :
      (q : SenderQueries) (c : SenderClient) (requested d : Text) (r : Resolution)
      → is_empty (trim_space requested) ≡ true
      → default_sender u compile q c d ≡ ok r
      → Justified q c requested d r
  unfolding default_sender
  default-Justified q c requested d r e h = elim (Bool-cases (is_empty (client_default q c))) [
    | inl f ↦
        row-Justified q c requested d r (q.default_row c.client_id) e
          (λ w. true_not_false (sym f ∙ w.0)) refl (ground arith)
    | inr f ↦
        elim (Bool-cases (
          client_allows_sender_id u compile (some q) c.client_id (client_mode q c)
            (client_default q c))) [
              | inl g ↦
                  own_default e
                    (
                      f,
                      subst (Permitted q c.client_id (client_mode q c)) (client_default-trim q c) (
                          validate-Permitted q c.client_id (client_mode q c) (client_default q c)
                            g),
                    )
                    (ok-injective {X = SenderError} (ground arith))
              | inr g ↦
                  row-Justified q c requested d r (q.default_row c.client_id) e
                    (λ w. true_not_false (
                      sym (
                        Permitted-validate q c.client_id (client_mode q c) (client_default q c) (
                          subst (Permitted q c.client_id (client_mode q c))
                            (sym (client_default-trim q c)) w.1))
                      ∙ g))
                    refl (ground arith)
            ]
  ]

  -- Where there is a pool, a sender that is resolved is the system default for a request of any; the
  -- requested one for another request, and then the stored mode of the client permits it; and without
  -- a request the client's default if there is one that its mode permits, and only if not the default
  -- row, or the system default where that is missing. A permitted sender has 1 to 15 characters.
  pub resolve-Justified :
      (q : SenderQueries) (c : SenderClient) (requested default : Text) (r : Resolution)
      → resolve_sender_id u compile (some q) c requested default ≡ ok r
      → Justified q c requested default r
  unfolding resolve_sender_id
  resolve-Justified q c requested default r h =
      elim (Bool-cases (text_eq (trim_space requested) (codes "any"))) [
        | inl e ↦
            any_wanted (text_eq_sound (trim_space requested) (codes "any") e)
              (ok-injective {X = SenderError} (ground arith))
        | inr e ↦ elim (Bool-cases (is_empty (trim_space requested))) [
          | inl f ↦ default-Justified q c requested default r f (ground arith)
          | inr f ↦
              requested-Justified q c requested default r (not_equal (trim_space requested) e) f
                (ground arith)
        ]
      ]
