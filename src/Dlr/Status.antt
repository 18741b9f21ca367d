-- ===== src/Dlr/Status.antt =====
-- minisms/internal/dlr/status.go: what a carrier's word for a delivery status means.
use mini_sms.Prelude.{
  ◌≡◌, refl, Bool, true, false, not, Option, none, some, List, [], ◌∷◌, if◌then◌else◌, Bool-cases,
  inl, inr, ◌⊎◌, any,
}
use mini_sms.Text.{Text, Unicode, codes, text_eq, is_empty, trim_space}
use mini_sms.Text.Laws.{text_eq_iff}

abbrev pub delivered : Text
delivered = codes "delivered"

abbrev pub undelivered : Text
undelivered = codes "undelivered"

abbrev pub rejected : Text
rejected = codes "rejected"

abbrev pub unknown : Text
unknown = codes "unknown"

abbrev pub is_one_of : Text → List Text → Bool
is_one_of v words = any (λ w. text_eq v w) words

-- The switch of StandardStatus, on the lower-case word.
unfoldable pub standard_word : Text → Text
standard_word v =
    if is_one_of v (delivered ∷ undelivered ∷ rejected ∷ unknown ∷ [])
    then v
    else if is_one_of v (codes "delivrd" ∷ codes "ok" ∷ codes "success" ∷ [])
    then delivered
    else if is_one_of v (
        codes "failed"
        ∷ codes "undeliv"
        ∷ codes "expired"
        ∷ codes "deleted"
        ∷ codes "undeliverable"
        ∷ [])
    then undelivered
    else if is_one_of v (codes "reject" ∷ codes "rejectd" ∷ [])
    then rejected
    else unknown

-- A Go map of strings: none is a key that is absent.
abbrev pub Fields : Type 0
Fields = Text → Option Text

abbrev pub value_or_empty : Option Text → Text
value_or_empty none = []
value_or_empty (some v) = v

module _ (u : Unicode) where
  -- StandardStatus
  unfoldable pub standard_status : Text → Text
  unfolding standard_word
  standard_status raw = standard_word (u.to_lower (trim_space raw))

  -- IsFinalStatus
  unfoldable pub is_final_status : Text → Bool
  is_final_status status =
      is_one_of (u.to_lower (trim_space status)) (delivered ∷ undelivered ∷ rejected ∷ [])

  -- fieldValue
  unfoldable pub field_value : Fields → List Text → Text
  field_value fields [] = []
  field_value fields (k ∷ keys) =
      let rest = field_value fields keys in
      let v = trim_space (value_or_empty (fields (u.to_lower (trim_space k)))) in
      if not (is_empty v) then v else rest

  -- mapRawStatus; none is the nil map
  unfoldable pub map_raw_status : Text → Option Fields → Text
  unfolding standard_status
  map_raw_status raw none =
      if is_empty (trim_space raw) then [] else standard_status (trim_space raw)
  map_raw_status raw (some status_map) =
      let r = trim_space raw in
      if is_empty r then [] else elim (status_map r) [
        | some mapped ↦ standard_status mapped
        | none ↦ elim (status_map (u.to_upper r)) [
          | some mapped ↦ standard_status mapped
          | none ↦ standard_status r
        ]
      ]

  abbrev primary : Option Text → Text
  primary none = codes "status"
  primary (some f) = if is_empty (trim_space f) then codes "status" else u.to_lower (trim_space f)

  -- NormalizeFromFields
  unfoldable pub normalize_from_fields : Fields → Option Text → Option Fields → Text
  unfolding field_value map_raw_status
  normalize_from_fields fields status_field status_map =
      let raw = field_value fields (
        primary status_field
        ∷ codes "status"
        ∷ codes "stat"
        ∷ codes "dlr"
        ∷ codes "answer"
        ∷ codes "sms_status"
        ∷ codes "message_status"
        ∷ []) in
      let mapped = map_raw_status raw status_map in
      if is_empty mapped then codes "unknown" else mapped

-- One of the four statuses that the gateway keeps.
abbrev pub Known : Text → Type 0
Known s = (s ≡ delivered) ⊎ (s ≡ undelivered) ⊎ (s ≡ rejected) ⊎ (s ≡ unknown)

choose-Known : (b : Bool) (x y : Text) → (b ≡ true → Known x) → Known y → Known (if b then x else y)
choose-Known true x y h k = h refl
choose-Known false x y h k = k

is_one_of-Known :
    (v : Text) → is_one_of v (delivered ∷ undelivered ∷ rejected ∷ unknown ∷ []) ≡ true → Known v
is_one_of-Known v = elim (Bool-cases (text_eq v delivered)) [
  | inl e ↦ λ h. inl ((text_eq_iff v delivered).0 e)
  | inr e ↦ rw e (elim (Bool-cases (text_eq v undelivered)) [
    | inl f ↦ λ h. inr (inl ((text_eq_iff v undelivered).0 f))
    | inr f ↦ rw f (elim (Bool-cases (text_eq v rejected)) [
      | inl g ↦ λ h. inr (inr (inl ((text_eq_iff v rejected).0 g)))
      | inr g ↦ rw g (elim (Bool-cases (text_eq v unknown)) [
        | inl k ↦ λ h. inr (inr (inr ((text_eq_iff v unknown).0 k)))
        | inr k ↦ rw k (λ h. absurd (cc))
      ])
    ])
  ])
]

standard_word-Known : (v : Text) → Known (standard_word v)
unfolding standard_word
standard_word-Known v = choose-Known _ v _ (is_one_of-Known v) (
    choose-Known _ delivered _ (λ h. inl refl)
      (choose-Known _ undelivered _ (λ h. inr (inl refl))
        (choose-Known _ rejected unknown (λ h. inr (inr (inl refl))) (inr (inr (inr refl))))))

module _ (u : Unicode) where
  standard_status-Known : (raw : Text) → Known (standard_status u raw)
  unfolding standard_status
  standard_status-Known raw = standard_word-Known (u.to_lower (trim_space raw))

  unless_empty :
      (b : Bool) (x : Text)
      → Known x
      → is_empty (if b then [] else x) ≡ false
      → Known (if b then [] else x)
  unless_empty true x k h = absurd (cc)
  unless_empty false x k h = k

  map_raw_status-Known :
      (raw : Text) (status_map : Option Fields)
      → is_empty (map_raw_status u raw status_map) ≡ false
      → Known (map_raw_status u raw status_map)
  unfolding map_raw_status
  map_raw_status-Known raw none h =
      unless_empty (is_empty (trim_space raw)) _ (standard_status-Known (trim_space raw)) h
  map_raw_status-Known raw (some status_map) h =
      unless_empty (is_empty (trim_space raw)) _
        (by_lookup (status_map (trim_space raw)) (status_map (u.to_upper (trim_space raw)))) h
    where
      by_lookup :
          (a b : Option Text)
          → Known (elim a [
            | some mapped ↦ standard_status u mapped
            | none ↦ elim b [
              | some mapped ↦ standard_status u mapped
              | none ↦ standard_status u (trim_space raw)
            ]
          ])
      by_lookup (some mapped) b = standard_status-Known mapped
      by_lookup none (some mapped) = standard_status-Known mapped
      by_lookup none none = standard_status-Known (trim_space raw)

  -- Whatever a carrier sends, and whatever its status map says, the status is one of the four.
  pub normalize_from_fields-Known :
      (fields : Fields) (status_field : Option Text) (status_map : Option Fields)
      → Known (normalize_from_fields u fields status_field status_map)
  unfolding normalize_from_fields
  normalize_from_fields-Known fields status_field status_map =
      or_unknown _ (map_raw_status-Known _ status_map)
    where
      or_unknown :
          (mapped : Text)
          → (is_empty mapped ≡ false → Known mapped)
          → Known (if is_empty mapped then codes "unknown" else mapped)
      or_unknown [] k = inr (inr (inr refl))
      or_unknown (c ∷ s) k = k refl
