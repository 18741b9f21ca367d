-- ===== src/Admin/Permissions/Laws.antt =====
-- Which keys ParsePermissionList keeps.
use mini_sms.Prelude.{
  ◌≡◌, refl, Bool, false, not, ◌&&◌, List, [], ◌∷◌, any, arith, Bool-cases, inl, inr,
}
use mini_sms.Text.{Text, text_eq, is_empty, trim_space}
use mini_sms.Text.Laws.{text_eq_refl, text_eq_sound}
use mini_sms.Admin.Permissions.{
  assignable, holds, is_passed_over, parse_from, parse_permission_list,
}

-- Some key of the form is this one, after trimming.
abbrev pub asked : List Text → Text → Bool
asked keys k = any (λ raw. text_eq (trim_space raw) k) keys

abbrev pub NoRepeat : List Text → Type 0
NoRepeat [] = Unit
NoRepeat (k ∷ keys) = (holds keys k ≡ false) × NoRepeat keys

-- The condition under which a key is taken.
abbrev taken : List Text → List Text → List Text → Text → Bool
taken allowed seen keys k =
    asked keys k && (not (is_empty k) && (holds allowed k && not (holds seen k)))

holds-parse :
    (allowed keys seen : List Text) (k : Text)
    → holds (parse_from allowed seen keys) k ≡ taken allowed seen keys k
unfolding parse_from
holds-parse allowed [] seen k = refl
holds-parse allowed (raw ∷ keys) seen k =
    elim (Bool-cases (is_passed_over allowed seen (trim_space raw))) [
      | inl e ↦
          rw e (ground (arith, holds-parse allowed keys seen k, text_eq_sound (trim_space raw) k))
      | inr e ↦ rw e (
          ground (
            arith,
            holds-parse allowed keys (trim_space raw ∷ seen) k,
            text_eq_sound (trim_space raw) k,
          ))
    ]

parse-NoRepeat : (allowed keys seen : List Text) → NoRepeat (parse_from allowed seen keys)
unfolding parse_from
parse-NoRepeat allowed [] seen = tt
parse-NoRepeat allowed (raw ∷ keys) seen =
    elim (Bool-cases (is_passed_over allowed seen (trim_space raw))) [
      | inl e ↦ rw e (parse-NoRepeat allowed keys seen)
      | inr e ↦ rw e (
        ground (
          arith,
          holds-parse allowed keys (trim_space raw ∷ seen) (trim_space raw),
          text_eq_refl (trim_space raw),
        ),
        parse-NoRepeat allowed keys (trim_space raw ∷ seen),
      )
    ]

-- The permissions of a form have no repetition, and a key is among them exactly if the form has it
-- after trimming, it is not empty and it can be assigned.
pub parse_permission_list-NoRepeat :
    (keys : List Text) (k : Text)
    → NoRepeat (parse_permission_list keys)
      × (holds (parse_permission_list keys) k
          ≡ (asked keys k && (not (is_empty k) && holds assignable k)))
unfolding parse_permission_list
parse_permission_list-NoRepeat keys k =
    (parse-NoRepeat assignable keys [], ground (arith, holds-parse assignable keys [] k))
