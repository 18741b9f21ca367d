-- ===== src/Carrier/Eligibility/Laws.antt =====
-- minisms/internal/carrier/eligibility.go: laws of CheckCarrierEligibility.
use mini_sms.Prelude.{
  ℕ, ◌≤◌, ◌≡◌, refl, ◌⊎◌, inl, inr, Bool, true, false, not, ◌&&◌, Option, none, some, [], arith,
  if◌then◌else◌, ap, ◌∙◌, subst, ltb,
}
use mini_sms.Text.{Text, codes, text_eq}
use mini_sms.Carrier.Eligibility.{
  Queries, Resolution, Policy, eligible, skipped, sender_id_policy, in_loss, query_failed, panicked,
  matches_numeric, matches_e164, found, check_policy, check_loss, check_carrier_eligibility,
  effective_sender, carrier_rate, is_blank, text_or, allowed, refused, broken,
}

-- A sender that the `list` policy finds among the carrier's active sender IDs.
abbrev pub IsListed : Option Queries → Text → Type 0
IsListed none sender = ⊥
IsListed (some q) sender = q.sender_listed sender ≡ found

-- The carrier's policy, read as a condition on the sender.
abbrev pub PolicyHolds : Option Queries → Text → Text → Type 0
PolicyHolds pool policy sender =
    (text_eq policy (codes "any") ≡ true)
    ⊎ (text_eq policy (codes "none") ≡ true)
    ⊎ ((text_eq policy (codes "numeric") ≡ true) × (matches_numeric sender ≡ true))
    ⊎ ((text_eq policy (codes "e164") ≡ true) × (matches_e164 sender ≡ true))
    ⊎ ((text_eq policy (codes "list") ≡ true) × IsListed pool sender)

check_policy_sound :
    (pool : Option Queries) (policy sender : Text)
    → check_policy pool policy sender ≡ allowed
    → PolicyHolds pool policy sender
unfolding check_policy
check_policy_sound none policy sender h = grind arith
check_policy_sound (some q) policy sender h = grind arith

abbrev pub AtMost : Option ℕ → ℕ → Type 0
AtMost none client_rate = Unit
AtMost (some r) client_rate = r ≤ client_rate

-- The client accepts delivery at a loss, or the carrier has no rate group, or the comparison itself
-- failed, or no rate of the carrier for the destination is above the client's.
abbrev pub LossHolds : Option Queries → Option Text → Text → ℕ → Type 0
LossHolds none group prefix client_rate = Unit
LossHolds (some q) group prefix client_rate =
    (q.allow_in_loss ≡ some true)
    ⊎ (is_blank group ≡ true)
    ⊎ (q.compare_ok ≡ false)
    ⊎ AtMost (carrier_rate q (text_or group []) prefix) client_rate

loss_cases :
    (allow : Option Bool) (blank ok : Bool) (rate : Option ℕ) (client_rate : ℕ)
    → (not (elim allow [ none ↦ false | some b ↦ b ])
        && not blank
        && (elim rate [ none ↦ false | some r ↦ ok && ltb client_rate r ]))
      ≡ false
    → (allow ≡ some true) ⊎ (blank ≡ true) ⊎ (ok ≡ false) ⊎ AtMost rate client_rate
loss_cases (some true) blank ok rate client_rate h = inl refl
loss_cases allow true ok rate client_rate h = inr (inl refl)
loss_cases allow blank false rate client_rate h = inr (inr (inl refl))
loss_cases allow blank ok none client_rate h = inr (inr (inr tt))
loss_cases none false true (some r) client_rate h = inr (inr (inr (ground arith)))
loss_cases (some false) false true (some r) client_rate h = inr (inr (inr (ground arith)))

check_loss_sound :
    (pool : Option Queries) (group : Option Text) (prefix : Text) (client_rate : ℕ)
    → check_loss pool group prefix client_rate ≡ false
    → LossHolds pool group prefix client_rate
unfolding check_loss
check_loss_sound none group prefix client_rate h = tt
check_loss_sound (some q) group prefix client_rate h =
    loss_cases q.allow_in_loss (is_blank group) q.compare_ok
      (carrier_rate q (text_or group []) prefix) client_rate h

-- A carrier is found eligible only with the sender that the call resolves, only if its sender policy
-- holds of that sender, and only if in-loss protection does not stop it.
pub eligible_sound :
    (pool : Option Queries) (policy : Text) (default group : Option Text) (sid : Resolution)
    (client_rate : ℕ) (prefix sender : Text)
    → check_carrier_eligibility pool policy default group sid client_rate prefix ≡ eligible sender
    → (effective_sender pool policy default sid ≡ some sender)
      × PolicyHolds pool policy sender
      × LossHolds pool group prefix client_rate
unfolding check_carrier_eligibility
eligible_sound pool policy default group sid client_rate prefix sender h =
    by_sender (effective_sender pool policy default sid) refl h
  where
    by_policy :
        (s : Text) (p : Policy)
        → check_policy pool policy s ≡ p
        → (elim p [
          | broken ↦ query_failed
          | refused ↦ skipped s sender_id_policy
          | allowed ↦
              if check_loss pool group prefix client_rate then skipped s in_loss else eligible s
        ])
          ≡ eligible sender
        → (s ≡ sender) × PolicyHolds pool policy s × LossHolds pool group prefix client_rate
    by_policy s allowed e h =
        let calm : check_loss pool group prefix client_rate ≡ false = ground arith in
        (
          ground arith,
          check_policy_sound pool policy s e,
          check_loss_sound pool group prefix client_rate calm,
        )
    by_policy s refused e h = absurd (cc)
    by_policy s broken e h = absurd (cc)

    by_sender :
        (o : Option Text)
        → effective_sender pool policy default sid ≡ o
        → (elim o [
          | none ↦ panicked
          | some s ↦ elim (check_policy pool policy s) [
            | broken ↦ query_failed
            | refused ↦ skipped s sender_id_policy
            | allowed ↦
                if check_loss pool group prefix client_rate then skipped s in_loss else eligible s
          ]
        ])
          ≡ eligible sender
        → (effective_sender pool policy default sid ≡ some sender)
          × PolicyHolds pool policy sender
          × LossHolds pool group prefix client_rate
    by_sender none e h = absurd (cc)
    by_sender (some s) e h =
        let (same, p, l) = by_policy s (check_policy pool policy s) refl h in
        (e ∙ ap some same, subst (PolicyHolds pool policy) same p, l)
