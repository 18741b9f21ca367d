-- ===== src/Carrier/Eligibility.antt =====
-- minisms/internal/carrier/eligibility.go: whether a carrier may take a message, and with which sender.
pub mod Laws
use mini_sms.Prelude.{
  ℕ, suc, ◌+◌, Bool, true, false, not, ◌&&◌, ◌||◌, Option, none, some, List, [], ◌∷◌, length, all,
  ltb, leb, ◌==◌, if◌then◌else◌,
}
use mini_sms.Text.{Text, codes, text_eq, is_empty, trim_space, byte_len, has_prefix, is_ascii_digit}
use mini_sms.Matching.{star}

-- ^[0-9]{1,15}$
unfoldable pub matches_numeric : Text → Bool
matches_numeric s = all is_ascii_digit s && leb 1 (length s) && leb (length s) 15

-- ^\+[1-9][0-9]{6,14}$
unfoldable pub matches_e164 : Text → Bool
matches_e164 (p ∷ d ∷ s) =
    p == b'+'
    && is_ascii_digit d
    && not (d == b'0')
    && all is_ascii_digit s
    && leb 6 (length s)
    && leb (length s) 14
matches_e164 _ = false

pub data Lookup : Type 0 where
  found no_rows failed : Lookup

pub record RateRow : Type 0 where
  pub rate : ℕ
  pub prefix : Text

-- The queries of one call. none is an error, or no row.
pub record Queries : Type 0 where
  pub default_sender : Option Text
  pub sender_listed : Text → Lookup
  pub allow_in_loss : Option Bool
  pub rate_rows : Text → Option (List RateRow)
  pub compare_ok : Bool

pub data SkipReason : Type 0 where
  sender_id_policy in_loss : SkipReason

-- `panicked` is the query of the default sender on a nil pool
pub data Verdict : Type 0 where
  eligible : Text → Verdict
  skipped : Text → SkipReason → Verdict
  query_failed panicked : Verdict

pub record Resolution : Type 0 where
  pub value : Text
  pub source : Text

abbrev pub text_or : Option Text → Text → Text
text_or none d = d
text_or (some s) d = s

abbrev pub is_blank : Option Text → Bool
is_blank none = true
is_blank (some s) = is_empty (trim_space s)

-- The first part: effectiveSenderID; none is the panic.
unfoldable pub effective_sender : Option Queries → Text → Option Text → Resolution → Option Text
effective_sender pool policy default sid =
    if text_eq sid.source (codes "carrier_default") || text_eq policy (codes "none")
    then (if not (is_blank default) then some (trim_space (text_or default [])) else elim pool [
      | none ↦ none
      | some q ↦ some (text_or q.default_sender (trim_space sid.value))
    ])
    else some (trim_space sid.value)

pub data Policy : Type 0 where
  allowed refused broken : Policy

-- The switch on senderIDPolicy.
unfoldable pub check_policy : Option Queries → Text → Text → Policy
check_policy pool policy sender =
    if text_eq policy (codes "any") || text_eq policy (codes "none")
    then allowed
    else if text_eq policy (codes "numeric")
    then (if matches_numeric sender then allowed else refused)
    else if text_eq policy (codes "e164")
    then (if matches_e164 sender then allowed else refused)
    else if text_eq policy (codes "list")
    then elim pool [
      | none ↦ refused
      | some q ↦ elim (q.sender_listed sender) [
        | found ↦ allowed
        | no_rows ↦ refused
        | failed ↦ broken
      ]
    ]
    else refused

-- The loop over the carrier's rates; `floor` is bestLen + 1.
unfoldable pub scan_rates : Text → List RateRow → ℕ → Option ℕ → Option ℕ
scan_rates prefix [] floor rate = rate
scan_rates prefix (r ∷ rows) floor rate =
    let star_row = scan_rates prefix rows floor (if floor == 0 then some r.rate else rate) in
    let longer = scan_rates prefix rows (byte_len r.prefix + 1) (some r.rate) in
    let skip = scan_rates prefix rows floor rate in
    if text_eq r.prefix star
    then star_row
    else if has_prefix prefix r.prefix && leb floor (byte_len r.prefix)
    then longer
    else skip

unfoldable pub carrier_rate : Queries → Text → Text → Option ℕ
unfolding scan_rates
carrier_rate q group prefix = elim (q.rate_rows group) [
  | none ↦ none
  | some rows ↦ scan_rates prefix rows 0 none
]

-- The query `carrierRate > clientRate`, skipped when there is no carrier rate.
unfoldable pub is_in_loss : Queries → Text → Text → ℕ → Bool
unfolding carrier_rate
is_in_loss q group prefix client_rate = elim (carrier_rate q group prefix) [
  | none ↦ false
  | some rate ↦ q.compare_ok && ltb client_rate rate
]

-- In-loss protection; a nil pool allows every delivery, and a failed query of the flag none.
unfoldable pub check_loss : Option Queries → Option Text → Text → ℕ → Bool
unfolding is_in_loss
check_loss none group prefix client_rate = false
check_loss (some q) group prefix client_rate =
    not (elim q.allow_in_loss [ none ↦ false | some b ↦ b ])
    && not (is_blank group)
    && is_in_loss q (text_or group []) prefix client_rate

-- CheckCarrierEligibility
unfoldable pub check_carrier_eligibility :
    Option Queries → Text → Option Text → Option Text → Resolution → ℕ → Text → Verdict
unfolding effective_sender check_policy check_loss
check_carrier_eligibility pool policy default group sid client_rate prefix =
    elim (effective_sender pool policy default sid) [
      | none ↦ panicked
      | some sender ↦ elim (check_policy pool policy sender) [
        | broken ↦ query_failed
        | refused ↦ skipped sender sender_id_policy
        | allowed ↦
            if check_loss pool group prefix client_rate
            then skipped sender in_loss
            else eligible sender
      ]
    ]
