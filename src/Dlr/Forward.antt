-- ===== src/Dlr/Forward.antt =====
-- minisms/internal/dlr/processor.go (forwardToClient, ResendToClient, HandleCarrierSMPP), db/dlr.go
-- (UpdateDLRForwardStatus), smpp/server/deliver.go (receiptStat), and db/sms_aging.go. What the
-- client's end answers is a parameter; the signature, the timeline and the wire log are left out.
pub mod Recorded
pub mod RoundTrip
use mini_sms.Prelude.{
  ℕ, ◌+◌, Bool, true, false, not, ◌&&◌, ◌||◌, Option, none, some, List, [], ◌∷◌, if◌then◌else◌, leb,
  ltb,
}
use mini_sms.Text.{Text, Unicode, codes, text_eq, is_empty, trim_space}
use mini_sms.Dlr.Status.{
  delivered, undelivered, rejected, unknown, is_one_of, standard_status, value_or_empty, Fields,
}
use mini_sms.Dlr.Receipt.{DlrRow, handle_inbound}

-- The columns of a message that a forward writes.
pub record ForwardRow : Type 0 where
  pub forward_status : Option Text
  pub is_forwarded : Bool
  pub forward_attempts : ℕ

-- The row that the UPDATE of UpdateDLRForwardStatus leaves.
abbrev pub written : Text → Bool → Bool → ForwardRow → ForwardRow
written word success count_attempt row =
    if success
    then record {
      forward_status = some word;
      is_forwarded = true;
      forward_attempts = row.forward_attempts + 1;
    }
    else if count_attempt
    then record row { forward_status = some word; forward_attempts = row.forward_attempts + 1 }
    else record row { forward_status = some word }

-- UpdateDLRForwardStatus; none is an error of the UPDATE, which gets through if `stores` is true
unfoldable pub update_forward_status : Bool → Text → Bool → Bool → ForwardRow → Option ForwardRow
update_forward_status stores word success count_attempt row =
    if stores then some (written word success count_attempt row) else none

-- What the client's end does with a receipt. `deliver` is the SMPP server, none where there is none,
-- and says whether DeliverDLR got the status through; `build` is BuildClientForward, the URL of it;
-- `respond` is the response's code, none for an error. `stores` says whether the UPDATE at the end of
-- the forward gets through to the database.
pub record ClientEnd : Type 0 where
  pub deliver : Option (Text → Bool)
  pub build : Text → Option Text
  pub url_allowed : Text → Bool
  pub request_made : Text → Bool
  pub respond : Text → Option ℕ
  pub stores : Bool

abbrev pub smpp_ok : Text
smpp_ok = codes "smpp_ok"

abbrev pub smpp_no_bind : Text
smpp_no_bind = codes "smpp_no_bind"

abbrev pub no_url : Text
no_url = codes "no_url"

abbrev pub forward_failed : Text
forward_failed = codes "failed"

abbrev pub blocked : Text
blocked = codes "blocked"

abbrev pub success : Text
success = codes "success"

-- The caller drops the error of the UPDATE.
abbrev pub after_update : Option ForwardRow → ForwardRow → ForwardRow
after_update none row = row
after_update (some after) row = after

module _ (end : ClientEnd) where
  -- The end of a forward: the word that is returned, and the row.
  abbrev pub ends_with : Text → Bool → Bool → ForwardRow → Text × ForwardRow
  ends_with word success count_attempt row =
      (word, after_update (update_forward_status end.stores word success count_attempt row) row)

  abbrev pub on_response : Option ℕ → ForwardRow → Text × ForwardRow
  on_response none row = ends_with forward_failed false true row
  on_response (some code) row =
      if leb 200 code && leb code 299
      then ends_with success true true row
      else ends_with forward_failed false true row

  abbrev pub on_request : Option Text → ForwardRow → Text × ForwardRow
  on_request none row = ends_with forward_failed false true row
  on_request (some url) row =
      if not (end.url_allowed url)
      then ends_with blocked false false row
      else if not (end.request_made url)
      then ends_with forward_failed false true row
      else on_response (end.respond url) row

  -- The part of forwardToClient for a webhook.
  unfoldable pub forward_http : Option Text → Text → ForwardRow → Text × ForwardRow
  unfolding update_forward_status
  forward_http webhook_url dlr_status row =
      if is_empty (trim_space (value_or_empty webhook_url))
      then ends_with no_url false false row
      else on_request (end.build dlr_status) row

  abbrev pub is_smpp_mode : Text → Bool
  is_smpp_mode mode = text_eq mode (codes "smpp") || text_eq mode (codes "both")

  abbrev pub forward_by :
      Option (Text → Bool) → Text → Option Text → Text → ForwardRow → Text × ForwardRow
  forward_by none mode webhook_url dlr_status row = forward_http webhook_url dlr_status row
  forward_by (some deliver) mode webhook_url dlr_status row =
      if not (is_smpp_mode mode)
      then forward_http webhook_url dlr_status row
      else if deliver dlr_status
      then ends_with smpp_ok true true row
      else if text_eq mode (codes "smpp")
      then ends_with smpp_no_bind false false row
      else forward_http webhook_url dlr_status row

  -- forwardToClient, with the mode in lower case and http for none
  unfoldable pub forward_in : Text → Option Text → Text → ForwardRow → Text × ForwardRow
  unfolding forward_http update_forward_status
  forward_in mode webhook_url dlr_status row =
      forward_by end.deliver mode webhook_url dlr_status row

  abbrev pub mode_or_http : Text → Text
  mode_or_http mode = if is_empty mode then codes "http" else mode

  -- forwardToClient
  unfoldable pub forward_to_client :
      Unicode → Text → Option Text → Text → ForwardRow → Text × ForwardRow
  unfolding forward_in
  forward_to_client u delivery_mode webhook_url dlr_status row =
      forward_in (mode_or_http (u.to_lower (trim_space delivery_mode))) webhook_url dlr_status row

  -- ResendToClient, for the row of a message; none is an error
  unfoldable pub resend_to_client :
      Unicode
      → (Text → Bool)
      → Text
      → Text
      → Option Text
      → Option DlrRow
      → ForwardRow
      → Option Text × ForwardRow
  unfolding forward_to_client standard_status
  resend_to_client u is_uuid message_id mode url found row =
      if not (is_uuid (trim_space message_id)) then (none, row) else elim found [
        | none ↦ (none, row)
        | some d ↦
            if is_empty (trim_space (value_or_empty d.dlr_status))
            then (none, row)
            else let (word, after) =
                forward_to_client u mode url (standard_status u (value_or_empty d.dlr_status))
                  row in
              (some word, after)
      ]

-- receiptStat
unfoldable pub receipt_stat : Unicode → Text → Text
receipt_stat u dlr_status =
    let v = u.to_lower (trim_space dlr_status) in
    if text_eq v delivered
    then codes "DELIVRD"
    else if is_one_of v (undelivered ∷ codes "failed" ∷ [])
    then codes "UNDELIV"
    else if text_eq v rejected
    then codes "REJECTD"
    else codes "UNKNOWN"

pub data CarrierDlrResult : Type 0 where
  carrier_dlr_matched carrier_dlr_unmatched carrier_dlr_error : CarrierDlrResult

-- What ResolveSMSLogMessageID answers; an empty id is no message.
pub data Resolved : Type 0 where
  resolve_failed : Resolved
  resolved_to : Text → Resolved

-- AgeOutAcceptedNoDLR; true if a row was changed
unfoldable pub age_out : DlrRow → DlrRow × Bool
age_out row =
    if text_eq row.status (codes "accepted")
    then (
      record row { status = codes "failed"; dlr_status = some undelivered; is_received = true },
      true,
    )
    else (row, false)

-- HandleCarrierSMPP; an absent message is none, and `resolve` is the query for its id
unfoldable pub handle_carrier_smpp :
    Unicode
    → (Text → Bool)
    → (Text → Resolved)
    → Text
    → Text
    → Bool
    → Option DlrRow
    → CarrierDlrResult × (Option DlrRow × Bool)
unfolding handle_inbound standard_status
handle_carrier_smpp u is_uuid resolve receipt_ref stat stores row =
    let ref = trim_space receipt_ref in
    if is_empty ref then (carrier_dlr_unmatched, (row, false)) else elim (resolve ref) [
      | resolve_failed ↦ (carrier_dlr_error, (row, false))
      | resolved_to id ↦ if is_empty id then (carrier_dlr_unmatched, (row, false)) else (
        carrier_dlr_matched,
        handle_inbound u is_uuid id
            (λ k. if text_eq k (codes "status") then some (standard_status u stat) else none) stores
            row,
      )
    ]
