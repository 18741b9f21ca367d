-- ===== src/Smpp/Deliver.antt =====
-- minisms/internal/smpp/server/deliver.go: DeliverDLR. `writes` says whether a deliver_sm with this
-- text gets through to a session; `now` is the time in the form 0601021504. Logs, and the fields of
-- the deliver_sm other than its text, are left out.
pub mod Forwarded
use mini_sms.Prelude.{ℕ, Bool, false, Option, none, some, ◌++◌}
use mini_sms.Text.{Text, Unicode, codes}
use mini_sms.Dlr.Forward.{receipt_stat}
use mini_sms.Smpp.Sessions.{Registry, pick_deliver}

-- buildDeliveryReceipt
unfoldable pub build_delivery_receipt : Text → Text → Text → Text
build_delivery_receipt now message_id stat =
    codes "id:"
    ++ message_id
    ++ codes " sub:001 dlvrd:001 submit date:"
    ++ now
    ++ codes " done date:"
    ++ now
    ++ codes " stat:"
    ++ stat
    ++ codes " err:000 Text:"

abbrev pub deliver_on : (ℕ → Text → Bool) → Text → Option ℕ → Bool
deliver_on writes body none = false
deliver_on writes body (some p) = writes p body

-- DeliverDLR
unfoldable pub deliver_dlr :
    Unicode → (ℕ → Text → Bool) → Text → Registry → Text → Text → Text → Bool
unfolding build_delivery_receipt receipt_stat
deliver_dlr u writes now r client message_id dlr_status =
    let body = build_delivery_receipt now message_id (receipt_stat u dlr_status) in
    deliver_on writes body (pick_deliver r client)
