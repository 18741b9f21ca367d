-- ===== src/Tests/Receipts.antt =====
-- minisms/internal/dlr on one message.
use mini_sms.Prelude.{◌≤◌, ◌≡◌, refl, Bool, true, false, none, some, List, [], ◌∷◌, if◌then◌else◌}
use mini_sms.Text.{Text, codes, text_eq}
use mini_sms.Dlr.Status.{Fields, delivered, normalize_from_fields}
use mini_sms.Dlr.Receipt.{DlrRow, is_closed, allowance, receive, receive-allowance, receive-closed}
use mini_sms.Tests.Delivery.{ascii}

-- stat=DELIVRD, in lower case
abbrev fields : Fields
fields k = if text_eq k (codes "stat") then some (codes "delivrd") else none

abbrev waiting : DlrRow
waiting = record {
  status = codes "accepted";
  dlr_status = none;
  is_received = false;
  dlr_requested = true;
  status_field = none;
  status_map = none;
}

abbrev done : DlrRow
done = record waiting { status = delivered; dlr_status = some delivered; is_received = true }

is_delivered : normalize_from_fields ascii fields none none ≡ delivered
unfolding normalize_from_fields mini_sms.Text.trim_space text_eq
is_delivered = refl

abbrev receipts : List (Fields × Bool)
receipts = (fields, true) ∷ (fields, true) ∷ []

receive-allowance_example :
    (receive ascii (λ s. true) (codes "m") receipts (some waiting)).1
    ≤ allowance ascii (λ s. true) (some waiting)
receive-allowance_example =
    receive-allowance ascii (λ s. true) (refl, refl, refl, refl) (codes "m") receipts (some waiting)

first_is_forwarded : receive ascii (λ s. true) (codes "m") receipts (some waiting) ≡ (some done, 1)
unfolding receive mini_sms.Text.trim_space text_eq
first_is_forwarded = refl

done_is_closed : is_closed done.dlr_status ≡ true
unfolding text_eq
done_is_closed = refl

receive-closed_example : receive ascii (λ s. true) (codes "m") receipts (some done) ≡ (some done, 0)
receive-closed_example = receive-closed ascii (λ s. true) (codes "m") receipts done done_is_closed
