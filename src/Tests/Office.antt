-- ===== src/Tests/Office.antt =====
-- Forwards of receipts, ageing, permissions and invoices on small inputs.
use mini_sms.Prelude.{
  ℕ, ◌+◌, ◌-◌, ◌≡◌, ◌≢◌, ap, sym, refl, ◌⊎◌, inl, inr, Bool, true, false, not, ◌&&◌, Option, none,
  some, List, [], ◌∷◌, if◌then◌else◌,
}
use mathlib.Core.Bool.{false≢true}
use mini_sms.Text.{Text, Unicode, codes, text_eq, is_empty, trim_space}
use mini_sms.Tests.Delivery.{ascii}
use mini_sms.Dlr.Status.{rejected, standard_status}
use mini_sms.Dlr.Receipt.{DlrRow}
use mini_sms.Dlr.Forward.{ForwardRow, ClientEnd, receipt_stat}
use mini_sms.Dlr.Forward.Recorded.{Recorded}
use mini_sms.Dlr.Forward.RoundTrip.{LowersWords, standard_status-receipt_stat}
use mini_sms.Dlr.Http.{Callback, candidate, handle_dlr, handle_dlr-guarded}
use mini_sms.Dlr.Ageing.{Sweep, sweep, aged, touched, sweep-aged}
use mini_sms.Admin.Permissions.{assignable, holds, parse_permission_list}
use mini_sms.Admin.Permissions.Laws.{NoRepeat, asked, parse_permission_list-NoRepeat}
use mini_sms.Invoice.Payment.{create_invoice}
use mini_sms.Invoice.Payment.Settled.{Settled, pay_all, payments-Settled}

abbrev pub end : ClientEnd
end = record {
  deliver = some (λ s. false);
  build = λ s. some (codes "https://example.org");
  url_allowed = λ s. true;
  request_made = λ s. true;
  respond = λ s. some 204;
  stores = true;
}

abbrev pub unsent : ForwardRow
unsent = record { forward_status = none; is_forwarded = false; forward_attempts = 0 }

abbrev webhook : Option Text
webhook = some (codes "https://example.org")

-- strings.ToLower on ASCII capitals
abbrev lower : Text → Text
lower [] = []
lower (c ∷ s) = (if between c then c + 32 else c) ∷ lower s
  where
    between : ℕ → Bool
    between c = mini_sms.Prelude.leb b'A' c && mini_sms.Prelude.leb c b'Z'

abbrev lowering : Unicode
lowering = record { to_lower = lower; to_upper = λ s. s; equal_fold = text_eq }

lowering-LowersWords : LowersWords lowering
lowering-LowersWords = record {
  delivered_low = refl;
  undelivered_low = refl;
  rejected_low = refl;
  unknown_low = refl;
  delivrd_low = refl;
  undeliv_low = refl;
  rejectd_low = refl;
  unknown_up = refl;
}

standard_status-receipt_stat_example :
    standard_status lowering (receipt_stat lowering rejected) ≡ rejected
standard_status-receipt_stat_example =
    standard_status-receipt_stat lowering rejected lowering-LowersWords (inr (inr (inl refl)))

abbrev accepted_row : DlrRow
accepted_row = record {
  status = codes "accepted";
  dlr_status = none;
  is_received = false;
  dlr_requested = true;
  status_field = none;
  status_map = none;
}

abbrev waiting : Sweep
waiting = record { rows = λ id. some accepted_row; forwards = λ id. unsent }

sweep-aged_example :
    (sweep ascii
        (λ s. true)
        (λ s. true)
        (λ s. end)
        (λ s. codes "http")
        (λ s. none)
        (codes "m" ∷ [])
        waiting).0.rows
      (codes "m")
    ≡ aged (touched (λ s. true) (codes "m" ∷ []) (codes "m")) (some accepted_row)
sweep-aged_example =
    sweep-aged ascii (λ s. true) (λ s. true) (λ s. end) (λ s. codes "http") (λ s. none)
      (codes "m" ∷ []) waiting (codes "m")

abbrev form : List Text
form = codes " simulate" ∷ codes "simulate" ∷ codes "root" ∷ []

parse_permission_list-NoRepeat_example :
    NoRepeat (parse_permission_list form)
    × (holds (parse_permission_list form) (codes "simulate") ≡ (
        asked form (codes "simulate")
        && (not (is_empty (codes "simulate")) && holds assignable (codes "simulate"))))
parse_permission_list-NoRepeat_example = parse_permission_list-NoRepeat form (codes "simulate")

payments-Settled_example :
    Settled 100 70
      (pay_all (create_invoice (codes "i") (codes "client") (codes "c") 100) (30 ∷ 40 ∷ []))
payments-Settled_example =
    payments-Settled (codes "i") (codes "client") (codes "c") 100 (30 ∷ 40 ∷ [])

-- A carrier's callback with the right secret.
abbrev callback : Callback
callback = record {
  path_id = codes "m";
  query = λ k. if text_eq k (codes "secret") then codes "s3" else [];
  header = λ k. [];
  fields = λ k. if text_eq k (codes "status") then some (codes "delivered") else none;
}

abbrev was_forwarded : Option DlrRow × Bool → Bool
was_forwarded (row, b) = b

callback_forwards :
    (handle_dlr ascii
      (λ s. true)
      (λ s. some (codes "s3"))
      callback
      (some (codes "x"))
      true
      (some accepted_row)).1
    ≢ (some accepted_row, false)
unfolding handle_dlr trim_space text_eq
callback_forwards h = false≢true (sym (ap was_forwarded h))

handle_dlr-guarded_example : some (codes "s3") ≡ some (candidate callback)
unfolding trim_space
handle_dlr-guarded_example =
    handle_dlr-guarded ascii (λ s. true) (λ s. some (codes "s3")) callback (some (codes "x")) true
      (some accepted_row) refl callback_forwards
