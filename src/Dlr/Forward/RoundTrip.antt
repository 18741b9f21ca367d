-- ===== src/Dlr/Forward/RoundTrip.antt =====
-- A status on its way to a client's SMPP session and back.
use mini_sms.Prelude.{◌≡◌, inl, inr, refl}
use mini_sms.Text.{Text, Unicode, codes, trim_space, text_eq}
use mini_sms.Dlr.Status.{
  delivered, undelivered, rejected, unknown, Known, standard_word, standard_status,
}
use mini_sms.Dlr.Forward.{receipt_stat}

-- strings.ToLower on the words that receipts are made of.
pub record LowersWords (u : Unicode) : Type 0 where
  pub delivered_low : u.to_lower delivered ≡ delivered
  pub undelivered_low : u.to_lower undelivered ≡ undelivered
  pub rejected_low : u.to_lower rejected ≡ rejected
  pub unknown_low : u.to_lower unknown ≡ unknown
  pub delivrd_low : u.to_lower (codes "DELIVRD") ≡ codes "delivrd"
  pub undeliv_low : u.to_lower (codes "UNDELIV") ≡ codes "undeliv"
  pub rejectd_low : u.to_lower (codes "REJECTD") ≡ codes "rejectd"
  pub unknown_up : u.to_lower (codes "UNKNOWN") ≡ unknown

delivered_trip :
    (u : Unicode) → LowersWords u → standard_status u (receipt_stat u delivered) ≡ delivered
unfolding standard_status receipt_stat trim_space text_eq standard_word
delivered_trip u v = rw (v.delivered_low, v.delivrd_low) refl

undelivered_trip :
    (u : Unicode) → LowersWords u → standard_status u (receipt_stat u undelivered) ≡ undelivered
unfolding standard_status receipt_stat trim_space text_eq standard_word
undelivered_trip u v = rw (v.undelivered_low, v.undeliv_low) refl

rejected_trip :
    (u : Unicode) → LowersWords u → standard_status u (receipt_stat u rejected) ≡ rejected
unfolding standard_status receipt_stat trim_space text_eq standard_word
rejected_trip u v = rw (v.rejected_low, v.rejectd_low) refl

unknown_trip : (u : Unicode) → LowersWords u → standard_status u (receipt_stat u unknown) ≡ unknown
unfolding standard_status receipt_stat trim_space text_eq standard_word
unknown_trip u v = rw (v.unknown_low, v.unknown_up) refl

-- Each of the four statuses is read back from the word of the SMPP receipt that is written for it,
-- where strings.ToLower does on these words what it is for.
pub standard_status-receipt_stat :
    (u : Unicode) (s : Text) → LowersWords u → Known s → standard_status u (receipt_stat u s) ≡ s
standard_status-receipt_stat u s v (inl e) = rw e (delivered_trip u v)
standard_status-receipt_stat u s v (inr (inl e)) = rw e (undelivered_trip u v)
standard_status-receipt_stat u s v (inr (inr (inl e))) = rw e (rejected_trip u v)
standard_status-receipt_stat u s v (inr (inr (inr e))) = rw e (unknown_trip u v)
