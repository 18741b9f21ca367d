-- ===== src/Billing/Segments.antt =====
-- minisms/internal/billing/rate.go: SegmentInfo, and segmentsOf of sending/queue.go.
-- The quotient of float64 values that `math.Ceil` rounds up is exact enough below 2^45 characters; the
-- ingress accepts at most 1600.
use mini_sms.Prelude.{
  ℕ, ◌+◌, ◌-◌, ◌*◌, ◌/◌, ◌≤◌, ◌<◌, ◌≡◌, refl, ◌⊎◌, inl, inr, Bool, true, [], ◌∷◌, ◌++◌, arith,
  length, ltb, ◌==◌, any, All, Bool-cases, if◌then◌else◌,
}
use mini_sms.Text.{Text, codes}

pub data Encoding : Type 0 where
  gsm7 ucs2 : Encoding

-- gsm7Runes
abbrev pub gsm7_runes : Text
gsm7_runes =
    codes "@£$¥èéùìòÇ"
    ++ 10 ∷ codes "Øø"
    ++ 13 ∷ codes "ÅåΔ_ΦΓΛΩΠΨΣΘΞ"
    ++ 27 ∷ codes "ÆæßÉ !"
    ++ 34
      ∷ codes
          "#¤%&'()*+,-./0123456789:;<=>?¡ABCDEFGHIJKLMNOPQRSTUVWXYZÄÖÑÜ§¿abcdefghijklmnopqrstuvwxyzäöñüà€"

unfoldable pub in_gsm7 : ℕ → Bool
in_gsm7 r = any (λ c. c == r) gsm7_runes

-- The loop over the runes stops at the first one that is not in the table.
unfoldable pub encoding_of : Text → Encoding
encoding_of [] = gsm7
encoding_of (r ∷ s) = if in_gsm7 r then encoding_of s else ucs2

abbrev pub segment_size : Encoding → ℕ
segment_size gsm7 = 160
segment_size ucs2 = 70

pub record Info : Type 0 where
  pub encoding : Encoding
  pub segments : ℕ

-- ceil(msgLen / segmentSize), and 1 for the empty message
unfoldable pub segment_count : ℕ → ℕ → ℕ
segment_count len size = let n = (len + size - 1) / size in if ltb n 1 then 1 else n

unfoldable pub segment_info : Text → Info
unfolding encoding_of segment_count
segment_info message =
    let e = encoding_of message in
    record { encoding = e; segments = segment_count (length message) (segment_size e) }

unfoldable pub segments_of : Text → ℕ
unfolding segment_info
segments_of body = (segment_info body).segments

encoding_of-gsm7 :
    (s : Text)
    → (encoding_of s ≡ gsm7) × All (λ r. in_gsm7 r ≡ true) s
      ⊎ ((encoding_of s ≡ ucs2) × (¬ All (λ r. in_gsm7 r ≡ true) s))
unfolding encoding_of
encoding_of-gsm7 [] = inl (refl, tt)
encoding_of-gsm7 (r ∷ s) = elim (Bool-cases (in_gsm7 r)) [
  | inl e ↦ elim (encoding_of-gsm7 s) [
    | inl h ↦ inl (rw e h.0, (e, h.1))
    | inr h ↦ inr (rw e h.0, λ a. h.1 a.1)
  ]
  | inr e ↦ inr (rw e, λ a. cc (a.0))
]

-- A positive number of segments, no more than are needed, that hold the message.
abbrev pub Holds : ℕ → ℕ → ℕ → Type 0
Holds len size n = (1 ≤ n) × (len ≤ n * size) × (n ≤ 1 ⊎ ((n - 1) * size < len))

segment_count-Holds :
    (len : ℕ) (e : Encoding) → Holds len (segment_size e) (segment_count len (segment_size e))
unfolding segment_count
segment_count-Holds len gsm7 = ground arith
segment_count-Holds len ucs2 = ground arith

-- SegmentInfo bills the least positive number of segments that hold the message: GSM7 with 160
-- characters a segment if every rune is in the table, and UCS2 with 70 otherwise.
pub segment_info-Holds :
    (message : Text)
    → (((segment_info message).encoding ≡ gsm7)
        × All (λ r. in_gsm7 r ≡ true) message
        × Holds (length message) 160 (segment_info message).segments)
      ⊎ (((segment_info message).encoding ≡ ucs2)
          × (¬ All (λ r. in_gsm7 r ≡ true) message)
          × Holds (length message) 70 (segment_info message).segments)
unfolding segment_info
segment_info-Holds message = elim (encoding_of-gsm7 message) [
  | inl h ↦ inl (h.0, h.1, rw h.0 (segment_count-Holds (length message) gsm7))
  | inr h ↦ inr (h.0, h.1, rw h.0 (segment_count-Holds (length message) ucs2))
]

-- A longer message of the same encoding never costs fewer segments.
pub segments_mono :
    (a b : Text)
    → (segment_info a).encoding ≡ (segment_info b).encoding
    → length a ≤ length b
    → (segment_info a).segments ≤ (segment_info b).segments
unfolding segment_info
segments_mono a b e h = rw e (by_encoding (encoding_of b))
  where
    by_encoding :
        (x : Encoding)
        → segment_count (length a) (segment_size x) ≤ segment_count (length b) (segment_size x)
    by_encoding gsm7 = unfold segment_count in ground arith
    by_encoding ucs2 = unfold segment_count in ground arith

euro_is_gsm7 : segment_info (codes "10€") ≡ record { encoding = gsm7; segments = 1 }
unfolding segment_info in_gsm7
euro_is_gsm7 = refl
