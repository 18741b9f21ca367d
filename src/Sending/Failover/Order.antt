-- ===== src/Sending/Failover/Order.antt =====
-- minisms/internal/sending/failover.go: laws of the order of the carriers.
use mathlib.Core.List.{Perm, perm_middle}
use mathlib.Core.List.Perm
use mini_sms.Prelude.{
  ℕ, zero, suc, ◌+◌, ◌<◌, ◌≡◌, refl, Bool, true, false, Option, none, some, List, [], ◌∷◌, ◌++◌,
  arith, append_assoc, append-nil, get_elem?, Bool-cases, inl, inr, if◌then◌else◌, ap, ◌∙◌,
}
use mini_sms.Text.{Text, Unicode, codes, text_eq, trim_space}
use mini_sms.Routing.Cache.{RouteEntry}
use mini_sms.Sending.Failover.{
  FailoverCarrier, WeightedCarrier, RouteRr, slot, slot_order, others, arrange, first_then,
  order_loadbalance, split_ready, order_overflow, by_mode, by_count, order_carriers, candidates,
}

others_all : (pick i : ℕ) (cs : List WeightedCarrier) → pick < i → others pick i cs ≡ slot_order cs
unfolding others slot_order
others_all pick i [] h = refl
others_all pick i (c ∷ cs) h = ground (arith, others_all pick (i + 1) cs)

first_then-swap :
    (o : Option FailoverCarrier) (x : FailoverCarrier) (l : List FailoverCarrier)
    → Perm (first_then o (x ∷ l)) (x ∷ first_then o l)
first_then-swap none x l = Perm.refl _
first_then-swap (some y) x l = Perm.swap _ _ _

abbrev at : List WeightedCarrier → ℕ → Option FailoverCarrier
at cs k = elim (get_elem? cs k) [ none ↦ none | some c ↦ some (slot c) ]

arrange_at :
    (pick k i : ℕ) (cs : List WeightedCarrier)
    → pick ≡ i + k
    → Perm (first_then (at cs k) (others pick i cs)) (slot_order cs)
unfolding slot_order
arrange_at pick k i [] e = unfold others in Perm.refl []
arrange_at pick zero i (c ∷ cs) e =
    let skipped : others pick i (c ∷ cs) ≡ slot_order cs =
      unfold others in ground (arith, others_all pick (i + 1) cs) in
    rw skipped (Perm.refl _)
arrange_at pick (suc k) i (c ∷ cs) e =
    let kept : others pick i (c ∷ cs) ≡ slot c ∷ others pick (i + 1) cs =
      unfold others in ground arith in
    rw kept (
      Perm.trans (first_then-swap (at cs k) (slot c) (others pick (i + 1) cs))
        (Perm.cons (slot c) (arrange_at pick k (i + 1) cs (omega arith))))

arrange-perm : (o : Option ℕ) (cs : List WeightedCarrier) → Perm (arrange o cs) (slot_order cs)
unfolding arrange
arrange-perm none cs = Perm.refl _
arrange-perm (some k) cs = arrange_at k k 0 cs (omega arith)

-- The slots whose carrier has the given readiness, in slot order.
pub slots_where : (Text → Bool) → Bool → List WeightedCarrier → List FailoverCarrier
slots_where is_ready b [] = []
slots_where is_ready true (c ∷ cs) =
    if is_ready c.id then slot c ∷ slots_where is_ready true cs else slots_where is_ready true cs
slots_where is_ready false (c ∷ cs) =
    if is_ready c.id then slots_where is_ready false cs else slot c ∷ slots_where is_ready false cs

split_ready-slots :
    (is_ready : Text → Bool) (cs : List WeightedCarrier) (ready down : List FailoverCarrier)
    → split_ready is_ready cs ready down
      ≡ (ready ++ slots_where is_ready true cs) ++ (down ++ slots_where is_ready false cs)
unfolding split_ready slots_where
split_ready-slots is_ready [] ready down = rw (append-nil ready, append-nil down)
split_ready-slots is_ready (c ∷ cs) ready down = elim (Bool-cases (is_ready c.id)) [
  | inl e ↦ rw e (
      split_ready-slots is_ready cs (ready ++ slot c ∷ []) down
      ∙ ap (λ l. l ++ (down ++ slots_where is_ready false cs))
          (append_assoc ready (slot c ∷ []) (slots_where is_ready true cs)))
  | inr e ↦ rw e (
      split_ready-slots is_ready cs ready (down ++ slot c ∷ [])
      ∙ ap (λ l. (ready ++ slots_where is_ready true cs) ++ l)
          (append_assoc down (slot c ∷ []) (slots_where is_ready false cs)))
]

slots_where-perm :
    (is_ready : Text → Bool) (cs : List WeightedCarrier)
    → Perm (slots_where is_ready true cs ++ slots_where is_ready false cs) (slot_order cs)
unfolding slots_where slot_order
slots_where-perm is_ready [] = Perm.refl []
slots_where-perm is_ready (c ∷ cs) = elim (Bool-cases (is_ready c.id)) [
  | inl e ↦ rw e (Perm.cons (slot c) (slots_where-perm is_ready cs))
  | inr e ↦ rw e (
      Perm.trans (perm_middle (slots_where is_ready true cs) (slots_where is_ready false cs))
        (Perm.cons (slot c) (slots_where-perm is_ready cs)))
]

-- Overflow tries the carriers that are ready before those that are not, each in slot order.
pub order_overflow-slots :
    (is_ready : Text → Bool) (cs : List WeightedCarrier)
    → order_overflow is_ready cs ≡ slots_where is_ready true cs ++ slots_where is_ready false cs
unfolding order_overflow
order_overflow-slots is_ready cs = split_ready-slots is_ready cs [] []

by_mode-perm :
    (u : Unicode) (is_ready : Text → Bool) (rr : Option RouteRr) (route : RouteEntry)
    (cs : List WeightedCarrier)
    → Perm (by_mode u is_ready rr route cs).0 (slot_order cs)
unfolding by_mode
by_mode-perm u is_ready rr route cs =
    by_test (text_eq (mode) (codes "loadbalance")) (text_eq (mode) (codes "overflow"))
  where
    mode : Text
    mode = u.to_lower (trim_space route.distribution_mode)

    by_test :
        (a b : Bool)
        → Perm
            (if a
              then order_loadbalance rr route.route_entry_id cs
              else if b
              then (order_overflow is_ready cs, rr)
              else (slot_order cs, rr)).0
            (slot_order cs)
    by_test true b = unfold order_loadbalance in arrange-perm _ cs
    by_test false true = rw order_overflow-slots (slots_where-perm is_ready cs)
    by_test false false = Perm.refl _

by_count-perm :
    (u : Unicode) (is_ready : Text → Bool) (rr : Option RouteRr) (route : RouteEntry)
    (cs : List WeightedCarrier)
    → Perm (by_count u is_ready rr route cs).0 (slot_order cs)
unfolding by_count
by_count-perm u is_ready rr route (c ∷ d ∷ cs) = by_mode-perm u is_ready rr route (c ∷ d ∷ cs)
by_count-perm u is_ready rr route cs = Perm.refl _

-- With failover on, whatever the distribution mode, the weights, the counters and the readiness of the
-- carriers, the carriers to try are exactly the configured slots of the route, each once.
pub order_carriers-perm :
    (u : Unicode) (is_ready : Text → Bool) (rr : Option RouteRr) (route : RouteEntry)
    → Perm (order_carriers u is_ready rr route true).0 (slot_order (candidates route))
unfolding order_carriers
order_carriers-perm u is_ready rr route = by_count-perm u is_ready rr route (candidates route)
