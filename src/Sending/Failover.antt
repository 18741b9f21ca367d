-- ===== src/Sending/Failover.antt =====
-- minisms/internal/sending/failover.go: the order in which a message's carriers are tried.
pub mod Order
pub mod Fairness
use mini_sms.Prelude.{
  ℕ, zero, suc, ◌+◌, ◌-◌, ◌%◌, ◌^◌, Bool, true, false, not, ◌&&◌, ◌||◌, Option, none, some, List,
  [], ◌∷◌, ◌++◌, map, ltb, ◌==◌, if◌then◌else◌, get_elem?,
}
use mini_sms.Prelude.Int.{ℤ, pos_part, is_pos}
use mini_sms.Text.{Text, Unicode, codes, text_eq, is_empty, trim_space}
use mini_sms.Routing.Cache.{RouteEntry, CarrierProfile}

pub record FailoverCarrier : Type 0 where
  pub id : Text
  pub n : ℕ

pub record WeightedCarrier : Type 0 where
  pub id : Text
  pub n : ℕ
  pub w : ℤ

-- A uint64 counter for each route.
abbrev pub RouteRr : Type 0
RouteRr = Text → ℕ

-- (r *routeRR) next: r.c[key]++, and the new value
unfoldable pub next : RouteRr → Text → ℕ × RouteRr
next c key = let v = (c key + 1) % 2 ^ 64 in (v, λ j. if text_eq key j then v else c j)

abbrev pub slot : WeightedCarrier → FailoverCarrier
slot c = record { id = c.id; n = c.n }

unfoldable pub slot_order : List WeightedCarrier → List FailoverCarrier
slot_order [] = []
slot_order (c ∷ cs) = slot c ∷ slot_order cs

-- the sum of the positive weights
unfoldable pub total_weight : List WeightedCarrier → ℕ
total_weight [] = 0
total_weight (c ∷ cs) = (if is_pos c.w then pos_part c.w else 0) + total_weight cs

-- The loop that finds `pick`, from index i on; none is -1.
unfoldable pub find_pick : ℕ → ℕ → List WeightedCarrier → Option ℕ
find_pick i p [] = none
find_pick i p (c ∷ cs) =
    let skip = find_pick (i + 1) p cs in
    let later = find_pick (i + 1) (p - pos_part c.w) cs in
    if not (is_pos c.w) then skip else if ltb p (pos_part c.w) then some i else later

-- Every carrier but the one at index `pick`, from index i on.
unfoldable pub others : ℕ → ℕ → List WeightedCarrier → List FailoverCarrier
others pick i [] = []
others pick i (c ∷ cs) =
    let rest = others pick (i + 1) cs in if i == pick then rest else slot c ∷ rest

-- The choice of orderLoadbalance, with the counters after it.
unfoldable pub choose : Option RouteRr → Text → List WeightedCarrier → Option ℕ × Option RouteRr
unfolding total_weight find_pick next
choose none route cands = (none, none)
choose (some rr) route cands =
    if total_weight cands == 0
    then (none, some rr)
    else let (v, rr') = next rr route in (find_pick 0 (v % total_weight cands) cands, some rr')

abbrev first_then : Option FailoverCarrier → List FailoverCarrier → List FailoverCarrier
first_then none rest = rest
first_then (some c) rest = c ∷ rest

unfoldable pub arrange : Option ℕ → List WeightedCarrier → List FailoverCarrier
unfolding slot_order others
arrange none cands = slot_order cands
arrange (some pick) cands =
    first_then (elim (get_elem? cands pick) [ none ↦ none | some c ↦ some (slot c) ])
      (others pick 0 cands)

unfoldable pub order_loadbalance :
    Option RouteRr → Text → List WeightedCarrier → List FailoverCarrier × Option RouteRr
unfolding choose arrange
order_loadbalance rr route cands =
    let (pick, rr') = choose rr route cands in (arrange pick cands, rr')

-- The loop of orderOverflow over `ready` and `down`.
unfoldable pub split_ready :
    (Text → Bool)
    → List WeightedCarrier
    → List FailoverCarrier
    → List FailoverCarrier
    → List FailoverCarrier
split_ready is_ready [] ready down = ready ++ down
split_ready is_ready (c ∷ cs) ready down =
    let up = split_ready is_ready cs (ready ++ slot c ∷ []) down in
    let off = split_ready is_ready cs ready (down ++ slot c ∷ []) in
    if is_ready c.id then up else off

unfoldable pub order_overflow : (Text → Bool) → List WeightedCarrier → List FailoverCarrier
unfolding split_ready
order_overflow is_ready cands = split_ready is_ready cands [] []

abbrev slot_if : Option Text → ℕ → ℤ → List WeightedCarrier
slot_if none n w = []
slot_if (some c) n w = if is_empty c then [] else record { id = c; n = n; w = w } ∷ []

-- The configured slots of a route, in order.
unfoldable pub candidates : RouteEntry → List WeightedCarrier
candidates route =
    record { id = route.primary_carrier_id; n = 0; w = route.primary_weight }
    ∷ (slot_if route.failover1_carrier_id 1 route.failover1_weight
        ++ slot_if route.failover2_carrier_id 2 route.failover2_weight)

module _ (u : Unicode) where
  -- `profiles` is carrierProfile, and `egress` is s.Egress with its Ready
  unfoldable pub carrier_ready : (Text → Option CarrierProfile) → Option (Text → Bool) → Text → Bool
  carrier_ready profiles egress id = elim (profiles id) [
    | none ↦ false
    | some prof ↦
        if u.equal_fold (trim_space prof.egress_transport) (codes "smpp")
        then elim egress [ none ↦ false | some ready ↦ ready id ]
        else true
  ]

  -- The switch on the distribution mode, for two or more candidates.
  unfoldable pub by_mode :
      (Text → Bool)
      → Option RouteRr
      → RouteEntry
      → List WeightedCarrier
      → List FailoverCarrier × Option RouteRr
  unfolding order_loadbalance order_overflow slot_order
  by_mode is_ready rr route cands =
      let mode = u.to_lower (trim_space route.distribution_mode) in
      if text_eq mode (codes "loadbalance")
      then order_loadbalance rr route.route_entry_id cands
      else if text_eq mode (codes "overflow")
      then (order_overflow is_ready cands, rr)
      else (slot_order cands, rr)

  -- One candidate is taken as it is; there is always one, the primary.
  unfoldable pub by_count :
      (Text → Bool)
      → Option RouteRr
      → RouteEntry
      → List WeightedCarrier
      → List FailoverCarrier × Option RouteRr
  unfolding by_mode slot_order
  by_count is_ready rr route (c ∷ d ∷ cs) = by_mode is_ready rr route (c ∷ d ∷ cs)
  by_count is_ready rr route cands = (slot_order cands, rr)

  unfoldable pub order_carriers :
      (Text → Bool) → Option RouteRr → RouteEntry → Bool → List FailoverCarrier × Option RouteRr
  unfolding by_count candidates
  order_carriers is_ready rr route false =
      (record { id = route.primary_carrier_id; n = 0 } ∷ [], rr)
  order_carriers is_ready rr route true = by_count is_ready rr route (candidates route)
