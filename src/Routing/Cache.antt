-- ===== src/Routing/Cache.antt =====
-- minisms/internal/routecache/cache.go: routing tables and carrier configuration kept in memory.
-- A Go map is a function: a key that is absent has the zero value or none. Request templates and
-- header rows are opaque to the cache.
use mini_sms.Prelude.{Bool, true, false, Option, none, some, List, [], ◌∷◌, ◌++◌, if◌then◌else◌}
use mini_sms.Prelude.Int.{ℤ}
use mini_sms.Result.{ok, err}
use mini_sms.Text.{Text, codes, text_eq, is_empty, trim_space}
use mini_sms.Matching.{normalize, longest}
use mini_sms.Carrier.NumRules
use mini_sms.Carrier.NumRules.{Lib, Compiled}

-- the same record in sending/route.go
pub record RouteEntry : Type 0 where
  pub route_entry_id : Text
  pub prefix : Text
  pub primary_carrier_id : Text
  pub failover1_carrier_id : Option Text
  pub failover2_carrier_id : Option Text
  pub distribution_mode : Text
  pub primary_weight : ℤ
  pub failover1_weight : ℤ
  pub failover2_weight : ℤ

abbrev pub prefix_of : RouteEntry → Text
prefix_of e = e.prefix

pub record CarrierProfile : Type 0 where
  pub carrier_id : Text
  pub name : Text
  pub status : Text
  pub egress_transport : Text
  pub endpoint_url : Text
  pub http_method : Text
  pub sender_id_policy : Text
  pub default_sender_id_value : Option Text
  pub rate_group_id : Option Text
  pub dlr_callback_url_template : Option Text
  pub smpp_source_addr_ton : Text
  pub smpp_source_addr_npi : Text
  pub smpp_dest_addr_ton : Text
  pub smpp_dest_addr_npi : Text

-- A row of table route_entries.
pub record RouteRow : Type 0 where
  pub routing_group_id : Text
  pub status : Text
  pub entry : RouteEntry

-- m[k] = v
unfoldable pub put {ℓ} : {V : Type ℓ} → (Text → V) → Text → V → Text → V
put m k v j = if text_eq k j then v else m j

-- WHERE status = 'active'
abbrev pub active_row : RouteRow → Bool
active_row r = text_eq r.status (codes "active")

unfoldable pub active_rows : List RouteRow → List RouteRow
active_rows [] = []
active_rows (r ∷ rows) = if active_row r then r ∷ active_rows rows else active_rows rows

-- The loop of loadRoutes: out[gid] = append(out[gid], e).
unfoldable pub group_rows : List RouteRow → (Text → List RouteEntry) → Text → List RouteEntry
unfolding put
group_rows [] out = out
group_rows (r ∷ rows) out =
    group_rows rows (put out r.routing_group_id (out r.routing_group_id ++ r.entry ∷ []))

unfoldable pub load_routes : List RouteRow → Text → List RouteEntry
unfolding active_rows group_rows
load_routes table = group_rows (active_rows table) (λ g. [])

-- loadCarriers normalises the transport: `lower` is strings.ToLower.
unfoldable pub load_profile : (Text → Text) → CarrierProfile → CarrierProfile
load_profile lower p =
    let t = lower (trim_space p.egress_transport) in
    record p { egress_transport = if text_eq t (codes "smpp") then codes "smpp" else codes "http" }

unfoldable pub load_carriers :
    (Text → Text)
    → List CarrierProfile
    → (Text → Option CarrierProfile)
    → Text
    → Option CarrierProfile
unfolding load_profile put
load_carriers lower [] out = out
load_carriers lower (p ∷ rows) out =
    load_carriers lower rows (put out p.carrier_id (some (load_profile lower p)))

module _ (lib : Lib) (Template Header : Type 0) where
  pub record Cache : Type 0 where
    pub has_secret_key : Bool
    pub routes : Text → List RouteEntry
    pub carriers : Text → Option CarrierProfile
    pub templates : Option (Text → Option Template)
    pub headers : Option (Text → List Header)
    pub num_rules : Option (Text → Option (Compiled lib))

  -- What the queries of one Reload return; none is an error.
  pub record Source : Type 0 where
    pub route_rows : Option (List RouteRow)
    pub carrier_rows : Option (List CarrierProfile)
    pub template_map : Option (Text → Option Template)
    pub header_map : Option (Text → List Header)
    pub rule_configs : Option (List (Text × NumRules.Config))

  -- numRules[id] is set if the configuration compiles
  unfoldable pub compile_all :
      List (Text × NumRules.Config) → (Text → Option (Compiled lib)) → Text → Option (Compiled lib)
  unfolding put
  compile_all [] out = out
  compile_all ((id, cfg) ∷ rest) out =
      compile_all rest (elim (NumRules.compile lib cfg) [ err x ↦ out | ok c ↦ put out id c ])

  unfoldable pub new : Cache
  new = record {
    has_secret_key = false;
    routes = λ g. [];
    carriers = λ c. none;
    templates = none;
    headers = none;
    num_rules = none;
  }

  abbrev install : (Text → Text) → Cache → Source → List RouteRow → List CarrierProfile → Cache
  install lower c src routes carriers = record c {
    routes = load_routes routes;
    carriers = load_carriers lower carriers (λ i. none);
    templates = src.template_map;
    headers = if c.has_secret_key then src.header_map else none;
    num_rules = elim src.rule_configs [
      | none ↦ none
      | some cfgs ↦ some (compile_all cfgs (λ i. none))
    ];
  }

  -- Reload; false is an error
  unfoldable pub reload : (Text → Text) → Cache → Source → Cache × Bool
  unfolding load_routes load_carriers compile_all
  reload lower c src = elim src.route_rows [
    | none ↦ (c, false)
    | some routes ↦ elim src.carrier_rows [
      | none ↦ (c, false)
      | some carriers ↦ (install lower c src routes carriers, true)
    ]
  ]

  -- LookupRoute
  unfoldable pub lookup_route : Cache → Text → Text → Option RouteEntry
  lookup_route c group destination = if is_empty group then none else elim (c.routes group) [
    | [] ↦ none
    | e ∷ es ↦ longest prefix_of (normalize destination) (e ∷ es)
  ]

  -- Template, AuthHeaders, NumberRules: none is a miss
  unfoldable pub template : Cache → Text → Option Template
  template c id = elim c.templates [ none ↦ none | some m ↦ m id ]

  unfoldable pub auth_headers : Cache → Text → Option (List Header)
  auth_headers c id = elim c.headers [ none ↦ none | some m ↦ some (m id) ]

  unfoldable pub number_rules : Cache → Text → Option (Option (Compiled lib))
  number_rules c id = elim c.num_rules [ none ↦ none | some m ↦ some (m id) ]
