-- ===== src/Routing/Lookup.antt =====
-- minisms/internal/sending/route.go: the route of a message, from the cache or from the database. Ids
-- are texts in canonical form, so that equality of uuids is that of texts; a query either gives all of
-- its rows or fails.
use mini_sms.Prelude.{
  ℕ, ◌≡◌, refl, Bool, true, false, ◌&&◌, Option, none, some, List, [], ◌∷◌, ◌++◌, arith,
  if◌then◌else◌, ◌∙◌, sym, ap, append-nil, append_assoc,
}
use mini_sms.Result.{Result, ok, err}
use mini_sms.Text.{Text, text_eq, is_empty}
use mini_sms.Text.Laws.{text_eq_iff}
use mini_sms.Matching.{normalize, longest, scan}
use mini_sms.Matching.Laws.{Answers, longest-Answers}
use mini_sms.Carrier.NumRules.{Lib}
use mini_sms.Routing.Cache
use mini_sms.Routing.Cache.{
  RouteEntry, RouteRow, Source, prefix_of, active_row, active_rows, group_rows, load_routes, put,
  reload, lookup_route,
}

pub data RouteError : Type 0 where
  no_rows query_failed : RouteError

-- WHERE routing_group_id = $1 AND status='active', and the loop that collects the rows
unfoldable pub select_routes : Text → List RouteRow → List RouteEntry
select_routes group [] = []
select_routes group (r ∷ rows) =
    if text_eq r.routing_group_id group && active_row r
    then r.entry ∷ select_routes group rows
    else select_routes group rows

unfoldable pub longest_prefix_route : List RouteEntry → Text → Option RouteEntry
longest_prefix_route entries destination = longest prefix_of (normalize destination) entries

abbrev or_no_rows : Option RouteEntry → Result RouteError RouteEntry
or_no_rows none = err no_rows
or_no_rows (some e) = ok e

-- lookupRouteEntryDB; `table` is none if the query fails
unfoldable pub lookup_route_entry_db :
    Option (List RouteRow) → Option Text → Text → Result RouteError RouteEntry
unfolding select_routes longest_prefix_route
lookup_route_entry_db table none to = err no_rows
lookup_route_entry_db none (some g) to = if is_empty g then err no_rows else err query_failed
lookup_route_entry_db (some rows) (some g) to =
    if is_empty g then err no_rows else or_no_rows (longest_prefix_route (select_routes g rows) to)

module _ (lib : Lib) (Template Header : Type 0) where
  -- lookupRouteEntry; the first argument is s.Routes
  unfoldable pub lookup_route_entry :
      Option (Cache.Cache lib Template Header)
      → Option (List RouteRow)
      → Option Text
      → Text
      → Result RouteError RouteEntry
  unfolding lookup_route lookup_route_entry_db
  lookup_route_entry cache table none to = err no_rows
  lookup_route_entry none table (some g) to =
      if is_empty g then err no_rows else lookup_route_entry_db table (some g) to
  lookup_route_entry (some c) table (some g) to =
      if is_empty g then err no_rows else or_no_rows (lookup_route lib Template Header c g to)

put-append :
    (out : Text → List RouteEntry) (k g : Text) (x : RouteEntry) (rest : List RouteEntry)
    → text_eq k g ≡ true
    → put out k (out k ++ x ∷ []) g ++ rest ≡ out g ++ x ∷ rest
unfolding put
put-append out k g x rest e = rw e (
    ap (λ j. (out j ++ x ∷ []) ++ rest) ((text_eq_iff k g).0 e)
    ∙ append_assoc (out g) (x ∷ []) rest)

group_rows-select :
    (g : Text) (table : List RouteRow) (out : Text → List RouteEntry)
    → group_rows (active_rows table) out g ≡ out g ++ select_routes g table
unfolding group_rows active_rows select_routes put
group_rows-select g [] out = sym (append-nil (out g))
group_rows-select g (r ∷ table) out =
    by_test (active_row r) (text_eq r.routing_group_id g) refl refl (group_rows-select g table)
  where
    out' : Text → List RouteEntry
    out' = put out r.routing_group_id (out r.routing_group_id ++ r.entry ∷ [])

    by_test :
        (a e : Bool)
        → active_row r ≡ a
        → text_eq r.routing_group_id g ≡ e
        → ((o : Text → List RouteEntry)
            → group_rows (active_rows table) o g ≡ o g ++ select_routes g table)
        → group_rows (if a then r ∷ active_rows table else active_rows table) out g
          ≡ out g ++ (if e && a then r.entry ∷ select_routes g table else select_routes g table)
    by_test true true a e ih = ih out' ∙ put-append out r.routing_group_id g r.entry _ e
    by_test true false a e ih = ih out' ∙ (rw e)
    by_test false true a e ih = ih out
    by_test false false a e ih = ih out

load_routes-select :
    (g : Text) (table : List RouteRow) → load_routes table g ≡ select_routes g table
unfolding load_routes
load_routes-select g table = group_rows-select g table (λ g. [])

longest-guard :
    (entries : List RouteEntry) (dst : Text)
    → (elim entries [ [] ↦ none | e ∷ es ↦ longest prefix_of dst (e ∷ es) ])
      ≡ longest prefix_of dst entries
unfolding longest scan
longest-guard [] dst = refl
longest-guard (e ∷ es) dst = refl

module _ (lib : Lib) (Template Header : Type 0) where
  reload-routes :
      (lower : Text → Text) (c : Cache.Cache lib Template Header) (src : Source lib Template Header)
      (table : List RouteRow)
      → src.route_rows ≡ some table
      → (reload lib Template Header lower c src).1 ≡ true
      → (reload lib Template Header lower c src).0.routes ≡ load_routes table
  unfolding reload
  reload-routes lower c src table rows loaded = ground arith

  -- A route looked up in a cache that was loaded from a table is the one that the database lookup finds
  -- in that table, error included, for every routing group and destination.
  pub cache-agrees :
      (lower : Text → Text) (c : Cache.Cache lib Template Header) (src : Source lib Template Header)
      (table : List RouteRow) (db : Option (List RouteRow)) (group : Option Text) (to : Text)
      → src.route_rows ≡ some table
      → (reload lib Template Header lower c src).1 ≡ true
      → lookup_route_entry lib Template Header
          (some (reload lib Template Header lower c src).0)
          db
          group
          to
        ≡ lookup_route_entry lib Template Header none (some table) group to
  unfolding lookup_route_entry lookup_route_entry_db
  cache-agrees lower c src table db none to rows loaded = refl
  cache-agrees lower c src table db (some []) to rows loaded = refl
  cache-agrees lower c src table db (some (x ∷ g)) to rows loaded =
      rw (reload-routes lower c src table rows loaded) (
        ap or_no_rows (
          longest-guard (load_routes table (x ∷ g)) (normalize to)
          ∙ ap (longest prefix_of (normalize to)) (load_routes-select (x ∷ g) table)))

  -- The lookup in the database answers with the longest match among the active entries of the group.
  pub lookup_route_entry_db-Answers :
      (table : List RouteRow) (c : ℕ) (g to : Text)
      → (o : Option RouteEntry) × (lookup_route_entry lib Template Header none
            (some table)
            (some (c ∷ g))
            to
          ≡ or_no_rows o)
        × Answers prefix_of (normalize to) (select_routes (c ∷ g) table) o
  unfolding lookup_route_entry
  lookup_route_entry_db-Answers table c g to =
      (longest prefix_of (normalize to) (select_routes (c ∷ g) table), refl, longest-Answers _ _ _)
