-- ===== src/Route.antt =====
-- src/route.rs: routes and the route table, VNI -> destination -> set of next hops.
pub mod Hops
pub mod Clean
pub mod Count
pub mod Listing
pub mod History
use rustbond.Prelude.{
  ℕ, Bool, false, not, List, [], ◌∷◌, ◌++◌, map, none, some, length, is_empty, ℕ_discrete,
}
use rustbond.Collections.Set.{Set, contains}
use rustbond.Collections.Set
use rustbond.Collections.Map.{Map, keys, get, insert, remove, or_default}
use rustbond.Collections.Map.Weight.{total}
use rustbond.Collections.Map.WriteBack.{write_back}
use rustbond.Types.Address.{Vni, Destination, NextHop, Destination-discrete, NextHop-discrete}

pub record Route (N : Type 0) : Type 0 where
  pub destination : Destination N
  pub next_hop : NextHop

pub Route-discrete : {N : Type 0} → Discrete N → Discrete (Route N)
Route-discrete net = hlevel (Destination-discrete net, NextHop-discrete)

-- The key `(Vni, Destination, NextHop)` of the maps in src/client.rs and src/server.rs.
abbrev pub RouteKey : Type 0 → Type 0
RouteKey N = Vni × Destination N × NextHop

unfoldable pub RouteKey-discrete : {N : Type 0} → Discrete N → Discrete (RouteKey N)
RouteKey-discrete net = hlevel (ℕ_discrete, Destination-discrete net, NextHop-discrete)

abbrev pub VniRoutes : Type 0 → Type 0
VniRoutes N = Map (Destination N) (Set NextHop)

pub record RouteTable (N : Type 0) : Type 0 where
  pub routes : Map Vni (VniRoutes N)

-- `RouteTable::new`
abbrev pub new : {N : Type 0} → RouteTable N
new = record { routes = [] }

module _ {N : Type 0} where
  -- The loops `for hop in hops` and `for (dest, hops) in vni_routes` of the listing functions.
  unfoldable pub list_hops : Destination N → Set NextHop → List (Route N)
  list_hops dest [] = []
  list_hops dest (hop ∷ hops) = record { destination = dest; next_hop = hop } ∷ list_hops dest hops

  unfoldable pub list_vni : VniRoutes N → List (Route N)
  list_vni [] = []
  list_vni ((dest, hops) ∷ m) = list_hops dest hops ++ list_vni m

  -- The loop `for (&vni, vni_routes) in &self.routes` of `get_all_routes`.
  unfoldable pub list_all : Map Vni (VniRoutes N) → List (Vni × Route N)
  list_all [] = []
  list_all ((vni, vni_routes) ∷ m) = map (λ r. (vni, r)) (list_vni vni_routes) ++ list_all m

  unfoldable pub get_vnis : RouteTable N → List Vni
  get_vnis t = keys t.routes

  unfoldable pub get_all_routes : RouteTable N → List (Vni × Route N)
  get_all_routes t = list_all t.routes

  unfoldable pub clear : RouteTable N → RouteTable N
  clear t = record t { routes = [] }

  unfoldable pub len : RouteTable N → ℕ
  len t = total (total length) t.routes

  unfoldable pub table_is_empty : RouteTable N → Bool
  table_is_empty t = is_empty t.routes

  unfoldable pub get_destinations_by_vni : RouteTable N → Vni → Map (Destination N) (List NextHop)
  get_destinations_by_vni t vni = or_default [] (get ℕ_discrete vni t.routes)

  unfoldable pub get_routes_by_vni : RouteTable N → Vni → List (Route N)
  get_routes_by_vni t vni = elim (get ℕ_discrete vni t.routes) [
    | none ↦ []
    | some vni_routes ↦ list_vni vni_routes
  ]

  -- The table without the VNI, and the routes that it had there.
  unfoldable pub remove_vni : RouteTable N → Vni → RouteTable N × List (Route N)
  remove_vni t vni = elim (get ℕ_discrete vni t.routes) [
    | none ↦ (t, [])
    | some vni_routes ↦ (record t { routes = remove ℕ_discrete vni t.routes }, list_vni vni_routes)
  ]

module _ {N : Type 0} (net : Discrete N) where
  -- The table with the next hop, and whether it is new.
  unfoldable pub add_next_hop : RouteTable N → Vni → Destination N → NextHop → RouteTable N × Bool
  add_next_hop t vni destination next_hop =
      let vni_routes = or_default [] (get ℕ_discrete vni t.routes) in
      let next_hops = or_default [] (get (Destination-discrete net) destination vni_routes) in
      let next_hops' = Set.insert NextHop-discrete next_hop next_hops in
      let vni_routes' = insert (Destination-discrete net) destination next_hops' vni_routes in
      (
        record t { routes = insert ℕ_discrete vni vni_routes' t.routes },
        not (contains NextHop-discrete next_hop next_hops),
      )

  -- The body of the two `if let` of `remove_next_hop`: the writes and the clean-up of empty entries.
  unfoldable pub remove_hop :
      RouteTable N
      → Vni
      → Destination N
      → NextHop
      → VniRoutes N
      → Set NextHop
      → RouteTable N × Bool × ℕ
  remove_hop t vni destination next_hop vni_routes next_hops =
      let next_hops' = Set.remove NextHop-discrete next_hop next_hops in
      let vni_routes' = write_back (Destination-discrete net) destination next_hops' vni_routes in
      (
        record t { routes = write_back ℕ_discrete vni vni_routes' t.routes },
        contains NextHop-discrete next_hop next_hops,
        length next_hops',
      )

  -- The table without the next hop, whether it was there, and how many the destination has left.
  unfoldable pub remove_next_hop :
      RouteTable N → Vni → Destination N → NextHop → RouteTable N × Bool × ℕ
  unfolding remove_hop
  remove_next_hop t vni destination next_hop = elim (get ℕ_discrete vni t.routes) [
    | none ↦ (t, false, 0)
    | some vni_routes ↦ elim (get (Destination-discrete net) destination vni_routes) [
      | none ↦ (t, false, 0)
      | some next_hops ↦ remove_hop t vni destination next_hop vni_routes next_hops
    ]
  ]

  unfoldable pub next_hop_exists : RouteTable N → Vni → Destination N → NextHop → Bool
  next_hop_exists t vni destination next_hop = elim (get ℕ_discrete vni t.routes) [
    | none ↦ false
    | some vni_routes ↦ elim (get (Destination-discrete net) destination vni_routes) [
      | none ↦ false
      | some next_hops ↦ contains NextHop-discrete next_hop next_hops
    ]
  ]
