-- ===== src/Tests/Routes.antt =====
-- Applications of the theorems on the route table of src/route.rs.
use rustbond.Prelude.{ℕ, ◌≡◌, false, List, [], ◌∷◌, ℕ_discrete}
use rustbond.Collections.Set.{Distinct, contains}
use rustbond.Route.{Route, RouteTable, get_all_routes, new, next_hop_exists}
use rustbond.Route.Clean.{IsClean}
use rustbond.Route.History.{
  Change, adds, changes, changes-members, changes-new-IsClean, members, removes,
}
use rustbond.Route.Listing.{Entry-discrete, get_all_routes-exists}
use rustbond.Tests.Data.{dest, hop}
use rustbond.Types.Address.{Vni}

abbrev cs : List (Change ℕ)
cs =
    adds 7 (dest 1) (hop 1)
    ∷ adds 7 (dest 1) (hop 2)
    ∷ adds 8 (dest 2) (hop 1)
    ∷ removes 7 (dest 1) (hop 1)
    ∷ []

-- Two routes, in two VNIs.
abbrev table : RouteTable ℕ
table = changes ℕ_discrete new cs

table-IsClean : IsClean ℕ_discrete table
table-IsClean = changes-new-IsClean ℕ_discrete cs

changes-members_example :
    next_hop_exists ℕ_discrete (changes ℕ_discrete new cs) 7 (dest 1) (hop 2)
    ≡ members ℕ_discrete 7 (dest 1) (hop 2) false cs
changes-members_example = changes-members ℕ_discrete cs 7 (dest 1) (hop 2)

get_all_routes-exists_example :
    Distinct (Entry-discrete ℕ_discrete) (get_all_routes table)
    × ((v : Vni) (r : Route ℕ)
        → contains (Entry-discrete ℕ_discrete) (v, r) (get_all_routes table)
          ≡ next_hop_exists ℕ_discrete table v r.destination r.next_hop)
get_all_routes-exists_example = get_all_routes-exists ℕ_discrete table table-IsClean
