-- ===== src/Handler.antt =====
-- The trait `RouteHandler` of src/lib.rs, by the calls that a handler receives: src/peer.rs and
-- src/client.rs make them. Calls are kept with the latest first.
use rustbond.Prelude.{◌≡◌, refl, ite, Bool, true, false, not, ◌&&◌, List, [], ◌∷◌, arith}
use rustbond.Collections.Set.{contains, Distinct}
use rustbond.Route.{RouteKey, RouteKey-discrete}

-- A call, by the route with its VNI.
pub data Call (N : Type 0) : Type 0 where
  add_route remove_route : RouteKey N → Call N

-- A loop over routes that calls `remove_route` for each.
unfoldable pub notify : {N : Type 0} → List (RouteKey N) → List (Call N) → List (Call N)
notify [] calls = calls
notify (k ∷ removed) calls = notify removed (remove_route k ∷ calls)

module _ {N : Type 0} (net : Discrete N) where
  -- Is the route installed, after these calls? Their latest is first.
  unfoldable pub installed : RouteKey N → List (Call N) → Bool
  installed q [] = false
  installed q (add_route k ∷ calls) = ite (RouteKey-discrete net k q) true (installed q calls)
  installed q (remove_route k ∷ calls) = ite (RouteKey-discrete net k q) false (installed q calls)

  -- Each call changes something: a route is added only while it is not installed, and removed
  -- only while it is.
  abbrev pub Alternates : List (Call N) → Type 0
  Alternates [] = Unit {0}
  Alternates (add_route k ∷ calls) = (installed k calls ≡ false) × Alternates calls
  Alternates (remove_route k ∷ calls) = (installed k calls ≡ true) × Alternates calls

  pub installed-notify :
      (q : RouteKey N) (removed : List (RouteKey N)) (calls : List (Call N))
      → installed q (notify removed calls)
        ≡ (not (contains (RouteKey-discrete net) q removed) && installed q calls)
  unfolding installed notify contains
  installed-notify q [] calls = refl
  installed-notify q (k ∷ removed) calls =
      ground (arith, installed-notify q removed (remove_route k ∷ calls))

  pub notify-Alternates :
      (removed : List (RouteKey N)) (calls : List (Call N))
      → Distinct (RouteKey-discrete net) removed
      → ((q : RouteKey N)
          → contains (RouteKey-discrete net) q removed ≡ true
          → installed q calls ≡ true)
      → Alternates calls
      → Alternates (notify removed calls)
  unfolding notify contains installed
  notify-Alternates [] calls d there a = a
  notify-Alternates (k ∷ removed) calls d there a =
      notify-Alternates removed (remove_route k ∷ calls) d.1 (λ q m. ground (arith, there q))
        (ground (arith, there k), a)
