-- ===== src/Client/Dedup/Race.antt =====
-- Two servers and one route: what the user's handler of src/client.rs has installed after calls that
-- overtake each other.
use rustbond.Prelude.{
  ℕ, ◌≡◌, ◌≢◌, refl, ap, ◌∙◌, true, false, List, [], ◌∷◌, arith, ◌==◌, ==-true, some, ℕ_discrete,
}
use rustbond.Collections.Set
use rustbond.Route.{RouteKey}
use rustbond.Handler.{Call, add_route, remove_route, installed}
use rustbond.Client.Tracker.{ServerId}
use rustbond.Client.Tracker.Servers.{
  IsTracker, servers_of, servers_of-add, first-servers_of, servers_of-remove, last-servers_of,
}
use rustbond.Client.Dedup.{
  Shared, announced, withdrawn, Step, tracks, calls, Running, take_first, track, step, run,
  handle_add, handle_remove,
}
use rustbond.Client.Dedup.Calls.{tracked}

module _ {N : Type 0} (net : Discrete N) where
  -- The only server of a route withdraws it.
  last_withdrawn :
      (st : Shared N) (a : ServerId) (q : RouteKey N)
      → IsTracker net st.origins
      → servers_of net st.origins q ≡ a ∷ []
      → (track net st (withdrawn a q)).1 ≡ remove_route q ∷ []
  unfolding track handle_remove Set.remove
  last_withdrawn st a q i only = ground (arith, only, last-servers_of net st.origins q a i)

  withdrawn_servers :
      (st : Shared N) (a : ServerId) (q : RouteKey N)
      → servers_of net st.origins q ≡ a ∷ []
      → servers_of net (track net st (withdrawn a q)).0.origins q ≡ []
  unfolding track handle_remove Set.remove
  withdrawn_servers st a q only = ground (arith, only, servers_of-remove net st.origins q q a)

  -- A server announces a route that no server announces.
  first_announced :
      (st : Shared N) (b : ServerId) (q : RouteKey N)
      → servers_of net st.origins q ≡ []
      → (track net st (announced b q)).1 ≡ add_route q ∷ []
  unfolding track handle_add
  first_announced st b q nobody = ground (arith, nobody, first-servers_of net st.origins q b)

  announced_tracked :
      (st : Shared N) (b : ServerId) (q : RouteKey N)
      → tracked net q (track net st (announced b q)).0 ≡ true
  unfolding track handle_add tracked
  announced_tracked st b q = ground (
    arith,
    servers_of-add net st.origins q q b,
    Set.is_empty-insert ℕ_discrete b (servers_of net st.origins q),
  )

  -- The tracker's part of both.
  both_tracked : Running N → ServerId → ServerId → RouteKey N → Running N
  both_tracked r a b q = record {
    shared = (track net (track net r.shared (withdrawn a q)).0 (announced b q)).0;
    pending = (a, remove_route q) ∷ (b, add_route q) ∷ [];
    seen = announced b q ∷ withdrawn a q ∷ r.seen;
  }

  step-both :
      (r : Running N) (a b : ServerId) (q : RouteKey N)
      → IsTracker net r.shared.origins
      → servers_of net r.shared.origins q ≡ a ∷ []
      → r.pending ≡ []
      → a ≢ b
      → step net (step net r (tracks a (withdrawn a q))) (tracks b (announced b q))
        ≡ both_tracked r a b q
  unfolding step both_tracked
  step-both r a b q i only quiet differ =
      let different : (a == b) ≡ false = ground (arith, differ) in
      let removes = last_withdrawn r.shared a q i only in
      let adds =
        first_announced (track net r.shared (withdrawn a q)).0 b q
          (withdrawn_servers r.shared a q only) in
      rw (quiet, removes, different, adds)

  -- A call was made, and these are left.
  abbrev called : Running N → Call N → List (ℕ × Call N) → Running N
  called r c rest = record r {
    shared = record r.shared { calls = c ∷ r.shared.calls };
    pending = rest;
  }

  step-called :
      (r : Running N) (t : ℕ) (c : Call N) (rest : List (ℕ × Call N))
      → take_first t r.pending ≡ some (c, rest)
      → step net r (calls t) ≡ called r c rest
  unfolding step
  step-called r t c rest taken = rw (step, taken) refl

  take_first-own :
      (t : ℕ) (c : Call N) (rest : List (ℕ × Call N))
      → take_first t ((t, c) ∷ rest) ≡ some (c, rest)
  unfolding take_first
  take_first-own t c rest = rw (take_first, ==-true t) refl

  take_first-other :
      (t u : ℕ) (c d : Call N) → u ≢ t → take_first t ((u, d) ∷ (t, c) ∷ []) ≡ some (c, (u, d) ∷ [])
  unfolding take_first
  take_first-other t u c d differ =
      let different : (u == t) ≡ false = ground (arith, differ) in
      rw (take_first, different, ==-true t) refl

  -- Both calls are made, that of the second task first; and that of the first task first.
  calls-late :
      (r : Running N) (a b : ServerId) (q : RouteKey N)
      → a ≢ b
      → let both = both_tracked r a b q in
        let removal : List (ℕ × Call N) = (a, remove_route q) ∷ [] in
        step net (step net both (calls b)) (calls a)
        ≡ called (called both (add_route q) removal) (remove_route q) []
  unfolding both_tracked
  calls-late r a b q differ =
      let both = both_tracked r a b q in
      let removal : List (ℕ × Call N) = (a, remove_route q) ∷ [] in
      let next = called both (add_route q) removal in
      ap (λ x. step net x (calls a))
        (step-called both b (add_route q) removal
          (take_first-other b a (add_route q) (remove_route q) differ))
      ∙ step-called next a (remove_route q) [] (take_first-own a (remove_route q) [])

  calls-in_order :
      (r : Running N) (a b : ServerId) (q : RouteKey N)
      → let both = both_tracked r a b q in
        let addition : List (ℕ × Call N) = (b, add_route q) ∷ [] in
        step net (step net both (calls a)) (calls b)
        ≡ called (called both (remove_route q) addition) (add_route q) []
  unfolding both_tracked
  calls-in_order r a b q =
      let both = both_tracked r a b q in
      let addition : List (ℕ × Call N) = (b, add_route q) ∷ [] in
      let next = called both (remove_route q) addition in
      ap (λ x. step net x (calls b))
        (step-called both a (remove_route q) addition (take_first-own a (remove_route q) addition))
      ∙ step-called next b (add_route q) [] (take_first-own b (add_route q) [])

  -- If the tracker is well formed and no calls are still to be made, one server alone announces a
  -- route and withdraws it, and a second server announces it before the first one's task has
  -- called the user's handler, then the tracker holds the route; it is installed if the handler is
  -- called in this order, and is not installed if the second task calls it first.
  pub overtaken_call :
      (r : Running N) (a b : ServerId) (q : RouteKey N)
      → IsTracker net r.shared.origins
      → servers_of net r.shared.origins q ≡ a ∷ []
      → r.pending ≡ []
      → a ≢ b
      → let updates =
          λ (last : List (Step N)). tracks a (withdrawn a q) ∷ tracks b (announced b q) ∷ last in
        let in_order = run net r (updates (calls a ∷ calls b ∷ [])) in
        let late = run net r (updates (calls b ∷ calls a ∷ [])) in
        ((tracked net q in_order.shared ≡ true) × (tracked net q late.shared ≡ true))
        × ((in_order.pending ≡ []) × (late.pending ≡ []))
        × (installed net q in_order.shared.calls ≡ true)
        × (installed net q late.shared.calls ≡ false)
  unfolding run installed tracked both_tracked
  overtaken_call r a b q i only quiet differ =
      let here = announced_tracked (track net r.shared (withdrawn a q)).0 b q in
      rw (step-both r a b q i only quiet differ, calls-late r a b q differ, calls-in_order r a b q)
        ((here, here), (refl, refl), ground arith, ground arith)
