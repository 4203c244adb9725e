-- ===== src/Client/Dedup/Seen.antt =====
-- The servers that the tracker of src/client.rs holds, against the updates that it has seen.
use rustbond.Prelude.{
  ◌≡◌, refl, ap, ◌∙◌, ite, Bool, true, false, List, [], ◌∷◌, inl, inr, arith, Bool-cases,
  Option-cases, ℕ_discrete,
}
use rustbond.Collections.Set.{contains, contains-insert, contains-remove}
use rustbond.Collections.Map.{get}
use rustbond.Route.{RouteKey, RouteKey-discrete}
use rustbond.Client.Tracker.{ServerId}
use rustbond.Client.Tracker.Servers.{IsTracker, servers_of, servers_of-add, servers_of-remove}
use rustbond.Client.Tracker.Retain.{remove_server_lem}
use rustbond.Client.Dedup.{
  Shared, Event, announced, withdrawn, dropped, Step, tracks, calls, Running, at_start, is_busy,
  take_first, track, step, run, handle_add, handle_remove, remove_server_routes,
}
use rustbond.Client.Dedup.Interleaved.{IsBalanced, step-IsBalanced, at_start-IsBalanced}

module _ {N : Type 0} (net : Discrete N) where
  -- Does the server announce the route after these events, the latest first? Read off the updates
  -- alone.
  unfoldable pub announces : ServerId → RouteKey N → List (Event N) → Bool
  announces s q [] = false
  announces s q (announced s' k ∷ es) =
      let before = announces s q es in
      ite (ℕ_discrete s' s) (ite (RouteKey-discrete net k q) true before) before
  announces s q (withdrawn s' k ∷ es) =
      let before = announces s q es in
      ite (ℕ_discrete s' s) (ite (RouteKey-discrete net k q) false before) before
  announces s q (dropped s' ∷ es) =
      let before = announces s q es in ite (ℕ_discrete s' s) false before

  servers-track :
      (st : Shared N) (e : Event N) (es : List (Event N)) (s : ServerId) (q : RouteKey N)
      → IsTracker net st.origins
      → contains ℕ_discrete s (servers_of net st.origins q) ≡ announces s q es
      → contains ℕ_discrete s (servers_of net (track net st e).0.origins q) ≡ announces s q (e ∷ es)
  unfolding track announces handle_add handle_remove remove_server_routes
  servers-track st (announced s' k) es s q i h = ground (
    arith,
    h,
    servers_of-add net st.origins k q s',
    contains-insert ℕ_discrete s' s (servers_of net st.origins k),
  )
  servers-track st (withdrawn s' k) es s q i h = ground (
    arith,
    h,
    servers_of-remove net st.origins k q s',
    contains-remove ℕ_discrete s' s (servers_of net st.origins k),
  )
  servers-track st (dropped s') es s q i h = rw ((remove_server_lem net s' st.origins i).0 q) (
      contains-remove ℕ_discrete s' s (servers_of net st.origins q)
      ∙ ap (λ b. ite (ℕ_discrete s' s) false b) h)

  -- The tracker holds the servers that announce the route by the events that it has seen.
  abbrev HasSeen : Running N → Type 0
  HasSeen r =
      (s : ServerId) (q : RouteKey N)
      → contains ℕ_discrete s (servers_of net r.shared.origins q) ≡ announces s q r.seen

  step-HasSeen :
      (r : Running N) (s : Step N) → IsBalanced net r → HasSeen r → HasSeen (step net r s)
  unfolding step
  step-HasSeen r (tracks t e) i h = elim (Bool-cases (is_busy t r.pending)) [
    | inl busy ↦ rw (step, busy) h
    | inr free ↦ rw (step, free) λ s q. servers-track r.shared e r.seen s q i.tracker (h s q)
  ]
  step-HasSeen r (calls t) i h = elim (Option-cases (take_first t r.pending)) [
    | inl none_left ↦ rw (step, none_left) h
    | inr (next, taken) ↦ rw (step, taken) h
  ]

  run-HasSeen :
      (r : Running N) (ss : List (Step N)) → IsBalanced net r → HasSeen r → HasSeen (run net r ss)
  unfolding run
  run-HasSeen r [] i h = h
  run-HasSeen r (s ∷ ss) i h =
      run-HasSeen (step net r s) ss (step-IsBalanced net r s i) (step-HasSeen r s i h)

  pub run-at_start-HasSeen :
      (ss : List (Step N)) (s : ServerId) (q : RouteKey N)
      → let r = run net at_start ss in
        contains ℕ_discrete s (servers_of net r.shared.origins q) ≡ announces s q r.seen
  unfolding servers_of get contains announces
  run-at_start-HasSeen ss = run-HasSeen at_start ss (at_start-IsBalanced net) λ s q. refl
