-- ===== src/Client/Dedup/Installed.antt =====
-- What the user's handler of src/client.rs has installed.
use rustbond.Prelude.{◌≡◌, ◌↔◌, sym, ap, ◌∙◌, true, not, List, [], arith, ℕ_discrete}
use rustbond.Collections.Set.{contains, exists_contains, contains_nonempty}
use rustbond.Route.{RouteKey}
use rustbond.Handler.{installed}
use rustbond.Client.Tracker.{ServerId}
use rustbond.Client.Tracker.Servers.{servers_of}
use rustbond.Client.Dedup.{Step, Running, at_start, run}
use rustbond.Client.Dedup.Calls.{on, tracked, latest, installed-on}
use rustbond.Client.Dedup.Interleaved.{owed}
use rustbond.Client.Dedup.Seen.{announces, run-at_start-HasSeen}
use rustbond.Client.Dedup.Steady.{IsSteady, rests, owes, undisturbed, run-at_start-IsSteady}

module _ {N : Type 0} (net : Discrete N) where
  IsSteady-latest :
      (q : RouteKey N) (r : Running N)
      → IsSteady net q r
      → on net q (owed r.pending) ≡ []
      → latest (on net q r.shared.calls) ≡ tracked net q r.shared
  IsSteady-latest q r (rests p h) none_owed = h
  IsSteady-latest q r (owes p) none_owed = ground (arith, p, none_owed)

  -- The tracker holds a server for the route exactly if some server announces it.
  pub tracked-run :
      (ss : List (Step N)) (q : RouteKey N)
      → let r = run net at_start ss in
        (tracked net q r.shared ≡ true) ↔ ((s : ServerId) × (announces net s q r.seen ≡ true))
  unfolding tracked contains
  tracked-run ss q =
      let r = run net at_start ss in
      let servers = servers_of net r.shared.origins q in
      (
        λ here.
            let (s, m) = exists_contains ℕ_discrete servers (ground (arith, here)) in
            (s, sym (run-at_start-HasSeen net ss s q) ∙ m),
        λ (s, m).
            ap not (contains_nonempty ℕ_discrete s servers (run-at_start-HasSeen net ss s q ∙ m)),
      )

  -- If no step of the client's tasks asks for a call on a route while another call on it is still
  -- to be made, and none is left to be made at the end, then the user's handler has the route
  -- installed exactly if some server announces it, by the updates and the calls of
  -- `remove_server_routes` alone.
  pub installed-run :
      (q : RouteKey N) (ss : List (Step N))
      → undisturbed net q at_start ss ≡ true
      → on net q (owed (run net at_start ss).pending) ≡ []
      → let r = run net at_start ss in
        (installed net q r.shared.calls ≡ true)
        ↔ ((s : ServerId) × (announces net s q r.seen ≡ true))
  installed-run q ss calm none_owed =
      let r = run net at_start ss in
      let same =
        installed-on net q r.shared.calls
        ∙ IsSteady-latest q r (run-at_start-IsSteady net q ss calm) none_owed in
      let (there, back) = tracked-run ss q in (λ h. there (sym same ∙ h), λ h. same ∙ back h)
