-- ===== src/Client/Wait.antt =====
-- The waiting functions of `MetalBondClient` in src/client.rs. They look at the states of the
-- peers, and wait for a change: what wakes them is given, one change after the other.
pub mod Outcome
use rustbond.Prelude.{
  ite, Bool, true, false, not, ◌&&◌, ◌||◌, List, [], ◌∷◌, Option, none, some, if◌then◌else◌,
}
use rustbond.Types.Address.{ConnectionState, ConnectionState-discrete, established, closed}
use rustbond.Types.Convert.{Error, Done, ok, err, timeout, connection_timeout}

-- What `select_all` returns with: whether the peer's sender is gone, the states that are looked at
-- then, and those at the next round of the loop.
pub record Wake : Type 0 where
  pub dropped : Bool
  pub seen : List ConnectionState
  pub next : List ConnectionState

-- `*rx.borrow() == ConnectionState::Closed` for all receivers, and for one.
abbrev pub is_closed : ConnectionState → Bool
is_closed s = ite (ConnectionState-discrete s closed) true false

unfoldable pub every_closed : List ConnectionState → Bool
every_closed [] = true
every_closed (s ∷ states) = is_closed s && every_closed states

unfoldable pub some_closed : List ConnectionState → Bool
some_closed [] = false
some_closed (s ∷ states) = is_closed s || some_closed states

-- The loop over the receivers in `wait_any_established`: `any_established` and `all_closed`.
unfoldable pub look_any : List ConnectionState → Bool × Bool
look_any [] = (false, true)
look_any (s ∷ states) =
    let (any_established, all_closed) = look_any states in
    elim s [
      | ConnectionState.established ↦ (true, false)
      | ConnectionState.closed ↦ (any_established, all_closed)
      | _ ↦ (any_established, false)
    ]

-- The loop over the receivers in `wait_all_established`: `all_established` and `any_closed`.
unfoldable pub look_all : List ConnectionState → Bool × Bool
look_all [] = (true, false)
look_all (s ∷ states) =
    let (all_established, any_closed) = look_all states in
    elim s [
      | ConnectionState.established ↦ (all_established, any_closed)
      | ConnectionState.closed ↦ (all_established, true)
      | _ ↦ (false, any_closed)
    ]

-- The two tests after the loop; the rest is what comes of waiting.
abbrev pub return_any : Bool × Bool → Option Done → Option Done
return_any (any_established, all_closed) rest =
    if any_established then some (ok tt) else if all_closed then some (err Error.closed) else rest

abbrev pub return_all : Bool × Bool → Option Done → Option Done
return_all (all_established, any_closed) rest =
    if all_established && not any_closed
    then some (ok tt)
    else if any_closed
    then some (err Error.closed)
    else rest

-- The outcome, or none while it waits.
unfoldable pub wait_any_established : List ConnectionState → List Wake → Option Done
unfolding look_any every_closed
wait_any_established states [] = return_any (look_any states) none
wait_any_established states (wake ∷ wakes) =
    let later = wait_any_established wake.next wakes in
    return_any (look_any states)
      (if wake.dropped && every_closed wake.seen then some (err Error.closed) else later)

unfoldable pub wait_all_established : List ConnectionState → List Wake → Option Done
unfolding look_all some_closed
wait_all_established states [] = return_all (look_all states) none
wait_all_established states (wake ∷ wakes) =
    let later = wait_all_established wake.next wakes in
    return_all (look_all states)
      (if wake.dropped && some_closed wake.seen then some (err Error.closed) else later)

-- `tokio::time::timeout`, with the changes until the deadline.
abbrev pub within : Error → Option Done → Done
within e none = err e
within e (some outcome) = outcome

unfoldable pub wait_established : List ConnectionState → List Wake → Option Done
wait_established = wait_any_established

unfoldable pub wait_established_timeout : List ConnectionState → List Wake → Done
unfolding wait_established
wait_established_timeout states wakes = within timeout (wait_established states wakes)

unfoldable pub wait_any_established_timeout : List ConnectionState → List Wake → Done
wait_any_established_timeout states wakes =
    within connection_timeout (wait_any_established states wakes)

unfoldable pub wait_all_established_timeout : List ConnectionState → List Wake → Done
wait_all_established_timeout states wakes =
    within connection_timeout (wait_all_established states wakes)
