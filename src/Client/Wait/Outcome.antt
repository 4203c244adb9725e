-- ===== src/Client/Wait/Outcome.antt =====
-- What the waiting functions of src/client.rs return, and that they return.
use rustbond.Prelude.{
  ◌≡◌, refl, ite, Bool, true, false, not, ◌&&◌, ◌||◌, List, [], ◌∷◌, map, Option, some, arith, any,
}
use rustbond.Collections.Map.Size.{is_some}
use rustbond.Types.Address.{ConnectionState, ConnectionState-discrete, established}
use rustbond.Types.Convert.{Error, Done, ok, err}
use rustbond.Client.Wait.{
  Wake, every_closed, some_closed, look_any, look_all, wait_any_established, wait_all_established,
}

abbrev pub is_established : ConnectionState → Bool
is_established s = ite (ConnectionState-discrete s established) true false

abbrev pub every_established : List ConnectionState → Bool
every_established [] = true
every_established (s ∷ states) = is_established s && every_established states

-- The states at the start of each round.
abbrev pub rounds : List ConnectionState → List Wake → List (List ConnectionState)
rounds states wakes = states ∷ map (λ w. w.next) wakes

-- The states whenever they are looked at.
abbrev pub looks : List ConnectionState → List Wake → List (List ConnectionState)
looks states [] = states ∷ []
looks states (w ∷ wakes) = states ∷ w.seen ∷ looks w.next wakes

look_any_lem :
    (states : List ConnectionState)
    → look_any states ≡ (any is_established states, every_closed states)
unfolding look_any every_closed
look_any_lem [] = refl
look_any_lem (ConnectionState.connecting ∷ states) = ground (arith, look_any_lem states)
look_any_lem (ConnectionState.hello_sent ∷ states) = ground (arith, look_any_lem states)
look_any_lem (ConnectionState.hello_received ∷ states) = ground (arith, look_any_lem states)
look_any_lem (ConnectionState.established ∷ states) = ground (arith, look_any_lem states)
look_any_lem (ConnectionState.retry ∷ states) = ground (arith, look_any_lem states)
look_any_lem (ConnectionState.closed ∷ states) = ground (arith, look_any_lem states)

look_all_lem :
    (states : List ConnectionState)
    → ((look_all states).1 ≡ some_closed states)
      × (((look_all states).0 && not (look_all states).1) ≡ every_established states)
unfolding look_all some_closed
look_all_lem [] = (refl, refl)
look_all_lem (ConnectionState.connecting ∷ states) = ground (arith, look_all_lem states)
look_all_lem (ConnectionState.hello_sent ∷ states) = ground (arith, look_all_lem states)
look_all_lem (ConnectionState.hello_received ∷ states) = ground (arith, look_all_lem states)
look_all_lem (ConnectionState.established ∷ states) = ground (arith, look_all_lem states)
look_all_lem (ConnectionState.retry ∷ states) = ground (arith, look_all_lem states)
look_all_lem (ConnectionState.closed ∷ states) = ground (arith, look_all_lem states)

-- A wait that returns as soon as it can, for no other reason. It is given what makes it succeed and
-- what makes it fail.
pub record IsWait (succeeds fails : List ConnectionState → Bool) (states : List ConnectionState)
    (wakes : List Wake) (outcome : Option Done) : Type 0 where
  pub returns :
      any (λ s. succeeds s || fails s) (rounds states wakes) ≡ true → is_some outcome ≡ true
  pub success : outcome ≡ some (ok tt) → any succeeds (rounds states wakes) ≡ true
  pub failure :
      (e : Error)
      → outcome ≡ some (err e)
      → (e ≡ Error.closed) × (any fails (looks states wakes) ≡ true)

-- `wait_any_established` returns as soon as, at the start of a round, a peer is established or all
-- are closed. It succeeds only if some peer was established then, and fails, with `Closed`, only
-- if all peers were closed at some time.
pub wait_any_established_lem :
    (states : List ConnectionState) (wakes : List Wake)
    → IsWait (any is_established) every_closed states wakes (wait_any_established states wakes)
unfolding wait_any_established
wait_any_established_lem states [] = record {
  returns = λ h. ground (arith, look_any_lem states, h);
  success = λ h. ground (arith, look_any_lem states, h);
  failure = λ e h. ground (arith, look_any_lem states, h);
}
wait_any_established_lem states (wake ∷ wakes) =
    let i = wait_any_established_lem wake.next wakes in
    record {
      returns = λ h. ground (arith, look_any_lem states, i.returns, h);
      success = λ h. ground (arith, look_any_lem states, i.success, h);
      failure = λ e h. ground (arith, look_any_lem states, i.failure e, h);
    }

-- `wait_all_established` returns as soon as, at the start of a round, all peers are established or
-- one is closed. It succeeds only if all were established then, and fails, with `Closed`, only if
-- a peer was closed at some time.
pub wait_all_established_lem :
    (states : List ConnectionState) (wakes : List Wake)
    → IsWait every_established some_closed states wakes (wait_all_established states wakes)
unfolding wait_all_established
wait_all_established_lem states [] = record {
  returns = λ h. ground (arith, look_all_lem states, h);
  success = λ h. ground (arith, look_all_lem states, h);
  failure = λ e h. ground (arith, look_all_lem states, h);
}
wait_all_established_lem states (wake ∷ wakes) =
    let i = wait_all_established_lem wake.next wakes in
    record {
      returns = λ h. ground (arith, look_all_lem states, i.returns, h);
      success = λ h. ground (arith, look_all_lem states, i.success, h);
      failure = λ e h. ground (arith, look_all_lem states, i.failure e, h);
    }
