-- ===== src/Peer/Received.antt =====
-- `handle_message` of src/peer.rs: the routes that a server has sent, and the handler's calls.
use rustbond.Prelude.{List, [], ◌∷◌, if◌then◌else◌}
use rustbond.Types.Address.{Vni, Action, Destination, NextHop}
use rustbond.Types.Convert.{Done, ok}
use rustbond.Route.{RouteTable, add_next_hop, remove_next_hop}
use rustbond.Route
use rustbond.Handler.{Call, add_route, remove_route}
use rustbond.Wire.Message.{Message}

-- `received_routes` of the peer's task, with the calls of its handler.
pub record Received (N : Type 0) : Type 0 where
  pub received_routes : RouteTable N
  pub calls : List (Call N)

abbrev pub nothing_received : {N : Type 0} → Received N
nothing_received = record { received_routes = Route.new; calls = [] }

-- `Message::Update` in `handle_message`.
unfoldable pub apply_update :
    {N : Type 0} → Discrete N → Received N → Action → Vni → Destination N → NextHop → Received N
apply_update net r Action.add vni destination next_hop =
    let (routes', is_new) = add_next_hop net r.received_routes vni destination next_hop in
    record {
      received_routes = routes';
      calls = if is_new then add_route (vni, destination, next_hop) ∷ r.calls else r.calls;
    }
apply_update net r Action.remove vni destination next_hop =
    let (routes', removed, left) = remove_next_hop net r.received_routes vni destination next_hop in
    record {
      received_routes = routes';
      calls = if removed then remove_route (vni, destination, next_hop) ∷ r.calls else r.calls;
    }

unfoldable pub handle_message :
    {N : Type 0} → Discrete N → Received N → Message N → Received N × Done
unfolding apply_update
handle_message net r (Message.update action vni destination next_hop) =
    (apply_update net r action vni destination next_hop, ok tt)
handle_message net r _ = (r, ok tt)
