-- ===== src/Server/Sessions.antt =====
-- All connections of the server of src/server.rs, with the state that they share: the tasks of
-- `MetalBondServer::start`, by what happens to each, in any order.
use rustbond.Prelude.{
  ℕ, Bool, true, false, List, [], ◌∷◌, Option, none, some, length, if◌then◌else◌,
}
use rustbond.Collections.Map.{Map, get, insert}
use rustbond.Types.Address.{IpNetLib}
use rustbond.Types.Proto.{Prost}
use rustbond.Wire.Message.{Message}
use rustbond.Server.Channel.{Mpsc}
use rustbond.Server.Peers.{SocketAddr, SocketAddr-discrete}
use rustbond.Server.Actor.{new, stats}
use rustbond.Server.Events.{receive}
use rustbond.Server.Session.{
  ServerConfig, ServerState, Session, SessionEvent, Phase, running, ended, accepted, step,
}

pub record MetalBondServer (N S : Type 0) : Type 0 where
  pub state : ServerState N S
  pub sessions : Map SocketAddr (Session N)

-- `start`: no routes and no peers yet.
abbrev pub start : {N S : Type 0} → ServerConfig → MetalBondServer N S
start config = record {
  state = record { config = config; routing = new; peers = [] };
  sessions = [];
}

-- A connection is accepted, something happens to one, or a peer's channel is emptied or closed.
pub data ServerEvent (N S : Type 0) : Type 0 where
  accepts : SocketAddr → ServerEvent N S
  happens : SocketAddr → SessionEvent N → ServerEvent N S
  channel_changes : SocketAddr → S → ServerEvent N S

-- Is `handle_peer` in its main loop, or has it not returned yet?
abbrev pub is_running : Phase → Bool
is_running (running buf) = true
is_running _ = false

abbrev pub is_live : {N : Type 0} → Option (Session N) → Bool
is_live none = false
is_live (some s) = elim s.phase [ ended result ↦ false | _ ↦ true ]

abbrev pub is_served : {N : Type 0} → Option (Session N) → Bool
is_served none = false
is_served (some s) = is_running s.phase

-- `peer_count` and `route_stats`
unfoldable pub peer_count : {N S : Type 0} → MetalBondServer N S → ℕ
peer_count s = length s.state.peers

module _ (lib : IpNetLib) (prost : Prost) (chan : Mpsc (Message (IpNetLib.IpNet lib))) where
  open lib use {IpNet}
  open chan use {Sender}

  -- The address of a connection that is open is not another's.
  unfoldable pub serve :
      MetalBondServer IpNet Sender → ServerEvent IpNet Sender → MetalBondServer IpNet Sender
  serve s (accepts addr) =
      if is_live (get SocketAddr-discrete addr s.sessions)
      then s
      else record s { sessions = insert SocketAddr-discrete addr accepted s.sessions }
  serve s (happens addr e) = elim (get SocketAddr-discrete addr s.sessions) [
    | none ↦ s
    | some session ↦
        let (state', session') = step lib prost chan addr s.state session e in
        record { state = state'; sessions = insert SocketAddr-discrete addr session' s.sessions }
  ]
  serve s (channel_changes addr tx) = record s {
    state = record s.state { routing = receive s.state.routing addr tx };
  }

  unfoldable pub serve_all :
      MetalBondServer IpNet Sender → List (ServerEvent IpNet Sender) → MetalBondServer IpNet Sender
  serve_all s [] = s
  serve_all s (e ∷ es) = serve_all (serve s e) es

-- `ServerState::stats`: peers, routes and subscriptions.
unfoldable pub server_stats : {N S : Type 0} → ServerState N S → ℕ × ℕ × ℕ
server_stats st =
    let (routes, owners, peers, subscriptions) = stats st.routing in
    (length st.peers, routes, subscriptions)

-- `route_stats`: routes and owners.
unfoldable pub route_stats : {N S : Type 0} → MetalBondServer N S → ℕ × ℕ
route_stats s =
    let (routes, owners, peers, subscriptions) = stats s.state.routing in (routes, owners)
