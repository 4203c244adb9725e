-- ===== src/Client/Connect/State.antt =====
-- `state` of src/client.rs, against the other methods that tell how many servers are connected.
use rustbond.Prelude.{
  ◌≤◌, ◌<◌, ◌≡◌, refl, ite, Bool, true, false, [], ◌∷◌, arith, length, ltb, ◌==◌, if◌then◌else◌,
}
use rustbond.Collections.Map.{Map}
use rustbond.Types.Address.{ConnectionState-discrete, established, closed}
use rustbond.Client.Tracker.{ServerId}
use rustbond.Client.Api.{
  Handle, Client, ClientState, disconnected, fully_connected, partially_connected, client_closed,
  count_states, client_state,
}
use rustbond.Client.Connect.{is_established, connected_count, server_count}

module _ {N : Type 0} where
  -- Are all peers established, and is one closed?
  abbrev pub every_established : Map ServerId (Handle N) → Bool
  every_established [] = true
  every_established ((s, peer) ∷ peers) =
      ite (ConnectionState-discrete peer.state established) (every_established peers) false

  abbrev pub any_closed : Map ServerId (Handle N) → Bool
  any_closed [] = false
  any_closed ((s, peer) ∷ peers) =
      ite (ConnectionState-discrete peer.state closed) true (any_closed peers)

  count_states_lem :
      (peers : Map ServerId (Handle N))
      → count_states peers ≡ (connected_count peers, any_closed peers)
  unfolding count_states connected_count
  count_states_lem [] = refl
  count_states_lem ((s, peer) ∷ peers) = ground (arith, count_states_lem peers)

  -- What `state` tells, by the counts and by the peers.
  pub record IsStateOf (peers : Map ServerId (Handle N)) (state : ClientState) : Type 0 where
    pub bounded : connected_count peers ≤ server_count peers
    pub everyone : (connected_count peers == server_count peers) ≡ every_established peers
    pub anyone : is_established peers ≡ ltb 0 (connected_count peers)
    pub none_connected :
        connected_count peers ≡ 0
        → state ≡ (if any_closed peers then client_closed else disconnected)
    pub all_connected :
        0 < connected_count peers → every_established peers ≡ true → state ≡ fully_connected
    pub some_connected :
        0 < connected_count peers
        → every_established peers ≡ false
        → state ≡ partially_connected (connected_count peers) (server_count peers)

  connected_count_lem :
      (peers : Map ServerId (Handle N))
      → (connected_count peers ≤ length peers)
        × ((connected_count peers == length peers) ≡ every_established peers)
        × (is_established peers ≡ ltb 0 (connected_count peers))
  unfolding connected_count is_established
  connected_count_lem [] = (omega arith, refl, refl)
  connected_count_lem ((s, peer) ∷ peers) = ground (arith, connected_count_lem peers)

  -- `state` agrees with `is_established`, `connected_count` and `server_count`, whatever the
  -- states of the peers are.
  pub client_state_lem : (c : Client N) → IsStateOf c.peers (client_state c)
  unfolding client_state server_count
  client_state_lem c =
      let (bound, all, any) = connected_count_lem c.peers in
      let count = count_states_lem c.peers in
      record {
        bounded = bound;
        everyone = all;
        anyone = any;
        none_connected = λ h. ground (arith, count, h);
        all_connected = λ h a. ground (arith, count, all, h, a);
        some_connected = λ h a. ground (arith, count, all, h, a);
      }
