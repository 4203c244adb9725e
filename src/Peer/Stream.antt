-- ===== src/Peer/Stream.antt =====
-- What a peer of src/peer.rs has received after a stream of messages from its server.
use rustbond.Prelude.{ℕ, ◌≡◌, refl, ap, ◌∙◌, Bool, false, not, ◌&&◌, ◌||◌, List, [], ◌∷◌, map, All}
use rustbond.Collections.Map.{get}
use rustbond.Types.Address.{IpNetLib, Action}
use rustbond.Types.Proto.{Prost}
use rustbond.Types.Convert.{ok}
use rustbond.Route.{RouteKey, next_hop_exists}
use rustbond.Route.History.{same, add_next_hop_lem, remove_next_hop_lem}
use rustbond.Wire.Message.{Message}
use rustbond.Wire.Codec.RoundTrip.{IsMessage, received}
use rustbond.Wire.Framing.{process_reads, handle_all}
use rustbond.Wire.Framing.Enough.{and_then-ok}
use rustbond.Wire.Framing.Chunks.{joined}
use rustbond.Wire.Framing.Chunks.Stream.{encode_all, process_reads-encode_all}
use rustbond.Peer.Received.{Received, nothing_received, apply_update, handle_message}
use rustbond.Peer.Sync.{has, InSync, nothing_received-InSync, handle_message-InSync}

module _ {N : Type 0} (net : Discrete N) where
  -- Is the route announced after a message, from whether it was before?
  unfoldable pub told : RouteKey N → Bool → Message N → Bool
  told q b (Message.update Action.add v d h) = same net v d h q.0 q.1 q.2 || b
  told q b (Message.update Action.remove v d h) = not (same net v d h q.0 q.1 q.2) && b
  told q b _ = b

  unfoldable pub told_all : RouteKey N → Bool → List (Message N) → Bool
  told_all q b [] = b
  told_all q b (msg ∷ msgs) = told_all q (told q b msg) msgs

  has-handle_message :
      (r : Received N) (msg : Message N) (q : RouteKey N)
      → InSync net r
      → has net (handle_message net r msg).0.received_routes q
        ≡ told q (has net r.received_routes q) msg
  unfolding handle_message apply_update told
  has-handle_message r (Message.update Action.add v d h) q i =
      (add_next_hop_lem net r.received_routes v d h).1 q.0 q.1 q.2
  has-handle_message r (Message.update Action.remove v d h) q i =
      (remove_next_hop_lem net r.received_routes v d h i.clean).2 q.0 q.1 q.2
  has-handle_message r _ q i = refl

  handle_message-ok : (r : Received N) (msg : Message N) → (handle_message net r msg).1 ≡ ok tt
  unfolding handle_message
  handle_message-ok r (Message.update a v d h) = refl
  handle_message-ok r _ = refl

module _ (lib : IpNetLib) (prost : Prost) where
  open lib use {IpNet, discrete}

  has-handle_all :
      (msgs : List (Message IpNet)) (r : Received IpNet) (q : RouteKey IpNet)
      → InSync discrete r
      → (has discrete (handle_all lib prost (handle_message discrete) msgs r).0.received_routes q
          ≡ told_all discrete q (has discrete r.received_routes q) msgs)
        × ((handle_all lib prost (handle_message discrete) msgs r).1 ≡ ok tt)
  unfolding handle_all told_all
  has-handle_all [] r q i = (refl, refl)
  has-handle_all (msg ∷ msgs) r q i =
      let next = (handle_message discrete r msg).0 in
      let (found, done) = has-handle_all msgs next q (handle_message-InSync discrete r msg i) in
      rw
        (and_then-ok (handle_message discrete r msg)
          (handle_all lib prost (handle_message discrete) msgs) (handle_message-ok discrete r msg))
        (found ∙ ap (λ b. told_all discrete q b msgs) (has-handle_message discrete r msg q i), done)

  -- However the network splits a server's messages, each within the ranges of its types, the peer
  -- that reads them has received exactly the routes whose latest update, as the peer sees it, was
  -- an ADD, where a target VNI of 0 is seen as none, and nothing is left in its buffer.
  pub process_reads-received :
      (msgs : List (Message IpNet)) (chunks : List (List ℕ)) (q : RouteKey IpNet)
      → All (IsMessage lib prost) msgs
      → encode_all lib prost msgs ≡ ok (joined chunks)
      → let after = process_reads lib prost (handle_message discrete) chunks [] nothing_received in
        (has discrete after.0.received_routes q
          ≡ told_all discrete q false (map (received lib prost) msgs))
        × (after.1 ≡ ok [])
  unfolding next_hop_exists get
  process_reads-received msgs chunks q i made =
      let seen = map (received lib prost) msgs in
      let (found, done) =
        has-handle_all seen nothing_received q (nothing_received-InSync discrete) in
      rw
        (process_reads-encode_all lib prost (handle_message discrete) msgs chunks nothing_received i
          made)
        (rw
          (and_then-ok (handle_all lib prost (handle_message discrete) seen nothing_received)
            (λ s. (s, ok [])) done)
          (found, refl))
