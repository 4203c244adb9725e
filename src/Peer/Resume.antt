-- ===== src/Peer/Resume.antt =====
-- What a peer of src/peer.rs sends when its connection is established.
use mathlib.Core.List.{append_assoc, append-nil}
use rustbond.Prelude.{
  ℕ, suc, ◌+◌, ◌≡◌, refl, sym, ap, ◌∙◌, List, [], ◌∷◌, ◌++◌, map, arith, length, All,
}
use rustbond.Types.Address.{IpNetLib, Action, established}
use rustbond.Types.Proto.{Prost}
use rustbond.Types.Convert.{ok}
use rustbond.Route.{RouteTable, get_all_routes}
use rustbond.Wire.Message.{Message}
use rustbond.Wire.Codec.RoundTrip.{IsMessage, encode_lem}
use rustbond.Peer.Session.{Peer, resubscribe, reannounce, write_message, send_message, send_all}
use rustbond.Peer.Task.{establish}

module _ (lib : IpNetLib) (prost : Prost) where
  open lib use {IpNet}

  -- A peer after messages were written.
  abbrev pub with_written : List (Message IpNet) → ℕ → Peer IpNet → Peer IpNet
  with_written msgs left p = record p { written = p.written ++ msgs; room = left }

  pub send-written :
      (p : Peer IpNet) (msg : Message IpNet) (n : ℕ)
      → IsMessage lib prost msg
      → p.room ≡ suc n
      → send_message lib prost p msg ≡ (with_written (msg ∷ []) n p, ok tt)
  unfolding send_message write_message
  send-written p msg n i h =
      let (bytes, made, low, high) = encode_lem lib prost msg i in
      rw (made, h, send_message, write_message)

  send_all-written :
      (msgs : List (Message IpNet)) (left : ℕ) (p : Peer IpNet)
      → All (IsMessage lib prost) msgs
      → p.room ≡ length msgs + left
      → send_all lib prost msgs p ≡ (with_written msgs left p, ok tt)
  unfolding send_all
  send_all-written [] left p i h =
      ap (λ w. (record p { written = w }, ok tt)) (sym (append-nil p.written))
      ∙ ap (λ n. (record p { written = p.written ++ []; room = n }, ok tt)) (h ∙ omega arith)
  send_all-written (msg ∷ msgs) left p (first, i) h =
      let n = length msgs + left in
      let next = with_written (msg ∷ []) n p in
      rw (send-written p msg n first (h ∙ omega arith)) (
        send_all-written msgs left next i refl
        ∙ ap (λ w. (record p { written = w; room = left }, ok tt))
            (append_assoc p.written (msg ∷ []) msgs))

  -- If all messages are within the ranges of their types and the writes succeed, an established
  -- peer has asked the server for every VNI that it was subscribed to, and has then announced
  -- every route of the client's table to it; its subscriptions and what it has received are
  -- unchanged.
  pub establish_lem :
      (announced : RouteTable IpNet) (p : Peer IpNet) (left : ℕ)
      → All (IsMessage lib prost) (resubscribe p.subscriptions ++ reannounce announced)
      → p.room ≡ length (resubscribe p.subscriptions ++ reannounce announced) + left
      → establish lib prost announced p ≡ (
        record p {
          state = established;
          msg_buf = [];
          written =
              p.written
              ++ (map (λ vni. Message.subscribe vni) p.subscriptions
                  ++ map
                      (λ e. Message.update Action.add e.0 e.1.destination e.1.next_hop)
                      (get_all_routes announced));
          room = left;
        },
        ok tt,
      )
  unfolding establish resubscribe reannounce
  establish_lem announced p left i h =
      send_all-written (resubscribe p.subscriptions ++ reannounce announced) left
        (record p { state = established; msg_buf = [] }) i h
