-- ===== src/Examples/Announced.antt =====
-- The loop over the announcements in `run_client` of examples/client.rs: how it ends, and what is
-- announced then.
use rustbond.Prelude.{
  ℕ, suc, ◌≡◌, refl, sym, ◌∙◌, Bool, true, not, ◌&&◌, ◌||◌, List, [], ◌∷◌, arith, if◌then◌else◌,
  any, Bool-cases, ◌⊎◌, inl, inr,
}
use rustbond.Types.Address.{Action, IpNetLib, Vni, Destination, NextHop}
use rustbond.Types.Convert.{ok, err, route_already_announced}
use rustbond.Wire.Message.{Message}
use rustbond.Peer.Session.{PeerCommand}
use rustbond.Route.{next_hop_exists}
use rustbond.Route.History.{same}
use rustbond.Wire.Framing.Enough.{Result-cases}
use rustbond.Client.Api.{Client, send_established, subscribe, announce}
use rustbond.Client.Api.Announce.{any_ready, any_ready-send_established, announce_lem}
use rustbond.Text.{Text}
use rustbond.Types.Display.{AddressText}
use rustbond.Examples.Announcement.{Refusal, Parsed, parsed, refused, parse_announcement}
use rustbond.Examples.Program.{Peers, meanwhile, announce_one, announce_each}

Parsed-cases :
    {A : Type 0} (p : Parsed A) → ((e : Refusal) × (p ≡ refused e)) ⊎ ((a : A) × (p ≡ parsed a))
Parsed-cases (parsed a) = inr (a, refl)
Parsed-cases (refused e) = inl (e, refl)

-- Some peer stays established and takes commands.
abbrev pub LeavesReady : {N : Type 0} → (ℕ → Peers N → Peers N) → Type 0
LeavesReady tasks =
    (i : ℕ) (peers : Peers _) → any_ready peers ≡ true → any_ready (tasks i peers) ≡ true

-- The routes that the texts mean; a text that is refused means none.
abbrev pub Meant : Type 0 → Type 0
Meant N = Vni × Destination N × NextHop

module _ {ip : IpNetLib} (text : AddressText ip) where
  abbrev pub meant : List Text → List (Meant ip.IpNet)
  meant [] = []
  meant (announcement ∷ announcements) = elim (parse_announcement text announcement) [
    | refused e ↦ meant announcements
    | parsed route ↦ route ∷ meant announcements
  ]

  abbrev pub is_same : Meant ip.IpNet → Meant ip.IpNet → Bool
  is_same (v, d, h) (w, e, g) = same ip.discrete v d h w e g

  abbrev pub is_known : Client ip.IpNet → Meant ip.IpNet → Bool
  is_known c (v, d, h) = next_hop_exists ip.discrete c.announced_routes v d h

  -- Is each route new, when it comes?
  abbrev pub all_new : (Meant ip.IpNet → Bool) → List (Meant ip.IpNet) → Bool
  all_new known [] = true
  all_new known (route ∷ routes) =
      not (known route) && all_new (λ r. is_same route r || known r) routes

  module _ (tasks : ℕ → Peers ip.IpNet → Peers ip.IpNet) where
    announce_one_known :
        (k : ℕ) (c : Client ip.IpNet) (r q : Meant ip.IpNet)
        → is_known (announce_one text tasks k c r).0 q ≡ (is_same r q || is_known c q)
    unfolding announce_one subscribe
    announce_one_known k c (v, d, h) (w, e, g) =
        let before = meanwhile (tasks (suc k)) (subscribe (meanwhile (tasks k) c) v).0 in
        let (_, found, _) = announce_lem ip.discrete before v d h in found w e g

    announce_one_ready :
        (k : ℕ) (c : Client ip.IpNet) (r : Meant ip.IpNet)
        → LeavesReady tasks
        → any_ready c.peers ≡ true
        → any_ready (announce_one text tasks k c r).0.peers ≡ true
    unfolding announce_one subscribe announce
    announce_one_ready k c (v, d, h) leaves ready =
        let peers = tasks k c.peers in
        let first =
          any_ready-send_established (PeerCommand.subscribe v) peers ∙ leaves k c.peers ready in
        let subscribed = (send_established (PeerCommand.subscribe v) peers).0 in
        let peers' = tasks (suc k) subscribed in
        let ready' = leaves (suc k) subscribed first in
        let command = PeerCommand.send_update (Message.update Action.add v d h) in
        ground (arith, ready', any_ready-send_established command peers')

    announce_one_outcome :
        (k : ℕ) (c : Client ip.IpNet) (r : Meant ip.IpNet)
        → LeavesReady tasks
        → any_ready c.peers ≡ true
        → (announce_one text tasks k c r).1
          ≡ (if is_known c r then err route_already_announced else ok tt)
    unfolding announce_one subscribe
    announce_one_outcome k c (v, d, h) leaves ready =
        let first =
          any_ready-send_established (PeerCommand.subscribe v) (tasks k c.peers)
          ∙ leaves k c.peers ready in
        let subscribed = (subscribe (meanwhile (tasks k) c) v).0 in
        let before = meanwhile (tasks (suc k)) subscribed in
        let (outcome, _, _) = announce_lem ip.discrete before v d h in
        outcome ∙ rw (leaves (suc k) subscribed.peers first) refl

    next_known :
        (k : ℕ) (c : Client ip.IpNet) (r : Meant ip.IpNet)
        → is_known (announce_one text tasks k c r).0 ≡ (λ q. is_same r q || is_known c q)
    next_known k c r = λ i q. announce_one_known k c r q i

    -- If some peer is established and takes commands, and the peers' tasks leave one so, the loop ends without an error
    -- exactly if each route is new when it comes; a route that is announced already ends the program.
    pub announce_each-outcome :
        (k : ℕ) (c : Client ip.IpNet) (texts : List Text)
        → LeavesReady tasks
        → any_ready c.peers ≡ true
        → (announce_each text tasks k c texts).1
          ≡ (if all_new (is_known c) (meant texts) then ok tt else err route_already_announced)
    unfolding announce_each
    announce_each-outcome k c [] leaves ready = refl
    announce_each-outcome k c (t ∷ texts) leaves ready =
        elim (Parsed-cases (parse_announcement text t)) [
          | inl (e, p) ↦ rw (p, announce_each, meant) (announce_each-outcome k c texts leaves ready)
          | inr (r, p) ↦
              let outcome = announce_one_outcome k c r leaves ready in
              let c' = (announce_one text tasks k c r).0 in
              let later =
                announce_each-outcome (suc (suc k)) c' texts leaves
                  (announce_one_ready k c r leaves ready) in
              elim (Bool-cases (is_known c r)) [
                | inl known ↦ rw (p, announce_each, meant, outcome, known) refl
                | inr new ↦ rw (p, announce_each, meant, outcome, new, sym (next_known k c r)) later
              ]
        ]

    -- If the loop ends without an error, exactly the routes from before and those that the texts
    -- mean are announced, whatever the peers do.
    pub announce_each-routes :
        (k : ℕ) (c : Client ip.IpNet) (texts : List Text) (q : Meant ip.IpNet)
        → (announce_each text tasks k c texts).1 ≡ ok tt
        → is_known (announce_each text tasks k c texts).0 q
          ≡ (any (λ r. is_same r q) (meant texts) || is_known c q)
    unfolding announce_each
    announce_each-routes k c [] q = λ h. refl
    announce_each-routes k c (t ∷ texts) q = elim (Parsed-cases (parse_announcement text t)) [
      | inl (e, p) ↦ rw (p, announce_each, meant) (announce_each-routes k c texts q)
      | inr (r, p) ↦
          let c' = (announce_one text tasks k c r).0 in
          let found = announce_one_known k c r q in
          elim (Result-cases (announce_one text tasks k c r).1) [
            | inl (d, good) ↦
                rw (p, announce_each, meant, good)
                  λ h.
                    let later = announce_each-routes (suc (suc k)) c' texts q h in
                    ground (arith, later, found)
            | inr (e, bad) ↦ rw (p, announce_each, meant, bad) λ h. cc
          ]
    ]
