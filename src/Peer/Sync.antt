-- ===== src/Peer/Sync.antt =====
-- The calls of a peer's handler against the routes that its server has sent (src/peer.rs).
use mathlib.Core.Path.{subst}
use rustbond.Prelude.{
  ◌≡◌, ◌≢◌, refl, sym, ap, ◌∙◌, ite, Bool, true, false, not, ◌&&◌, ◌||◌, List, [], ◌∷◌, arith,
  if_pos, if_neg, ℕ_discrete,
}
use rustbond.Collections.Set.{contains, Distinct}
use rustbond.Collections.Set.Image.{contains-map, map-Distinct}
use rustbond.Collections.Map.{get}
use rustbond.Types.Address.{Vni, Action, Destination, NextHop}
use rustbond.Route.{
  RouteTable, Route, Route-discrete, RouteKey, RouteKey-discrete, next_hop_exists, get_all_routes,
  get_routes_by_vni, clear, remove_vni,
}
use rustbond.Route.Clean.{IsClean, new-IsClean, add-IsClean, remove-IsClean, remove_vni-IsClean}
use rustbond.Route.Listing.{Entry-discrete, get_all_routes-exists, get_routes_by_vni-exists}
use rustbond.Route.History.{same, add_next_hop_lem, remove_next_hop_lem, remove_vni_lem}
use rustbond.Handler.{
  Call, add_route, remove_route, installed, Alternates, installed-notify, notify-Alternates,
}
use rustbond.Wire.Message.{Message}
use rustbond.Peer.Received.{Received, nothing_received, apply_update, handle_message}
use rustbond.Peer.Session.{keys_of, keys_in, clear_received, remove_received_vni}

-- The key of an entry of a listing.
abbrev key : {N : Type 0} → Vni × Route N → RouteKey N
key e = (e.0, e.1.destination, e.1.next_hop)

module _ {N : Type 0} (net : Discrete N) where
  -- Is the route in the table?
  abbrev pub has : RouteTable N → RouteKey N → Bool
  has t (v, d, h) = next_hop_exists net t v d h

  -- The handler has installed exactly the routes of the table, by calls that each changed something.
  pub record InSync (r : Received N) : Type 0 where
    pub clean : IsClean net r.received_routes
    pub synced : (q : RouteKey N) → installed net q r.calls ≡ has r.received_routes q
    pub alternates : Alternates net r.calls

  pub nothing_received-InSync : InSync nothing_received
  unfolding installed next_hop_exists get
  nothing_received-InSync = record { clean = new-IsClean net; synced = λ q. refl; alternates = tt }

  installed-add :
      (k q : RouteKey N) (calls : List (Call N))
      → installed net q (add_route k ∷ calls)
        ≡ (same net k.0 k.1 k.2 q.0 q.1 q.2 || installed net q calls)
  unfolding installed same
  installed-add (v, d, h) (w, e, g) calls = ground arith

  installed-remove :
      (k q : RouteKey N) (calls : List (Call N))
      → installed net q (remove_route k ∷ calls)
        ≡ (not (same net k.0 k.1 k.2 q.0 q.1 q.2) && installed net q calls)
  unfolding installed same
  installed-remove (v, d, h) (w, e, g) calls = ground arith

  same-agrees :
      (t : RouteTable N) (k q : RouteKey N)
      → same net k.0 k.1 k.2 q.0 q.1 q.2 ≡ true
      → has t k ≡ has t q
  unfolding same
  same-agrees t (v, d, h) (w, e, g) p = ground (arith, p)

  apply_update-InSync :
      (r : Received N) (a : Action) (v : Vni) (d : Destination N) (h : NextHop)
      → InSync r
      → InSync (apply_update net r a v d h)
  unfolding apply_update
  apply_update-InSync r Action.add v d h i =
      let (new, found, size) = add_next_hop_lem net r.received_routes v d h in
      record {
        clean = add-IsClean net r.received_routes v d h i.clean;
        synced = λ q. ground (
          arith,
          new,
          found q.0 q.1 q.2,
          i.synced q,
          installed-add (v, d, h) q r.calls,
          same-agrees r.received_routes (v, d, h) q,
        );
        alternates = ground (arith, new, i.synced (v, d, h), i.alternates);
      }
  apply_update-InSync r Action.remove v d h i =
      let (removed, left, found, size) = remove_next_hop_lem net r.received_routes v d h i.clean in
      record {
        clean = remove-IsClean net r.received_routes v d h i.clean;
        synced = λ q. ground (
          arith,
          removed,
          found q.0 q.1 q.2,
          i.synced q,
          installed-remove (v, d, h) q r.calls,
          same-agrees r.received_routes (v, d, h) q,
        );
        alternates = ground (arith, removed, i.synced (v, d, h), i.alternates);
      }

  pub handle_message-InSync :
      (r : Received N) (msg : Message N) → InSync r → InSync (handle_message net r msg).0
  unfolding handle_message
  handle_message-InSync r (Message.update a v d h) i = apply_update-InSync r a v d h i
  handle_message-InSync r (Message.hello interval is_server) i = i
  handle_message-InSync r Message.keepalive i = i
  handle_message-InSync r (Message.subscribe vni) i = i
  handle_message-InSync r (Message.unsubscribe vni) i = i

  entry_key : (x y : Vni × Route N) → key x ≡ key y → x ≡ y
  entry_key x y p = ap (λ k. (k.0, record { destination = k.1; next_hop = k.2 })) p

  contains-keys_of :
      (q : RouteKey N) (l : List (Vni × Route N))
      → contains (RouteKey-discrete net) q (keys_of l)
        ≡ contains (Entry-discrete net) (q.0, record { destination = q.1; next_hop = q.2 }) l
  contains-keys_of (v, d, h) l =
      contains-map (Entry-discrete net) (RouteKey-discrete net) key entry_key
        (v, record { destination = d; next_hop = h }) l

  contains-keys_in-other :
      (v : Vni) (q : RouteKey N) (l : List (Route N))
      → v ≢ q.0
      → contains (RouteKey-discrete net) q (keys_in v l) ≡ false
  unfolding contains
  contains-keys_in-other v q [] apart = refl
  contains-keys_in-other v q (s ∷ l) apart =
      ground
        (arith, contains-keys_in-other v q l apart, apart, λ (p : key (v, s) ≡ q). ap (λ k. k.0) p)

  contains-keys_in :
      (v : Vni) (q : RouteKey N) (l : List (Route N))
      → contains (RouteKey-discrete net) q (keys_in v l)
        ≡ ite
            (ℕ_discrete v q.0)
            (contains (Route-discrete net) (record { destination = q.1; next_hop = q.2 }) l)
            false
  contains-keys_in v (w, d, h) l =
      let r : Route N = record { destination = d; next_hop = h } in
      elim (ℕ_discrete v w) [
        | yes p ↦
            ap (λ u. contains (RouteKey-discrete net) (u, d, h) (keys_in v l)) (sym p)
            ∙ contains-map (Route-discrete net) (RouteKey-discrete net) (λ s. key (v, s))
                (λ x y q. ap (λ k. k.1) (entry_key (v, x) (v, y) q)) r l
            ∙ sym (if_pos (ℕ_discrete v w) p (contains (Route-discrete net) r l) false)
        | no p ↦
            contains-keys_in-other v (w, d, h) l p
            ∙ sym (if_neg (ℕ_discrete v w) p (contains (Route-discrete net) r l) false)
      ]

  -- When a connection ends, every route that is installed is removed, and no other.
  pub clear_received_lem :
      (r : Received N)
      → InSync r
      → InSync (clear_received r)
        × ((q : RouteKey N) → installed net q (clear_received r).calls ≡ false)
  unfolding clear_received clear next_hop_exists get
  clear_received_lem r i =
      let (distinct, listed) = get_all_routes-exists net r.received_routes i.clean in
      let removed = keys_of (get_all_routes r.received_routes) in
      let known : (q : RouteKey N)
          → contains (RouteKey-discrete net) q removed ≡ has r.received_routes q =
        λ q.
          contains-keys_of q (get_all_routes r.received_routes)
          ∙ listed q.0 (record { destination = q.1; next_hop = q.2 }) in
      let gone : (q : RouteKey N) → installed net q (clear_received r).calls ≡ false =
        λ q. ground (arith, installed-notify net q removed r.calls, known q, i.synced q) in
      (
        record {
          clean = new-IsClean net;
          synced = gone;
          alternates =
              notify-Alternates net removed r.calls
                (map-Distinct (Entry-discrete net) (RouteKey-discrete net) key entry_key
                  (get_all_routes r.received_routes) distinct)
                (λ q m. ground (arith, known q, i.synced q, m)) i.alternates;
        },
        gone,
      )

  -- If the handler agrees with the received routes, `Unsubscribe` removes what is installed of the
  -- VNI, and nothing else, and they still agree.
  pub remove_received_vni_lem :
      (vni : Vni) (r : Received N)
      → InSync r
      → InSync (remove_received_vni vni r)
        × ((q : RouteKey N)
            → installed net q (remove_received_vni vni r).calls
              ≡ ite (ℕ_discrete vni q.0) false (installed net q r.calls))
  unfolding remove_received_vni
  remove_received_vni_lem vni r i =
      let t = r.received_routes in
      let (listing, after) = remove_vni_lem net t vni in
      let (distinct, listed) = get_routes_by_vni-exists net t vni i.clean in
      let removed = keys_in vni (remove_vni t vni).1 in
      let known : (q : RouteKey N)
          → contains (RouteKey-discrete net) q removed ≡ ite (ℕ_discrete vni q.0) (has t q) false =
        λ q.
          ap (λ l. contains (RouteKey-discrete net) q (keys_in vni l)) listing
          ∙ contains-keys_in vni q (get_routes_by_vni t vni)
          ∙ ground (arith, listed (record { destination = q.1; next_hop = q.2 })) in
      let gone : (q : RouteKey N)
          → installed net q (remove_received_vni vni r).calls
            ≡ ite (ℕ_discrete vni q.0) false (installed net q r.calls) =
        λ q. ground (arith, installed-notify net q removed r.calls, known q, i.synced q) in
      (
        record {
          clean = remove_vni-IsClean net t vni i.clean;
          synced = λ q. ground (arith, gone q, after q.0 q.1 q.2, i.synced q);
          alternates =
              notify-Alternates net removed r.calls
                (subst (λ l. Distinct (RouteKey-discrete net) (keys_in vni l)) (sym listing)
                  (map-Distinct (Route-discrete net) (RouteKey-discrete net) (λ s. key (vni, s))
                    (λ x y p. ap (λ k. k.1) (entry_key (vni, x) (vni, y) p))
                    (get_routes_by_vni t vni) distinct))
                (λ q m. ground (arith, known q, i.synced q, m)) i.alternates;
        },
        gone,
      )
