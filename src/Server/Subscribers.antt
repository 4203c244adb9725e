-- ===== src/Server/Subscribers.antt =====
-- The subscriptions of the routing actor of src/server.rs: well-formed through all commands, and
-- what `handle_subscribe` and `handle_unsubscribe` do to them.
use rustbond.Prelude.{
  ◌≡◌, refl, ◌∙◌, ite, true, false, List, [], ◌∷◌, inl, inr, arith, ℕ_discrete, Option-cases,
}
use rustbond.Collections.Set.{Set, contains, Distinct, contains-insert, contains-remove}
use rustbond.Collections.Set
use rustbond.Collections.Map.{Map, keys, get, get-insert, insert-Distinct, get_of-not-contains}
use rustbond.Collections.Map.Members.{AllValues, get-AllValues, insert-AllValues}
use rustbond.Collections.Map.WriteBack.{get-write_back, write_back-Distinct, write_back-AllValues}
use rustbond.Types.Address.{Vni}
use rustbond.Server.Peers.{
  SocketAddr, SocketAddr-discrete, Subscriptions, remove_subscriber, retain_nonempty, remove_slow,
}
use rustbond.Server.Actor.{RoutingActor, handle_subscribe, handle_unsubscribe}
use rustbond.Server.Delivery.{subscribers}

-- No VNI twice, and no peer twice in a VNI.
pub record IsSubscriptions (m : Subscriptions) : Type 0 where
  pub vnis : Distinct ℕ_discrete (keys m)
  pub peers : AllValues (Distinct SocketAddr-discrete) m

pub subscribers-Distinct :
    (v : Vni) (m : Subscriptions)
    → IsSubscriptions m
    → Distinct SocketAddr-discrete (subscribers v m)
subscribers-Distinct v m i = elim (Option-cases (get ℕ_discrete v m)) [
  | inl p ↦ rw p tt
  | inr (subs, p) ↦
      rw p (get-AllValues ℕ_discrete (Distinct SocketAddr-discrete) v m subs i.peers p)
]

keys-remove_subscriber :
    (addr : SocketAddr) (v : Vni) (m : Subscriptions)
    → contains ℕ_discrete v (keys (remove_subscriber addr m)) ≡ contains ℕ_discrete v (keys m)
unfolding remove_subscriber contains
keys-remove_subscriber addr v [] = refl
keys-remove_subscriber addr v ((w, subs) ∷ m) = ground (arith, keys-remove_subscriber addr v m)

pub remove_subscriber-IsSubscriptions :
    (addr : SocketAddr) (m : Subscriptions)
    → IsSubscriptions m
    → IsSubscriptions (remove_subscriber addr m)
unfolding remove_subscriber
remove_subscriber-IsSubscriptions addr [] i = i
remove_subscriber-IsSubscriptions addr ((w, subs) ∷ m) i =
    let rest =
      remove_subscriber-IsSubscriptions addr m (record { vnis = i.vnis.1; peers = i.peers.1 }) in
    record {
      vnis = (keys-remove_subscriber addr w m ∙ i.vnis.0, rest.vnis);
      peers = (Set.remove-Distinct SocketAddr-discrete addr subs i.peers.0, rest.peers);
    }

keys-retain_nonempty :
    (v : Vni) (m : Subscriptions)
    → contains ℕ_discrete v (keys m) ≡ false
    → contains ℕ_discrete v (keys (retain_nonempty m)) ≡ false
unfolding retain_nonempty contains
keys-retain_nonempty v [] h = refl
keys-retain_nonempty v ((w, subs) ∷ m) h = ground (arith, keys-retain_nonempty v m)

pub retain_nonempty-IsSubscriptions :
    (m : Subscriptions) → IsSubscriptions m → IsSubscriptions (retain_nonempty m)
unfolding retain_nonempty
retain_nonempty-IsSubscriptions [] i = i
retain_nonempty-IsSubscriptions ((w, []) ∷ m) i =
    retain_nonempty-IsSubscriptions m (record { vnis = i.vnis.1; peers = i.peers.1 })
retain_nonempty-IsSubscriptions ((w, s ∷ subs) ∷ m) i =
    let rest = retain_nonempty-IsSubscriptions m (record { vnis = i.vnis.1; peers = i.peers.1 }) in
    record {
      vnis = (keys-retain_nonempty w m i.vnis.0, rest.vnis);
      peers = (i.peers.0, rest.peers);
    }

-- An empty set of subscribers and none are the same to the distribution.
pub subscribers-retain_nonempty :
    (v : Vni) (m : Subscriptions)
    → IsSubscriptions m
    → subscribers v (retain_nonempty m) ≡ subscribers v m
unfolding retain_nonempty get
subscribers-retain_nonempty v [] i = refl
subscribers-retain_nonempty v ((w, subs) ∷ m) i = ground (
  arith,
  subscribers-retain_nonempty v m (record { vnis = i.vnis.1; peers = i.peers.1 }),
  get_of-not-contains ℕ_discrete w m,
)

pub remove_slow-IsSubscriptions :
    {S : Type 0} (slow : List SocketAddr) (peers : Map SocketAddr S) (m : Subscriptions)
    → IsSubscriptions m
    → IsSubscriptions (remove_slow slow (peers, m)).1
unfolding remove_slow
remove_slow-IsSubscriptions [] peers m i = i
remove_slow-IsSubscriptions (addr ∷ slow) peers m i =
    remove_slow-IsSubscriptions slow _ (remove_subscriber addr m)
      (remove_subscriber-IsSubscriptions addr m i)

module _ {N S : Type 0} (a : RoutingActor N S) (addr : SocketAddr) (vni : Vni) where
  pub handle_subscribe-IsSubscriptions :
      IsSubscriptions a.subscriptions
      → IsSubscriptions (handle_subscribe a addr vni).0.subscriptions
  unfolding handle_subscribe
  handle_subscribe-IsSubscriptions i = record {
    vnis = insert-Distinct ℕ_discrete vni _ a.subscriptions i.vnis;
    peers =
        insert-AllValues ℕ_discrete (Distinct SocketAddr-discrete) vni _ a.subscriptions i.peers (
          Set.insert-Distinct SocketAddr-discrete addr _
            (subscribers-Distinct vni a.subscriptions i));
  }

  pub handle_unsubscribe-IsSubscriptions :
      IsSubscriptions a.subscriptions
      → IsSubscriptions (handle_unsubscribe a addr vni).subscriptions
  unfolding handle_unsubscribe
  handle_unsubscribe-IsSubscriptions i = elim (Option-cases (get ℕ_discrete vni a.subscriptions)) [
    | inl p ↦ rw (p, handle_unsubscribe) i
    | inr (subs, p) ↦
        let P = Distinct SocketAddr-discrete in
        let old = get-AllValues ℕ_discrete P vni a.subscriptions subs i.peers p in
        rw (p, handle_unsubscribe)
          (record {
            vnis = write_back-Distinct ℕ_discrete vni _ a.subscriptions i.vnis;
            peers =
                write_back-AllValues ℕ_discrete P vni _ a.subscriptions i.peers
                  (λ e. Set.remove-Distinct SocketAddr-discrete addr subs old);
          })
  ]

  -- `handle_subscribe` adds exactly the one subscription.
  pub handle_subscribe-subscribers :
      (q : SocketAddr) (v : Vni)
      → contains SocketAddr-discrete q (subscribers v (handle_subscribe a addr vni).0.subscriptions)
        ≡ ite
            (ℕ_discrete vni v)
            (ite
              (SocketAddr-discrete addr q)
              true
              (contains SocketAddr-discrete q (subscribers v a.subscriptions)))
            (contains SocketAddr-discrete q (subscribers v a.subscriptions))
  unfolding handle_subscribe
  handle_subscribe-subscribers q v =
      let subs = subscribers vni a.subscriptions in
      let subs' = Set.insert SocketAddr-discrete addr subs in
      ground (
        arith,
        get-insert ℕ_discrete vni v subs' a.subscriptions,
        contains-insert SocketAddr-discrete addr q subs,
      )

  -- `handle_unsubscribe` takes exactly the one subscription away.
  pub handle_unsubscribe-subscribers :
      (q : SocketAddr) (v : Vni)
      → contains SocketAddr-discrete q (subscribers v (handle_unsubscribe a addr vni).subscriptions)
        ≡ ite
            (ℕ_discrete vni v)
            (ite
              (SocketAddr-discrete addr q)
              false
              (contains SocketAddr-discrete q (subscribers v a.subscriptions)))
            (contains SocketAddr-discrete q (subscribers v a.subscriptions))
  unfolding handle_unsubscribe contains
  handle_unsubscribe-subscribers q v = elim (Option-cases (get ℕ_discrete vni a.subscriptions)) [
    | inl p ↦ rw (p, handle_unsubscribe) (ground arith)
    | inr (subs, p) ↦
        let subs' = Set.remove SocketAddr-discrete addr subs in
        rw (p, handle_unsubscribe)
          (ground (
            arith,
            get-write_back ℕ_discrete vni v subs' a.subscriptions,
            contains-remove SocketAddr-discrete addr q subs,
          ))
  ]
