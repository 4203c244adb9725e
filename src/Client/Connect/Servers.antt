-- ===== src/Client/Connect/Servers.antt =====
-- The servers of a client of src/client.rs: those it is given, and how many are connected.
use Prim.Native.String.{String}
use rustbond.Prelude.{
  ℕ, zero, suc, ◌+◌, ◌≤◌, ◌<◌, ◌≡◌, refl, false, List, [], ◌∷◌, Option, none, some, arith, length,
  is_empty, if◌then◌else◌, ℕ_discrete,
}
use rustbond.Collections.Map.{Map, get, insert, get-insert}
use rustbond.Collections.Map.Members.{AllValues, insert-AllValues}
use rustbond.Collections.Map.Size.{is_some, length-insert}
use rustbond.Types.Address.{connecting}
use rustbond.Client.Tracker.{ServerId}
use rustbond.Client.Api.{Handle, disconnected, count_states, client_state}
use rustbond.Client.Connect.{
  MetalBondClient, new_peer, connect_each, connect, server_count, server_addr,
}

-- The element at an index, if there is one: `servers.get(i)`.
abbrev pub get_elem? : {A : Type 0} → List A → ℕ → Option A
get_elem? [] i = none
get_elem? (x ∷ xs) zero = some x
get_elem? (x ∷ xs) (suc i) = get_elem? xs i

abbrev pub or_else : {A : Type 0} → Option A → Option A → Option A
or_else none o = o
or_else (some a) o = some a

module _ {N : Type 0} where
  connect_each-below :
      (idx : ℕ) (servers : List String) (peers : Map ServerId (Handle N))
      (addrs : Map ServerId String) (j : ServerId)
      → j < idx
      → (get ℕ_discrete j (connect_each idx servers peers addrs).0 ≡ get ℕ_discrete j peers)
        × (get ℕ_discrete j (connect_each idx servers peers addrs).1 ≡ get ℕ_discrete j addrs)
  unfolding connect_each
  connect_each-below idx [] peers addrs j h = (refl, refl)
  connect_each-below idx (addr ∷ servers) peers addrs j h =
      let peers' = insert ℕ_discrete idx new_peer peers in
      let addrs' = insert ℕ_discrete idx addr addrs in
      ground (
        arith,
        h,
        connect_each-below (suc idx) servers peers' addrs' j (omega (arith, h)),
        get-insert ℕ_discrete idx j new_peer peers,
        get-insert ℕ_discrete idx j addr addrs,
      )

  connect_each_lem :
      (idx : ℕ) (servers : List String) (peers : Map ServerId (Handle N))
      (addrs : Map ServerId String) (i : ℕ) (j : ServerId)
      → idx + i ≡ j
      → (get ℕ_discrete j (connect_each idx servers peers addrs).0
          ≡ or_else
              (if is_some (get_elem? servers i) then some new_peer else none)
              (get ℕ_discrete j peers))
        × (get ℕ_discrete j (connect_each idx servers peers addrs).1
            ≡ or_else (get_elem? servers i) (get ℕ_discrete j addrs))
  unfolding connect_each
  connect_each_lem idx [] peers addrs i j h = (refl, refl)
  connect_each_lem idx (addr ∷ servers) peers addrs zero j h =
      let peers' = insert ℕ_discrete idx new_peer peers in
      let addrs' = insert ℕ_discrete idx addr addrs in
      ground (
        arith,
        h,
        connect_each-below (suc idx) servers peers' addrs' j (omega (arith, h)),
        get-insert ℕ_discrete idx j new_peer peers,
        get-insert ℕ_discrete idx j addr addrs,
      )
  connect_each_lem idx (addr ∷ servers) peers addrs (suc i) j h =
      let peers' = insert ℕ_discrete idx new_peer peers in
      let addrs' = insert ℕ_discrete idx addr addrs in
      ground (
        arith,
        h,
        connect_each_lem (suc idx) servers peers' addrs' i j (omega (arith, h)),
        get-insert ℕ_discrete idx j new_peer peers,
        get-insert ℕ_discrete idx j addr addrs,
      )

  -- Entries from an index on are not there yet.
  abbrev Fresh : ℕ → Map ServerId (Handle N) → Type 0
  Fresh idx peers = (j : ServerId) → idx ≤ j → get ℕ_discrete j peers ≡ none

  length-connect_each :
      (idx : ℕ) (servers : List String) (peers : Map ServerId (Handle N))
      (addrs : Map ServerId String)
      → Fresh idx peers
      → length (connect_each idx servers peers addrs).0 ≡ length peers + length servers
  unfolding connect_each
  length-connect_each idx [] peers addrs f = omega arith
  length-connect_each idx (addr ∷ servers) peers addrs f =
      let peers' = insert ℕ_discrete idx new_peer peers in
      let addrs' = insert ℕ_discrete idx addr addrs in
      let here = f idx (omega arith) in
      let later : Fresh (suc idx) peers' = λ j h.
        ground (arith, h, f j (omega (arith, h)), get-insert ℕ_discrete idx j new_peer peers) in
      ground (
        arith,
        here,
        length-connect_each (suc idx) servers peers' addrs' later,
        length-insert ℕ_discrete idx new_peer peers,
      )

  connecting-count_states :
      (peers : Map ServerId (Handle N))
      → AllValues (λ p. p.state ≡ connecting) peers
      → count_states peers ≡ (0, false)
  unfolding count_states
  connecting-count_states [] a = refl
  connecting-count_states ((s, peer) ∷ peers) a =
      ground (arith, connecting-count_states peers a.1, a.0)

  connect_each-connecting :
      (idx : ℕ) (servers : List String) (peers : Map ServerId (Handle N))
      (addrs : Map ServerId String)
      → AllValues (λ p. p.state ≡ connecting) peers
      → AllValues (λ p. p.state ≡ connecting) (connect_each idx servers peers addrs).0
  unfolding connect_each
  connect_each-connecting idx [] peers addrs a = a
  connect_each-connecting idx (addr ∷ servers) peers addrs a =
      connect_each-connecting (suc idx) servers (insert ℕ_discrete idx new_peer peers)
        (insert ℕ_discrete idx addr addrs)
        (insert-AllValues ℕ_discrete (λ p. p.state ≡ connecting) idx new_peer peers a refl)

-- What a client starts with.
pub record IsConnected {N : Type 0} (servers : List String) (c : MetalBondClient N) : Type 0 where
  pub addresses : (i : ServerId) → server_addr c i ≡ get_elem? servers i
  pub peers :
      (i : ServerId)
      → get ℕ_discrete i c.client.peers
        ≡ (if is_some (get_elem? servers i) then some new_peer else none)
  pub count : server_count c.client.peers ≡ length servers
  pub state : client_state c.client ≡ disconnected

module _ {N : Type 0} where
  -- With at least one server, `connect` gives each its own peer, by the place of its address in
  -- the list. No peer is connected at first.
  pub connect_lem :
      (servers : List String)
      → is_empty servers ≡ false
      → (c : MetalBondClient N) × (connect servers ≡ some c) × IsConnected servers c
  unfolding connect server_addr server_count client_state get
  connect_lem [] h = ground (arith, h)
  connect_lem (addr ∷ servers) h =
      let all = addr ∷ servers in
      let peers = (connect_each {N = N} 0 all [] []).0 in
      let none_connected = connecting-count_states peers (connect_each-connecting 0 all [] [] tt) in
      (
        _,
        refl,
        record {
          addresses = λ i. ground (arith, connect_each_lem {N = N} 0 all [] [] i i (omega arith));
          peers = λ i. ground (arith, connect_each_lem {N = N} 0 all [] [] i i (omega arith));
          count = omega (arith, length-connect_each {N = N} 0 all [] [] (λ j q. refl));
          state = ground (arith, none_connected);
        },
      )
