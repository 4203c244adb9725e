-- ===== src/Tests/Data.antt =====
-- Concrete values, and instances of the interfaces of the third-party crates.
use rustbond.Prelude.{
  ℕ, ◌≤◌, ◌<◌, ◌≡◌, ◌≢◌, refl, List, [], ◌∷◌, ◌++◌, Option, none, some, arith, length, take, drop,
  ltb, ◌==◌, leb, if◌then◌else◌, ℕ_discrete, length-append,
}
use rustbond.Types.Address.{
  Ipv6Addr, IpAddr, IpAddr-discrete, IpNetLib, max_prefix_len, NextHopType, Destination, NextHop,
}
use rustbond.Types.Proto.{Hello, Subscription, ProtoDestination, ProtoNextHop, Update, Prost}
use rustbond.Wire.Codec.RoundTrip.{take-append}
use rustbond.Wire.Framing.Chunks.Stream.{drop-append}
use rustbond.Server.Channel.{TrySend, sent, full, Mpsc}
use rustbond.Server.Peers.{SocketAddr}

-- An IPv6 address, by its last octet.
abbrev pub host : ℕ → Ipv6Addr
host n = record { octets = 32 ∷ 1 ∷ 0 ∷ 0 ∷ 0 ∷ 0 ∷ 0 ∷ 0 ∷ 0 ∷ 0 ∷ 0 ∷ 0 ∷ 0 ∷ 0 ∷ 0 ∷ n ∷ [] }

abbrev pub hop : ℕ → NextHop
hop n = record {
  target_address = host n;
  target_vni = none;
  hop_type = NextHopType.standard;
  nat_port_range_from = 0;
  nat_port_range_to = 0;
}

-- Prefixes by number, where nothing depends on them.
abbrev pub dest : ℕ → Destination ℕ
dest n = record { prefix = n }

abbrev pub alice : SocketAddr
alice = record { ip = IpAddr.v6 (host 1); port = 4711 }

abbrev pub bob : SocketAddr
bob = record { ip = IpAddr.v6 (host 2); port = 4711 }

-- Channels that hold two messages.
module _ {M : Type 0} where
  abbrev pub try_queue : List M → M → TrySend × List M
  try_queue queue m = if ltb (length queue) 2 then (sent, queue ++ (m ∷ [])) else (full, queue)

  pub try_queue-sent :
      (tx : List M) (m : M) → (try_queue tx m).0 ≡ sent → (try_queue tx m).1 ≡ tx ++ (m ∷ [])
  try_queue-sent tx m h = ground (arith, h)

  pub try_queue-not_sent :
      (tx : List M) (m : M) → (try_queue tx m).0 ≢ sent → (try_queue tx m).1 ≡ tx
  try_queue-not_sent tx m h = ground (arith, h)

abbrev pub queues : (M : Type 0) → Mpsc M
queues M = record {
  Sender = List M;
  channel = λ n. [];
  try_send = try_queue;
  queued = λ tx. tx;
  queued-channel = λ n. refl;
  try_send-sent = try_queue-sent;
  try_send-not_sent = try_queue-not_sent;
}

-- A prefix as its address and its length.
abbrev pub plain_new : IpAddr → ℕ → Option (IpAddr × ℕ)
plain_new a n = if leb n (max_prefix_len a) then some (a, n) else none

pub plain_accepts :
    (a : IpAddr) (n : ℕ)
    → n ≤ max_prefix_len a
    → (p : IpAddr × ℕ) × (plain_new a n ≡ some p) × (p.0 ≡ a) × (p.1 ≡ n)
plain_accepts a n h = ((a, n), ground (arith, h), refl, refl)

pub plain_rejects : (a : IpAddr) (n : ℕ) → max_prefix_len a < n → plain_new a n ≡ none
plain_rejects a n h = ground (arith, h)

pub plain_same : (p q : IpAddr × ℕ) → p.0 ≡ q.0 → p.1 ≡ q.1 → p ≡ q
plain_same p q h k = ground (arith, h, k)

pub plain_discrete : Discrete (IpAddr × ℕ)
plain_discrete = hlevel (IpAddr-discrete, ℕ_discrete)

abbrev pub nets : IpNetLib
nets = record {
  IpNet = IpAddr × ℕ;
  discrete = plain_discrete;
  new = plain_new;
  addr = λ p. p.0;
  prefix_len = λ p. p.1;
  new_accepts = plain_accepts;
  new_rejects = plain_rejects;
  same_prefix = plain_same;
}

-- The fields one after the other, a list behind its length.
abbrev pub hello_bytes : Hello → List ℕ
hello_bytes h = h.keepalive_interval ∷ (if h.is_server then 1 else 0) ∷ []

abbrev pub read_hello : List ℕ → Option Hello
read_hello (n ∷ b ∷ []) = some (record { keepalive_interval = n; is_server = b == 1 })
read_hello _ = none

pub read_hello_lem : (h : Hello) → read_hello (hello_bytes h) ≡ some h
read_hello_lem h = ground arith

abbrev pub read_subscription : List ℕ → Option Subscription
read_subscription (n ∷ []) = some (record { vni = n })
read_subscription _ = none

abbrev pub pair_bytes : ℕ → ℕ → ProtoDestination → ProtoNextHop → List ℕ
pair_bytes action vni d nh =
    action
    ∷ vni
    ∷ d.ip_version
    ∷ d.prefix_length
    ∷ nh.target_vni
    ∷ nh.hop_type
    ∷ nh.nat_port_range_from
    ∷ nh.nat_port_range_to
    ∷ length d.prefix
    ∷ (d.prefix ++ nh.target_address)

abbrev pub update_bytes : Update → List ℕ
update_bytes u = elim u.destination [
  | none ↦ []
  | some d ↦ elim u.next_hop [ none ↦ [] | some nh ↦ pair_bytes u.action u.vni d nh ]
]

abbrev pub read_update : List ℕ → Option Update
read_update (action ∷ vni ∷ version ∷ bits ∷ target ∷ type ∷ from ∷ to ∷ n ∷ rest) = some (record {
  action = action;
  vni = vni;
  destination = some (record { ip_version = version; prefix = take n rest; prefix_length = bits });
  next_hop = some (record {
    target_address = drop n rest;
    target_vni = target;
    hop_type = type;
    nat_port_range_from = from;
    nat_port_range_to = to;
  });
})
read_update _ = none

pub read_update_lem :
    (action vni : ℕ) (d : ProtoDestination) (nh : ProtoNextHop)
    → let u : Update = record {
      action = action;
      vni = vni;
      destination = some d;
      next_hop = some nh;
    } in
      read_update (update_bytes u) ≡ some u
read_update_lem action vni d nh =
    rw (take-append d.prefix nh.target_address, drop-append d.prefix nh.target_address)

pub pair_bytes-length :
    (action vni : ℕ) (d : ProtoDestination) (nh : ProtoNextHop)
    → length d.prefix ≤ 16
    → length nh.target_address ≤ 16
    → length (pair_bytes action vni d nh) ≤ 128
pair_bytes-length action vni d nh h k =
    omega (arith, h, k, length-append d.prefix nh.target_address)

pub hello_bytes-length : (h : Hello) → length (hello_bytes h) ≤ 16
hello_bytes-length h = omega arith

abbrev pub codes : Prost
codes = record {
  encode_hello = hello_bytes;
  decode_hello = read_hello;
  encode_subscription = λ s. s.vni ∷ [];
  decode_subscription = read_subscription;
  encode_update = update_bytes;
  decode_update = read_update;
  decode_encode_hello = λ h r. read_hello_lem h;
  decode_encode_subscription = λ s r. refl;
  decode_encode_update = λ action vni d nh r s t u. read_update_lem action vni d nh;
  hello_size = hello_bytes-length;
  subscription_size = λ s. omega arith;
  update_size = pair_bytes-length;
}
