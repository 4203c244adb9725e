-- ===== src/Tests/Tables.antt =====
-- Routing tables of a kernel, as an instance of the interfaces of src/netlink.rs.
use rustbond.Prelude.{
  ℕ, ◌<◌, ◌≡◌, refl, ite, Bool, true, false, ◌&&◌, List, [], ◌∷◌, Option, none, some, ◌==◌, arith,
  any, if◌then◌else◌, ℕ_discrete,
}
use rustbond.Collections.Set.{Set, contains, insert, remove, contains-insert, contains-remove}
use rustbond.Types.Address.{
  Ipv4Addr, Ipv4Addr-discrete, Ipv6Addr, Ipv6Addr-discrete, IpAddr, IpAddr-discrete, IpVersion,
}
use rustbond.Types.Convert.{version_of}
use rustbond.Netlink.Rtnetlink.{Rtnetlink}
use rustbond.Netlink.Config.{holds, metalbond_rt_proto}
use rustbond.Netlink.Kernel.{Kernel, shown_table, CanDelete}

-- A route: its destination, prefix length, table and protocol.
abbrev pub KernelRoute : Type 0
KernelRoute = IpAddr × ℕ × ℕ × ℕ

unfoldable pub KernelRoute-discrete : Discrete KernelRoute
KernelRoute-discrete = hlevel (IpAddr-discrete, ℕ_discrete)

pub data Attribute : Type 0 where
  table : ℕ → Attribute
  inet : Ipv4Addr → Attribute
  inet6 : Ipv6Addr → Attribute

abbrev pub table_in : Attribute → Option ℕ
table_in (table t) = some t
table_in (inet a) = none
table_in (inet6 a) = none

abbrev pub inet_in : Attribute → Option Ipv4Addr
inet_in (table t) = none
inet_in (inet a) = some a
inet_in (inet6 a) = none

abbrev pub inet6_in : Attribute → Option Ipv6Addr
inet6_in (table t) = none
inet6_in (inet a) = none
inet6_in (inet6 a) = some a

abbrev pub destination_attribute : IpAddr → Attribute
destination_attribute (IpAddr.v4 a) = inet a
destination_attribute (IpAddr.v6 a) = inet6 a

abbrev pub attributes_of : KernelRoute → List Attribute
attributes_of (a, len, t, proto) = table t ∷ (if len == 0 then [] else destination_attribute a ∷ [])

abbrev pub is_version : IpVersion → IpVersion → Bool
is_version IpVersion.v4 IpVersion.v4 = true
is_version IpVersion.v6 IpVersion.v6 = true
is_version _ _ = false

abbrev pub list_routes : IpVersion → Set KernelRoute → List (Option KernelRoute)
list_routes v [] = []
list_routes v (r ∷ rs) =
    if is_version (version_of r.0) v then some r ∷ list_routes v rs else list_routes v rs

abbrev pub add_new : KernelRoute → Set KernelRoute → Option (Set KernelRoute)
add_new r s =
    if contains KernelRoute-discrete r s then none else some (insert KernelRoute-discrete r s)

abbrev pub delete_old : KernelRoute → Set KernelRoute → Option (Set KernelRoute)
delete_old r s =
    if contains KernelRoute-discrete r s then some (remove KernelRoute-discrete r s) else none

abbrev pub linux : Rtnetlink
linux = record {
  State = Set KernelRoute;
  new_connection = λ s. true;
  match_name = λ name s. some 7 ∷ [];
  RouteMessage = KernelRoute;
  discrete = KernelRoute-discrete;
  header_table = λ r. shown_table r.2;
  destination_prefix_length = λ r. r.1;
  other_protocol = λ r. some r.3;
  RouteAttribute = Attribute;
  attributes = attributes_of;
  as_table = table_in;
  as_inet = inet_in;
  as_inet6 = inet6_in;
  get_routes = list_routes;
  add_v4 = λ dest len link t proto s. add_new (IpAddr.v4 dest, len, t, proto) s;
  add_v6 = λ dest len gateway link t proto s. add_new (IpAddr.v6 dest, len, t, proto) s;
  del = delete_old;
}

pub list_routes_lem :
    (v : IpVersion) (s : Set KernelRoute) (r : KernelRoute)
    → any (holds KernelRoute-discrete r) (list_routes v s)
      ≡ (contains KernelRoute-discrete r s && is_version (version_of r.0) v)
unfolding contains
list_routes_lem v [] r = refl
list_routes_lem v (x ∷ s) r = ground (arith, list_routes_lem v s r)

is_version-eq : (v w : IpVersion) → is_version v w ≡ true → v ≡ w
is_version-eq IpVersion.v4 IpVersion.v4 h = refl
is_version-eq IpVersion.v6 IpVersion.v6 h = refl
is_version-eq IpVersion.v4 IpVersion.v6 h = ground (arith, h)
is_version-eq IpVersion.v6 IpVersion.v4 h = ground (arith, h)

is_version_refl : (v : IpVersion) → is_version v v ≡ true
is_version_refl IpVersion.v4 = refl
is_version_refl IpVersion.v6 = refl

pub listed :
    (v : IpVersion) (s : Set KernelRoute) (r : KernelRoute)
    → any (holds KernelRoute-discrete r) (list_routes v s) ≡ true
    → (contains KernelRoute-discrete r s ≡ true) × (version_of r.0 ≡ v)
listed v s r h = ground (arith, h, list_routes_lem v s r, is_version-eq (version_of r.0) v)

pub all_listed :
    (v : IpVersion) (s : Set KernelRoute) (r : KernelRoute)
    → contains KernelRoute-discrete r s ≡ true
    → version_of r.0 ≡ v
    → any (holds KernelRoute-discrete r) (list_routes v s) ≡ true
all_listed v s r h f = ground (arith, h, list_routes_lem v s r, f, is_version_refl v)

pub attribute_lem :
    (r : KernelRoute) (t : ℕ)
    → any (λ attr. holds ℕ_discrete t (table_in attr)) (attributes_of r) ≡ (t == r.2)
attribute_lem (IpAddr.v4 a, len, u, proto) t = ground arith
attribute_lem (IpAddr.v6 a, len, u, proto) t = ground arith

pub delete_old_lem :
    (r : KernelRoute) (s s' : Set KernelRoute)
    → delete_old r s ≡ some s'
    → (x : KernelRoute)
    → contains KernelRoute-discrete x s'
      ≡ ite (KernelRoute-discrete r x) false (contains KernelRoute-discrete x s)
delete_old_lem r s s' h x = ground (arith, h, contains-remove KernelRoute-discrete r x s)

pub add_new_lem :
    (r : KernelRoute) (s s' : Set KernelRoute)
    → add_new r s ≡ some s'
    → (contains KernelRoute-discrete r s ≡ false)
      × ((x : KernelRoute)
          → contains KernelRoute-discrete x s'
            ≡ ite (KernelRoute-discrete r x) true (contains KernelRoute-discrete x s))
add_new_lem r s s' h =
    (ground (arith, h), λ x. ground (arith, h, contains-insert KernelRoute-discrete r x s))

pub dest_v4_lem :
    (a : Ipv4Addr) (len t proto : ℕ)
    → 0 < len
    → any
        (λ attr. holds Ipv4Addr-discrete a (inet_in attr))
        (attributes_of (IpAddr.v4 a, len, t, proto))
      ≡ true
dest_v4_lem a len t proto h = ground (arith, h)

pub dest_v6_lem :
    (a : Ipv6Addr) (len t proto : ℕ)
    → 0 < len
    → any
        (λ attr. holds Ipv6Addr-discrete a (inet6_in attr))
        (attributes_of (IpAddr.v6 a, len, t, proto))
      ≡ true
dest_v6_lem a len t proto h = ground (arith, h)

pub version_of_v4 : (a : Ipv4Addr) → version_of (IpAddr.v4 a) ≡ IpVersion.v4
unfolding version_of
version_of_v4 a = refl

pub version_of_v6 : (a : Ipv6Addr) → version_of (IpAddr.v6 a) ≡ IpVersion.v6
unfolding version_of
version_of_v6 a = refl

abbrev pub kernel : Kernel linux
kernel = record {
  routes = λ s. s;
  family = λ r. version_of r.0;
  table = λ r. r.2;
  network = λ a len. a;
  header_lem = λ r. refl;
  attribute_lem = attribute_lem;
  listed = listed;
  all_listed = λ v s r c. all_listed v s r;
  del_lem = delete_old_lem;
  add_v4_lem = λ a len link t s s' _ h.
      let r : KernelRoute = (IpAddr.v4 a, len, t, metalbond_rt_proto) in
      let (new, after) = add_new_lem r s s' h in
      (r, version_of_v4 a, refl, refl, refl, dest_v4_lem a len t metalbond_rt_proto, new, after);
  add_v6_lem = λ a len gateway link t s s' _ h.
      let r : KernelRoute = (IpAddr.v6 a, len, t, metalbond_rt_proto) in
      let (new, after) = add_new_lem r s s' h in
      (r, version_of_v6 a, refl, refl, refl, dest_v6_lem a len t metalbond_rt_proto, new, after);
}

pub delete_old-CanDelete : CanDelete linux kernel
delete_old-CanDelete r s h = (remove KernelRoute-discrete r s, ground (arith, h))
