-- ===== src/Netlink/Config.antt =====
-- `NetlinkConfig` and `NetlinkClient` of src/netlink.rs. The kernel's state is passed on; the texts
-- of the errors are left out.
use Prim.Native.String.{String}
use rustbond.Prelude.{
  ℕ, ◌%◌, ◌^◌, ite, Bool, true, false, ◌&&◌, ◌||◌, List, [], ◌∷◌, Option, none, some, ◌==◌,
  if◌then◌else◌, any, ℕ_discrete,
}
use rustbond.Collections.Map.{Map, get}
use rustbond.Types.Address.{
  Ipv4Addr, Ipv4Addr-discrete, Ipv6Addr, Ipv6Addr-discrete, IpAddr, IpVersion, IpNetLib, Vni,
  Destination, NextHop,
}
use rustbond.Types.Convert.{Result, Done, ok, err, ◌>>=◌, connection, netlink, netlink_connection}
use rustbond.Wire.Framing.{and_then}
use rustbond.Netlink.Rtnetlink.{Rtnetlink}

-- `METALBOND_RT_PROTO`
abbrev pub metalbond_rt_proto : ℕ
metalbond_rt_proto = 254

pub record NetlinkConfig : Type 0 where
  pub vni_table_map : Map Vni ℕ
  pub link_name : String

pub record NetlinkClient : Type 0 where
  pub config : NetlinkConfig
  pub link_index : ℕ

-- Is it this value? The patterns of the program compare what an attribute holds.
abbrev pub holds : {A : Type 0} → Discrete A → A → Option A → Bool
holds dec a none = false
holds dec a (some b) = ite (dec b a) true false

module _ (nl : Rtnetlink) where
  open nl use {
    State, new_connection, match_name, RouteMessage, header_table, destination_prefix_length,
    other_protocol, attributes, as_table, as_inet, as_inet6, get_routes, add_v4, add_v6, del,
  }

  unfoldable pub get_link_index : String → State → Result ℕ
  get_link_index name s = elim (match_name name s) [
    | [] ↦ err netlink
    | link ∷ links ↦ elim link [ none ↦ err netlink_connection | some index ↦ ok index ]
  ]

  unfoldable pub new : NetlinkConfig → State → Result NetlinkClient
  unfolding get_link_index
  new config s =
      let opened : Done = if new_connection s then ok tt else err connection in
      do
        connected ← opened
        link_index ← get_link_index config.link_name s
        ok (record { config = config; link_index = link_index })

  -- The test of the table; `as u8` keeps the low eight bits.
  unfoldable pub matches_table : ℕ → RouteMessage → Bool
  matches_table table route =
      header_table route == table % 2 ^ 8
      || any (λ attr. holds ℕ_discrete table (as_table attr)) (attributes route)

  unfoldable pub matches_protocol : RouteMessage → Bool
  matches_protocol route = holds ℕ_discrete metalbond_rt_proto (other_protocol route)

  unfoldable pub matches_dest_v4 : Ipv4Addr → ℕ → RouteMessage → Bool
  matches_dest_v4 dest prefix_len route =
      any (λ attr. holds Ipv4Addr-discrete dest (as_inet attr)) (attributes route)
      && destination_prefix_length route == prefix_len

  unfoldable pub matches_dest_v6 : Ipv6Addr → ℕ → RouteMessage → Bool
  matches_dest_v6 dest prefix_len route =
      any (λ attr. holds Ipv6Addr-discrete dest (as_inet6 attr)) (attributes route)
      && destination_prefix_length route == prefix_len

  -- `map_err` and `?` after a request that changes the routes.
  abbrev pub changed : State → Option State → State × Done
  changed s none = (s, err netlink)
  changed s (some s') = (s', ok tt)

  -- The loop `while let Some(route) = routes.try_next().await?` of `remove_route_v4` and
  -- `remove_route_v6`, which deletes the first route that passes their test.
  unfoldable pub remove_first :
      (RouteMessage → Bool) → List (Option RouteMessage) → State → State × Done
  remove_first test [] s = (s, ok tt)
  remove_first test (none ∷ routes) s = (s, err netlink_connection)
  remove_first test (some route ∷ routes) s =
      let rest = remove_first test routes s in if test route then changed s (del route s) else rest

  unfoldable pub remove_route_v4 : Ipv4Addr → ℕ → ℕ → State → State × Done
  unfolding remove_first
  remove_route_v4 dest prefix_len table s =
      let test = λ (route : RouteMessage).
        matches_table table route
        && matches_protocol route
        && matches_dest_v4 dest prefix_len route in
      remove_first test (get_routes IpVersion.v4 s) s

  unfoldable pub remove_route_v6 : Ipv6Addr → ℕ → ℕ → State → State × Done
  unfolding remove_first
  remove_route_v6 dest prefix_len table s =
      let test = λ (route : RouteMessage).
        matches_table table route
        && matches_protocol route
        && matches_dest_v6 dest prefix_len route in
      remove_first test (get_routes IpVersion.v6 s) s

  -- The routes that the first loop of `cleanup_routes_for_table` collects.
  unfoldable pub to_delete :
      (RouteMessage → Bool) → List (Option RouteMessage) → Result (List RouteMessage)
  to_delete test [] = ok []
  to_delete test (none ∷ routes) = err netlink_connection
  to_delete test (some route ∷ routes) = do
    rest ← to_delete test routes
    ok (if test route then route ∷ rest else rest)

  -- Its second loop; a route that cannot be deleted is only logged.
  unfoldable pub delete_all : List RouteMessage → State → State
  delete_all [] s = s
  delete_all (route ∷ routes) s = elim (del route s) [
    | none ↦ delete_all routes s
    | some s' ↦ delete_all routes s'
  ]

  unfoldable pub cleanup_routes_for_table : ℕ → IpVersion → State → State × Done
  unfolding to_delete delete_all
  cleanup_routes_for_table table ip_version s =
      let test = λ (route : RouteMessage). matches_table table route && matches_protocol route in
      elim (to_delete test (get_routes ip_version s)) [
        | err e ↦ (s, err e)
        | ok routes ↦ (delete_all routes s, ok tt)
      ]

  -- The loop of `cleanup_stale_routes` over the configured tables.
  unfoldable pub cleanup_tables : Map Vni ℕ → State → State × Done
  cleanup_tables [] s = (s, ok tt)
  cleanup_tables ((vni, table) ∷ tables) s =
      and_then (cleanup_routes_for_table table IpVersion.v4 s)
        λ s4. and_then (cleanup_routes_for_table table IpVersion.v6 s4) (cleanup_tables tables)

  unfoldable pub cleanup_stale_routes : NetlinkClient → State → State × Done
  unfolding cleanup_tables
  cleanup_stale_routes client s = cleanup_tables client.config.vni_table_map s

  unfoldable pub add_route_v4 : NetlinkClient → Ipv4Addr → ℕ → Ipv6Addr → ℕ → State → State × Done
  add_route_v4 client dest prefix_len gateway table s =
      changed s (add_v4 dest prefix_len client.link_index table metalbond_rt_proto s)

  unfoldable pub add_route_v6 : NetlinkClient → Ipv6Addr → ℕ → Ipv6Addr → ℕ → State → State × Done
  add_route_v6 client dest prefix_len gateway table s =
      changed s (add_v6 dest prefix_len gateway client.link_index table metalbond_rt_proto s)

  module _ (lib : IpNetLib) where
    open lib use {IpNet, addr, prefix_len}

    unfoldable pub add_route :
        NetlinkClient → Vni → Destination IpNet → NextHop → State → State × Done
    unfolding add_route_v4 add_route_v6
    add_route client vni dest next_hop s = elim (get ℕ_discrete vni client.config.vni_table_map) [
      | none ↦ (s, err netlink)
      | some table ↦ elim (addr dest.prefix) [
        | IpAddr.v4 a ↦
            add_route_v4 client a (prefix_len dest.prefix) next_hop.target_address table s
        | IpAddr.v6 a ↦
            add_route_v6 client a (prefix_len dest.prefix) next_hop.target_address table s
      ]
    ]

    unfoldable pub remove_route :
        NetlinkClient → Vni → Destination IpNet → NextHop → State → State × Done
    unfolding remove_route_v4 remove_route_v6
    remove_route client vni dest next_hop s =
        elim (get ℕ_discrete vni client.config.vni_table_map) [
          | none ↦ (s, err netlink)
          | some table ↦ elim (addr dest.prefix) [
            | IpAddr.v4 a ↦ remove_route_v4 a (prefix_len dest.prefix) table s
            | IpAddr.v6 a ↦ remove_route_v6 a (prefix_len dest.prefix) table s
          ]
        ]
