-- ===== src/Netlink/Cleanup.antt =====
-- `cleanup_stale_routes` of src/netlink.rs.
use rustbond.Prelude.{
  ℕ, ◌≡◌, refl, Bool, true, false, not, ◌&&◌, List, [], ◌∷◌, Option, none, some, arith, inl, inr,
  ◌⊎◌, any, if◌then◌else◌, Option-cases, Bool-cases,
}
use rustbond.Collections.Set.{contains}
use rustbond.Collections.Map.{Map}
use rustbond.Types.Address.{IpVersion, Vni}
use rustbond.Types.Convert.{ok}
use rustbond.Wire.Framing.Enough.{Result-cases}
use rustbond.Netlink.Rtnetlink.{Rtnetlink}
use rustbond.Netlink.Config.{
  NetlinkClient, holds, matches_table, matches_protocol, to_delete, delete_all,
  cleanup_routes_for_table, cleanup_tables, cleanup_stale_routes,
}
use rustbond.Netlink.Kernel.{Kernel, complete, CanDelete}
use rustbond.Netlink.Matches.{is_stale, is_shown_in, is_stale_lem}

module _ (nl : Rtnetlink) where
  -- What is collected is what was listed and passes the test, if nothing failed.
  contains-to_delete :
      (test : nl.RouteMessage → Bool) (l : List (Option nl.RouteMessage))
      (routes : List nl.RouteMessage) (x : nl.RouteMessage)
      → to_delete nl test l ≡ ok routes
      → (complete l ≡ true)
        × (contains nl.discrete x routes ≡ (any (holds nl.discrete x) l && test x))
  unfolding to_delete contains
  contains-to_delete test [] routes x h = ground (arith, h)
  contains-to_delete test (none ∷ l) routes x h = ground (arith, h)
  contains-to_delete test (some r ∷ l) routes x h = elim (Result-cases (to_delete nl test l)) [
    | inl (rest, p) ↦ ground (arith, p, h, contains-to_delete test l rest x p)
    | inr (e, p) ↦ ground (arith, p, h)
  ]

  module _ (k : Kernel nl) where
    -- Deleting takes away no other route, and adds none.
    contains-delete_all-other :
        (l : List nl.RouteMessage) (s : nl.State) (x : nl.RouteMessage)
        → contains nl.discrete x l ≡ false
        → contains nl.discrete x (k.routes (delete_all nl l s))
          ≡ contains nl.discrete x (k.routes s)
    unfolding delete_all contains
    contains-delete_all-other [] s x h = refl
    contains-delete_all-other (r ∷ l) s x h = elim (Option-cases (nl.del r s)) [
      | inl d ↦ rw (delete_all, d) (contains-delete_all-other l s x (ground (arith, h)))
      | inr (s', d) ↦
          rw (delete_all, d)
            (ground (arith, h, contains-delete_all-other l s' x, k.del_lem r s s' d x))
    ]

    contains-delete_all :
        CanDelete nl k
        → (l : List nl.RouteMessage) (s : nl.State) (x : nl.RouteMessage)
        → contains nl.discrete x (k.routes (delete_all nl l s))
          ≡ (if contains nl.discrete x l then false else contains nl.discrete x (k.routes s))
    unfolding delete_all contains
    contains-delete_all can [] s x = refl
    contains-delete_all can (r ∷ l) s x = elim (Option-cases (nl.del r s)) [
      | inl d ↦ rw (delete_all, d) (ground (arith, can r s, d, contains-delete_all can l s x))
      | inr (s', d) ↦
          rw (delete_all, d) (ground (arith, contains-delete_all can l s' x, k.del_lem r s s' d x))
    ]

    abbrev is_stale_in : ℕ → nl.RouteMessage → Bool
    is_stale_in t r = matches_table nl t r && matches_protocol nl r

    abbrev has : nl.RouteMessage → nl.State → Bool
    has x s = contains nl.discrete x (k.routes s)

    cleanup_table-other :
        (t : ℕ) (v : IpVersion) (s : nl.State) (x : nl.RouteMessage)
        → is_stale_in t x ≡ false
        → has x (cleanup_routes_for_table nl t v s).0 ≡ has x s
    unfolding cleanup_routes_for_table
    cleanup_table-other t v s x h =
        elim (Result-cases (to_delete nl (is_stale_in t) (nl.get_routes v s))) [
          | inl (routes, p) ↦
              rw (cleanup_routes_for_table, p)
                (contains-delete_all-other routes s x (
                  ground
                    (arith, h, contains-to_delete (is_stale_in t) (nl.get_routes v s) routes x p)))
          | inr (e, p) ↦ rw (cleanup_routes_for_table, p) refl
        ]

    -- What one pass leaves of a route, if it could delete what it collected.
    record IsCleaned (t : ℕ) (v : IpVersion) (s s' : nl.State) (x : nl.RouteMessage) : Type 0 where
      of_family : k.family x ≡ v → has x s' ≡ (if is_stale_in t x then false else has x s)
      no_more : has x s ≡ false → has x s' ≡ false

    cleanup_table-IsCleaned :
        CanDelete nl k
        → (t : ℕ) (v : IpVersion) (s : nl.State) (x : nl.RouteMessage)
        → (cleanup_routes_for_table nl t v s).1 ≡ ok tt
        → IsCleaned t v s (cleanup_routes_for_table nl t v s).0 x
    unfolding cleanup_routes_for_table
    cleanup_table-IsCleaned can t v s x h =
        elim (Result-cases (to_delete nl (is_stale_in t) (nl.get_routes v s))) [
          | inl (routes, p) ↦
              let (all, exact) =
                contains-to_delete (is_stale_in t) (nl.get_routes v s) routes x p in
              let after = contains-delete_all can routes s x in
              rw (cleanup_routes_for_table, p)
                (record {
                  of_family = λ f.
                      ground (arith, all, exact, after, k.listed v s x, k.all_listed v s x all, f);
                  no_more = λ n. ground (arith, after, n);
                })
          | inr (e, p) ↦ ground (arith, h, p)
        ]

    IpVersion-cases : (v : IpVersion) → (v ≡ IpVersion.v4) ⊎ (v ≡ IpVersion.v6)
    IpVersion-cases IpVersion.v4 = inl refl
    IpVersion-cases IpVersion.v6 = inr refl

    both_families :
        (t : ℕ) (s s4 s6 : nl.State) (x : nl.RouteMessage)
        → IsCleaned t IpVersion.v4 s s4 x
        → IsCleaned t IpVersion.v6 s4 s6 x
        → (is_stale_in t x ≡ false → has x s6 ≡ has x s)
        → has x s6 ≡ (if is_stale_in t x then false else has x s)
    both_families t s s4 s6 x c4 c6 same = elim (Bool-cases (is_stale_in t x)) [
      | inr p ↦ ground (arith, p, same p)
      | inl p ↦ elim (IpVersion-cases (k.family x)) [
        | inl f ↦ ground (arith, p, c4.of_family f, c6.no_more)
        | inr f ↦ ground (arith, p, c6.of_family f)
      ]
    ]

    has-cleanup_tables :
        (tables : Map Vni ℕ) (s : nl.State) (x : nl.RouteMessage)
        → is_stale nl tables x ≡ false
        → has x (cleanup_tables nl tables s).0 ≡ has x s
    unfolding cleanup_tables
    has-cleanup_tables [] s x h = refl
    has-cleanup_tables ((vni, t) ∷ tables) s x h =
        let h' : is_stale_in t x ≡ false = ground (arith, h) in
        let rest : is_stale nl tables x ≡ false = ground (arith, h) in
        let s4 = (cleanup_routes_for_table nl t IpVersion.v4 s).0 in
        let s6 = (cleanup_routes_for_table nl t IpVersion.v6 s4).0 in
        ground (
          arith,
          cleanup_table-other t IpVersion.v4 s x h',
          cleanup_table-other t IpVersion.v6 s4 x h',
          has-cleanup_tables tables s6 x rest,
        )

    has-cleanup_tables-ok :
        CanDelete nl k
        → (tables : Map Vni ℕ) (s : nl.State) (x : nl.RouteMessage)
        → (cleanup_tables nl tables s).1 ≡ ok tt
        → has x (cleanup_tables nl tables s).0 ≡ (if is_stale nl tables x then false else has x s)
    unfolding cleanup_tables
    has-cleanup_tables-ok can [] s x h = refl
    has-cleanup_tables-ok can ((vni, t) ∷ tables) s x h =
        let s4 = (cleanup_routes_for_table nl t IpVersion.v4 s).0 in
        let s6 = (cleanup_routes_for_table nl t IpVersion.v6 s4).0 in
        elim (Result-cases (cleanup_routes_for_table nl t IpVersion.v4 s).1) [
          | inr (e, p) ↦ ground (arith, h, p)
          | inl (u, p) ↦ elim (Result-cases (cleanup_routes_for_table nl t IpVersion.v6 s4).1) [
            | inr (e, q) ↦ ground (arith, h, p, q)
            | inl (w, q) ↦ ground (
              arith,
              h,
              p,
              q,
              has-cleanup_tables-ok can tables s6 x,
              both_families t s s4 s6 x (cleanup_table-IsCleaned can t IpVersion.v4 s x p)
                  (cleanup_table-IsCleaned can t IpVersion.v6 s4 x q)
                  (λ n. ground (
                    arith,
                    cleanup_table-other t IpVersion.v4 s x n,
                    cleanup_table-other t IpVersion.v6 s4 x n,
                  )),
            )
          ]
        ]

    -- Whatever fails, `cleanup_stale_routes` keeps every route that has another protocol, or is
    -- neither in a configured table nor in one that the header shows as the low eight bits of a
    -- configured one.
    pub cleanup_stale_routes-keeps :
        (client : NetlinkClient) (s : nl.State) (x : nl.RouteMessage)
        → (is_shown_in nl k client.config.vni_table_map x && matches_protocol nl x) ≡ false
        → has x (cleanup_stale_routes nl client s).0 ≡ has x s
    unfolding cleanup_stale_routes
    cleanup_stale_routes-keeps client s x h =
        has-cleanup_tables client.config.vni_table_map s x
          (rw (is_stale_lem nl k client.config.vni_table_map x) h)

    -- If every route that is there can be deleted and `cleanup_stale_routes` succeeds, it has
    -- taken away exactly the routes of protocol 254 that are in a configured table, or in a table
    -- that the header shows as the low eight bits of a configured one.
    pub cleanup_stale_routes_lem :
        CanDelete nl k
        → (client : NetlinkClient) (s : nl.State) (x : nl.RouteMessage)
        → (cleanup_stale_routes nl client s).1 ≡ ok tt
        → contains nl.discrete x (k.routes (cleanup_stale_routes nl client s).0) ≡ (
            contains nl.discrete x (k.routes s)
            && not (is_shown_in nl k client.config.vni_table_map x && matches_protocol nl x))
    unfolding cleanup_stale_routes
    cleanup_stale_routes_lem can client s x h =
        let tables = client.config.vni_table_map in
        ground (arith, is_stale_lem nl k tables x, has-cleanup_tables-ok can tables s x h)
