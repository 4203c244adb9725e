-- ===== src/Examples/Program.antt =====
-- `main` and `run_client` of examples/client.rs, but for what they print. Between its calls the
-- peers' tasks change the peers: `tasks k` is what they do before the call of that number.
use Prim.Native.String.{String}
use rustbond.Prelude.{ℕ, suc, ◌+◌, ◌*◌, List, [], ◌∷◌, Option, none, some, length}
use rustbond.Collections.Map.{Map}
use rustbond.Types.Address.{IpNetLib, Vni, Destination, NextHop, ConnectionState}
use rustbond.Types.Convert.{Error, Done, ok, err}
use rustbond.Client.Tracker.{ServerId}
use rustbond.Client.Api.{Handle, Client, subscribe, announce}
use rustbond.Client.Wait.{Wake, wait_established_timeout}
use rustbond.Client.Connect.{connect, shutdown}
use rustbond.Netlink.Rtnetlink.{Rtnetlink}
use rustbond.Netlink.Config.{NetlinkClient, new, cleanup_stale_routes}
use rustbond.Text.{Text}
use rustbond.Types.Display.{AddressText}
use rustbond.Examples.Announcement.{
  Refusal, parsed, refused, parse_announcement, parse_vni_table_map,
}

-- `Box<dyn std::error::Error>`: a text that was refused, or an error of the library.
pub data Failure : Type 0 where
  refusal : Refusal → Failure
  failure : Error → Failure

pub data Outcome (A : Type 0) : Type 0 where
  done : A → Outcome A
  failed : Failure → Outcome A

abbrev pub Peers : Type 0 → Type 0
Peers N = Map ServerId (Handle N)

-- The client after the peers' tasks have run.
abbrev pub meanwhile : {N : Type 0} → (Peers N → Peers N) → Client N → Client N
meanwhile f c = record c { peers = f c.peers }

-- The kernel's routes before the client runs, with `netlink_client`.
unfoldable pub set_up_netlink :
    (nl : Rtnetlink) → List Text → String → nl.State → nl.State × Outcome (Option NetlinkClient)
set_up_netlink nl [] tun s = (s, done none)
set_up_netlink nl (mapping ∷ mappings) tun s = elim (parse_vni_table_map (mapping ∷ mappings)) [
  | refused e ↦ (s, failed (refusal e))
  | parsed table_map ↦ elim (new nl (record { vni_table_map = table_map; link_name = tun }) s) [
    | err e ↦ (s, failed (failure e))
    | ok client ↦
        let (s', cleaned) = cleanup_stale_routes nl client s in
        elim cleaned [ err e ↦ (s', failed (failure e)) | ok _ ↦ (s', done (some client)) ]
  ]
]

module _ {ip : IpNetLib} (text : AddressText ip) (tasks : ℕ → Peers ip.IpNet → Peers ip.IpNet) where
  -- An announcement that was read: the outcome of the subscription is not looked at.
  unfoldable pub announce_one :
      ℕ → Client ip.IpNet → Vni × Destination ip.IpNet × NextHop → Client ip.IpNet × Done
  announce_one k c (vni, destination, next_hop) =
      let subscribed = (subscribe (meanwhile (tasks k) c) vni).0 in
      announce ip.discrete (meanwhile (tasks (suc k)) subscribed) vni destination next_hop

  -- The loop over the announcements, from the next call.
  unfoldable pub announce_each : ℕ → Client ip.IpNet → List Text → Client ip.IpNet × Done
  unfolding announce_one
  announce_each k c [] = (c, ok tt)
  announce_each k c (announcement ∷ announcements) = elim (parse_announcement text announcement) [
    | refused e ↦ announce_each k c announcements
    | parsed route ↦
        let (c', announced) = announce_one k c route in
        elim announced [ err e ↦ (c', err e) | ok _ ↦ announce_each (suc (suc k)) c' announcements ]
  ]

  -- What follows on a connection.
  unfoldable pub run_connected : Client ip.IpNet → Vni → List Text → Client ip.IpNet × Done
  unfolding announce_each
  run_connected c vni announcements =
      let (c', subscribed) = subscribe (meanwhile (tasks 0) c) vni in
      elim subscribed [
        | err e ↦ (c', err e)
        | ok _ ↦
            let (c'', announced) = announce_each 1 c' announcements in
            elim announced [
              | err e ↦ (c'', err e)
              | ok _ ↦
                  let (peers, stopped) =
                    shutdown (tasks (1 + 2 * length announcements) c''.peers) in
                  (record c'' { peers = peers }, stopped)
            ]
      ]

  -- None for the panic without a server. The states and changes are those that the program waits on.
  unfoldable pub run_client :
      List String
      → Vni
      → List Text
      → List ConnectionState
      → List Wake
      → Option (Client ip.IpNet × Done)
  unfolding run_connected
  run_client servers vni announcements states wakes = elim (connect servers) [
    | none ↦ none
    | some m ↦ elim (wait_established_timeout states wakes) [
      | err e ↦ some (m.client, err e)
      | ok _ ↦ some (run_connected m.client vni announcements)
    ]
  ]
