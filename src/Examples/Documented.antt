-- ===== src/Examples/Documented.antt =====
-- The announcements of examples/client.rs in the format that it documents, from the texts to the
-- announced routes.
use rustbond.Prelude.{ℕ, ◌^◌, ◌<◌, ◌≡◌, refl, ap, ◌∙◌, true, ◌||◌, List, [], ◌∷◌, map, All, any}
use rustbond.Types.Address.{IpNetLib, Vni, NextHop}
use rustbond.Types.Convert.{ok}
use rustbond.Types.Convert.RoundTrip.{IsOctets}
use rustbond.Client.Api.{Client}
use rustbond.Client.Api.Announce.{any_ready}
use rustbond.Text.{Text}
use rustbond.Types.Display.{AddressText}
use rustbond.Examples.Written.{IsWritten, written, parse_announcement-written}
use rustbond.Examples.Program.{Peers, announce_each}
use rustbond.Examples.Announced.{
  LeavesReady, Meant, meant, is_same, is_known, all_new, announce_each-outcome,
  announce_each-routes,
}

-- A route, and the parts of the text that say which next hop it has.
pub record Announcement (N : Type 0) : Type 0 where
  pub vni : Vni
  pub prefix : N
  pub hop : NextHop
  pub options : List Text

abbrev pub IsAnnouncement : {N : Type 0} → Announcement N → Type 0
IsAnnouncement a =
    (a.vni < 2 ^ 32) × IsOctets 16 a.hop.target_address.octets × IsWritten a.hop a.options

abbrev pub route_of : {N : Type 0} → Announcement N → Meant N
route_of a = (a.vni, record { prefix = a.prefix }, a.hop)

module _ {ip : IpNetLib} (text : AddressText ip) where
  abbrev pub text_of : Announcement ip.IpNet → Text
  text_of a = written text a.vni a.prefix a.hop.target_address a.options

  meant-text :
      (items : List (Announcement ip.IpNet))
      → All IsAnnouncement items
      → meant text (map text_of items) ≡ map route_of items
  meant-text [] _ = refl
  meant-text (a ∷ items) ((small, octets, h), hs) =
      rw (parse_announcement-written text a.vni a.prefix a.hop a.options small octets h, meant)
        (ap (λ routes. route_of a ∷ routes) (meant-text items hs))

  -- If announcements are written in the documented format, each of their routes is new when it
  -- comes, and some peer is established and takes commands and stays so, then the loop over the
  -- announcements ends without an error, and exactly the routes from before and those of the
  -- announcements are announced.
  pub announce_each-documented :
      (tasks : ℕ → Peers ip.IpNet → Peers ip.IpNet) (k : ℕ) (c : Client ip.IpNet)
      (items : List (Announcement ip.IpNet))
      → All IsAnnouncement items
      → LeavesReady tasks
      → any_ready c.peers ≡ true
      → all_new text (is_known text c) (map route_of items) ≡ true
      → let after = announce_each text tasks k c (map text_of items) in
        (after.1 ≡ ok tt)
        × ((q : Meant ip.IpNet)
            → is_known text after.0 q
              ≡ (any (λ r. is_same text r q) (map route_of items) || is_known text c q))
  announce_each-documented tasks k c items valid leaves ready new =
      let routes = meant-text items valid in
      let outcome = announce_each-outcome text tasks k c (map text_of items) leaves ready in
      let good : (announce_each text tasks k c (map text_of items)).1 ≡ ok tt =
        outcome ∙ rw (routes, new) refl in
      (
        good,
        λ q.
            announce_each-routes text tasks k c (map text_of items) q good
            ∙ ap (λ rs. any (λ r. is_same text r q) rs || is_known text c q) routes,
      )
