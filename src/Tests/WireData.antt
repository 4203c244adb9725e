-- ===== src/Tests/WireData.antt =====
-- Well-formed values for the theorems on the wire format.
use rustbond.Prelude.{ℕ, ◌≡◌, refl, List, [], ◌∷◌, ◌++◌, arith, suc, All}
use rustbond.Types.Address.{IpAddr, Action, Destination}
use rustbond.Types.Convert.{
  Done, ok, action_number, proto_destination, proto_next_hop, hop_type_number, vni_or_zero,
}
use rustbond.Types.Convert.RoundTrip.{IsOctets, IsNextHop, IsPrefix}
use rustbond.Wire.Message.{Message, message_type}
use rustbond.Wire.Codec.{encode, encode_payload, type_number}
use rustbond.Wire.Codec.RoundTrip.{IsMessage}
use rustbond.Wire.Framing.Chunks.{joined}
use rustbond.Wire.Framing.Chunks.Stream.{encode_all}
use rustbond.Tests.Data.{host, hop, nets, codes}

abbrev pub prefix : IpAddr × ℕ
prefix = (IpAddr.v6 (host 1), 64)

abbrev pub network : Destination (IpAddr × ℕ)
network = record { prefix = prefix }

pub host-IsOctets : IsOctets 16 (host 1).octets
host-IsOctets = (
  refl,
  (
    omega arith,
    (
      omega arith,
      (
        omega arith,
        (
          omega arith,
          (
            omega arith,
            (
              omega arith,
              (
                omega arith,
                (
                  omega arith,
                  (
                    omega arith,
                    (
                      omega arith,
                      (
                        omega arith,
                        (
                          omega arith,
                          (omega arith, (omega arith, (omega arith, (omega arith, tt)))),
                        ),
                      ),
                    ),
                  ),
                ),
              ),
            ),
          ),
        ),
      ),
    ),
  ),
)

pub hop-IsNextHop : IsNextHop (hop 1)
unfolding vni_or_zero
hop-IsNextHop = record {
  address = host-IsOctets;
  vni = omega arith;
  from = omega arith;
  to = omega arith;
}

pub prefix-IsPrefix : IsPrefix nets prefix
prefix-IsPrefix = record { address = host-IsOctets; bits = omega arith }

abbrev pub announcement : Message (IpAddr × ℕ)
announcement = Message.update Action.add 7 network (hop 1)

pub announcement-IsMessage : IsMessage nets codes announcement
announcement-IsMessage = (omega arith, prefix-IsPrefix, hop-IsNextHop)

abbrev pub messages : List (Message (IpAddr × ℕ))
messages = Message.subscribe 7 ∷ announcement ∷ []

pub messages-IsMessage : All (IsMessage nets codes) messages
messages-IsMessage = (omega arith, (announcement-IsMessage, tt))

abbrev pub announcement_bytes : List ℕ
announcement_bytes =
    1 ∷ 0 ∷ 41 ∷ 5 ∷ 0 ∷ 7 ∷ 1 ∷ 64 ∷ 0 ∷ 0 ∷ 0 ∷ 0 ∷ 16 ∷ ((host 1).octets ++ (host 1).octets)

-- The bytes of both messages, cut in the middle of the first and of the second.
abbrev pub reads_of : List (List ℕ)
reads_of =
    (1 ∷ 0 ∷ 1 ∷ [])
    ∷ (3 ∷ 7 ∷ 1 ∷ 0 ∷ [])
    ∷ (41 ∷ 5 ∷ 0 ∷ 7 ∷ 1 ∷ 64 ∷ 0 ∷ 0 ∷ 0 ∷ 0 ∷ 16 ∷ ((host 1).octets ++ (host 1).octets))
    ∷ []

pub encode-announcement : encode nets codes announcement ≡ ok announcement_bytes
unfolding encode encode_payload message_type type_number action_number proto_destination
    proto_next_hop hop_type_number
encode-announcement = refl

pub encode_all-messages : encode_all nets codes messages ≡ ok (joined reads_of)
unfolding encode_all encode encode_payload message_type type_number action_number proto_destination
    proto_next_hop hop_type_number
encode_all-messages = refl

-- A handler that counts the messages.
abbrev pub count : ℕ → Message (IpAddr × ℕ) → ℕ × Done
count n msg = (suc n, ok tt)
