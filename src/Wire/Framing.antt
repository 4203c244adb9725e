-- ===== src/Wire/Framing.antt =====
-- The loop `while !msg_buf.is_empty()` of `run_connection` in src/peer.rs and of `handle_peer` in
-- src/server.rs, which takes the complete messages from the front of the buffer. The handler of a
-- message returns a new state, and whether it failed.
pub mod Enough
pub mod Chunks
pub mod Keeps
use rustbond.Prelude.{ℕ, zero, suc, List, [], ◌∷◌, ◌++◌, length, drop, if◌then◌else◌}
use rustbond.Types.Address.{IpNetLib}
use rustbond.Types.Proto.{Prost}
use rustbond.Types.Convert.{Error, protocol, Reason, Result, Done, ok, err}
use rustbond.Wire.Message.{Message}
use rustbond.Wire.Codec.{decode}
use rustbond.Wire.Codec.Extend.{is_incomplete}

-- The `?` after a handler: the rest is done if it has not failed.
abbrev pub and_then {ℓ κ} : {S : Type ℓ} {A : Type κ} → S × Done → (S → S × Result A) → S × Result A
and_then (s, ok done) rest = rest s
and_then (s, err e) rest = (s, err e)

-- The same after the loop, with what it left in the buffer.
abbrev pub proceed_with {ℓ} :
    {S : Type ℓ} → S × Result (List ℕ) → (List ℕ → S → S × Result (List ℕ)) → S × Result (List ℕ)
proceed_with (s, ok left) rest = rest left s
proceed_with (s, err e) rest = (s, err e)

module _ (lib : IpNetLib) (prost : Prost) {S : Type 0}
    (handle : S → Message (IpNetLib.IpNet lib) → S × Done) where
  -- The state and what is left in the buffer. A message takes four bytes at least, so fuel for each
  -- byte is enough.
  unfoldable pub process_fuel : ℕ → List ℕ → S → S × Result (List ℕ)
  process_fuel zero buf s = (s, ok buf)
  process_fuel (suc n) [] s = (s, ok [])
  process_fuel (suc n) (b ∷ bs) s = elim (decode lib prost (b ∷ bs)) [
    | ok (msg, consumed) ↦ and_then (handle s msg) (process_fuel n (drop consumed (b ∷ bs)))
    | err e ↦ if is_incomplete e then (s, ok (b ∷ bs)) else (s, err e)
  ]

  unfoldable pub process : List ℕ → S → S × Result (List ℕ)
  unfolding process_fuel
  process buf s = process_fuel (length buf) buf s

  -- The bytes that arrive, read by read: `msg_buf.extend_from_slice(..)`, then the loop.
  unfoldable pub process_reads : List (List ℕ) → List ℕ → S → S × Result (List ℕ)
  process_reads [] buf s = (s, ok buf)
  process_reads (chunk ∷ chunks) buf s =
      proceed_with (process (buf ++ chunk) s) (process_reads chunks)

  -- The messages one after the other, until a handler fails.
  unfoldable pub handle_all : List (Message (IpNetLib.IpNet lib)) → S → S × Done
  handle_all [] s = (s, ok tt)
  handle_all (msg ∷ msgs) s = and_then (handle s msg) (handle_all msgs)
