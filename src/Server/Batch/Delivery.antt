-- ===== src/Server/Batch/Delivery.antt =====
-- What a peer reads of the batches that src/server.rs writes to it.
use rustbond.Prelude.{
  ℕ, zero, suc, ◌≤◌, ◌≡◌, refl, sym, ap, ◌∙◌, List, [], ◌∷◌, ◌++◌, map, arith, inl, inr, length,
  All,
}
use mathlib.Core.List.{append_assoc}
use rustbond.Types.Address.{IpNetLib}
use rustbond.Types.Proto.{Prost}
use rustbond.Types.Convert.{Done, ok}
use rustbond.Wire.Message.{Message}
use rustbond.Wire.Codec.{encode}
use rustbond.Wire.Codec.RoundTrip.{IsMessage, received, encode_lem}
use rustbond.Wire.Framing.{and_then, process_reads, handle_all}
use rustbond.Wire.Framing.Enough.{Result-cases}
use rustbond.Wire.Framing.Chunks.{joined}
use rustbond.Wire.Framing.Chunks.Stream.{encode_all, process_reads-encode_all}
use rustbond.Server.Batch.{collect_more, collect_batch, encode_batch, write_batches}

collect_more_lem :
    {M : Type 0} (n : ℕ) (queue : List M)
    → ((collect_more n queue).0 ++ (collect_more n queue).1 ≡ queue)
      × (length (collect_more n queue).1 ≤ length queue)
      × (length (collect_more n queue).0 ≤ n)
unfolding collect_more
collect_more_lem zero queue = (refl, omega arith, omega arith)
collect_more_lem (suc n) [] = (refl, omega arith, omega arith)
collect_more_lem (suc n) (msg ∷ queue) =
    let (same, fewer, short) = collect_more_lem n queue in
    (ap (λ q. msg ∷ q) same, omega (arith, fewer), omega (arith, short))

module _ (lib : IpNetLib) (prost : Prost) where
  open lib use {IpNet}

  encode_batch-append :
      (xs ys : List (Message IpNet))
      → encode_batch lib prost (xs ++ ys) ≡ encode_batch lib prost xs ++ encode_batch lib prost ys
  unfolding encode_batch
  encode_batch-append [] ys = refl
  encode_batch-append (msg ∷ xs) ys = elim (Result-cases (encode lib prost msg)) [
    | inl (bytes, p) ↦
        rw (p, encode_batch)
          (ap (λ b. bytes ++ b) (encode_batch-append xs ys) ∙ sym (append_assoc bytes _ _))
    | inr (e, p) ↦ rw (p, encode_batch) (encode_batch-append xs ys)
  ]

  -- Messages in range are all written.
  encode_all-encode_batch :
      (msgs : List (Message IpNet))
      → All (IsMessage lib prost) msgs
      → encode_all lib prost msgs ≡ ok (encode_batch lib prost msgs)
  unfolding encode_all encode_batch
  encode_all-encode_batch [] i = refl
  encode_all-encode_batch (msg ∷ msgs) (first, i) =
      let (bytes, p, low, high) = encode_lem lib prost msg first in
      rw (encode_batch, p, encode_all, encode_all-encode_batch msgs i) refl

  joined-write_batches :
      (n : ℕ) (queue : List (Message IpNet))
      → length queue ≤ n
      → joined (write_batches lib prost n queue) ≡ encode_batch lib prost queue
  unfolding write_batches collect_batch encode_batch
  joined-write_batches zero [] h = refl
  joined-write_batches zero (msg ∷ queue) h = ground (arith, h)
  joined-write_batches (suc n) [] h = refl
  joined-write_batches (suc n) (msg ∷ queue) h =
      let (batch, rest) = collect_more 999 queue in
      let (same, fewer, short) = collect_more_lem 999 queue in
      let later = joined-write_batches n rest (omega (arith, h, fewer)) in
      ap (λ b. encode_batch lib prost (msg ∷ batch) ++ b) later
      ∙ sym (encode_batch-append (msg ∷ batch) rest)
      ∙ ap (λ q. encode_batch lib prost (msg ∷ q)) same

  -- What waits in a peer's channel, each message within the ranges of its types, is written in
  -- batches, for which as many rounds as there are messages are enough: the message loop at the
  -- other end handles exactly what it sees of these messages, a target VNI of 0 being seen as
  -- none, in their order, as far as no handler fails, and if none fails, nothing is left in its
  -- buffer.
  pub process_reads-write_batches :
      {S : Type 0} (handle : S → Message IpNet → S × Done) (queue : List (Message IpNet)) (s : S)
      → All (IsMessage lib prost) queue
      → process_reads lib prost handle (write_batches lib prost (length queue) queue) [] s
        ≡ and_then
            (handle_all lib prost handle (map (received lib prost) queue) s)
            (λ s'. (s', ok []))
  process_reads-write_batches handle queue s i =
      let all = joined-write_batches (length queue) queue (omega arith) in
      process_reads-encode_all lib prost handle queue (write_batches lib prost (length queue) queue)
        s i (encode_all-encode_batch queue i ∙ ap ok (sym all))

  -- No write has more than a thousand messages.
  pub collect_batch-bounds :
      {M : Type 0} (msg : M) (queue : List M) → length (collect_batch msg queue).0 ≤ 1000
  unfolding collect_batch
  collect_batch-bounds msg queue = omega (arith, collect_more_lem 999 queue)
