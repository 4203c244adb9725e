-- ===== src/Server/Batch.antt =====
-- The batched writer of `handle_peer` in src/server.rs: what it takes from the peer's channel, and
-- the bytes that it writes.
pub mod Delivery
use rustbond.Prelude.{ℕ, zero, suc, List, [], ◌∷◌, ◌++◌}
use rustbond.Types.Address.{IpNetLib}
use rustbond.Types.Proto.{Prost}
use rustbond.Types.Convert.{Result, ok, err}
use rustbond.Wire.Message.{Message}
use rustbond.Wire.Codec.{encode}

-- The loop `while batch.len() < 1000`, by how many messages the batch has room for: what `try_recv`
-- gives, and what stays in the channel.
unfoldable pub collect_more {ℓ} : {M : Type ℓ} → ℕ → List M → List M × List M
collect_more zero queue = ([], queue)
collect_more (suc n) [] = ([], [])
collect_more (suc n) (msg ∷ queue) = let (batch, rest) = collect_more n queue in (msg ∷ batch, rest)

-- The batch that starts with the message that `recv` has given.
unfoldable pub collect_batch {ℓ} : {M : Type ℓ} → M → List M → List M × List M
unfolding collect_more
collect_batch msg queue = let (batch, rest) = collect_more 999 queue in (msg ∷ batch, rest)

module _ (lib : IpNetLib) (prost : Prost) where
  open lib use {IpNet}

  -- One buffer for the batch; a message that cannot be encoded is left out.
  unfoldable pub encode_batch : List (Message IpNet) → List ℕ
  encode_batch [] = []
  encode_batch (msg ∷ batch) = elim (encode lib prost msg) [
    | ok encoded ↦ encoded ++ encode_batch batch
    | err e ↦ encode_batch batch
  ]

  -- The messages of a batch that are in its buffer.
  unfoldable pub sendable : List (Message IpNet) → List (Message IpNet)
  sendable [] = []
  sendable (msg ∷ batch) = elim (encode lib prost msg) [
    | ok encoded ↦ msg ∷ sendable batch
    | err e ↦ sendable batch
  ]

  -- The writes of the main loop while messages wait in the channel and nothing else happens. Each
  -- takes a message at least, so fuel for each message is enough.
  unfoldable pub write_batches : ℕ → List (Message IpNet) → List (List ℕ)
  unfolding collect_batch
  write_batches zero queue = []
  write_batches (suc n) [] = []
  write_batches (suc n) (msg ∷ queue) =
      let (batch, rest) = collect_batch msg queue in encode_batch batch ∷ write_batches n rest
