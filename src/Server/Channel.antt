-- ===== src/Server/Channel.antt =====
-- The crate `tokio`'s bounded `mpsc` channels, as far as the routing actor uses them: the sending
-- half, with what the channel holds at the moment.
use rustbond.Prelude.{ℕ, ◌≡◌, ◌≢◌, List, [], ◌∷◌, ◌++◌}

-- The outcomes of `try_send`: `Ok(())`, `Err(TrySendError::Full(_))`, `Err(TrySendError::Closed(_))`.
pub data TrySend : Type 0 where
  sent full closed : TrySend

pub record Mpsc (M : Type 0) : Type 1 where
  pub Sender : Type 0
  -- `mpsc::channel(n)`, by its sender
  pub channel : ℕ → Sender
  pub try_send : Sender → M → TrySend × Sender
  -- The messages that the receiver has yet to take, the oldest first.
  pub queued : Sender → List M
  pub queued-channel : (n : ℕ) → queued (channel n) ≡ []
  pub try_send-sent :
      (tx : Sender) (m : M)
      → (try_send tx m).0 ≡ sent
      → queued (try_send tx m).1 ≡ queued tx ++ (m ∷ [])
  pub try_send-not_sent :
      (tx : Sender) (m : M) → (try_send tx m).0 ≢ sent → queued (try_send tx m).1 ≡ queued tx
