-- ===== src/Mitm/Channels.antt =====
-- What src/mitm uses of tokio's bounded channels of byte vectors: a parameter, with what is documented
-- of it. The sender and the receiver of a channel have a state of their own.
use airgap.Prelude.{◌≡◌, Bool, List, [], ◌∷◌, ◌++◌, Option, none, some, Bytes}

-- `Poll<T>`.
pub data Poll {ℓ} (A : Type ℓ) : Type ℓ where
  ready : A → Poll A
  pending : Poll A

-- `try_recv` and `try_reserve`.
pub data TryRecv : Type 0 where
  item : Bytes → TryRecv
  empty disconnected : TryRecv

pub data TryReserve : Type 0 where
  permit full closed : TryReserve

-- `poll_reserve` says whether the channel is still open. `queued` is what a receiver has not taken,
-- and `passed` what a sender has sent.
pub record Channels : Type 1 where
  pub Sender : Type 0
  pub Receiver : Type 0
  pub poll_recv : Receiver → Poll (Option Bytes) × Receiver
  pub try_recv : Receiver → TryRecv × Receiver
  pub poll_reserve : Sender → Poll Bool × Sender
  pub try_reserve : Sender → TryReserve
  pub send_item : Sender → Bytes → Sender
  pub queued : Receiver → List Bytes
  pub passed : Sender → List Bytes

-- A receiver gives the items in their order, and says that there is none, or none to come, only when
-- it has none. A sender adds what it sends at the end.
pub record Fifo (c : Channels) : Type 0 where
  pub recv_item :
      (r : c.Receiver) (bs : Bytes)
      → (c.poll_recv r).0 ≡ Poll.ready (some bs)
      → c.queued r ≡ bs ∷ c.queued (c.poll_recv r).1
  pub recv_end :
      (r : c.Receiver)
      → (c.poll_recv r).0 ≡ Poll.ready none
      → (c.queued r ≡ []) × (c.queued (c.poll_recv r).1 ≡ [])
  pub recv_pending :
      (r : c.Receiver)
      → (c.poll_recv r).0 ≡ Poll.pending
      → (c.queued r ≡ []) × (c.queued (c.poll_recv r).1 ≡ [])
  pub try_item :
      (r : c.Receiver) (bs : Bytes)
      → (c.try_recv r).0 ≡ TryRecv.item bs
      → c.queued r ≡ bs ∷ c.queued (c.try_recv r).1
  pub try_empty :
      (r : c.Receiver)
      → (c.try_recv r).0 ≡ TryRecv.empty
      → (c.queued r ≡ []) × (c.queued (c.try_recv r).1 ≡ [])
  pub try_disconnected :
      (r : c.Receiver)
      → (c.try_recv r).0 ≡ TryRecv.disconnected
      → (c.queued r ≡ []) × (c.queued (c.try_recv r).1 ≡ [])
  pub reserve_passed : (s : c.Sender) → c.passed (c.poll_reserve s).1 ≡ c.passed s
  pub send_passed :
      (s : c.Sender) (bs : Bytes) → c.passed (c.send_item s bs) ≡ c.passed s ++ (bs ∷ [])
