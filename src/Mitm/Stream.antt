-- ===== src/Mitm/Stream.antt =====
-- src/mitm/stream.rs: the proxy's end of a connection.
pub mod Fifo
use airgap.Prelude.{
  ℕ, zero, suc, ◌+◌, ◌-◌, min, Bool, true, false, List, [], ◌∷◌, Option, none, some, if◌then◌else◌,
  leb, Bytes, Result, ok, err, length, take, drop,
}
use airgap.Mitm.Channels.{Channels, Poll, ready, pending}

-- The one error of a write.
pub data IoError : Type 0 where
  broken_pipe : IoError

-- `wakes` counts how often the stack's loop was woken.
pub record SmoltcpStream (c : Channels) : Type 0 where
  pub from_net : c.Receiver
  pub to_net : Option c.Sender
  pub wakes : ℕ
  pub read_rem : Option (Bytes × ℕ)

module _ (c : Channels) where
  -- The stream half of `channel`.
  unfoldable pub new_stream : c.Receiver → c.Sender → SmoltcpStream c
  new_stream r s = record { from_net = r; to_net = some s; wakes = 0; read_rem = none }

  -- What a read takes of a chunk whose first `off` bytes were read, with room for `room` bytes.
  unfoldable pub copy_rem : SmoltcpStream c → Bytes → ℕ → ℕ → Bytes × SmoltcpStream c
  copy_rem me chunk off room =
      let n = min room (length chunk - off) in
      (
        take n (drop off chunk),
        record me {
          read_rem = if leb (length chunk) (off + n) then none else some (chunk, off + n);
        },
      )

  -- One round of the loop of `poll_read`, of what is kept and of what the channel gives; `rest` is
  -- the rounds behind it.
  unfoldable pub read_round :
      (SmoltcpStream c → Option (Poll Bytes) × SmoltcpStream c)
      → SmoltcpStream c
      → ℕ
      → Option (Bytes × ℕ)
      → Poll (Option Bytes) × c.Receiver
      → Option (Poll Bytes) × SmoltcpStream c
  unfolding copy_rem
  read_round rest me room (some (chunk, off)) received =
      let (bs, me') = copy_rem me chunk off room in (some (ready bs), me')
  read_round rest me room none (pending, r) = (some pending, record me { from_net = r })
  read_round rest me room none (ready none, r) = (some (ready []), record me { from_net = r })
  read_round rest me room none (ready (some []), r) = rest (record me { from_net = r })
  read_round rest me room none (ready (some (b ∷ bs)), r) =
      rest (record me { from_net = r; read_rem = some (b ∷ bs, 0) })

  -- The loop, with a bound on its rounds. A bound that is met is told as `none`.
  unfoldable pub read_rounds : ℕ → SmoltcpStream c → ℕ → Option (Poll Bytes) × SmoltcpStream c
  unfolding read_round
  read_rounds zero me room = (none, me)
  read_rounds (suc rounds) me room =
      read_round (λ me'. read_rounds rounds me' room) me room me.read_rem (c.poll_recv me.from_net)

  -- Every round but the last takes an item, and the last copies or finds none.
  unfoldable pub poll_read : SmoltcpStream c → ℕ → Option (Poll Bytes) × SmoltcpStream c
  unfolding read_rounds
  poll_read me room = read_rounds (length (c.queued me.from_net) + 1) me room

  -- What a write makes of the answer of its sender.
  unfoldable pub write_reserved :
      SmoltcpStream c → Bytes → Poll Bool × c.Sender → Poll (Result IoError ℕ) × SmoltcpStream c
  write_reserved me bytes (pending, s) = (pending, record me { to_net = some s })
  write_reserved me bytes (ready false, s) =
      (ready (err broken_pipe), record me { to_net = some s })
  write_reserved me bytes (ready true, s) = (
    ready (ok (length bytes)),
    record me { to_net = some (c.send_item s bytes); wakes = me.wakes + 1 },
  )

  unfoldable pub write_to :
      SmoltcpStream c → Bytes → Option c.Sender → Poll (Result IoError ℕ) × SmoltcpStream c
  unfolding write_reserved
  write_to me bytes none = (ready (err broken_pipe), me)
  write_to me bytes (some sender) = write_reserved me bytes (c.poll_reserve sender)

  unfoldable pub poll_write : SmoltcpStream c → Bytes → Poll (Result IoError ℕ) × SmoltcpStream c
  unfolding write_to
  poll_write me bytes = write_to me bytes me.to_net

  unfoldable pub poll_shutdown : SmoltcpStream c → SmoltcpStream c
  poll_shutdown me = record me { to_net = none; wakes = me.wakes + 1 }
