-- ===== src/Mitm/Stream/Fifo.antt =====
-- src/mitm/stream.rs: a stream reads the bytes of its channel in order, each once, and writes whole
-- buffers to the other.
use airgap.Prelude.{
  ℕ, zero, suc, ◌+◌, ◌-◌, ◌≤◌, ◌<◌, min, ◌≡◌, ◌≢◌, refl, sym, ap, ◌∙◌, ◌⊎◌, inl, inr, Bool, true,
  false, List, [], ◌∷◌, ◌++◌, Option, none, some, arith, Bytes, Result, ok, err, length, take, drop,
  if◌then◌else◌, leb, Bool-cases, take-append-drop, length-take, length-drop, drop-drop, drop-all,
  append_assoc,
}
use airgap.Mitm.Channels.{Channels, Fifo, Poll, ready, pending}
use airgap.Mitm.Stream.{
  SmoltcpStream, IoError, broken_pipe, copy_rem, read_round, read_rounds, poll_read, write_reserved,
  write_to, poll_write,
}

abbrev pub concat : List Bytes → Bytes
concat [] = []
concat (bs ∷ rest) = bs ++ concat rest

abbrev pub remaining : Option (Bytes × ℕ) → Bytes
remaining none = []
remaining (some (chunk, off)) = drop off chunk

-- A chunk that is kept has a byte left.
abbrev pub Kept : Option (Bytes × ℕ) → Type 0
Kept none = Unit {0}
Kept (some (chunk, off)) = off < length chunk

-- What the proxy has yet to read: the abstract state of the reading side.
abbrev pub unread : (c : Channels) → SmoltcpStream c → Bytes
unread c me = remaining me.read_rem ++ concat (c.queued me.from_net)

split_chunk :
    (chunk : Bytes) (off n : ℕ)
    → drop off chunk
      ≡ take n (drop off chunk)
        ++ remaining (if leb (length chunk) (off + n) then none else some (chunk, off + n))
split_chunk chunk off n = elim (Bool-cases (leb (length chunk) (off + n))) [
  | inl t ↦
      let rest : drop n (drop off chunk) ≡ [] =
        drop-drop off n chunk ∙ drop-all (off + n) chunk (ground arith) in
      rw t (
        sym
          (ap (λ r. take n (drop off chunk) ++ r) (sym rest) ∙ take-append-drop n (drop off chunk)))
  | inr f ↦ rw f (
      sym (
        ap (λ r. take n (drop off chunk) ++ r) (sym (drop-drop off n chunk))
        ∙ take-append-drop n (drop off chunk)))
]

not_empty : (bs : Bytes) → 0 < length bs → bs ≢ []
not_empty [] h e = omega arith
not_empty (b ∷ bs) h e = cc e

Kept-rem :
    (chunk : Bytes) (off n : ℕ)
    → Kept (if leb (length chunk) (off + n) then none else some (chunk, off + n))
Kept-rem chunk off n = elim (Bool-cases (leb (length chunk) (off + n))) [
  | inl t ↦ rw t tt
  | inr f ↦ rw f (ground arith)
]

module _ (c : Channels) where
  -- A read with room for `room` bytes gives a first part of what is unread, and some of it where there is
  -- room and something unread; else it waits, or gives the end.
  abbrev pub Reads : Bytes → ℕ → Option (Poll Bytes) × SmoltcpStream c → Type 0
  Reads before room (none, me') = ⊥
  Reads before room (some pending, me') = (before ≡ []) × (unread c me' ≡ []) × Kept me'.read_rem
  Reads before room (some (ready bs), me') =
      (before ≡ bs ++ unread c me')
      × (length bs ≤ room)
      × ((bs ≢ []) ⊎ ((room ≡ 0) ⊎ (before ≡ [])))
      × Kept me'.read_rem

  copy_rem-Reads :
      (me : SmoltcpStream c) (chunk : Bytes) (off room : ℕ)
      → me.read_rem ≡ some (chunk, off)
      → off < length chunk
      → Reads
          (unread c me)
          room
          (some (ready (copy_rem c me chunk off room).0), (copy_rem c me chunk off room).1)
  unfolding copy_rem
  copy_rem-Reads me chunk off room e k =
      let n = min room (length chunk - off) in
      let size : length (take n (drop off chunk)) ≡ n =
        length-take n (drop off chunk) ∙ omega (arith, length-drop off chunk) in
      (
        ap (λ o. remaining o ++ concat (c.queued me.from_net)) e
            ∙ (ap (λ bs. bs ++ concat (c.queued me.from_net)) (split_chunk chunk off n)
                ∙ append_assoc (take n (drop off chunk)) _ (concat (c.queued me.from_net))),
        omega (arith, size),
        elim (Bool-cases (leb room 0)) [
          | inl t ↦ inr (inl (ground arith))
          | inr f ↦ inl (not_empty (take n (drop off chunk)) (ground (arith, size)))
        ],
        Kept-rem chunk off n,
      )

module _ (c : Channels) (fifo : Fifo c) where
  read_round-Reads :
      (rest : SmoltcpStream c → Option (Poll Bytes) × SmoltcpStream c) (me : SmoltcpStream c)
      (room : ℕ) (rem : Option (Bytes × ℕ)) (p : Poll (Option Bytes)) (r : c.Receiver)
      → me.read_rem ≡ rem
      → c.poll_recv me.from_net ≡ (p, r)
      → Kept rem
      → ((me' : SmoltcpStream c)
          → unread c me' ≡ unread c me
          → Kept me'.read_rem
          → length (c.queued me'.from_net) < length (c.queued me.from_net)
          → Reads c (unread c me') room (rest me'))
      → Reads c (unread c me) room (read_round c rest me room rem (p, r))
  unfolding read_round
  read_round-Reads rest me room (some (chunk, off)) p r e f k ih =
      copy_rem-Reads c me chunk off room e k
  read_round-Reads rest me room none pending r e f k ih =
      let q = fifo.recv_pending me.from_net (ap (λ t. t.0) f) in ground (arith, e, f, q)
  read_round-Reads rest me room none (ready none) r e f k ih =
      let q = fifo.recv_end me.from_net (ap (λ t. t.0) f) in
      let before : unread c me ≡ [] = ground (arith, e, q.0) in
      let behind : unread c (record me { from_net = r }) ≡ [] = ground (arith, e, f, q.1) in
      (before ∙ sym behind, omega arith, inr (inr before), ground (arith, e))
  read_round-Reads rest me room none (ready (some [])) r e f k ih =
      let q = fifo.recv_item me.from_net [] (ap (λ t. t.0) f) ∙ ap (λ t. [] ∷ c.queued t.1) f in
      let same : unread c (record me { from_net = r }) ≡ unread c me = ground (arith, e, q) in
      rw same at
        (ih (record me { from_net = r }) same (ground (arith, e)) (omega (arith, ap length q)))
  read_round-Reads rest me room none (ready (some (b ∷ bs))) r e f k ih =
      let q =
        fifo.recv_item me.from_net (b ∷ bs) (ap (λ t. t.0) f)
        ∙ ap (λ t. (b ∷ bs) ∷ c.queued t.1) f in
      let me' = record me { from_net = r; read_rem = some (b ∷ bs, 0) } in
      let same : unread c me' ≡ unread c me = ground (arith, e, q) in
      rw same at (ih me' same (omega arith) (omega (arith, ap length q)))

  -- With a bound that the queue does not reach, the rounds end with a read.
  read_rounds-Reads :
      (rounds : ℕ) (me : SmoltcpStream c) (room : ℕ)
      → Kept me.read_rem
      → length (c.queued me.from_net) < rounds
      → Reads c (unread c me) room (read_rounds c rounds me room)
  unfolding read_rounds
  read_rounds-Reads zero me room k h = absurd (omega arith)
  read_rounds-Reads (suc rounds) me room k h =
      read_round-Reads (λ me'. read_rounds c rounds me' room) me room me.read_rem
        (c.poll_recv me.from_net).0 (c.poll_recv me.from_net).1 refl refl k
        (λ me' same k' less. read_rounds-Reads rounds me' room k' (omega arith))

  -- Of a stream that keeps no chunk without a byte left, `poll_read` ends: it gives a first part of the
  -- bytes that are unread, which it takes away, within the room of the buffer, and no byte at all only
  -- where there is no room or nothing unread; or it waits, with nothing unread. What it leaves is such
  -- a stream. The channel keeps the order of its items.
  pub poll_read-Reads :
      (me : SmoltcpStream c) (room : ℕ)
      → Kept me.read_rem
      → Reads c (unread c me) room (poll_read c me room)
  unfolding poll_read
  poll_read-Reads me room k =
      read_rounds-Reads (length (c.queued me.from_net) + 1) me room k (omega arith)

  -- What a write that is accepted, or not, leaves of the sender's side.
  abbrev pub Writes : Option c.Sender → Bytes → Poll (Result IoError ℕ) → Option c.Sender → Type 0
  Writes none bytes p s = (p ≡ ready (err broken_pipe)) × (s ≡ none)
  Writes (some s) bytes (ready (ok n)) (some s') =
      (n ≡ length bytes) × (c.passed s' ≡ c.passed s ++ (bytes ∷ []))
  Writes (some s) bytes p (some s') = c.passed s' ≡ c.passed s
  Writes (some s) bytes p none = ⊥

  write_reserved-Writes :
      (me : SmoltcpStream c) (bytes : Bytes) (s : c.Sender) (p : Poll Bool × c.Sender)
      → c.passed p.1 ≡ c.passed s
      → Writes (some s) bytes (write_reserved c me bytes p).0 (write_reserved c me bytes p).1.to_net
  unfolding write_reserved
  write_reserved-Writes me bytes s (pending, s') e = e
  write_reserved-Writes me bytes s (ready false, s') e = e
  write_reserved-Writes me bytes s (ready true, s') e =
      (refl, fifo.send_passed s' bytes ∙ ap (λ q. q ++ (bytes ∷ [])) e)

  write_to-Writes :
      (me : SmoltcpStream c) (bytes : Bytes) (o : Option c.Sender)
      → me.to_net ≡ o
      → Writes o bytes (write_to c me bytes o).0 (write_to c me bytes o).1.to_net
  unfolding write_to
  write_to-Writes me bytes none e = (refl, e)
  write_to-Writes me bytes (some s) e =
      write_reserved-Writes me bytes s (c.poll_reserve s) (fifo.reserve_passed s)

  -- A write is all or nothing: where it succeeds the whole buffer has been sent as one item, else nothing
  -- has, and behind a shutdown it fails. The channel adds what is sent at the end.
  pub poll_write-Writes :
      (me : SmoltcpStream c) (bytes : Bytes)
      → Writes me.to_net bytes (poll_write c me bytes).0 (poll_write c me bytes).1.to_net
  unfolding poll_write
  poll_write-Writes me bytes = write_to-Writes me bytes me.to_net refl
