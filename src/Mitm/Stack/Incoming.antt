-- ===== src/Mitm/Stack/Incoming.antt =====
-- src/mitm/stack.rs: what a socket receives reaches the proxy, in order and in chunks that are not
-- empty and of a bounded size.
use airgap.Prelude.{
  ℕ, zero, suc, ◌+◌, ◌≤◌, ◌<◌, ◌≡◌, refl, sym, ap, ◌∙◌, inl, inr, Bool, true, false, List, [], ◌∷◌,
  ◌++◌, Option, none, some, arith, All, Bytes, Result, ok, err, length, Bool-cases, append_assoc,
  append-nil, length-append, ◌⊎◌,
}
use airgap.Mitm.Channels.{Channels, Fifo, TryReserve, permit, full, closed}
use airgap.Mitm.Smoltcp.{Smoltcp, TcpLaws, SocketError}
use airgap.Mitm.Stream.Fifo.{concat}
use airgap.Mitm.Stack.{chunk_size, chunk_round, reserve_round, hand_rounds, hand_over}

abbrev pub Chunk : Bytes → Type 0
Chunk bs = (0 < length bs) × (length bs ≤ chunk_size)

module _ (c : Channels) (t : Smoltcp) where
  -- Why the rounds have ended, by whether the proxy is gone.
  abbrev pub Ended : t.Socket → c.Sender → Bool → Type 0
  Ended sock s true = c.try_reserve s ≡ closed
  Ended sock s false =
      (t.can_recv sock ≡ false)
      ⊎ ((c.try_reserve s ≡ full)
          ⊎ ((before : t.Socket) × ((t.recv before chunk_size ≡ (ok [], sock))
                ⊎ ((e : SocketError) × (t.recv before chunk_size ≡ (err e, sock))))))

  -- What was handed over is a first part of what the socket had received.
  abbrev pub Handed : t.Socket → Option c.Sender → t.Socket × (Option c.Sender × Bool) → Type 0
  Handed sock none (sock', (o, gone)) = (sock' ≡ sock) × (o ≡ none) × (gone ≡ false)
  Handed sock (some s) (sock', (none, gone)) = ⊥
  Handed sock (some s) (sock', (some s', gone)) =
      (items : List Bytes) × (c.passed s' ≡ c.passed s ++ items)
      × (t.unread sock ≡ concat items ++ t.unread sock')
      × All Chunk items
      × (t.sent sock' ≡ t.sent sock)
      × Ended sock' s' gone

module _ (c : Channels) (t : Smoltcp) (fifo : Fifo c) (laws : TcpLaws t) where
  stopped_before :
      (sock next : t.Socket) (s : c.Sender) (gone : Bool)
      → t.unread sock ≡ t.unread next
      → t.sent next ≡ t.sent sock
      → Ended c t next s gone
      → Handed c t sock (some s) (next, (some s, gone))
  stopped_before sock next s gone u k end = ([], sym (append-nil (c.passed s)), u, tt, k, end)

  with_first :
      (sock next : t.Socket) (s : c.Sender) (bs : Bytes) (r : t.Socket × (Option c.Sender × Bool))
      → t.unread sock ≡ bs ++ t.unread next
      → t.sent next ≡ t.sent sock
      → Chunk bs
      → Handed c t next (some (c.send_item s bs)) r
      → Handed c t sock (some s) r
  with_first sock next s bs (sock', (none, gone)) u k size h = h
  with_first sock next s bs (sock', (some s', gone)) u k size (items, p, v, a, m, end) = (
    bs ∷ items,
    p ∙ (ap (λ x. x ++ items) (fifo.send_passed s bs) ∙ append_assoc (c.passed s) (bs ∷ []) items),
    u ∙ (ap (◌++◌ bs) v ∙ sym (append_assoc bs (concat items) (t.unread sock'))),
    (size, a),
    m ∙ k,
    end,
  )

  recv-sent :
      (sock : t.Socket) (a : Result SocketError Bytes) (next : t.Socket)
      → t.recv sock chunk_size ≡ (a, next)
      → t.sent next ≡ t.sent sock
  recv-sent sock a next q = sym (ap (λ p. t.sent p.1) q) ∙ laws.recv_sent sock chunk_size

  recv-Chunk :
      (sock : t.Socket) (bs : Bytes) (next : t.Socket)
      → t.recv sock chunk_size ≡ (ok bs, next)
      → (t.unread sock ≡ bs ++ t.unread next) × (length bs ≤ chunk_size)
  recv-Chunk sock bs next q =
      let (u, size) = laws.recv_ok sock chunk_size bs (ap (λ p. p.0) q) in
      (u ∙ ap (λ p. bs ++ t.unread p.1) q, size)

  chunk_round-Handed :
      (rest : t.Socket → c.Sender → t.Socket × (Option c.Sender × Bool)) (sock : t.Socket)
      (s : c.Sender) (a : Result SocketError Bytes) (next : t.Socket)
      → t.recv sock chunk_size ≡ (a, next)
      → ((sock' : t.Socket) (s' : c.Sender)
          → length (t.unread sock') < length (t.unread sock)
          → Handed c t sock' (some s') (rest sock' s'))
      → Handed c t sock (some s) (chunk_round c t rest s (a, next))
  unfolding chunk_round
  chunk_round-Handed rest sock s (err e) next q ih =
      stopped_before sock next s false
        (sym (laws.recv_err sock chunk_size e (ap (λ p. p.0) q)) ∙ ap (λ p. t.unread p.1) q)
        (recv-sent sock (err e) next q) (inr (inr (sock, inr (e, q))))
  chunk_round-Handed rest sock s (ok []) next q ih =
      stopped_before sock next s false (recv-Chunk sock [] next q).0 (recv-sent sock (ok []) next q)
        (inr (inr (sock, inl q)))
  chunk_round-Handed rest sock s (ok (b ∷ bs)) next q ih =
      let (u, size) = recv-Chunk sock (b ∷ bs) next q in
      with_first sock next s (b ∷ bs) (rest next (c.send_item s (b ∷ bs))) u
        (recv-sent sock (ok (b ∷ bs)) next q) (ground arith, size)
        (ih next (c.send_item s (b ∷ bs))
          (ground (arith, ap length u, length-append (b ∷ bs) (t.unread next))))

  reserve_round-Handed :
      (rest : t.Socket → c.Sender → t.Socket × (Option c.Sender × Bool)) (sock : t.Socket)
      (s : c.Sender) (a : TryReserve)
      → c.try_reserve s ≡ a
      → ((sock' : t.Socket) (s' : c.Sender)
          → length (t.unread sock') < length (t.unread sock)
          → Handed c t sock' (some s') (rest sock' s'))
      → Handed c t sock (some s) (reserve_round c t rest sock s a)
  unfolding reserve_round
  reserve_round-Handed rest sock s permit q ih =
      chunk_round-Handed rest sock s (t.recv sock chunk_size).0 (t.recv sock chunk_size).1 refl ih
  reserve_round-Handed rest sock s full q ih =
      stopped_before sock sock s false refl refl (inr (inl q))
  reserve_round-Handed rest sock s closed q ih = stopped_before sock sock s true refl refl q

  hand_rounds-Handed :
      (rounds : ℕ) (sock : t.Socket) (s : c.Sender)
      → length (t.unread sock) < rounds
      → Handed c t sock (some s) (hand_rounds c t rounds sock s)
  unfolding hand_rounds
  hand_rounds-Handed zero sock s h = absurd (omega arith)
  hand_rounds-Handed (suc rounds) sock s h = elim (Bool-cases (t.can_recv sock)) [
    | inl can ↦ rw can (
        reserve_round-Handed (λ sock' s'. hand_rounds c t rounds sock' s') sock s (c.try_reserve s)
          refl (λ sock' s' less. hand_rounds-Handed rounds sock' s' (omega arith)))
    | inr cannot ↦ rw cannot (stopped_before sock sock s false refl refl (inl cannot))
  ]

  -- The servicing of the peer's side ends, and what it hands to the proxy and what stays in the socket
  -- are together, in order, what the socket had received. Every buffer handed over has between 1 and
  -- 2048 bytes, and nothing is sent meanwhile. It stops only where the socket has nothing to receive or
  -- gave nothing, the proxy's channel is full, or the proxy is gone, which the flag says; without a
  -- sender it does nothing. The channel and the socket behave as documented.
  pub hand_over-Handed :
      (sock : t.Socket) (o : Option c.Sender) → Handed c t sock o (hand_over c t sock o)
  unfolding hand_over
  hand_over-Handed sock none = (refl, refl, refl)
  hand_over-Handed sock (some s) =
      hand_rounds-Handed (length (t.unread sock) + 1) sock s (omega arith)
