-- ===== src/Mitm/Stack/Outgoing.antt =====
-- src/mitm/stack.rs: what the proxy writes reaches the socket, in order and each byte once, and the end
-- of the stream comes behind all of it.
use airgap.Prelude.{
  ℕ, zero, suc, ◌+◌, ◌<◌, ◌≡◌, ◌≢◌, not, ◌&&◌, refl, sym, ap, ◌∙◌, ◌⊎◌, inl, inr, [], ◌∷◌, ◌++◌,
  Option, none, some, arith, Bytes, length, take, drop, ltb, Bool-cases, Result-cases,
  take-append-drop, take-all, append_assoc, append-nil,
}
use airgap.Mitm.Channels.{Channels, Fifo, TryRecv, item, empty, disconnected}
use airgap.Mitm.Smoltcp.{Smoltcp, TcpLaws}
use airgap.Mitm.Stream.Fifo.{concat}
use airgap.Mitm.Stack.{
  NetConn, stashed, push_out, flush_pending, pull_round, pull_rounds, send_fin, serve_out,
}

abbrev pub stash : Option Bytes → Bytes
stash none = []
stash (some buf) = buf

-- What the connection has yet to give to its socket.
abbrev pub owed : (c : Channels) → NetConn c → Bytes
owed c conn = stash conn.pending_out ++ concat (c.queued conn.from_app)

module _ (c : Channels) (t : Smoltcp) where
  -- Everything that the proxy has written, sent or not.
  abbrev pub written : t.Socket × NetConn c → Bytes
  written (sock, conn) = t.sent sock ++ owed c conn

  -- A step changes neither what was written nor the flags.
  abbrev pub Keeps : t.Socket × NetConn c → t.Socket × NetConn c → Type 0
  Keeps before behind = (written behind ≡ written before) × (behind.1.sent_fin ≡ before.1.sent_fin)

module _ (c : Channels) (t : Smoltcp) (laws : TcpLaws t) where
  push_out-sent :
      (sock : t.Socket) (conn : NetConn c) (buf : Bytes)
      → t.sent (push_out c t sock conn buf).0 ++ stash (push_out c t sock conn buf).1.pending_out
        ≡ t.sent sock ++ buf
  unfolding push_out stashed
  push_out-sent sock conn buf = elim (Bool-cases (t.can_send sock)) [
    | inr f ↦ rw f refl
    | inl h ↦ elim (Result-cases (t.send_slice sock buf).0) [
      | inr (e, p) ↦ rw (h, p, laws.send_err sock buf e p) refl
      | inl (n, p) ↦
          let (fits, s) = laws.send_ok sock buf n p in
          elim (Bool-cases (ltb n (length buf))) [
            | inl part ↦
                rw (h, p, part, s)
                  (append_assoc (t.sent sock) (take n buf) (drop n buf)
                    ∙ ap (◌++◌ (t.sent sock)) (take-append-drop n buf))
            | inr whole ↦
                rw (h, p, whole, s)
                  (append-nil (t.sent sock ++ take n buf)
                    ∙ ap (◌++◌ (t.sent sock)) (take-all n buf (ground arith)))
          ]
    ]
  ]

  push_out-fields :
      (sock : t.Socket) (conn : NetConn c) (buf : Bytes)
      → ((push_out c t sock conn buf).1.from_app ≡ conn.from_app)
        × ((push_out c t sock conn buf).1.sent_fin ≡ conn.sent_fin)
  unfolding push_out
  push_out-fields sock conn buf = elim (Bool-cases (t.can_send sock)) [
    | inl h ↦ rw h (refl, refl)
    | inr f ↦ rw f (refl, refl)
  ]

  push_out-Keeps :
      (sock : t.Socket) (conn : NetConn c) (buf : Bytes)
      → (written c t (push_out c t sock conn buf)
          ≡ t.sent sock ++ (buf ++ concat (c.queued conn.from_app)))
        × ((push_out c t sock conn buf).1.sent_fin ≡ conn.sent_fin)
  push_out-Keeps sock conn buf =
      let (r, s) = push_out-fields sock conn buf in
      let q = concat (c.queued conn.from_app) in
      (
        sym (
              append_assoc (t.sent (push_out c t sock conn buf).0)
                (stash (push_out c t sock conn buf).1.pending_out)
                (concat (c.queued (push_out c t sock conn buf).1.from_app)))
            ∙ (ap
                  (λ x.
                    (t.sent (push_out c t sock conn buf).0
                      ++ stash (push_out c t sock conn buf).1.pending_out)
                    ++ concat (c.queued x))
                  r
                ∙ (ap (λ x. x ++ q) (push_out-sent sock conn buf)
                    ∙ append_assoc (t.sent sock) buf q)),
        s,
      )

  flush_pending-Keeps :
      (sock : t.Socket) (conn : NetConn c) (o : Option Bytes)
      → conn.pending_out ≡ o
      → Keeps c t (sock, conn) (flush_pending c t sock conn o)
  unfolding flush_pending
  flush_pending-Keeps sock conn none e = (refl, refl)
  flush_pending-Keeps sock conn (some buf) e =
      let (w, f) = push_out-Keeps sock (record conn { pending_out = none }) buf in
      (w ∙ ap (λ o. t.sent sock ++ (stash o ++ concat (c.queued conn.from_app))) (sym e), f)

module _ (c : Channels) (t : Smoltcp) where
  -- The socket has taken all that it can, or there is nothing more.
  abbrev pub Drained : NetConn c → Type 0
  Drained conn = (conn.pending_out ≢ none) ⊎ (c.queued conn.from_app ≡ [])

  abbrev pub Pulled : t.Socket × NetConn c → t.Socket × NetConn c → Type 0
  Pulled before behind = Keeps c t before behind × Drained behind.1

module _ (c : Channels) (t : Smoltcp) (fifo : Fifo c) (laws : TcpLaws t) where
  pull_round-Pulled :
      (rest : t.Socket × NetConn c → t.Socket × NetConn c) (sock : t.Socket) (conn : NetConn c)
      (o : Option Bytes) (a : TryRecv) (r : c.Receiver)
      → conn.pending_out ≡ o
      → c.try_recv conn.from_app ≡ (a, r)
      → ((next : t.Socket × NetConn c)
          → length (c.queued next.1.from_app) < length (c.queued conn.from_app)
          → Keeps c t (sock, conn) next
          → Pulled c t (sock, conn) (rest next))
      → Pulled c t (sock, conn) (pull_round c t rest sock conn o (a, r))
  unfolding pull_round
  pull_round-Pulled rest sock conn (some buf) a r e f ih = ((refl, refl), inl (λ q. cc (e, q)))
  pull_round-Pulled rest sock conn none (item buf) r e f ih =
      let q = fifo.try_item conn.from_app buf (ap (λ p. p.0) f) ∙ ap (λ p. buf ∷ c.queued p.1) f in
      let next = push_out c t sock (record conn { from_app = r }) buf in
      let (w, fin) = push_out-Keeps c t laws sock (record conn { from_app = r }) buf in
      let same = (push_out-fields c t laws sock (record conn { from_app = r }) buf).0 in
      let before : written c t (sock, conn) ≡ t.sent sock ++ (buf ++ concat (c.queued r)) =
        ground (arith, e, q) in
      ih next (omega (arith, ap length q, ap (λ x. length (c.queued x)) same)) (w ∙ sym before, fin)
  pull_round-Pulled rest sock conn none empty r e f ih =
      let q = fifo.try_empty conn.from_app (ap (λ p. p.0) f) in
      let q' : c.queued r ≡ [] = sym (ap (λ p. c.queued p.1) f) ∙ q.1 in
      ((ground (arith, q.0, q'), refl), inr q')
  pull_round-Pulled rest sock conn none disconnected r e f ih =
      let q = fifo.try_disconnected conn.from_app (ap (λ p. p.0) f) in
      let q' : c.queued r ≡ [] = sym (ap (λ p. c.queued p.1) f) ∙ q.1 in
      ((ground (arith, q.0, q'), refl), inr q')

  pull_rounds-Pulled :
      (rounds : ℕ) (sock : t.Socket) (conn : NetConn c)
      → length (c.queued conn.from_app) < rounds
      → Pulled c t (sock, conn) (pull_rounds c t rounds (sock, conn))
  unfolding pull_rounds
  pull_rounds-Pulled zero sock conn h = absurd (omega arith)
  pull_rounds-Pulled (suc rounds) sock conn h =
      pull_round-Pulled (λ next. pull_rounds c t rounds next) sock conn conn.pending_out
        (c.try_recv conn.from_app).0 (c.try_recv conn.from_app).1 refl refl
        (λ next less k.
          let (k', d) = pull_rounds-Pulled rounds next.0 next.1 (omega arith) in
          ((k'.0 ∙ k.0, k'.1 ∙ k.1), d))

  -- What the servicing of the proxy's side leaves.
  abbrev pub ServedOut : t.Socket × NetConn c → t.Socket × NetConn c → Type 0
  ServedOut before behind =
      (written c t behind ≡ written c t before)
      × Drained c t behind.1
      × ((behind.1.sent_fin ≡ before.1.sent_fin) ⊎ (owed c behind.1 ≡ []))

  send_fin-ServedOut :
      (before : t.Socket × NetConn c) (sock : t.Socket) (conn : NetConn c) (o : Option Bytes)
      → conn.pending_out ≡ o
      → Pulled c t before (sock, conn)
      → ServedOut before (send_fin c t sock conn o)
  unfolding send_fin
  send_fin-ServedOut before sock conn (some buf) e ((w, f), d) = (w, d, inl f)
  send_fin-ServedOut before sock conn none e ((w, f), d) =
      let empty_queue : c.queued conn.from_app ≡ [] = elim d [
        | inl ne ↦ absurd (ne e)
        | inr q ↦ q
      ] in
      elim (Bool-cases (conn.app_write_closed && not conn.sent_fin)) [
        | inr no_fin ↦ rw no_fin (w, d, inl f)
        | inl fin ↦ rw fin (
          ap (λ x. x ++ owed c conn) (laws.close_sent sock) ∙ w,
          d,
          inr (ground (arith, e, empty_queue)),
        )
      ]

  -- The servicing of the proxy's side ends, and neither loses, doubles nor reorders a byte: what the
  -- socket has taken to send and what the connection still owes it are together what they were. It
  -- stops only where the socket has left bytes over or the proxy has no more, and the end of the
  -- stream is sent only where nothing is owed. The channel and the socket behave as documented.
  pub serve_out-ServedOut :
      (sock : t.Socket) (conn : NetConn c) → ServedOut (sock, conn) (serve_out c t sock conn)
  unfolding serve_out
  serve_out-ServedOut sock conn =
      let flushed = flush_pending c t sock conn conn.pending_out in
      let k = flush_pending-Keeps c t laws sock conn conn.pending_out refl in
      let rounds = length (c.queued flushed.1.from_app) + 1 in
      let pulled = pull_rounds c t rounds flushed in
      let (k', d) = pull_rounds-Pulled rounds flushed.0 flushed.1 (omega arith) in
      send_fin-ServedOut (sock, conn) pulled.0 pulled.1 pulled.1.pending_out refl
        ((k'.0 ∙ k.0, k'.1 ∙ k.1), d)
