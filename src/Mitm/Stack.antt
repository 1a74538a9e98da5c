-- ===== src/Mitm/Stack.antt =====
-- src/mitm/stack.rs: the connections of the stack. `serve_conn` is the body of the loop of
-- `service_conns`.
pub mod Outgoing
pub mod Incoming
pub mod Loop
pub mod Round
pub mod Handles
pub mod Promotion
pub mod Service
pub mod Running
pub mod Backlog
use airgap.Prelude.{
  ℕ, zero, suc, ◌+◌, Bool, true, false, not, ◌&&◌, ◌||◌, [], ◌∷◌, Option, none, some, if◌then◌else◌,
  ltb, Bytes, Result, ok, err, length, drop,
}
use airgap.Mitm.Channels.{
  Channels, TryRecv, item, empty, disconnected, TryReserve, permit, full, closed,
}
use airgap.Mitm.Smoltcp.{Smoltcp, TcpState, SocketError}

abbrev pub chunk_size : ℕ
chunk_size = 2048

pub record NetConn (c : Channels) : Type 0 where
  pub to_app : Option c.Sender
  pub from_app : c.Receiver
  pub pending_out : Option Bytes
  pub app_write_closed : Bool
  pub sent_fin : Bool
  pub established : Bool

unfoldable pub new_conn : (c : Channels) → c.Sender → c.Receiver → NetConn c
new_conn c to_app from_app = record {
  to_app = some to_app;
  from_app = from_app;
  pending_out = none;
  app_write_closed = false;
  sent_fin = false;
  established = false;
}

module _ (c : Channels) (t : Smoltcp) where
  -- What `push_out` stashes of a buffer, by the answer of the socket.
  unfoldable pub stashed : Bytes → Result SocketError ℕ → Option Bytes
  stashed buf (ok n) = if ltb n (length buf) then some (drop n buf) else none
  stashed buf (err e) = some buf

  -- `push_out`, on a connection that has nothing stashed.
  unfoldable pub push_out : t.Socket → NetConn c → Bytes → t.Socket × NetConn c
  unfolding stashed
  push_out sock conn buf =
      if t.can_send sock
      then (
        (t.send_slice sock buf).1,
        record conn { pending_out = stashed buf (t.send_slice sock buf).0 },
      )
      else (sock, record conn { pending_out = some buf })

  unfoldable pub flush_pending : t.Socket → NetConn c → Option Bytes → t.Socket × NetConn c
  unfolding push_out
  flush_pending sock conn none = (sock, conn)
  flush_pending sock conn (some buf) = push_out sock (record conn { pending_out = none }) buf

  -- A round of the loop that takes the proxy's buffers, of what is stashed and what the channel gives.
  unfoldable pub pull_round :
      (t.Socket × NetConn c → t.Socket × NetConn c)
      → t.Socket
      → NetConn c
      → Option Bytes
      → TryRecv × c.Receiver
      → t.Socket × NetConn c
  unfolding push_out
  pull_round rest sock conn (some buf) received = (sock, conn)
  pull_round rest sock conn none (item buf, r) =
      rest (push_out sock (record conn { from_app = r }) buf)
  pull_round rest sock conn none (empty, r) = (sock, record conn { from_app = r })
  pull_round rest sock conn none (disconnected, r) =
      (sock, record conn { from_app = r; app_write_closed = true })

  unfoldable pub pull_rounds : ℕ → t.Socket × NetConn c → t.Socket × NetConn c
  unfolding pull_round
  pull_rounds zero (sock, conn) = (sock, conn)
  pull_rounds (suc rounds) (sock, conn) =
      pull_round (λ next. pull_rounds rounds next) sock conn conn.pending_out
        (c.try_recv conn.from_app)

  -- The end of the stream towards the peer, once everything is out.
  unfoldable pub send_fin : t.Socket → NetConn c → Option Bytes → t.Socket × NetConn c
  send_fin sock conn (some buf) = (sock, conn)
  send_fin sock conn none =
      if conn.app_write_closed && not conn.sent_fin
      then (t.close sock, record conn { sent_fin = true })
      else (sock, conn)

  -- Proxy to stack. Every round takes a buffer but the last.
  unfoldable pub serve_out : t.Socket → NetConn c → t.Socket × NetConn c
  unfolding flush_pending pull_rounds send_fin
  serve_out sock conn =
      let (sock', conn') = flush_pending sock conn conn.pending_out in
      let (sock'', conn'') = pull_rounds (length (c.queued conn'.from_app) + 1) (sock', conn') in
      send_fin sock'' conn'' conn''.pending_out

  -- A round of the loop that hands chunks to the proxy: of whether there is something to receive, the
  -- sender, its answer, and a chunk. The flag of the result says that the proxy is gone.
  unfoldable pub chunk_round :
      (t.Socket → c.Sender → t.Socket × (Option c.Sender × Bool))
      → c.Sender
      → Result SocketError Bytes × t.Socket
      → t.Socket × (Option c.Sender × Bool)
  chunk_round rest s (err e, sock) = (sock, (some s, false))
  chunk_round rest s (ok [], sock) = (sock, (some s, false))
  chunk_round rest s (ok (b ∷ bs), sock) = rest sock (c.send_item s (b ∷ bs))

  unfoldable pub reserve_round :
      (t.Socket → c.Sender → t.Socket × (Option c.Sender × Bool))
      → t.Socket
      → c.Sender
      → TryReserve
      → t.Socket × (Option c.Sender × Bool)
  unfolding chunk_round
  reserve_round rest sock s permit = chunk_round rest s (t.recv sock chunk_size)
  reserve_round rest sock s full = (sock, (some s, false))
  reserve_round rest sock s closed = (sock, (some s, true))

  unfoldable pub hand_rounds : ℕ → t.Socket → c.Sender → t.Socket × (Option c.Sender × Bool)
  unfolding reserve_round
  hand_rounds zero sock s = (sock, (some s, false))
  hand_rounds (suc rounds) sock s =
      let round =
        reserve_round (λ sock' s'. hand_rounds rounds sock' s') sock s (c.try_reserve s) in
      if t.can_recv sock then round else (sock, (some s, false))

  -- Stack to proxy. Every round takes a byte but the last.
  unfoldable pub hand_over : t.Socket → Option c.Sender → t.Socket × (Option c.Sender × Bool)
  unfolding hand_rounds
  hand_over sock none = (sock, (none, false))
  hand_over sock (some s) = hand_rounds (length (t.unread sock) + 1) sock s

  unfoldable pub serve_in : t.Socket → NetConn c → t.Socket × NetConn c
  unfolding hand_over
  serve_in sock conn =
      let (sock', (to_app, proxy_gone)) = hand_over sock conn.to_app in
      let sock'' = if proxy_gone then t.abort sock' else sock' in
      let open_end = if proxy_gone then none else to_app in
      (
        sock'',
        record conn {
          to_app = if conn.established && not (t.may_recv sock'') then none else open_end;
        },
      )

  -- A connection whose socket is closed behind the servicing is reaped.
  unfoldable pub reaped : t.Socket × NetConn c → TcpState → t.Socket × Option (NetConn c)
  reaped (sock, conn) TcpState.closed = (sock, none)
  reaped (sock, conn) state = (sock, some conn)

  unfoldable pub serve_conn : t.Socket → NetConn c → t.Socket × Option (NetConn c)
  unfolding serve_out serve_in reaped
  serve_conn sock conn =
      let established = conn.established || t.may_send sock in
      let (sock', conn') = serve_out sock (record conn { established = established }) in
      let (sock'', conn'') = serve_in sock' conn' in reaped (sock'', conn'') (t.state sock'')
