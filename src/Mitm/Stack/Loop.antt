-- ===== src/Mitm/Stack/Loop.antt =====
-- src/mitm/stack.rs: the rounds of the loop over all sockets: listeners, promotion, and servicing. A
-- handle that names no socket of its kind makes the program panic, which `none` stands for.
use airgap.Prelude.{
  ℕ, zero, suc, ◌+◌, ◌-◌, List, [], ◌∷◌, ◌++◌, map, Option, none, some, if◌then◌else◌, Bytes, ◌==◌,
  nat_eq,
}
use airgap.Prelude.Assoc.{Assoc}
use airgap.Prelude.Assoc
use airgap.Mitm.Channels.{Channels}
use airgap.Mitm.Smoltcp.{Smoltcp, TcpState, Stored, tcp, udp}
use airgap.Mitm.Stream.{SmoltcpStream, new_stream}
use airgap.Mitm.Stack.{NetConn, new_conn, serve_conn}

abbrev pub listen_backlog : ℕ
listen_backlog = 8

-- `open_channel` makes the channels, counted by `opened`; `new_conns` is what the proxy was sent.
pub record Stack (c : Channels) (t : Smoltcp) : Type 0 where
  pub sockets : t.Sockets
  pub dns : ℕ
  pub listeners : List (ℕ × ℕ)
  pub conns : Assoc ℕ (NetConn c)
  pub wanted_ports : List ℕ
  pub inbox : List Bytes
  pub opened : ℕ
  pub new_conns : List (SmoltcpStream c × ℕ)

module _ (c : Channels) (t : Smoltcp) (open_channel : ℕ → c.Sender × c.Receiver) where
  abbrev pub have : List (ℕ × ℕ) → ℕ → ℕ
  have [] port = 0
  have ((h, p) ∷ ls) port = let rest = have ls port in if p == port then suc rest else rest

  -- A listener for a port, where the socket can listen.
  unfoldable pub add_listener : Stack c t → ℕ → Option t.Socket → Stack c t
  add_listener s port none = s
  add_listener s port (some sock) = record s {
    sockets = (t.add s.sockets (tcp sock)).1;
    listeners = s.listeners ++ (((t.add s.sockets (tcp sock)).0, port) ∷ []);
  }

  unfoldable pub add_listeners : ℕ → Stack c t → ℕ → Stack c t
  unfolding add_listener
  add_listeners zero s port = s
  add_listeners (suc n) s port = add_listeners n (add_listener s port (t.listening port)) port

  unfoldable pub ensure_ports : Stack c t → List ℕ → Stack c t
  unfolding add_listeners
  ensure_ports s [] = s
  ensure_ports s (port ∷ ports) =
      ensure_ports (add_listeners (listen_backlog - have s.listeners port) s port) ports

  unfoldable pub ensure_listeners : Stack c t → Stack c t
  unfolding ensure_ports
  ensure_listeners s = ensure_ports s s.wanted_ports

  -- A connection for a listener that has accepted one, and its stream for the proxy.
  unfoldable pub promoted : Stack c t → ℕ → ℕ → Stack c t
  unfolding new_conn new_stream
  promoted s h port =
      let (to_app, from_net) = open_channel s.opened in
      let (to_net, from_app) = open_channel (s.opened + 1) in
      record s {
        conns = Assoc.insert s.conns h (new_conn c to_app from_app);
        opened = s.opened + 2;
        new_conns = s.new_conns ++ ((new_stream c from_net to_net, port) ∷ []);
      }

  -- What the loop does with a listener, by the state of its socket; `rest` is the loop over the
  -- listeners behind it, with those that are kept.
  unfoldable pub promote_one :
      (Stack c t → List (ℕ × ℕ) → Option (Stack c t))
      → Stack c t
      → List (ℕ × ℕ)
      → ℕ × ℕ
      → TcpState
      → Option (Stack c t)
  unfolding promoted
  promote_one rest s kept (h, port) TcpState.listen = rest s (kept ++ ((h, port) ∷ []))
  promote_one rest s kept (h, port) TcpState.closed =
      rest (record s { sockets = t.remove s.sockets h }) kept
  promote_one rest s kept (h, port) TcpState.active = rest (promoted s h port) kept

  unfoldable pub promote_stored :
      (Stack c t → List (ℕ × ℕ) → Option (Stack c t))
      → Stack c t
      → List (ℕ × ℕ)
      → ℕ × ℕ
      → Option (Stored t.Socket t.Udp)
      → Option (Stack c t)
  unfolding promote_one
  promote_stored rest s kept l (some (tcp sock)) = promote_one rest s kept l (t.state sock)
  promote_stored rest s kept l (some (udp u)) = none
  promote_stored rest s kept l none = none

  unfoldable pub promote_from : List (ℕ × ℕ) → Stack c t → List (ℕ × ℕ) → Option (Stack c t)
  unfolding promote_stored
  promote_from [] s kept = some (record s { listeners = kept })
  promote_from (l ∷ ls) s kept =
      promote_stored (λ s' kept'. promote_from ls s' kept') s kept l (t.get s.sockets l.0)

  unfoldable pub promote_listeners : Stack c t → Option (Stack c t)
  unfolding promote_from
  promote_listeners s = promote_from s.listeners s []

  -- What is left of a connection that was served.
  unfoldable pub served : Stack c t → ℕ → t.Socket × Option (NetConn c) → Stack c t
  served s h (sock, none) = record s {
    sockets = t.remove s.sockets h;
    conns = Assoc.remove s.conns h;
  }
  served s h (sock, some conn) = record s {
    sockets = t.put s.sockets h (tcp sock);
    conns = Assoc.insert s.conns h conn;
  }

  unfoldable pub serve_found : Stack c t → ℕ → t.Socket → Option (NetConn c) → Stack c t
  unfolding served
  serve_found s h sock none = s
  serve_found s h sock (some conn) = served s h (serve_conn c t sock conn)

  unfoldable pub serve_stored :
      (Stack c t → Option (Stack c t))
      → Stack c t
      → ℕ
      → Option (Stored t.Socket t.Udp)
      → Option (Stack c t)
  unfolding serve_found
  serve_stored rest s h (some (tcp sock)) = rest (serve_found s h sock (Assoc.lookup s.conns h))
  serve_stored rest s h (some (udp u)) = none
  serve_stored rest s h none = none

  unfoldable pub serve_handles : List ℕ → Stack c t → Option (Stack c t)
  unfolding serve_stored
  serve_handles [] s = some s
  serve_handles (h ∷ hs) s = serve_stored (λ s'. serve_handles hs s') s h (t.get s.sockets h)

  unfoldable pub service_conns : Stack c t → Option (Stack c t)
  unfolding serve_handles
  service_conns s = serve_handles (map (λ e. e.0) s.conns) s
