-- ===== src/Mitm/Stack/Round.antt =====
-- src/mitm/stack.rs and src/mitm/dns.rs: a round of the stack's loop.
use airgap.Prelude.{
  ℕ, zero, suc, ◌+◌, List, [], ◌∷◌, Option, none, some, if◌then◌else◌, Bytes, Result, ok, err,
  length,
}
use airgap.Mitm.Channels.{Channels}
use airgap.Mitm.Smoltcp.{Smoltcp, SocketError, Stored, tcp, udp}
use airgap.Mitm.Stack.Loop.{Stack, ensure_listeners, promote_listeners, service_conns}
use airgap.Mitm.Dns.{build_response}
use airgap.Mitm.Tun.{ReadResult, drain}

module _ (t : Smoltcp) where
  unfoldable pub respond : t.Udp → ℕ → Option Bytes → t.Udp
  respond u endpoint none = u
  respond u endpoint (some resp) = t.udp_send u resp endpoint

  -- A round of the loop over the datagrams, of what is received.
  unfoldable pub answer_round : (t.Udp → t.Udp) → Result SocketError (Bytes × ℕ) × t.Udp → t.Udp
  unfolding respond
  answer_round rest (err e, u) = u
  answer_round rest (ok (query, endpoint), u) = rest (respond u endpoint (build_response query))

  unfoldable pub answer_rounds : ℕ → t.Udp → t.Udp
  unfolding answer_round
  answer_rounds zero u = u
  answer_rounds (suc rounds) u =
      let round = answer_round (λ u'. answer_rounds rounds u') (t.udp_recv u) in
      if t.udp_can_recv u then round else u

  -- `service` of the name server. Every round takes a datagram but the last.
  unfoldable pub answer_stored : t.Sockets → ℕ → Option (Stored t.Socket t.Udp) → Option t.Sockets
  unfolding answer_rounds
  answer_stored ss h (some (udp u)) =
      some (t.put ss h (udp (answer_rounds (length (t.udp_queued u) + 1) u)))
  answer_stored ss h (some (tcp sock)) = none
  answer_stored ss h none = none

module _ (c : Channels) (t : Smoltcp) (open_channel : ℕ → c.Sender × c.Receiver) where
  unfoldable pub drained : Stack c t → List ReadResult → Stack c t
  unfolding drain
  drained s reads =
      let tun = drain (record { inbox = s.inbox; wanted = s.wanted_ports }) reads in
      record s { inbox = tun.inbox; wanted_ports = tun.wanted }

  unfoldable pub polled : Stack c t → Stack c t
  polled s = record s {
    sockets = (t.poll s.sockets s.inbox).0;
    inbox = (t.poll s.sockets s.inbox).1;
  }

  unfoldable pub answered : Stack c t → Option (Stack c t)
  unfolding answer_stored
  answered s = elim (answer_stored t s.sockets s.dns (t.get s.sockets s.dns)) [
    | none ↦ none
    | some ss ↦ some (record s { sockets = ss })
  ]

  -- A round of `run`, of what the reads of the device give. `none` is a panic.
  unfoldable pub run_round : Stack c t → List ReadResult → Option (Stack c t)
  unfolding drained polled answered ensure_listeners promote_listeners service_conns
  run_round s reads =
      let s' = polled (ensure_listeners c t open_channel (drained s reads)) in
      elim (answered s') [
        | none ↦ none
        | some a ↦ elim (promote_listeners c t open_channel a) [
          | none ↦ none
          | some p ↦ elim (service_conns c t open_channel p) [
            | none ↦ none
            | some q ↦ some (polled (ensure_listeners c t open_channel q))
          ]
        ]
      ]

  -- The rounds, of what the reads of each give.
  unfoldable pub run : Stack c t → List (List ReadResult) → Option (Stack c t)
  unfolding run_round
  run s [] = some s
  run s (reads ∷ later) = elim (run_round s reads) [ none ↦ none | some s' ↦ run s' later ]

  -- `Stack::new` and `StubDns::add`, of an empty set of sockets and a bound UDP socket.
  unfoldable pub bare_stack : t.Sockets → t.Udp → Stack c t
  bare_stack ss u = record {
    sockets = (t.add ss (udp u)).1;
    dns = (t.add ss (udp u)).0;
    listeners = [];
    conns = [];
    wanted_ports = 443 ∷ [];
    inbox = [];
    opened = 0;
    new_conns = [];
  }

  unfoldable pub new_stack : t.Sockets → t.Udp → Stack c t
  unfolding bare_stack ensure_listeners
  new_stack ss u = ensure_listeners c t open_channel (bare_stack ss u)
