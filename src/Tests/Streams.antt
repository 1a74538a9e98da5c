-- ===== src/Tests/Streams.antt =====
-- src/mitm/stream.rs and src/mitm/stack.rs: channels and sockets that are lists.
use airgap.Prelude.{
  ℕ, suc, ◌+◌, ◌≤◌, ◌≡◌, refl, sym, ap, ◌∙◌, true, false, List, [], ◌∷◌, ◌++◌, none, some, arith,
  min, Bytes, ok, length, take, drop, if◌then◌else◌, nat_eq, contains, nat_beq_iff, length-take,
  take-append-drop,
}
use airgap.Prelude.Assoc.{Assoc, lookup-insert, lookup-remove}
use airgap.Prelude.Assoc
use airgap.Mitm.Channels.{Channels, Fifo, ready, pending, TryRecv, item, empty, permit}
use airgap.Mitm.Stream.{SmoltcpStream, poll_read}
use airgap.Mitm.Stream.Fifo.{Reads, unread, poll_read-Reads}
use airgap.Mitm.Smoltcp.{Smoltcp, TcpLaws, SetLaws, TcpState, Stored}
use airgap.Mitm.Stack.{NetConn, serve_out, hand_over}
use airgap.Mitm.Stack.Outgoing.{ServedOut, serve_out-ServedOut}
use airgap.Mitm.Stack.Incoming.{Handed, hand_over-Handed}
use airgap.Mitm.Stack.Loop.{Stack, have, ensure_listeners}
use airgap.Mitm.Stack.Round.{run, new_stack}
use airgap.Mitm.Stack.Handles.{Sound}
use airgap.Mitm.Stack.Running.{run-new_stack-Sound}
use airgap.Mitm.Stack.Backlog.{lacking, ensure_listeners-have}
use airgap.Mitm.Tun.{ReadResult, packet, would_block}

-- A sender is what it has sent, and a receiver what it has not taken.
abbrev channels : Channels
channels = record {
  Sender = List Bytes;
  Receiver = List Bytes;
  poll_recv = λ r. elim r [ [] ↦ (pending, []) | bs ∷ r' ↦ (ready (some bs), r') ];
  try_recv = λ r. elim r [ [] ↦ (empty, []) | bs ∷ r' ↦ (item bs, r') ];
  poll_reserve = λ s. (ready true, s);
  try_reserve = λ s. permit;
  send_item = λ s bs. s ++ (bs ∷ []);
  queued = λ r. r;
  passed = λ s. s;
}

recv_item_list :
    (r : List Bytes) (bs : Bytes)
    → (channels.poll_recv r).0 ≡ ready (some bs)
    → r ≡ bs ∷ (channels.poll_recv r).1
recv_item_list [] bs h = cc
recv_item_list (b ∷ r) bs h = cc

recv_end_list :
    (r : List Bytes)
    → (channels.poll_recv r).0 ≡ ready none
    → (r ≡ []) × ((channels.poll_recv r).1 ≡ [])
recv_end_list [] h = (refl, refl)
recv_end_list (b ∷ r) h = cc

recv_pending_list :
    (r : List Bytes)
    → (channels.poll_recv r).0 ≡ pending
    → (r ≡ []) × ((channels.poll_recv r).1 ≡ [])
recv_pending_list [] h = (refl, refl)
recv_pending_list (b ∷ r) h = cc

try_item_list :
    (r : List Bytes) (bs : Bytes)
    → (channels.try_recv r).0 ≡ item bs
    → r ≡ bs ∷ (channels.try_recv r).1
try_item_list [] bs h = cc
try_item_list (b ∷ r) bs h = cc

try_empty_list :
    (r : List Bytes) → (channels.try_recv r).0 ≡ empty → (r ≡ []) × ((channels.try_recv r).1 ≡ [])
try_empty_list [] h = (refl, refl)
try_empty_list (b ∷ r) h = cc

try_disconnected_list :
    (r : List Bytes)
    → (channels.try_recv r).0 ≡ TryRecv.disconnected
    → (r ≡ []) × ((channels.try_recv r).1 ≡ [])
try_disconnected_list [] h = (refl, refl)
try_disconnected_list (b ∷ r) h = cc

fifo : Fifo channels
fifo = record {
  recv_item = recv_item_list;
  recv_end = recv_end_list;
  recv_pending = recv_pending_list;
  try_item = try_item_list;
  try_empty = try_empty_list;
  try_disconnected = try_disconnected_list;
  reserve_passed = λ s. refl;
  send_passed = λ s bs. refl;
}

abbrev stream : SmoltcpStream channels
stream = record {
  from_net = (1 ∷ 2 ∷ 3 ∷ []) ∷ [] ∷ (4 ∷ []) ∷ [];
  to_net = some [];
  wakes = 0;
  read_rem = none;
}

poll_read-Reads_example : Reads channels (unread channels stream) 2 (poll_read channels stream 2)
poll_read-Reads_example = poll_read-Reads channels fifo stream 2 tt

-- A handle that is larger than all in use.
next_handle {ℓ} : {V : Type ℓ} → Assoc ℕ V → ℕ
next_handle [] = 0
next_handle ((h, v) ∷ m) = suc (h + next_handle m)

lookup-fresh {ℓ} :
    {V : Type ℓ} (m : Assoc ℕ V) (k : ℕ) → next_handle m ≤ k → Assoc.lookup m k ≡ none
unfolding next_handle Assoc.lookup
lookup-fresh [] k h = refl
lookup-fresh ((j, v) ∷ m) k h = ground (arith, lookup-fresh m k (omega arith), nat_beq_iff j k)

-- A socket is what it has sent and what it has not given; it takes three bytes at a time.
abbrev net : Smoltcp
net = record {
  Socket = Bytes × Bytes;
  Sockets = Assoc ℕ (Stored (Bytes × Bytes) (List (Bytes × ℕ)));
  state = λ s. TcpState.active;
  may_send = λ s. true;
  may_recv = λ s. true;
  can_send = λ s. true;
  can_recv = λ s. true;
  send_slice = λ s bs. (ok (min 3 (length bs)), (s.0 ++ take (min 3 (length bs)) bs, s.1));
  recv = λ s n. (ok (take n s.1), (s.0, drop n s.1));
  close = λ s. s;
  abort = λ s. s;
  listening = λ port. some ([], []);
  Udp = List (Bytes × ℕ);
  udp_can_recv = λ u. false;
  udp_recv = λ u. (ok ([], 0), u);
  udp_send = λ u bs endpoint. u;
  udp_queued = λ u. u;
  get = λ ss h. Assoc.lookup ss h;
  put = λ ss h s. Assoc.insert ss h s;
  add = λ ss s. (next_handle ss, Assoc.insert ss (next_handle ss) s);
  remove = λ ss h. Assoc.remove ss h;
  poll = λ ss inbox. (ss, []);
  sent = λ s. s.0;
  unread = λ s. s.1;
}

tcp_laws : TcpLaws net
tcp_laws = record {
  send_ok = λ s bs n e.
      let q : min 3 (length bs) ≡ n = cc e in (omega (arith, q), ap (λ m. s.0 ++ take m bs) q);
  send_err = λ s bs e h. cc;
  recv_ok = λ s n bs e.
      let q : take n s.1 ≡ bs = cc e in
      (
        sym (take-append-drop n s.1) ∙ ap (λ x. x ++ drop n s.1) q,
        omega (arith, length-take n s.1, ap length q),
      );
  recv_err = λ s n e h. cc;
  recv_sent = λ s n. refl;
  close_sent = λ s. refl;
  abort_sent = λ s. refl;
}

set_laws : SetLaws net
set_laws = record {
  get-put = λ ss h k s. lookup-insert ss h k s;
  get-remove = λ ss h k. lookup-remove ss h k;
  add_fresh = λ ss s. lookup-fresh ss (next_handle ss) (omega arith);
  get-add = λ ss s k. lookup-insert ss (next_handle ss) k s;
  kind-poll = λ ss inbox k. refl;
}

abbrev conn : NetConn channels
conn = record {
  to_app = some [];
  from_app = (1 ∷ 2 ∷ 3 ∷ 4 ∷ []) ∷ (5 ∷ []) ∷ [];
  pending_out = some (9 ∷ []);
  app_write_closed = false;
  sent_fin = false;
  established = true;
}

serve_out-ServedOut_example :
    ServedOut channels net fifo tcp_laws (([], []), conn) (serve_out channels net ([], []) conn)
serve_out-ServedOut_example = serve_out-ServedOut channels net fifo tcp_laws ([], []) conn

hand_over-Handed_example :
    Handed channels net
      ([], 1 ∷ 2 ∷ [])
      (some [])
      (hand_over channels net ([], 1 ∷ 2 ∷ []) (some []))
hand_over-Handed_example = hand_over-Handed channels net fifo tcp_laws ([], 1 ∷ 2 ∷ []) (some [])

abbrev open_channel : ℕ → List Bytes × List Bytes
open_channel n = ([], (n ∷ []) ∷ [])

abbrev rounds : List (List ReadResult)
rounds = (packet (69 ∷ []) ∷ would_block ∷ []) ∷ [] ∷ []

run-new_stack-Sound_example :
    Sound channels net
      (run channels net open_channel (new_stack channels net open_channel [] []) rounds)
run-new_stack-Sound_example = run-new_stack-Sound channels net open_channel set_laws [] [] rounds

abbrev stack : Stack channels net
stack = record {
  sockets = [];
  dns = 0;
  listeners = (1, 443) ∷ (2, 80) ∷ [];
  conns = [];
  wanted_ports = 443 ∷ [];
  inbox = [];
  opened = 0;
  new_conns = [];
}

ensure_listeners-have_example :
    have channels net open_channel (ensure_listeners channels net open_channel stack).listeners 443
    ≡ have channels net open_channel stack.listeners 443
      + (if contains stack.wanted_ports 443
          then lacking channels net open_channel
              (have channels net open_channel stack.listeners 443)
              (net.listening 443)
          else 0)
ensure_listeners-have_example = ensure_listeners-have channels net open_channel stack 443
