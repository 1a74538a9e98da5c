-- ===== src/Mitm/Smoltcp.antt =====
-- What src/mitm uses of the crate smoltcp: a parameter, with what is documented of it.
use airgap.Prelude.{
  ℕ, ◌≤◌, ◌≡◌, Bool, List, ◌++◌, Option, none, some, Bytes, Result, ok, err, length, take,
  if◌then◌else◌, ◌==◌, nat_eq,
}

-- The states of a TCP socket that the code tells apart; `active` stands for the rest.
pub data TcpState : Type 0 where
  listen closed active : TcpState

pub data SocketError : Type 0 where
  refused : SocketError

-- What a set of sockets holds under a handle.
pub data Stored (S U : Type 0) : Type 0 where
  tcp : S → Stored S U
  udp : U → Stored S U

-- The kind of what is held: nothing, a TCP socket or a UDP socket.
abbrev pub kind : {S U : Type 0} → Option (Stored S U) → ℕ
kind none = 0
kind (some (tcp s)) = 1
kind (some (udp u)) = 2

-- `recv` is the call with a closure that takes at most a number of the bytes it is shown; `listening` a
-- new socket that was told to listen on a port, where it can. `sent` is what a socket has taken to
-- send so far, and `unread` what it has received and not given. `poll` takes packets of the
-- device's inbox and moves those of all sockets. A datagram of a UDP socket comes with the endpoint that sent it.
pub record Smoltcp : Type 1 where
  pub Socket : Type 0
  pub Sockets : Type 0
  pub state : Socket → TcpState
  pub may_send : Socket → Bool
  pub may_recv : Socket → Bool
  pub can_send : Socket → Bool
  pub can_recv : Socket → Bool
  pub send_slice : Socket → Bytes → Result SocketError ℕ × Socket
  pub recv : Socket → ℕ → Result SocketError Bytes × Socket
  pub close : Socket → Socket
  pub abort : Socket → Socket
  pub listening : ℕ → Option Socket
  pub Udp : Type 0
  pub udp_can_recv : Udp → Bool
  pub udp_recv : Udp → Result SocketError (Bytes × ℕ) × Udp
  pub udp_send : Udp → Bytes → ℕ → Udp
  pub udp_queued : Udp → List (Bytes × ℕ)
  pub get : Sockets → ℕ → Option (Stored Socket Udp)
  pub put : Sockets → ℕ → Stored Socket Udp → Sockets
  pub add : Sockets → Stored Socket Udp → ℕ × Sockets
  pub remove : Sockets → ℕ → Sockets
  pub poll : Sockets → List Bytes → Sockets × List Bytes
  pub sent : Socket → Bytes
  pub unread : Socket → Bytes

-- A socket sends a first part of what it takes, and gives what it received in order; a call that
-- fails does neither. Closing and aborting take back nothing that was taken to send.
pub record TcpLaws (t : Smoltcp) : Type 0 where
  pub send_ok :
      (s : t.Socket) (bs : Bytes) (n : ℕ)
      → (t.send_slice s bs).0 ≡ ok n
      → (n ≤ length bs) × (t.sent (t.send_slice s bs).1 ≡ t.sent s ++ take n bs)
  pub send_err :
      (s : t.Socket) (bs : Bytes) (e : SocketError)
      → (t.send_slice s bs).0 ≡ err e
      → t.sent (t.send_slice s bs).1 ≡ t.sent s
  pub recv_ok :
      (s : t.Socket) (n : ℕ) (bs : Bytes)
      → (t.recv s n).0 ≡ ok bs
      → (t.unread s ≡ bs ++ t.unread (t.recv s n).1) × (length bs ≤ n)
  pub recv_err :
      (s : t.Socket) (n : ℕ) (e : SocketError)
      → (t.recv s n).0 ≡ err e
      → t.unread (t.recv s n).1 ≡ t.unread s
  pub recv_sent : (s : t.Socket) (n : ℕ) → t.sent (t.recv s n).1 ≡ t.sent s
  pub close_sent : (s : t.Socket) → t.sent (t.close s) ≡ t.sent s
  pub abort_sent : (s : t.Socket) → t.sent (t.abort s) ≡ t.sent s

-- A set of sockets is a map; a new socket gets a handle that is not in use, and the moving of packets
-- neither adds nor takes away a socket.
pub record SetLaws (t : Smoltcp) : Type 0 where
  pub get-put :
      (ss : t.Sockets) (h k : ℕ) (s : Stored t.Socket t.Udp)
      → t.get (t.put ss h s) k ≡ (if h == k then some s else t.get ss k)
  pub get-remove :
      (ss : t.Sockets) (h k : ℕ) → t.get (t.remove ss h) k ≡ (if h == k then none else t.get ss k)
  pub add_fresh : (ss : t.Sockets) (s : Stored t.Socket t.Udp) → t.get ss (t.add ss s).0 ≡ none
  pub get-add :
      (ss : t.Sockets) (s : Stored t.Socket t.Udp) (k : ℕ)
      → t.get (t.add ss s).1 k ≡ (if (t.add ss s).0 == k then some s else t.get ss k)
  pub kind-poll :
      (ss : t.Sockets) (inbox : List Bytes) (k : ℕ)
      → kind (t.get (t.poll ss inbox).0 k) ≡ kind (t.get ss k)
