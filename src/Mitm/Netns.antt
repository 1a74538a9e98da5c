-- ===== src/Mitm/Netns.antt =====
-- src/mitm/netns.rs: the calls by which the thread of the stack gets a network namespace with a
-- configured interface. What comes of a call is a parameter, which may depend on every call before.
pub mod Create
pub mod Netstack
pub mod Runs
pub mod Prepared
pub mod Signalled
pub mod Start
pub mod Joined
pub mod Closing
use airgap.Prelude.{
  ℕ, Bool, true, false, List, [], ◌∷◌, ◌++◌, Bytes, codes, replicate, Result, ok, err,
}

-- The calls of the kernel, of netlink and of the libraries. `set_interface` is the ioctl TUNSETIFF
-- with a name that is padded by zeros, `add_route` the default route, for IPv6 or not.
pub data Call : Type 0 where
  unshare_net open_tun open_netns build_runtime open_netlink write_accept_dad : Call
  assign_addresses add_dns unshare_mounts : Call
  set_interface : (fd : ℕ) → (name : Bytes) → (flags : ℕ) → Call
  get_flags close register setns : (fd : ℕ) → Call
  set_flags : (fd flags : ℕ) → Call
  index_of bind_resolv : Bytes → Call
  set_up : (idx : ℕ) → Call
  add_address : (idx : ℕ) → (ip : Bytes) → (prefix_len : ℕ) → Call
  add_route : (idx : ℕ) → (v6 : Bool) → Call

-- A call with the number that it gave, or its error's.
abbrev pub Event : Type 0
Event = Call × Result ℕ ℕ

pub data NetError : Type 0 where
  failed : Call → ℕ → NetError
  name_too_long : NetError

-- A thread: its calls, the last first; what it signalled, the last first; and the devices that it
-- runs the stack on.
pub record Thread : Type 0 where
  pub trace : List Event
  pub signals : List (Result NetError ℕ)
  pub running : List ℕ

-- The answers to the calls, and whether a signal finds its receiver.
pub record Net : Type 0 where
  pub answer : List Event → Call → Result ℕ ℕ
  pub received : List Event → Bool

abbrev pub Action : Type 0 → Type 0
Action A = Thread → Result NetError A × Thread

abbrev pub then_with :
    {A B : Type 0} → (A → Action B) → Result NetError A × Thread → Result NetError B × Thread
then_with next (err e, o) = (err e, o)
then_with next (ok a, o) = next a o

infixl 5 ◌>>=◌ ◌>>◌
abbrev pub ◌>>=◌ : {A B : Type 0} → Action A → (A → Action B) → Action B
◌>>=◌ m next o = then_with next (m o)

abbrev pub ◌>>◌ : {A B : Type 0} → Action A → Action B → Action B
m >> k = m >>= λ _. k

abbrev pub pure : {A : Type 0} → A → Action A
pure a o = (ok a, o)

abbrev pub fail : {A : Type 0} → NetError → Action A
fail e o = (err e, o)

-- `airgap0`, 10.0.0.2 and fd00::2, and their prefixes.
abbrev pub tun_name : Bytes
tun_name = codes "airgap0"

abbrev pub child_ip : Bytes
child_ip = 10 ∷ 0 ∷ 0 ∷ 2 ∷ []

abbrev pub prefix_len : ℕ
prefix_len = 24

abbrev pub child_ip6 : Bytes
child_ip6 = 253 ∷ replicate 14 0 ++ (2 ∷ [])

abbrev pub prefix_len6 : ℕ
prefix_len6 = 64

module _ (net : Net) where
  abbrev pub answered : Call → Result ℕ ℕ → Thread → Result NetError ℕ × Thread
  answered c (ok n) o = (ok n, o)
  answered c (err e) o = (err (failed c e), o)

  unfoldable pub call : Call → Action ℕ
  call c o = let a = net.answer o.trace c in answered c a (record o { trace = (c, a) ∷ o.trace })

  -- A call whose failure is passed over.
  unfoldable pub attempt : Call → Action (Unit {0})
  unfolding call
  attempt c o = (ok tt, (call c o).1)

  unfoldable pub enter_new_netns : Action ℕ
  unfolding call
  enter_new_netns = call unshare_net

  unfoldable pub open_thread_netns : Action ℕ
  unfolding call
  open_thread_netns = call open_netns

  abbrev pub loopback_found : Result NetError ℕ × Thread → Result NetError (Unit {0}) × Thread
  loopback_found (ok lo, o) = attempt (set_up lo) o
  loopback_found (err e, o) = (ok tt, o)

  -- The loopback is set up where it is found.
  unfoldable pub loopback_up : Action (Unit {0})
  unfolding call attempt
  loopback_up o = loopback_found (call (index_of (codes "lo")) o)

  unfoldable pub configure_interface : Action (Unit {0})
  unfolding call attempt loopback_up
  configure_interface = do
    call open_netlink
    idx ← call (index_of tun_name)
    loopback_up
    call (set_up idx)
    call (add_address idx child_ip prefix_len)
    attempt write_accept_dad
    call (add_address idx child_ip6 prefix_len6)
    attempt (add_route idx false)
    attempt (add_route idx true)
