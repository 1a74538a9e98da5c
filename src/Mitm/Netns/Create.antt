-- ===== src/Mitm/Netns/Create.antt =====
-- src/mitm/tun.rs, `Tun::create`.
use airgap.Prelude.{
  ℕ, ◌+◌, ◌-◌, ◌/◌, ◌%◌, ◌++◌, if◌then◌else◌, ltb, nat_beq, Bytes, length, replicate, Result, ok,
  err,
}
use airgap.Mitm.Netns.{
  open_tun, set_interface, get_flags, set_flags, close, name_too_long, NetError, Thread, Net,
  Action, pure, fail, ◌>>=◌, ◌>>◌, call, attempt,
}

-- `IFF_TUN | IFF_NO_PI`.
abbrev pub tun_flags : ℕ
tun_flags = 4097

-- `flags | O_NONBLOCK`.
unfoldable pub nonblocking : ℕ → ℕ
nonblocking flags = if nat_beq (flags / 2048 % 2) 1 then flags else flags + 2048

-- The name of an `ifreq`.
unfoldable pub padded : Bytes → Bytes
padded name = name ++ replicate (16 - length name) 0

module _ (net : Net) where
  abbrev pub closed_with :
      {A : Type 0} → ℕ → Result NetError A × Thread → Result NetError A × Thread
  closed_with fd (err e, o) = (err e, (attempt net (close fd) o).1)
  closed_with fd (ok a, o) = (ok a, o)

  -- What closes the descriptor where it fails.
  abbrev pub closing : {A : Type 0} → ℕ → Action A → Action A
  closing fd m o = closed_with fd (m o)

  unfoldable pub set_nonblocking : ℕ → Action ℕ
  unfolding call nonblocking
  set_nonblocking fd =
      call net (get_flags fd) >>= λ flags. call net (set_flags fd (nonblocking flags))

  -- `create`, behind the test of the name's length. The descriptor stands for the `Tun`.
  unfoldable pub attach : Bytes → ℕ → Action ℕ
  unfolding call attempt set_nonblocking padded
  attach name fd =
      closing fd (call net (set_interface fd (padded name) tun_flags))
      >> closing fd (set_nonblocking fd)
      >> pure fd

  -- A name that is too long is refused behind the opening, whose descriptor stays open.
  unfoldable pub create : Bytes → Action ℕ
  unfolding call attach
  create name = call net open_tun >>= λ fd.
      (if ltb (length name) 16 then attach name fd else fail name_too_long)
