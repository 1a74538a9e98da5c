-- ===== src/Mitm/Proxy/Conn.antt =====
-- src/mitm/proxy.rs: `handle_conn`, up to the splice.
use airgap.Prelude.{
  ℕ, zero, suc, ◌+◌, ◌≡◌, Bool, true, false, [], ◌∷◌, ◌++◌, Option, none, some, ltb, Bytes, Result,
  ok, err, ◌>>=◌, nat_eq, list_eq, length, take, drop, ◌*◌, ◌≤◌,
}
use airgap.Mitm.Config.{Config}
use airgap.Mitm.Proxy.{
  Request, ProxyError, no_sni, closed_early, headers_too_large, io_error, find_headers_end,
  rewrite_head,
}

-- What the handler uses of the client's TLS stream and of the upstream's: `read` has room for a number
-- of bytes, and an empty read says that the client has closed; `connect` is the connection with its
-- TLS handshake. `given` is what the client's stream has given so far, and `received` what the
-- upstream's was given.
pub record Net : Type 1 where
  pub Client : Type 0
  pub Upstream : Type 0
  pub server_name : Client → Option Bytes
  pub read : Client → ℕ → Result ProxyError Bytes × Client
  pub connect : Bytes → ℕ → Result ProxyError Upstream
  pub write_all : Upstream → Bytes → Result ProxyError Upstream
  pub flush : Upstream → Result ProxyError Upstream
  pub given : Client → Bytes
  pub received : Upstream → Bytes

pub record NetLaws (net : Net) : Type 0 where
  pub read_ok :
      (s : net.Client) (n : ℕ) (bs : Bytes)
      → (net.read s n).0 ≡ ok bs
      → (net.given (net.read s n).1 ≡ net.given s ++ bs) × (length bs ≤ n)
  pub read_err :
      (s : net.Client) (n : ℕ) (e : ProxyError)
      → (net.read s n).0 ≡ err e
      → (net.given (net.read s n).1 ≡ net.given s) × (e ≡ io_error)
  pub connect_ok :
      (name : Bytes) (port : ℕ) (u : net.Upstream)
      → net.connect name port ≡ ok u
      → net.received u ≡ []
  pub write_ok :
      (u v : net.Upstream) (bs : Bytes)
      → net.write_all u bs ≡ ok v
      → net.received v ≡ net.received u ++ bs
  pub flush_ok : (u v : net.Upstream) → net.flush u ≡ ok v → net.received v ≡ net.received u

-- What the loop that reads the head leaves: the bytes read, the end of the head, and the client. `none`
-- stands for a bound on the rounds that is met.
abbrev pub HeadRead : Type 0 → Type 0
HeadRead Client = Option (Result ProxyError (Bytes × (ℕ × Client)))

module _ (net : Net) where
  -- The end of a round of the loop, of the head's end and whether the buffer is too large.
  unfoldable pub grown :
      (Bytes → net.Client → HeadRead net.Client)
      → Bytes
      → net.Client
      → Option ℕ
      → Bool
      → HeadRead net.Client
  grown rest buf s (some pos) large = some (ok (buf, (pos, s)))
  grown rest buf s none true = some (err headers_too_large)
  grown rest buf s none false = rest buf s

  unfoldable pub head_round :
      (Bytes → net.Client → HeadRead net.Client)
      → Bytes
      → Result ProxyError Bytes × net.Client
      → HeadRead net.Client
  unfolding grown
  head_round rest buf (err e, s) = some (err e)
  head_round rest buf (ok [], s) = some (err closed_early)
  head_round rest buf (ok (b ∷ bs), s) =
      let buf' = buf ++ (b ∷ bs) in
      grown rest buf' s (find_headers_end buf') (ltb (64 * 1024) (length buf'))

  unfoldable pub head_rounds : ℕ → Bytes → net.Client → HeadRead net.Client
  unfolding head_round
  head_rounds zero buf s = none
  head_rounds (suc rounds) buf s =
      head_round (λ buf' s'. head_rounds rounds buf' s') buf (net.read s 4096)

  -- Every round reads a byte, and the buffer has at most 64 KiB before a round.
  unfoldable pub read_head : net.Client → HeadRead net.Client
  unfolding head_rounds
  read_head s = head_rounds (64 * 1024 + 1) [] s

  unfoldable pub write_leftover : net.Upstream → Bytes → Result ProxyError net.Upstream
  write_leftover u [] = ok u
  write_leftover u (b ∷ bs) = net.write_all u (b ∷ bs)

  module _ (parse : Bytes → Option Request) where
    -- Behind the reading of the head, up to the splice.
    unfoldable pub forward :
        Bytes → ℕ → Config → Bytes → ℕ → net.Client → Result ProxyError (net.Upstream × net.Client)
    unfolding rewrite_head write_leftover
    forward sni port config buf head_end s =
        rewrite_head parse (take head_end buf) config >>= λ new_head.
        net.connect sni port >>= λ opened. net.write_all opened new_head >>= λ with_head.
        write_leftover with_head (drop head_end buf) >>= λ written.
        net.flush written >>= λ flushed. ok (flushed, s)

    unfoldable pub forward_read :
        Bytes
        → ℕ
        → Config
        → HeadRead net.Client
        → Option (Result ProxyError (net.Upstream × net.Client))
    unfolding forward
    forward_read sni port config none = none
    forward_read sni port config (some (err e)) = some (err e)
    forward_read sni port config (some (ok (buf, (head_end, s)))) =
        some (forward sni port config buf head_end s)

    unfoldable pub handle_named :
        Option Bytes
        → ℕ
        → Config
        → net.Client
        → Option (Result ProxyError (net.Upstream × net.Client))
    unfolding forward_read read_head
    handle_named none port config s = some (err no_sni)
    handle_named (some sni) port config s = forward_read sni port config (read_head s)

    -- A client whose TLS handshake succeeds, up to the splice of the two streams.
    unfoldable pub handle_conn :
        net.Client → ℕ → Config → Option (Result ProxyError (net.Upstream × net.Client))
    unfolding handle_named
    handle_conn s port config = handle_named (net.server_name s) port config s
