-- ===== src/Mitm/Proxy/Forward.antt =====
-- src/mitm/proxy.rs: what the upstream is given before the splice.
use airgap.Prelude.{
  ℕ, ◌≡◌, refl, sym, ap, ◌∙◌, inl, inr, [], ◌∷◌, ◌++◌, Option, none, some, arith, Bytes, Result, ok,
  err, length, take, drop, Result-cases, >>=-eq-ok, append-nil, take-append-drop,
}
use airgap.Mitm.Config.{Config, matching}
use airgap.Mitm.Proxy.Ends.{find_headers_end-take}
use airgap.Mitm.Proxy.Head.{HeadOf, read_head-HeadOf}
use airgap.Mitm.Proxy.{
  Request, ProxyError, find_headers_end, rewrite_head, rewrite_parsed, rewrite_matched,
  request_host,
}
use airgap.Mitm.Proxy.Conn.{
  Net, NetLaws, HeadRead, read_head, write_leftover, forward, forward_read, handle_named,
  handle_conn,
}

module _ (net : Net) (laws : NetLaws net) where
  write_leftover-received :
      (u v : net.Upstream) (bs : Bytes)
      → write_leftover net u bs ≡ ok v
      → net.received v ≡ net.received u ++ bs
  unfolding write_leftover
  write_leftover-received u v [] h = ground (arith, append-nil (net.received u))
  write_leftover-received u v (b ∷ bs) h = laws.write_ok u v (b ∷ bs) h

module _ (net : Net) (parse : Bytes → Option Request) where
  -- What the upstream is given before the splice.
  abbrev pub Forwarded :
      Config → net.Client → Result ProxyError (net.Upstream × net.Client) → Type 0
  Forwarded config start (err e) = Unit
  Forwarded config start (ok (u, s)) =
      (head : Bytes) × (leftover : Bytes) × (new_head : Bytes) × (net.given s
        ≡ net.given start ++ (head ++ leftover))
      × (find_headers_end head ≡ some (length head))
      × (rewrite_head parse head config ≡ ok new_head)
      × (net.received u ≡ new_head ++ leftover)

  abbrev pub Handled :
      Config → net.Client → Option (Result ProxyError (net.Upstream × net.Client)) → Type 0
  Handled config start none = ⊥
  Handled config start (some r) = Forwarded config start r

module _ (net : Net) (laws : NetLaws net) (parse : Bytes → Option Request) where
  forward-eq-ok :
      (sni : Bytes) (port : ℕ) (config : Config) (start s : net.Client) (buf : Bytes) (pos : ℕ)
      (r : net.Upstream × net.Client)
      → net.given s ≡ net.given start ++ buf
      → find_headers_end buf ≡ some pos
      → forward net parse sni port config buf pos s ≡ ok r
      → Forwarded net parse config start (ok r)
  unfolding forward
  forward-eq-ok sni port config start s buf pos r g f h =
      let (new_head, rewritten, h1) = >>=-eq-ok (rewrite_head parse (take pos buf) config) _ h in
      let (opened, connected, h2) = >>=-eq-ok (net.connect sni port) _ h1 in
      let (with_head, wrote, h3) = >>=-eq-ok (net.write_all opened new_head) _ h2 in
      let (written, rest, h4) = >>=-eq-ok (write_leftover net with_head (drop pos buf)) _ h3 in
      let (flushed, flush, h5) = >>=-eq-ok (net.flush written) _ h4 in
      let (found, size) = find_headers_end-take buf pos f in
      let received : net.received flushed ≡ new_head ++ drop pos buf =
        laws.flush_ok written flushed flush
        ∙ (write_leftover-received net laws with_head written (drop pos buf) rest
            ∙ ap (λ x. x ++ drop pos buf)
                (laws.write_ok opened with_head new_head wrote
                  ∙ ap (λ x. x ++ new_head) (laws.connect_ok sni port opened connected))) in
      (
        take pos buf,
        drop pos buf,
        new_head,
        cc (h5, g, take-append-drop pos buf),
        found ∙ ap some (sym size),
        rewritten,
        cc (h5, received),
      )

  forward-Forwarded :
      (sni : Bytes) (port : ℕ) (config : Config) (start s : net.Client) (buf : Bytes) (pos : ℕ)
      → net.given s ≡ net.given start ++ buf
      → find_headers_end buf ≡ some pos
      → Forwarded net parse config start (forward net parse sni port config buf pos s)
  forward-Forwarded sni port config start s buf pos g f =
      elim (Result-cases (forward net parse sni port config buf pos s)) [
        | inr (e, p) ↦ rw p tt
        | inl (r, p) ↦ rw p (forward-eq-ok sni port config start s buf pos r g f p)
      ]

  forward_read-Handled :
      (sni : Bytes) (port : ℕ) (config : Config) (start : net.Client) (r : HeadRead net.Client)
      → HeadOf net start r
      → Handled net parse config start (forward_read net parse sni port config r)
  unfolding forward_read
  forward_read-Handled sni port config start none h = h
  forward_read-Handled sni port config start (some (err e)) h = tt
  forward_read-Handled sni port config start (some (ok (buf, (pos, s)))) (g, reading, f, size) =
      forward-Forwarded sni port config start s buf pos g f

  handle_named-Handled :
      (name : Option Bytes) (port : ℕ) (config : Config) (s : net.Client)
      → Handled net parse config s (handle_named net parse name port config s)
  unfolding handle_named
  handle_named-Handled none port config s = tt
  handle_named-Handled (some sni) port config s =
      forward_read-Handled sni port config s (read_head net s) (read_head-HeadOf net laws s)

  -- The handling of a connection comes to the splice or to an error. At the splice the upstream was
  -- given the rewritten head and behind it, unchanged, everything that the client gave behind its head;
  -- the head is what the client gave up to its blank line. The streams behave as documented.
  pub handle_conn-Handled :
      (s : net.Client) (port : ℕ) (config : Config)
      → Handled net parse config s (handle_conn net parse s port config)
  unfolding handle_conn
  handle_conn-Handled s port config = handle_named-Handled (net.server_name s) port config s

module _ (net : Net) where
  -- The upstream was given what the client gave.
  abbrev pub Exact : net.Client → Option (Result ProxyError (net.Upstream × net.Client)) → Type 0
  Exact start none = ⊥
  Exact start (some (err e)) = Unit
  Exact start (some (ok (u, s))) = net.given s ≡ net.given start ++ net.received u

module _ (net : Net) (laws : NetLaws net) (parse : Bytes → Option Request) where
  no_rule-rewrite_parsed :
      (head : Bytes) (config : Config) (o : Option Request)
      → ((host : Bytes) → matching config host ≡ none)
      → rewrite_parsed parse head config o ≡ ok head
  unfolding rewrite_parsed rewrite_matched
  no_rule-rewrite_parsed head config none h = refl
  no_rule-rewrite_parsed head config (some req) h = rw (h (request_host req)) refl

  Handled-Exact :
      (config : Config) (start : net.Client)
      (r : Option (Result ProxyError (net.Upstream × net.Client)))
      → ((host : Bytes) → matching config host ≡ none)
      → Handled net parse config start r
      → Exact net start r
  unfolding rewrite_head
  Handled-Exact config start none h k = elim k [ ]
  Handled-Exact config start (some (err e)) h k = tt
  Handled-Exact config start (some (ok (u, s))) h (head, leftover, new_head, g, f, w, r) =
      let same = no_rule-rewrite_parsed head config (parse head) h in cc (g, w, r, same)

  -- Where no host has a rule, what the upstream is given before the splice is byte for byte what the
  -- client gave, unless the handling comes to an error. The streams behave as documented.
  pub handle_conn-Exact :
      (s : net.Client) (port : ℕ) (config : Config)
      → ((host : Bytes) → matching config host ≡ none)
      → Exact net s (handle_conn net parse s port config)
  handle_conn-Exact s port config h =
      Handled-Exact config s (handle_conn net parse s port config) h
        (handle_conn-Handled net laws parse s port config)
