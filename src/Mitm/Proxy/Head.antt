-- ===== src/Mitm/Proxy/Head.antt =====
-- src/mitm/proxy.rs: the reading of a head.
use airgap.Prelude.{
  ℕ, zero, suc, ◌+◌, ◌*◌, ◌≤◌, ◌<◌, ◌≡◌, refl, sym, ap, subst, ◌∙◌, Bool, true, false, [], ◌∷◌,
  ◌++◌, Option, none, some, arith, ltb, Bytes, Result, ok, err, length, append_assoc, append-nil,
  length-append,
}
use airgap.Mitm.Proxy.{ProxyError, headers_too_large, closed_early, io_error, find_headers_end}
use airgap.Mitm.Proxy.Conn.{Net, NetLaws, HeadRead, grown, head_round, head_rounds, read_head}

-- What the reads from a client give, one behind the other, none of them empty, and the client then.
-- None but the last completes a head, or makes the bytes more than 64 KiB.
pub data Reading (net : Net) (start : net.Client) : Bytes → net.Client → Type 0 where
  begun : Reading net start [] start
  more :
      {taken : Bytes} {s next : net.Client} (b : ℕ) (bs : Bytes)
      → Reading net start taken s
      → find_headers_end taken ≡ none
      → length taken ≤ 64 * 1024
      → net.read s 4096 ≡ (ok (b ∷ bs), next)
      → Reading net start (taken ++ (b ∷ bs)) next

module _ (net : Net) where
  -- What an error says: that the bytes read are too many, that the next read gave none, or that it
  -- failed.
  abbrev pub Cause : ProxyError → Bytes → net.Client → Type 0
  Cause headers_too_large taken s = 64 * 1024 < length taken
  Cause closed_early taken s = (length taken ≤ 64 * 1024) × ((net.read s 4096).0 ≡ ok [])
  Cause io_error taken s = (length taken ≤ 64 * 1024) × ((net.read s 4096).0 ≡ err io_error)
  Cause _ taken s = ⊥

  -- A head was found in what a client gave, or a cause why there is none.
  abbrev pub HeadOf : net.Client → HeadRead net.Client → Type 0
  HeadOf start none = ⊥
  HeadOf start (some (err e)) =
      (taken : Bytes) × (s : net.Client) × (net.given s ≡ net.given start ++ taken)
      × Reading net start taken s
      × (find_headers_end taken ≡ none)
      × (length taken ≤ 64 * 1024 + 4096)
      × Cause e taken s
  HeadOf start (some (ok (buf, (pos, s)))) =
      (net.given s ≡ net.given start ++ buf)
      × Reading net start buf s
      × (find_headers_end buf ≡ some pos)
      × (length buf ≤ 64 * 1024 + 4096)

module _ (net : Net) (laws : NetLaws net) where
  grown-HeadOf :
      (rest : Bytes → net.Client → HeadRead net.Client) (start : net.Client) (buf : Bytes)
      (s : net.Client) (o : Option ℕ) (large : Bool)
      → find_headers_end buf ≡ o
      → ltb (64 * 1024) (length buf) ≡ large
      → net.given s ≡ net.given start ++ buf
      → Reading net start buf s
      → length buf ≤ 64 * 1024 + 4096
      → (find_headers_end buf ≡ none → length buf ≤ 64 * 1024 → HeadOf net start (rest buf s))
      → HeadOf net start (grown net rest buf s o large)
  unfolding grown
  grown-HeadOf rest start buf s (some pos) large f l g r size ih = (g, r, f, size)
  grown-HeadOf rest start buf s none true f l g r size ih = (buf, s, g, r, f, size, ground arith)
  grown-HeadOf rest start buf s none false f l g r size ih = ih f (ground arith)

  head_round-HeadOf :
      (rest : Bytes → net.Client → HeadRead net.Client) (start : net.Client) (buf : Bytes)
      (s : net.Client) (a : Result ProxyError Bytes) (next : net.Client)
      → net.read s 4096 ≡ (a, next)
      → net.given s ≡ net.given start ++ buf
      → Reading net start buf s
      → find_headers_end buf ≡ none
      → length buf ≤ 64 * 1024
      → ((buf' : Bytes) (s' : net.Client)
          → net.given s' ≡ net.given start ++ buf'
          → Reading net start buf' s'
          → find_headers_end buf' ≡ none
          → length buf' ≤ 64 * 1024
          → length buf < length buf'
          → HeadOf net start (rest buf' s'))
      → HeadOf net start (head_round net rest buf (a, next))
  unfolding head_round
  head_round-HeadOf rest start buf s (err e) next q g r none_yet size ih =
      let io = (laws.read_err s 4096 e (ap (λ p. p.0) q)).1 in
      (
        buf,
        s,
        g,
        r,
        none_yet,
        omega arith,
        subst (λ x. Cause net x buf s) (sym io) (size, ap (λ p. p.0) q ∙ ap err io),
      )
  head_round-HeadOf rest start buf s (ok []) next q g r none_yet size ih =
      (buf, s, g, r, none_yet, omega arith, (size, ap (λ p. p.0) q))
  head_round-HeadOf rest start buf s (ok (b ∷ bs)) next q g r none_yet size ih =
      let (given, few) = laws.read_ok s 4096 (b ∷ bs) (ap (λ p. p.0) q) in
      let longer = length-append buf (b ∷ bs) in
      let given' : net.given next ≡ net.given start ++ (buf ++ (b ∷ bs)) =
        sym (ap (λ p. net.given p.1) q)
        ∙ (given ∙ (ap (λ x. x ++ (b ∷ bs)) g ∙ append_assoc (net.given start) buf (b ∷ bs))) in
      let read_on : Reading net start (buf ++ (b ∷ bs)) next = more b bs r none_yet size q in
      grown-HeadOf rest start (buf ++ (b ∷ bs)) next (find_headers_end (buf ++ (b ∷ bs)))
        (ltb (64 * 1024) (length (buf ++ (b ∷ bs)))) refl refl given' read_on (omega arith)
        (λ f size'. ih (buf ++ (b ∷ bs)) next given' read_on f size' (omega arith))

  head_rounds-HeadOf :
      (rounds : ℕ) (start : net.Client) (buf : Bytes) (s : net.Client)
      → net.given s ≡ net.given start ++ buf
      → Reading net start buf s
      → find_headers_end buf ≡ none
      → length buf ≤ 64 * 1024
      → 64 * 1024 < length buf + rounds
      → HeadOf net start (head_rounds net rounds buf s)
  unfolding head_rounds
  head_rounds-HeadOf zero start buf s g r none_yet size h = absurd (omega arith)
  head_rounds-HeadOf (suc rounds) start buf s g r none_yet size h =
      head_round-HeadOf (λ buf' s'. head_rounds net rounds buf' s') start buf s (net.read s 4096).0
        (net.read s 4096).1 refl g r none_yet size
        (λ buf' s' g' r' f' size' longer.
          head_rounds-HeadOf rounds start buf' s' g' r' f' size' (omega arith))

  -- The reading of a head ends. What it read is what the client gave, in reads none of which was
  -- empty, each behind bytes without a head and of at most 64 KiB, so it is at most 64 KiB and one read
  -- of 4 KiB. Where it succeeds, the head ends in it where `find_headers_end` says. Where it fails,
  -- there was no blank line in it, and it was more than 64 KiB, or the next read found the stream
  -- closed, or failed, as the error says. The client's stream behaves as documented.
  pub read_head-HeadOf : (s : net.Client) → HeadOf net s (read_head net s)
  unfolding read_head find_headers_end
  read_head-HeadOf s =
      head_rounds-HeadOf (64 * 1024 + 1) s [] s (sym (append-nil (net.given s))) begun refl
        (omega arith) (omega arith)
