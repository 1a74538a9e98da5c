-- ===== src/Mitm/Stack/Promotion.antt =====
-- src/mitm/stack.rs: the promotion of listeners keeps the handles right and does not panic.
use airgap.Prelude.{
  ℕ, ◌+◌, ◌≤◌, ◌≡◌, refl, ap, ◌∙◌, List, [], ◌∷◌, ◌++◌, Option, none, some, arith, nat_beq_iff,
  nat_eq,
}
use airgap.Mitm.Channels.{Channels}
use airgap.Mitm.Smoltcp.{Smoltcp, SetLaws, Stored, tcp, udp, kind, TcpState}
use airgap.Mitm.Stack.{new_conn}
use airgap.Mitm.Stack.Loop.{
  Stack, promoted, promote_one, promote_stored, promote_from, promote_listeners,
}
use airgap.Mitm.Stack.Handles.{
  count, count-append, count-insert, held, held-remove, Inv, Sound, not_dns, kind-remove,
}

module _ (c : Channels) (t : Smoltcp) where
  -- The handles in the middle of the loop, of the listeners to come, those kept, and the connections.
  abbrev pub Midway : List (ℕ × ℕ) → Stack c t → List (ℕ × ℕ) → Type 0
  Midway ls s kept =
      ((k : ℕ) → count ls k + (count kept k + count s.conns k) ≤ held t s.sockets k)
      × (kind (t.get s.sockets s.dns) ≡ 2)

module _ (c : Channels) (t : Smoltcp) (open_channel : ℕ → c.Sender × c.Receiver)
    (laws : SetLaws t) where
  promote_one-Sound :
      (ls : List (ℕ × ℕ)) (rest : Stack c t → List (ℕ × ℕ) → Option (Stack c t)) (s : Stack c t)
      (kept : List (ℕ × ℕ)) (h port : ℕ) (sock : t.Socket) (state : TcpState)
      → t.get s.sockets h ≡ some (tcp sock)
      → Midway c t ((h, port) ∷ ls) s kept
      → ((s' : Stack c t) (kept' : List (ℕ × ℕ))
          → Midway c t ls s' kept'
          → Sound c t (rest s' kept'))
      → Sound c t (promote_one c t open_channel rest s kept (h, port) state)
  unfolding promote_one promoted
  promote_one-Sound ls rest s kept h port sock TcpState.listen q (uses, dns) ih =
      ih s (kept ++ ((h, port) ∷ []))
        (λ k. ground (arith, uses k, count-append kept ((h, port) ∷ []) k), dns)
  promote_one-Sound ls rest s kept h port sock TcpState.closed q (uses, dns) ih =
      ih (record s { sockets = t.remove s.sockets h }) kept
        (
          λ k. ground (arith, uses k, uses h, held-remove t laws s.sockets h k, nat_beq_iff h k),
          kind-remove c t open_channel laws s.sockets h s.dns
                (not_dns c t open_channel laws s.sockets h s.dns sock q dns)
              ∙ dns,
        )
  promote_one-Sound ls rest s kept h port sock TcpState.active q (uses, dns) ih =
      ih (promoted c t open_channel s h port) kept (
        λ k. ground (
          arith,
          uses k,
          uses h,
          count-insert s.conns h k
              (new_conn c (open_channel s.opened).0 (open_channel (s.opened + 1)).1),
          nat_beq_iff h k,
        ),
        dns,
      )

  promote_stored-Sound :
      (ls : List (ℕ × ℕ)) (rest : Stack c t → List (ℕ × ℕ) → Option (Stack c t)) (s : Stack c t)
      (kept : List (ℕ × ℕ)) (h port : ℕ) (o : Option (Stored t.Socket t.Udp))
      → t.get s.sockets h ≡ o
      → Midway c t ((h, port) ∷ ls) s kept
      → ((s' : Stack c t) (kept' : List (ℕ × ℕ))
          → Midway c t ls s' kept'
          → Sound c t (rest s' kept'))
      → Sound c t (promote_stored c t open_channel rest s kept (h, port) o)
  unfolding promote_stored
  promote_stored-Sound ls rest s kept h port (some (tcp sock)) q mid ih =
      promote_one-Sound ls rest s kept h port sock (t.state sock) q mid ih
  promote_stored-Sound ls rest s kept h port (some (udp u)) q (uses, dns) ih =
      absurd (ground (arith, uses h, ap kind q, nat_beq_iff h h))
  promote_stored-Sound ls rest s kept h port none q (uses, dns) ih =
      absurd (ground (arith, uses h, ap kind q, nat_beq_iff h h))

  promote_from-Sound :
      (ls : List (ℕ × ℕ)) (s : Stack c t) (kept : List (ℕ × ℕ))
      → Midway c t ls s kept
      → Sound c t (promote_from c t open_channel ls s kept)
  unfolding promote_from
  promote_from-Sound [] s kept (uses, dns) = (λ k. omega (arith, uses k), dns)
  promote_from-Sound ((h, port) ∷ ls) s kept mid =
      promote_stored-Sound ls (λ s' kept'. promote_from c t open_channel ls s' kept') s kept h port
        (t.get s.sockets h) refl mid (λ s' kept' mid'. promote_from-Sound ls s' kept' mid')

  pub promote_listeners-Sound :
      (s : Stack c t) → Inv c t s → Sound c t (promote_listeners c t open_channel s)
  unfolding promote_listeners
  promote_listeners-Sound s (uses, dns) =
      promote_from-Sound s.listeners s [] (λ k. omega (arith, uses k), dns)
