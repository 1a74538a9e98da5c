-- ===== src/Mitm/Stack/Backlog.antt =====
-- src/mitm/stack.rs: the number of listeners that `ensure_listeners` leaves for a port.
use airgap.Prelude.{
  ℕ, zero, suc, ◌+◌, ◌-◌, ◌≡◌, refl, sym, ap, ◌∙◌, Option-cases, List, [], ◌∷◌, ◌++◌, Option, none,
  some, arith, if◌then◌else◌, ◌==◌, ==_cases, nat_eq, contains, inl, inr,
}
use airgap.Mitm.Channels.{Channels}
use airgap.Mitm.Smoltcp.{Smoltcp, tcp}
use airgap.Mitm.Stack.Loop.{
  Stack, listen_backlog, have, add_listener, add_listeners, ensure_ports, ensure_listeners,
}

module _ (c : Channels) (t : Smoltcp) (open_channel : ℕ → c.Sender × c.Receiver) where
  abbrev listeners_of : Stack c t → ℕ → ℕ
  listeners_of s port = have c t open_channel s.listeners port

  -- What is to be added for a port.
  abbrev pub lacking : ℕ → Option t.Socket → ℕ
  lacking n none = 0
  lacking n (some sock) = listen_backlog - n

  have-append :
      (ls ks : List (ℕ × ℕ)) (port : ℕ)
      → have c t open_channel (ls ++ ks) port
        ≡ have c t open_channel ls port + have c t open_channel ks port
  have-append [] ks port = omega arith
  have-append ((h, p) ∷ ls) ks port = ground (arith, have-append ls ks port)

  add_listeners-have :
      (n : ℕ) (s : Stack c t) (p port : ℕ) (o : Option t.Socket)
      → t.listening p ≡ o
      → listeners_of (add_listeners c t open_channel n s p) port ≡ (
          if p == port
          then elim o [ none ↦ listeners_of s port | some sock ↦ listeners_of s port + n ]
          else listeners_of s port)
  unfolding add_listeners add_listener
  add_listeners-have zero s p port none q = ground arith
  add_listeners-have zero s p port (some sock) q = ground arith
  add_listeners-have (suc n) s p port none q =
      ground (arith, q, add_listeners-have n (add_listener c t open_channel s p none) p port none q)
  add_listeners-have (suc n) s p port (some sock) q =
      let h = (t.add s.sockets (tcp sock)).0 in
      ground (
        arith,
        q,
        add_listeners-have n (add_listener c t open_channel s p (some sock)) p port (some sock) q,
        have-append s.listeners ((h, p) ∷ []) port,
      )

  ensure_ports-have :
      (ports : List ℕ) (s : Stack c t) (port : ℕ)
      → listeners_of (ensure_ports c t open_channel s ports) port ≡ (
          if contains ports port
          then listeners_of s port + lacking (listeners_of s port) (t.listening port)
          else listeners_of s port)
  unfolding ensure_ports
  ensure_ports-have [] s port = refl
  ensure_ports-have (p ∷ ports) s port =
      let next = add_listeners c t open_channel (listen_backlog - listeners_of s p) s p in
      let step =
        add_listeners-have (listen_backlog - listeners_of s p) s p port (t.listening p) refl in
      ensure_ports-have ports next port ∙ elim (==_cases p port) [
        | inr (f, ne) ↦ ground (arith, step, f)
        | inl (q, e) ↦ elim (Option-cases (t.listening p)) [
          | inl l ↦ let l' = sym (ap t.listening e) ∙ l in ground (arith, step, q, l, l')
          | inr (sock, l) ↦
              let l' = sym (ap t.listening e) ∙ l in
              ground (arith, step, q, l, l', ap (listeners_of s) e)
        ]
      ]

  -- For every port that is wanted and that a socket can listen on, `ensure_listeners` adds what is
  -- lacking of eight listeners; it adds none for another port, and takes none away.
  pub ensure_listeners-have :
      (s : Stack c t) (port : ℕ)
      → have c t open_channel (ensure_listeners c t open_channel s).listeners port
        ≡ have c t open_channel s.listeners port
          + (if contains s.wanted_ports port
              then lacking (have c t open_channel s.listeners port) (t.listening port)
              else 0)
  unfolding ensure_listeners
  ensure_listeners-have s port = ground (arith, ensure_ports-have s.wanted_ports s port)
