-- ===== src/Mitm/Stack/Running.antt =====
-- src/mitm/stack.rs: no round of the loop panics, however many there are.
use airgap.Prelude.{
  ℕ, ◌+◌, ◌≡◌, refl, ap, ◌∙◌, List, [], ◌∷◌, Option, none, some, arith, nat_beq_iff, if◌then◌else◌,
  ◌==◌, nat_eq, ==_cases, ==_refl, inl, inr, length,
}
use airgap.Mitm.Channels.{Channels}
use airgap.Mitm.Smoltcp.{Smoltcp, SetLaws, Stored, tcp, udp, kind}
use airgap.Mitm.Tun.{ReadResult}
use airgap.Mitm.Stack.Loop.{Stack, ensure_listeners, promote_listeners, service_conns}
use airgap.Mitm.Stack.Round.{
  answer_rounds, answer_stored, drained, polled, answered, run_round, run, bare_stack, new_stack,
}
use airgap.Mitm.Stack.Handles.{Inv, Sound, ensure_listeners-Inv}
use airgap.Mitm.Stack.Promotion.{promote_listeners-Sound}
use airgap.Mitm.Stack.Service.{service_conns-Sound}

module _ (c : Channels) (t : Smoltcp) (open_channel : ℕ → c.Sender × c.Receiver)
    (laws : SetLaws t) where
  polled-Inv : (s : Stack c t) → Inv c t s → Inv c t (polled c t open_channel s)
  unfolding polled
  polled-Inv s (uses, dns) = (
    λ k. rw (laws.kind-poll s.sockets s.inbox k) (uses k),
    laws.kind-poll s.sockets s.inbox s.dns ∙ dns,
  )

  kind-put_udp :
      (ss : t.Sockets) (h k : ℕ) (u : t.Udp)
      → kind (t.get (t.put ss h (udp u)) k) ≡ (if h == k then 2 else kind (t.get ss k))
  kind-put_udp ss h k u = elim (==_cases h k) [
    | inl (q, e) ↦ rw (laws.get-put ss h k (udp u), q) refl
    | inr (q, e) ↦ rw (laws.get-put ss h k (udp u), q) refl
  ]

  answered-Sound :
      (s : Stack c t) (o : Option (Stored t.Socket t.Udp))
      → t.get s.sockets s.dns ≡ o
      → Inv c t s
      → Sound c t (elim (answer_stored t s.sockets s.dns o) [
        | none ↦ none
        | some ss ↦ some (record s { sockets = ss })
      ])
  unfolding answer_stored
  answered-Sound s (some (tcp sock)) q (uses, dns) = absurd (cc (ap kind q, dns))
  answered-Sound s none q (uses, dns) = absurd (cc (ap kind q, dns))
  answered-Sound s (some (udp u)) q (uses, dns) =
      let answer = answer_rounds t (length (t.udp_queued u) + 1) u in
      (
        λ k.
            ground (arith, uses k, dns, kind-put_udp s.sockets s.dns k answer, nat_beq_iff s.dns k),
        kind-put_udp s.sockets s.dns s.dns answer ∙ rw (==_refl s.dns) refl,
      )

  and_then-Sound :
      (o : Option (Stack c t)) (next : Stack c t → Option (Stack c t))
      → Sound c t o
      → ((s : Stack c t) → Inv c t s → Sound c t (next s))
      → Sound c t (elim o [ none ↦ none | some s ↦ next s ])
  and_then-Sound none next h ih = h
  and_then-Sound (some s) next h ih = ih s h

  run_round-Sound :
      (s : Stack c t) (reads : List ReadResult)
      → Inv c t s
      → Sound c t (run_round c t open_channel s reads)
  unfolding run_round answered drained
  run_round-Sound s reads inv =
      let s' =
        polled c t open_channel
          (ensure_listeners c t open_channel (drained c t open_channel s reads)) in
      let inv' =
        polled-Inv (ensure_listeners c t open_channel (drained c t open_channel s reads))
          (ensure_listeners-Inv c t open_channel laws (drained c t open_channel s reads) inv) in
      and_then-Sound (answered c t open_channel s') _
        (answered-Sound s' (t.get s'.sockets s'.dns) refl inv')
        (λ a h.
          and_then-Sound (promote_listeners c t open_channel a) _
            (promote_listeners-Sound c t open_channel laws a h)
            (λ p h'.
              and_then-Sound (service_conns c t open_channel p) _
                (service_conns-Sound c t open_channel laws p h')
                (λ q h''.
                  polled-Inv (ensure_listeners c t open_channel q)
                    (ensure_listeners-Inv c t open_channel laws q h''))))

  run-Sound :
      (later : List (List ReadResult)) (s : Stack c t)
      → Inv c t s
      → Sound c t (run c t open_channel s later)
  unfolding run
  run-Sound [] s inv = inv
  run-Sound (reads ∷ later) s inv =
      and_then-Sound (run_round c t open_channel s reads) _ (run_round-Sound s reads inv)
        (λ s' inv'. run-Sound later s' inv')

  -- However many rounds the loop makes from the start of the stack, and whatever the reads of the device
  -- give, none panics for a socket that is not there or not of its kind, and behind them the handles of
  -- the listeners and the connections are TCP sockets, all different, and that of the name server is its
  -- UDP socket. The set of sockets behaves as documented.
  pub run-new_stack-Sound :
      (ss : t.Sockets) (u : t.Udp) (rounds : List (List ReadResult))
      → Sound c t (run c t open_channel (new_stack c t open_channel ss u) rounds)
  unfolding new_stack bare_stack
  run-new_stack-Sound ss u rounds = run-Sound rounds (new_stack c t open_channel ss u) (
      ensure_listeners-Inv c t open_channel laws (bare_stack c t open_channel ss u) (
        λ k. ground arith,
        rw (laws.get-add ss (udp u) (t.add ss (udp u)).0, ==_refl (t.add ss (udp u)).0) refl,
      ))
