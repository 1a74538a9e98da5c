-- ===== src/Mitm/Netns/Signalled.antt =====
-- src/mitm/stack.rs, `netstack_thread`: it signals once, and a success only where all is prepared.
use airgap.Prelude.{
  ℕ, ◌≡◌, refl, ◌⊎◌, inl, inr, List, [], ◌∷◌, Result, ok, err, Bool-cases, ap, ◌∙◌,
}
use airgap.Mitm.Netns.{
  unshare_net, open_netns, build_runtime, Event, NetError, Thread, Net, Action, tun_name, call,
  enter_new_netns, open_thread_netns, configure_interface,
}
use airgap.Mitm.Netns.Create.{create}
use airgap.Mitm.Netns.Netstack.{
  send, signalled_with, or_signal, stack_new, signal_ready, netstack_thread,
}
use airgap.Mitm.Netns.Runs.{did, gave, Within, start, Settles, Runs, call-Runs, call-gives}
use airgap.Mitm.Netns.Prepared.{
  configured, Configured, configure_interface-Runs, created, Created, create-Runs, prepared,
  stack_new-Runs,
}

abbrev pub Tells : Result NetError ℕ → Thread → Type 0
Tells (err e) o = o.running ≡ []
Tells (ok netns_fd) o =
    (tun : ℕ) × (flags : ℕ) × (idx : ℕ) × Within (prepared tun flags idx netns_fd) o.trace
    × ((o.running ≡ []) ⊎ (o.running ≡ tun ∷ []))

-- A thread that has signalled once: a failure, and nothing runs, or that it is prepared.
abbrev pub Signalled : Thread → Type 0
Signalled o = (signal : Result NetError ℕ) × (o.signals ≡ signal ∷ []) × Tells signal o

module _ (net : Net) where
  signalled_with-Signalled :
      {A : Type 0} (Q : A → List Event → Type 0) (next : A → Thread → Thread) (o : Thread)
      (r : Result NetError A × Thread)
      → Settles Q o r
      → o.signals ≡ []
      → o.running ≡ []
      → ((a : A) (o' : Thread)
          → Q a o'.trace
          → o'.signals ≡ []
          → o'.running ≡ []
          → Signalled (next a o'))
      → Signalled (signalled_with next r)
  unfolding send
  signalled_with-Signalled Q next o (err e, u) (s', t') s t h =
      (err e, ap (◌∷◌ (err e)) (s' ∙ s), t' ∙ t)
  signalled_with-Signalled Q next o (ok a, u) (s', t', q) s t h = h a u q (s' ∙ s) (t' ∙ t)

  or_signal-Signalled :
      {A : Type 0} (P : List Event → Type 0) (Q : A → List Event → Type 0) (m : Action A)
      (next : A → Thread → Thread) (o : Thread)
      → Runs P m Q
      → P o.trace
      → o.signals ≡ []
      → o.running ≡ []
      → ((a : A) (o' : Thread)
          → Q a o'.trace
          → o'.signals ≡ []
          → o'.running ≡ []
          → Signalled (next a o'))
      → Signalled (or_signal m next o)
  or_signal-Signalled P Q m next o f p s t h = signalled_with-Signalled Q next o (m o) (f o p) s t h

  signal_ready-Signalled :
      (o : Thread) (tun flags idx netns_fd : ℕ)
      → Within (prepared tun flags idx netns_fd) o.trace
      → o.signals ≡ []
      → o.running ≡ []
      → Signalled (signal_ready net tun netns_fd o)
  unfolding signal_ready send
  signal_ready-Signalled o tun flags idx netns_fd p s t = elim (Bool-cases (net.received o.trace)) [
    | inl e ↦
        rw (signal_ready, e)
          (ok netns_fd, ap (◌∷◌ (ok netns_fd)) s, (tun, flags, idx, p, inr (ap (◌∷◌ tun) t)))
    | inr e ↦
        rw (signal_ready, e) (ok netns_fd, ap (◌∷◌ (ok netns_fd)) s, (tun, flags, idx, p, inl t))
  ]

  -- A thread of the stack that has signalled nothing and runs nothing signals exactly once,
  -- whatever comes of its calls: a failure, behind which nothing runs, or the descriptor of
  -- the namespace, and before that it has unshared its namespace, made the device in it under its
  -- name and without blocking, opened the namespace, set the interface up and given it both
  -- addresses, and put the stack on the device, in this order, each with success.
  pub netstack_thread-Signalled :
      Signalled (netstack_thread net (record { trace = []; signals = []; running = [] }))
  unfolding netstack_thread enter_new_netns open_thread_netns
  netstack_thread-Signalled =
      let fresh : Thread = record { trace = []; signals = []; running = [] } in
      let alone = did unshare_net ∷ [] in
      or_signal-Signalled (Within []) (λ _. Within alone) (enter_new_netns net) _ fresh
        (call-Runs net [] unshare_net) start refl refl
        (λ _ o p s t.
          or_signal-Signalled (Within alone) (Created alone) (create net tun_name) _ o
            (create-Runs net alone) p s t
            (λ tun o (flags, p) s t.
              let made = created tun flags alone in
              or_signal-Signalled (Within made) (λ fd. Within (gave open_netns fd ∷ made))
                (open_thread_netns net) _ o (call-gives net made open_netns) p s t
                (λ netns_fd o p s t.
                  let opened = gave open_netns netns_fd ∷ made in
                  let ran = did build_runtime ∷ opened in
                  or_signal-Signalled (Within opened) (λ _. Within ran) (call net build_runtime) _ o
                    (call-Runs net opened build_runtime) p s t
                    (λ _ o p s t.
                      or_signal-Signalled (Within ran) (λ _. Configured ran)
                        (configure_interface net) _ o (configure_interface-Runs net ran) p s t
                        (λ _ o (idx, p) s t.
                          or_signal-Signalled (Within (configured idx ran))
                            (λ _. Within (prepared tun flags idx netns_fd)) (stack_new net tun) _ o
                            (stack_new-Runs net (configured idx ran) tun) p s t
                            (λ _ o p s t.
                              signal_ready-Signalled o tun flags idx netns_fd p s t))))))
