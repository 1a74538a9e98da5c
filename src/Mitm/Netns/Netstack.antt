-- ===== src/Mitm/Netns/Netstack.antt =====
-- src/mitm/stack.rs, `netstack_thread` and the calls of `Stack::new`.
use airgap.Prelude.{ℕ, ◌∷◌, if◌then◌else◌, Result, ok, err}
use airgap.Mitm.Netns.{
  build_runtime, assign_addresses, register, add_dns, NetError, Thread, Net, Action, ◌>>◌, call,
  enter_new_netns, open_thread_netns, configure_interface, tun_name,
}
use airgap.Mitm.Netns.Create.{create}

-- `ready_tx.send(..)`.
unfoldable pub send : Result NetError ℕ → Thread → Thread
send signal o = record o { signals = signal ∷ o.signals }

abbrev pub signalled_with :
    {A : Type 0} → (A → Thread → Thread) → Result NetError A × Thread → Thread
signalled_with next (err e, o) = send (err e) o
signalled_with next (ok a, o) = next a o

-- A step whose failure is signalled, and ends the thread.
abbrev pub or_signal : {A : Type 0} → Action A → (A → Thread → Thread) → Thread → Thread
or_signal m next o = signalled_with next (m o)

module _ (net : Net) where
  -- What may fail of `Stack::new`: the addresses, the registering of the device and the name server.
  unfoldable pub stack_new : ℕ → Action ℕ
  unfolding call
  stack_new tun = call net assign_addresses >> call net (register tun) >> call net add_dns

  -- The success is signalled, and the stack runs, unless nobody waits for it.
  unfoldable pub signal_ready : ℕ → ℕ → Thread → Thread
  unfolding send
  signal_ready tun netns_fd o =
      let o' = send (ok netns_fd) o in
      if net.received o.trace then record o' { running = tun ∷ o'.running } else o'

  unfoldable pub netstack_thread : Thread → Thread
  unfolding enter_new_netns create open_thread_netns call configure_interface stack_new signal_ready
      send
  netstack_thread = or_signal (enter_new_netns net) (λ _. or_signal (create net tun_name) (λ tun.
      or_signal (open_thread_netns net) (λ netns_fd. or_signal (call net build_runtime) (λ _.
        or_signal (configure_interface net)
          (λ _. or_signal (stack_new tun) (λ _. signal_ready tun netns_fd))))))
