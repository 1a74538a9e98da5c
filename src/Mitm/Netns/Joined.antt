-- ===== src/Mitm/Netns/Joined.antt =====
-- src/mitm.rs: the child starts in the namespace that was prepared, or not at all.
use airgap.Prelude.{
  ℕ, ◌≡◌, ◌⊎◌, refl, true, false, List, [], ◌∷◌, Option, none, some, arith, Bytes, Result, ok, err,
  Bool-cases, inl, inr, contains, nat_eq, subst,
}
use airgap.Mitm.Netns.{
  unshare_mounts, bind_resolv, setns, NetError, Thread, Net, Event, call, attempt, ◌>>◌,
}
use airgap.Mitm.Netns.Netstack.{netstack_thread}
use airgap.Mitm.Netns.Runs.{
  did, Within, start, Runs, Settles, bind-Runs, call-Runs, attempt-Runs, did-then,
}
use airgap.Mitm.Netns.Prepared.{prepared}
use airgap.Mitm.Netns.Signalled.{Tells, netstack_thread-Signalled}
use airgap.Mitm.Netns.Start.{
  StartError, Mitm, fresh, first_signal, stashed, start_netstack, child_setup_hook, hook,
}

-- A namespace that a thread of the stack has prepared.
abbrev pub IsPrepared : Net → ℕ → Type 0
IsPrepared net fd =
    (tun : ℕ) × (flags : ℕ) × (idx : ℕ) × Within (prepared tun flags idx fd)
      (netstack_thread net fresh).trace

-- Why the start of the stack failed: the thread could not be created, or signalled a failure.
abbrev pub Unstarted : Net → Option ℕ → StartError → Type 0
Unstarted net spawned e =
    ((x : ℕ) × (spawned ≡ some x) × (e ≡ StartError.spawning x))
    ⊎ ((x : NetError) × (spawned ≡ none)
        × (e ≡ StartError.network x)
        × ((netstack_thread net fresh).signals ≡ err x ∷ [])
        × ((netstack_thread net fresh).running ≡ []))

-- The start of the stack ends in the namespace that the thread signalled and had prepared, or in an
-- error, and then no namespace was added.
abbrev pub Started : Net → Option ℕ → Mitm → Option (Result StartError (Unit {0}) × Mitm) → Type 0
Started net spawned m none = ⊥
Started net spawned m (some (ok done, m')) =
    (fd : ℕ) × (m'.netns_fd ≡ some fd)
    × IsPrepared net fd
    × (spawned ≡ none)
    × ((netstack_thread net fresh).signals ≡ ok fd ∷ [])
Started net spawned m (some (err e, m')) = Unstarted net spawned e × (m'.netns_fd ≡ m.netns_fd)

stashed-Started :
    (net : Net) (m m' : Mitm) (signal : Result NetError ℕ)
    → m'.netns_fd ≡ m.netns_fd
    → (netstack_thread net fresh).signals ≡ signal ∷ []
    → Tells signal (netstack_thread net fresh)
    → Started net none m (some (stashed m' (some signal)))
unfolding stashed
stashed-Started net m m' (err e) h s t = (inr (e, refl, refl, s, t), h)
stashed-Started net m m' (ok fd) h s (tun, flags, idx, p, r) =
    (fd, refl, (tun, flags, idx, p), refl, s)

-- The first start of the stack waits for one signal and gets it. It succeeds where the thread is
-- created and signals a namespace, which it has prepared. It fails where the thread cannot be created,
-- with that error, or where the thread signals a failure, with the error that it signalled, behind
-- which nothing runs; then the namespace is as it was.
pub start_netstack-Started :
    (net : Net) (spawned : Option ℕ) (m : Mitm)
    → m.new_conn_tx ≡ true
    → Started net spawned m (start_netstack net spawned m)
unfolding start_netstack first_signal
start_netstack-Started net (some e) m h = rw (start_netstack, h) (inl (e, refl, refl), refl)
start_netstack-Started net none m h =
    let (signal, s, t) = netstack_thread-Signalled net in
    rw (start_netstack, h, s)
      (stashed-Started net m (record m { new_conn_tx = false }) signal refl s t)

settled_ok :
    {A : Type 0} (Q : A → List Event → Type 0) (o : Thread) (r : Result NetError A × Thread) (a : A)
    → Settles Q o r
    → r.0 ≡ ok a
    → Q a r.1.trace
settled_ok Q o (err e, u) a s h = absurd (cc h)
settled_ok Q o (ok b, u) a (s, t, q) h =
    let e : b ≡ a = ground (arith, h) in subst (λ x. Q x u.trace) e q

hook-Runs :
    (child : Net) (fd : ℕ) (resolv_src : Bytes)
    → Runs
        (Within [])
        (hook child (fd, resolv_src))
        (λ _. Within (did unshare_mounts ∷ did (setns fd) ∷ []))
unfolding hook
hook-Runs child fd resolv_src =
    let joined = did (setns fd) ∷ [] in
    let apart = did unshare_mounts ∷ joined in
    bind-Runs (Within []) (λ _. Within apart) (λ _. Within apart)
      (call child (setns fd) >> call child unshare_mounts)
      (λ _. attempt child (bind_resolv resolv_src))
      (did-then child (λ _. Within apart) [] (setns fd) (λ _. call child unshare_mounts)
        (λ _. call-Runs child joined unshare_mounts))
      (λ _. attempt-Runs child apart (bind_resolv resolv_src))

-- A child whose hook succeeds behind a start of the stack that succeeded has joined the
-- namespace that was prepared, and then got mounts of its own.
pub hook-Joined :
    (net child : Net) (spawned : Option ℕ) (m m' : Mitm) (held : ℕ × Bytes)
    → m.new_conn_tx ≡ true
    → start_netstack net spawned m ≡ some (ok tt, m')
    → child_setup_hook m' ≡ ok held
    → (hook child held fresh).0 ≡ ok tt
    → IsPrepared net held.0
      × Within (did unshare_mounts ∷ did (setns held.0) ∷ []) (hook child held fresh).1.trace
unfolding child_setup_hook
hook-Joined net child spawned m m' (fd, resolv_src) h e c d =
    let (found, f, p, unfailed, told) =
      subst (Started net spawned m) e (start_netstack-Started net spawned m h) in
    let q : found ≡ fd = elim (Bool-cases (contains m'.resolv_path 0)) [
      | inl k ↦ ground (arith, c, f, k)
      | inr k ↦ ground (arith, c, f, k)
    ] in
    let apart = did unshare_mounts ∷ did (setns fd) ∷ [] in
    (
      subst (IsPrepared net) q p,
      settled_ok (λ _. Within apart) fresh (hook child (fd, resolv_src) fresh) tt
          (hook-Runs child fd resolv_src fresh start) d,
    )
