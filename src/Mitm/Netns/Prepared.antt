-- ===== src/Mitm/Netns/Prepared.antt =====
-- src/mitm/netns.rs, src/mitm/tun.rs and src/mitm/stack.rs: what the parts of the set-up have done
-- where they succeed.
use airgap.Prelude.{
  ℕ, ◌≡◌, refl, inl, inr, true, false, List, [], ◌∷◌, codes, Result, ok, err, Result-cases,
}
use airgap.Mitm.Netns.{
  unshare_net, open_tun, open_netns, build_runtime, open_netlink, write_accept_dad,
  assign_addresses, add_dns, set_interface, get_flags, close, register, set_flags, index_of, set_up,
  add_address, add_route, Event, NetError, Thread, Net, Action, ◌>>◌, tun_name, child_ip,
  prefix_len, child_ip6, prefix_len6, call, attempt, loopback_up, configure_interface,
}
use airgap.Mitm.Netns.Create.{
  tun_flags, nonblocking, padded, closed_with, closing, set_nonblocking, attach, create,
}
use airgap.Mitm.Netns.Netstack.{stack_new}
use airgap.Mitm.Netns.Runs.{
  Done, did, gave, Within, other, Settles, Runs, bind-Runs, weaken-Runs, call-Runs, attempt-Runs,
  did-then, gave-then, tried-then,
}

-- The interface is up and has its addresses.
abbrev pub configured : ℕ → List Done → List Done
configured idx ds =
    did (add_address idx child_ip6 prefix_len6)
    ∷ did (add_address idx child_ip prefix_len)
    ∷ did (set_up idx)
    ∷ gave (index_of tun_name) idx
    ∷ did open_netlink
    ∷ ds

abbrev pub Configured : List Done → List Event → Type 0
Configured ds tr = (idx : ℕ) × Within (configured idx ds) tr

-- The device is open, is attached under the name and does not block.
abbrev pub created : ℕ → ℕ → List Done → List Done
created tun flags ds =
    did (set_flags tun (nonblocking flags))
    ∷ gave (get_flags tun) flags
    ∷ did (set_interface tun (padded tun_name) tun_flags)
    ∷ gave open_tun tun
    ∷ ds

abbrev pub Created : List Done → ℕ → List Event → Type 0
Created ds tun tr = (flags : ℕ) × Within (created tun flags ds) tr

-- What was done before the thread signals that it is ready: it got a namespace of its own, made
-- the device in it, and opened the namespace, in this order; then the interface was configured
-- and the stack put on the device.
abbrev pub prepared : ℕ → ℕ → ℕ → ℕ → List Done
prepared tun flags idx netns_fd =
    did add_dns
    ∷ did (register tun)
    ∷ did assign_addresses
    ∷ configured idx
        (did build_runtime ∷ gave open_netns netns_fd ∷ created tun flags (did unshare_net ∷ []))

module _ (net : Net) where
  loopback_up-Runs : (ds : List Done) → Runs (Within ds) (loopback_up net) (λ _. Within ds)
  unfolding loopback_up call
  loopback_up-Runs ds o p = elim (Result-cases (net.answer o.trace (index_of (codes "lo")))) [
    | inl (n, e) ↦
        rw (loopback_up, call, e)
          (attempt-Runs net ds (set_up n)
            (record o { trace = (index_of (codes "lo"), ok n) ∷ o.trace })
            (other (index_of (codes "lo"), ok n) p))
    | inr (x, e) ↦ rw (loopback_up, call, e) (refl, refl, other (index_of (codes "lo"), err x) p)
  ]

  abbrev routes : ℕ → Action (Unit {0})
  routes idx = attempt net (add_route idx false) >> attempt net (add_route idx true)

  routes-Runs : (ds : List Done) (idx : ℕ) → Runs (Within ds) (routes idx) (λ _. Within ds)
  routes-Runs ds idx =
      tried-then net (λ _. Within ds) ds (attempt net (add_route idx false))
        (λ _. attempt net (add_route idx true)) (attempt-Runs net ds (add_route idx false))
        (λ _. attempt-Runs net ds (add_route idx true))

  pub configure_interface-Runs :
      (ds : List Done) → Runs (Within ds) (configure_interface net) (λ _. Configured ds)
  unfolding configure_interface attempt
  configure_interface-Runs ds =
      let R : Unit {0} → List Event → Type 0 = λ _. Configured ds in
      did-then net R ds open_netlink _ (λ _.
        gave-then net R (did open_netlink ∷ ds) (index_of tun_name) _ (λ idx.
          let named = gave (index_of tun_name) idx ∷ did open_netlink ∷ ds in
          let up = did (set_up idx) ∷ named in
          let addressed = did (add_address idx child_ip prefix_len) ∷ up in
          let all_of_it = configured idx ds in
          tried-then net R named (loopback_up net) _ (loopback_up-Runs named) (λ _.
            did-then net R named (set_up idx) _ (λ _.
              did-then net R up (add_address idx child_ip prefix_len) _ (λ _.
                tried-then net R addressed (attempt net write_accept_dad) _
                  (attempt-Runs net addressed write_accept_dad)
                  (λ _.
                    did-then net R addressed (add_address idx child_ip6 prefix_len6)
                      (λ _. routes idx)
                      (λ _.
                        weaken-Runs (Within all_of_it) (λ _. Within all_of_it) R (routes idx)
                          (routes-Runs all_of_it idx) (λ _ tr q. (idx, q)))))))))

  closed_with-Settles :
      {A : Type 0} (Q : A → List Event → Type 0) (fd : ℕ) (o : Thread)
      (r : Result NetError A × Thread)
      → Settles Q o r
      → Settles Q o (closed_with net fd r)
  unfolding attempt call
  closed_with-Settles Q fd o (ok a, u) s = s
  closed_with-Settles Q fd o (err e, u) s = elim (Result-cases (net.answer u.trace (close fd))) [
    | inl (n, k) ↦ rw k s
    | inr (x, k) ↦ rw k s
  ]

  -- An action that closes the descriptor where it fails runs as without that.
  closing-Runs :
      {A : Type 0} (P : List Event → Type 0) (Q : A → List Event → Type 0) (fd : ℕ) (m : Action A)
      → Runs P m Q
      → Runs P (closing net fd m) Q
  closing-Runs P Q fd m f o p = closed_with-Settles Q fd o (m o) (f o p)

  set_nonblocking-Runs :
      (ds : List Done) (fd : ℕ)
      → Runs (Within ds) (set_nonblocking net fd) (λ _ tr.
        (flags : ℕ) × Within
          (did (set_flags fd (nonblocking flags)) ∷ gave (get_flags fd) flags ∷ ds)
          tr)
  unfolding set_nonblocking
  set_nonblocking-Runs ds fd =
      let R : ℕ → List Event → Type 0 = λ _ tr.
        (flags : ℕ) × Within
          (did (set_flags fd (nonblocking flags)) ∷ gave (get_flags fd) flags ∷ ds) tr in
      gave-then net R ds (get_flags fd) _ (λ flags.
        let asked = gave (get_flags fd) flags ∷ ds in
        let c = set_flags fd (nonblocking flags) in
        weaken-Runs (Within asked) (λ _. Within (did c ∷ asked)) R (call net c)
          (call-Runs net asked c) (λ _ tr q. (flags, q)))

  attach-Runs :
      (ds : List Done) (fd : ℕ)
      → Runs
          (Within (gave open_tun fd ∷ ds))
          (attach net tun_name fd)
          (λ tun tr. (tun ≡ fd) × Created ds fd tr)
  unfolding attach
  attach-Runs ds fd =
      let opened = gave open_tun fd ∷ ds in
      let c = set_interface fd (padded tun_name) tun_flags in
      let R : ℕ → List Event → Type 0 = λ tun tr. (tun ≡ fd) × Created ds fd tr in
      bind-Runs (Within opened) (λ _. Created ds fd) R _ _
        (bind-Runs (Within opened) (λ _. Within (did c ∷ opened)) (λ _. Created ds fd)
          (closing net fd (call net c)) _
          (closing-Runs (Within opened) (λ _. Within (did c ∷ opened)) fd (call net c)
            (call-Runs net opened c))
          (λ _.
            closing-Runs (Within (did c ∷ opened)) (λ _. Created ds fd) fd (set_nonblocking net fd)
              (set_nonblocking-Runs (did c ∷ opened) fd)))
        (λ _ o p. (refl, refl, (refl, p)))

  pub create-Runs : (ds : List Done) → Runs (Within ds) (create net tun_name) (Created ds)
  unfolding create
  create-Runs ds = gave-then net (Created ds) ds open_tun _ (λ fd.
      weaken-Runs (Within (gave open_tun fd ∷ ds)) (λ tun tr. (tun ≡ fd) × Created ds fd tr)
        (Created ds) (attach net tun_name fd) (attach-Runs ds fd) (λ tun tr (e, q). rw e q))

  pub stack_new-Runs :
      (ds : List Done) (tun : ℕ)
      → Runs
          (Within ds)
          (stack_new net tun)
          (λ _. Within (did add_dns ∷ did (register tun) ∷ did assign_addresses ∷ ds))
  unfolding stack_new
  stack_new-Runs ds tun =
      let R : ℕ → List Event → Type 0 =
        λ _. Within (did add_dns ∷ did (register tun) ∷ did assign_addresses ∷ ds) in
      let held = did assign_addresses ∷ ds in
      let M : ℕ → List Event → Type 0 = λ _. Within (did (register tun) ∷ held) in
      bind-Runs (Within ds) M R (call net assign_addresses >> call net (register tun))
        (λ _. call net add_dns)
        (did-then net M ds assign_addresses (λ _. call net (register tun))
          (λ _. call-Runs net held (register tun)))
        (λ _. call-Runs net (did (register tun) ∷ held) add_dns)
