-- ===== src/Mitm/Stack/Handles.antt =====
-- src/mitm/stack.rs: every handle that the stack keeps names a socket of its kind, and one only, so that
-- no look-up of a socket panics.
use airgap.Prelude.{
  ℕ, zero, suc, ◌+◌, ◌-◌, ◌≤◌, ◌≡◌, refl, ap, ◌≢◌, inl, inr, List, [], ◌∷◌, ◌++◌, Option, none,
  some, arith, if◌then◌else◌, nat_beq, nat_beq_iff, ◌==◌, ==_cases, nat_eq,
}
use airgap.Prelude.Assoc.{Assoc}
use airgap.Prelude.Assoc
use airgap.Mitm.Channels.{Channels}
use airgap.Mitm.Smoltcp.{Smoltcp, SetLaws, tcp, kind}
use airgap.Mitm.Stack.Loop.{
  Stack, listen_backlog, have, add_listener, add_listeners, ensure_ports, ensure_listeners,
}

-- How often a handle stands among the first parts of a list.
abbrev pub count {ℓ} : {V : Type ℓ} → List (ℕ × V) → ℕ → ℕ
count [] k = 0
count ((h, v) ∷ m) k = let rest = count m k in if h == k then suc rest else rest

pub count-append {ℓ} :
    {V : Type ℓ} (m n : List (ℕ × V)) (k : ℕ) → count (m ++ n) k ≡ count m k + count n k
count-append [] n k = omega arith
count-append ((h, v) ∷ m) n k = ground (arith, count-append m n k)

pub count-remove {ℓ} :
    {V : Type ℓ} (m : Assoc ℕ V) (h k : ℕ)
    → count (Assoc.remove m h) k ≡ (if h == k then 0 else count m k)
unfolding Assoc.remove
count-remove [] h k = ground arith
count-remove ((j, v) ∷ m) h k = ground (arith, count-remove m h k)

pub count-insert {ℓ} :
    {V : Type ℓ} (m : Assoc ℕ V) (h k : ℕ) (v : V)
    → count (Assoc.insert m h v) k ≡ (if h == k then 1 else count m k)
unfolding Assoc.insert
count-insert m h k v = ground (arith, count-remove m h k)

module _ (t : Smoltcp) where
  -- One where a handle names a TCP socket, else none.
  abbrev pub held : t.Sockets → ℕ → ℕ
  held ss k = if nat_beq (kind (t.get ss k)) 1 then 1 else 0

module _ (t : Smoltcp) (laws : SetLaws t) where
  pub held-remove :
      (ss : t.Sockets) (h k : ℕ) → held t (t.remove ss h) k ≡ (if h == k then 0 else held t ss k)
  held-remove ss h k = elim (==_cases h k) [
    | inl (q, e) ↦ rw (laws.get-remove ss h k, q) refl
    | inr (q, e) ↦ rw (laws.get-remove ss h k, q) refl
  ]

  pub held-put :
      (ss : t.Sockets) (h k : ℕ) (sock : t.Socket)
      → held t (t.put ss h (tcp sock)) k ≡ (if h == k then 1 else held t ss k)
  held-put ss h k sock = elim (==_cases h k) [
    | inl (q, e) ↦ rw (laws.get-put ss h k (tcp sock), q) refl
    | inr (q, e) ↦ rw (laws.get-put ss h k (tcp sock), q) refl
  ]

  held-add :
      (ss : t.Sockets) (k : ℕ) (sock : t.Socket)
      → held t (t.add ss (tcp sock)).1 k ≡ (if (t.add ss (tcp sock)).0 == k then 1 else held t ss k)
  held-add ss k sock = elim (==_cases (t.add ss (tcp sock)).0 k) [
    | inl (q, e) ↦ rw (laws.get-add ss (tcp sock) k, q) refl
    | inr (q, e) ↦ rw (laws.get-add ss (tcp sock) k, q) refl
  ]

  held-fresh : (ss : t.Sockets) (sock : t.Socket) → held t ss (t.add ss (tcp sock)).0 ≡ 0
  held-fresh ss sock = rw (laws.add_fresh ss (tcp sock)) refl

module _ (c : Channels) (t : Smoltcp) where
  -- The handles name TCP sockets, each a socket of its own, and that of the name server a UDP socket.
  abbrev pub Inv : Stack c t → Type 0
  Inv s =
      ((k : ℕ) → count s.listeners k + count s.conns k ≤ held t s.sockets k)
      × (kind (t.get s.sockets s.dns) ≡ 2)

  -- No panic, and the handles are right.
  abbrev pub Sound : Option (Stack c t) → Type 0
  Sound none = ⊥
  Sound (some s) = Inv s

module _ (c : Channels) (t : Smoltcp) (open_channel : ℕ → c.Sender × c.Receiver)
    (laws : SetLaws t) where
  add_listener-Inv :
      (s : Stack c t) (port : ℕ) (o : Option t.Socket)
      → Inv c t s
      → Inv c t (add_listener c t open_channel s port o)
  unfolding add_listener
  add_listener-Inv s port none inv = inv
  add_listener-Inv s port (some sock) (uses, dns) =
      let h = (t.add s.sockets (tcp sock)).0 in
      let fresh = held-fresh t laws s.sockets sock in
      let other : h ≢ s.dns =
        λ e. cc (laws.add_fresh s.sockets (tcp sock), ap (λ k. kind (t.get s.sockets k)) e, dns) in
      (
        λ k. ground (
          arith,
          uses k,
          uses h,
          fresh,
          held-add t laws s.sockets k sock,
          count-append s.listeners ((h, port) ∷ []) k,
          nat_beq_iff h k,
        ),
        elim (==_cases h s.dns) [
          | inl (q, e) ↦ absurd (other e)
          | inr (q, e) ↦ rw (laws.get-add s.sockets (tcp sock) s.dns, q) dns
        ],
      )

  add_listeners-Inv :
      (n : ℕ) (s : Stack c t) (port : ℕ)
      → Inv c t s
      → Inv c t (add_listeners c t open_channel n s port)
  unfolding add_listeners
  add_listeners-Inv zero s port inv = inv
  add_listeners-Inv (suc n) s port inv =
      add_listeners-Inv n (add_listener c t open_channel s port (t.listening port)) port
        (add_listener-Inv s port (t.listening port) inv)

  ensure_ports-Inv :
      (ports : List ℕ) (s : Stack c t) → Inv c t s → Inv c t (ensure_ports c t open_channel s ports)
  unfolding ensure_ports
  ensure_ports-Inv [] s inv = inv
  ensure_ports-Inv (port ∷ ports) s inv =
      let n = listen_backlog - have c t open_channel s.listeners port in
      ensure_ports-Inv ports (add_listeners c t open_channel n s port)
        (add_listeners-Inv n s port inv)

  pub ensure_listeners-Inv :
      (s : Stack c t) → Inv c t s → Inv c t (ensure_listeners c t open_channel s)
  unfolding ensure_listeners
  ensure_listeners-Inv s inv = ensure_ports-Inv s.wanted_ports s inv

  -- The handle of a TCP socket is not that of the name server.
  pub not_dns :
      (ss : t.Sockets) (h dns : ℕ) (sock : t.Socket)
      → t.get ss h ≡ some (tcp sock)
      → kind (t.get ss dns) ≡ 2
      → h ≢ dns
  not_dns ss h dns sock q d e = cc (ap kind q, ap (λ k. kind (t.get ss k)) e, d)

  pub kind-remove :
      (ss : t.Sockets) (h dns : ℕ)
      → h ≢ dns
      → kind (t.get (t.remove ss h) dns) ≡ kind (t.get ss dns)
  kind-remove ss h dns ne = elim (==_cases h dns) [
    | inl (q, e) ↦ absurd (ne e)
    | inr (q, e) ↦ rw (laws.get-remove ss h dns, q) refl
  ]

  pub kind-put :
      (ss : t.Sockets) (h dns : ℕ) (sock : t.Socket)
      → h ≢ dns
      → kind (t.get (t.put ss h (tcp sock)) dns) ≡ kind (t.get ss dns)
  kind-put ss h dns sock ne = elim (==_cases h dns) [
    | inl (q, e) ↦ absurd (ne e)
    | inr (q, e) ↦ rw (laws.get-put ss h dns (tcp sock), q) refl
  ]
