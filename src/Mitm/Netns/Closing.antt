-- ===== src/Mitm/Netns/Closing.antt =====
-- src/mitm/tun.rs, `Tun::create`: the descriptor that it opens is closed or given back.
use airgap.Prelude.{
  ℕ, ◌<◌, ◌≡◌, refl, List, [], ◌∷◌, arith, Bytes, Result, ok, err, Result-cases, length, lt→ltb,
  ◌+◌, ◌-◌, inl, inr, nat_beq, if◌then◌else◌, false, Bool-cases,
}
use airgap.Mitm.Netns.{
  open_tun, set_interface, get_flags, set_flags, close, Event, NetError, Thread, Net, call, attempt,
}
use airgap.Mitm.Netns.Create.{tun_flags, nonblocking, padded, set_nonblocking, attach, create}

-- How many openings of the device gave a descriptor, less those that a close of it has undone. A close
-- that fails undoes none.
unfoldable pub opened : ℕ → List Event → ℕ
opened d [] = 0
opened d ((open_tun, ok fd) ∷ tr) = if nat_beq fd d then opened d tr + 1 else opened d tr
opened d ((close fd, ok n) ∷ tr) = if nat_beq fd d then opened d tr - 1 else opened d tr
opened d (e ∷ tr) = opened d tr

-- What is documented of `close`: it succeeds on a descriptor that is open.
abbrev pub Closes : Net → Type 0
Closes net =
    (tr : List Event) (fd : ℕ) → 0 < opened fd tr → (n : ℕ) × (net.answer tr (close fd) ≡ ok n)

-- For every descriptor: as many openings as before, and one more of that which is given back.
abbrev pub Balanced : Thread → Result NetError ℕ × Thread → Type 0
Balanced o (ok fd, o') =
    (opened fd o'.trace ≡ opened fd o.trace + 1)
    × ((d : ℕ) → nat_beq fd d ≡ false → opened d o'.trace ≡ opened d o.trace)
Balanced o (err e, o') = (d : ℕ) → opened d o'.trace ≡ opened d o.trace

-- One opening more, of a descriptor.
abbrev Opens : ℕ → List Event → List Event → Type 0
Opens fd before after =
    (opened fd after ≡ opened fd before + 1)
    × ((d : ℕ) → nat_beq fd d ≡ false → opened d after ≡ opened d before)

opened-Opens : (fd : ℕ) (tr : List Event) → Opens fd tr ((open_tun, ok fd) ∷ tr)
unfolding opened
opened-Opens fd tr = (ground arith, λ d e. ground (arith, e))

-- The close of the descriptor undoes its opening.
close-Opens :
    (net : Net) (fd : ℕ) (o : Thread) (before : List Event)
    → Closes net
    → Opens fd before o.trace
    → (d : ℕ) → opened d (attempt net (close fd) o).1.trace ≡ opened d before
unfolding attempt call opened
close-Opens net fd o before closes (one, others) d =
    let (n, e) = closes o.trace fd (omega arith) in
    elim (Bool-cases (nat_beq fd d)) [
      | inl q ↦
          let same : fd ≡ d = ground arith in
          let here : opened d o.trace ≡ opened d before + 1 = rw same at one in
          rw (attempt, call, e, q) (omega arith)
      | inr q ↦ rw (attempt, call, e, q) (others d q)
    ]

-- With a name that fits, a creation that fails has closed the descriptor that it opened and no other,
-- and one that succeeds leaves the descriptor that it gives back, and no other, open one time more. A
-- close of a descriptor that is open succeeds.
pub create-Balanced :
    (net : Net) (name : Bytes) (o : Thread)
    → Closes net
    → length name < 16
    → Balanced o (create net name o)
unfolding create attach set_nonblocking call attempt opened
create-Balanced net name o closes h =
    let t = lt→ltb (length name) 16 h in
    let tr = o.trace in
    elim (Result-cases (net.answer tr open_tun)) [
      | inr (x, a) ↦ rw (create, a, opened) (λ d. refl)
      | inl (fd, a) ↦
          let one = opened-Opens fd o.trace in
          let tr = (open_tun, ok fd) ∷ tr in
          let c = set_interface fd (padded name) tun_flags in
          elim (Result-cases (net.answer tr c)) [
            | inr (x, b) ↦
                rw (create, a, t, b)
                  (close-Opens net fd (record o { trace = (c, err x) ∷ tr }) o.trace closes one)
            | inl (n, b) ↦
                let tr = (c, ok n) ∷ tr in
                let d = get_flags fd in
                elim (Result-cases (net.answer tr d)) [
                  | inr (x, e) ↦
                      rw (create, a, t, b, e)
                        (close-Opens net fd (record o { trace = (d, err x) ∷ tr }) o.trace closes
                          one)
                  | inl (flags, e) ↦
                      let tr = (d, ok flags) ∷ tr in
                      let f = set_flags fd (nonblocking flags) in
                      elim (Result-cases (net.answer tr f)) [
                        | inr (x, g) ↦
                            rw (create, a, t, b, e, g)
                              (close-Opens net fd (record o { trace = (f, err x) ∷ tr }) o.trace
                                closes one)
                        | inl (k, g) ↦ rw (create, a, t, b, e, g) one
                      ]
                ]
          ]
    ]
