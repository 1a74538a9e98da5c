-- ===== src/Mitm/Netns/Runs.antt =====
-- src/mitm/netns.rs: what a chain of calls that succeeds has left in the trace.
use airgap.Prelude.{ℕ, ◌≡◌, refl, inl, inr, List, [], ◌∷◌, Result, ok, err, Result-cases, ◌∙◌}
use airgap.Mitm.Netns.{Call, Event, NetError, Thread, Net, Action, then_with, ◌>>=◌, call, attempt}

-- A call that succeeded, or succeeded with a number.
pub data Done : Type 0 where
  did : Call → Done
  gave : Call → ℕ → Done

-- The calls stand in the trace in this order, the last first, with others between them.
pub data Within : List Done → List Event → Type 0 where
  start : Within [] []
  other : {ds : List Done} {tr : List Event} (e : Event) → Within ds tr → Within ds (e ∷ tr)
  doing :
      {ds : List Done} {tr : List Event} (c : Call) (n : ℕ)
      → Within ds tr
      → Within (did c ∷ ds) ((c, ok n) ∷ tr)
  giving :
      {ds : List Done} {tr : List Event} (c : Call) (n : ℕ)
      → Within ds tr
      → Within (gave c n ∷ ds) ((c, ok n) ∷ tr)

-- What an action does to a thread that it neither signals from nor starts anything on: where it
-- succeeds, the trace is as the condition says.
abbrev pub Settles :
    {A : Type 0} → (A → List Event → Type 0) → Thread → Result NetError A × Thread → Type 0
Settles Q o (err e, o') = (o'.signals ≡ o.signals) × (o'.running ≡ o.running)
Settles Q o (ok a, o') = (o'.signals ≡ o.signals) × (o'.running ≡ o.running) × Q a o'.trace

abbrev pub Runs :
    {A : Type 0} → (List Event → Type 0) → Action A → (A → List Event → Type 0) → Type 0
Runs P m Q = (o : Thread) → P o.trace → Settles Q o (m o)

pub after-Settles :
    {B : Type 0} (R : B → List Event → Type 0) (o o' : Thread) (r : Result NetError B × Thread)
    → o'.signals ≡ o.signals
    → o'.running ≡ o.running
    → Settles R o' r
    → Settles R o r
after-Settles R o o' (err e, u) s t (s', t') = (s' ∙ s, t' ∙ t)
after-Settles R o o' (ok b, u) s t (s', t', q) = (s' ∙ s, t' ∙ t, q)

then_with-Settles :
    {A B : Type 0} (Q : A → List Event → Type 0) (R : B → List Event → Type 0) (o : Thread)
    (r : Result NetError A × Thread) (k : A → Action B)
    → Settles Q o r
    → ((a : A) → Runs (Q a) (k a) R)
    → Settles R o (then_with k r)
then_with-Settles Q R o (err e, o') k s h = s
then_with-Settles Q R o (ok a, o') k (s, t, q) h = after-Settles R o o' (k a o') s t (h a o' q)

pub bind-Runs :
    {A B : Type 0} (P : List Event → Type 0) (Q : A → List Event → Type 0)
    (R : B → List Event → Type 0) (m : Action A) (k : A → Action B)
    → Runs P m Q
    → ((a : A) → Runs (Q a) (k a) R)
    → Runs P (m >>= k) R
bind-Runs P Q R m k f g o p = then_with-Settles Q R o (m o) k (f o p) g

weaken-Settles :
    {A : Type 0} (Q R : A → List Event → Type 0) (o : Thread) (r : Result NetError A × Thread)
    → ((a : A) (tr : List Event) → Q a tr → R a tr)
    → Settles Q o r
    → Settles R o r
weaken-Settles Q R o (err e, u) g s = s
weaken-Settles Q R o (ok a, u) g (s, t, q) = (s, t, g a u.trace q)

pub weaken-Runs :
    {A : Type 0} (P : List Event → Type 0) (Q R : A → List Event → Type 0) (m : Action A)
    → Runs P m Q
    → ((a : A) (tr : List Event) → Q a tr → R a tr)
    → Runs P m R
weaken-Runs P Q R m f g o p = weaken-Settles Q R o (m o) g (f o p)

module _ (net : Net) where
  pub call-Runs :
      (ds : List Done) (c : Call) → Runs (Within ds) (call net c) (λ n. Within (did c ∷ ds))
  unfolding call
  call-Runs ds c o p = elim (Result-cases (net.answer o.trace c)) [
    | inl (n, e) ↦ rw (call, e) (refl, refl, doing c n p)
    | inr (x, e) ↦ rw (call, e) (refl, refl)
  ]

  pub call-gives :
      (ds : List Done) (c : Call) → Runs (Within ds) (call net c) (λ n. Within (gave c n ∷ ds))
  unfolding call
  call-gives ds c o p = elim (Result-cases (net.answer o.trace c)) [
    | inl (n, e) ↦ rw (call, e) (refl, refl, giving c n p)
    | inr (x, e) ↦ rw (call, e) (refl, refl)
  ]

  pub attempt-Runs : (ds : List Done) (c : Call) → Runs (Within ds) (attempt net c) (λ _. Within ds)
  unfolding attempt call
  attempt-Runs ds c o p = elim (Result-cases (net.answer o.trace c)) [
    | inl (n, e) ↦ rw (attempt, call, e) (refl, refl, other (c, ok n) p)
    | inr (x, e) ↦ rw (attempt, call, e) (refl, refl, other (c, err x) p)
  ]

  -- A call in front of the rest, of which it is known that it succeeded.
  pub did-then :
      {B : Type 0} (R : B → List Event → Type 0) (ds : List Done) (c : Call) (k : ℕ → Action B)
      → ((n : ℕ) → Runs (Within (did c ∷ ds)) (k n) R)
      → Runs (Within ds) (call net c >>= k) R
  did-then R ds c k g =
      bind-Runs (Within ds) (λ n. Within (did c ∷ ds)) R (call net c) k (call-Runs ds c) g

  pub gave-then :
      {B : Type 0} (R : B → List Event → Type 0) (ds : List Done) (c : Call) (k : ℕ → Action B)
      → ((n : ℕ) → Runs (Within (gave c n ∷ ds)) (k n) R)
      → Runs (Within ds) (call net c >>= k) R
  gave-then R ds c k g =
      bind-Runs (Within ds) (λ n. Within (gave c n ∷ ds)) R (call net c) k (call-gives ds c) g

  -- An action in front of the rest, whatever came of its calls.
  pub tried-then :
      {A B : Type 0} (R : B → List Event → Type 0) (ds : List Done) (m : Action A)
      (k : A → Action B)
      → Runs (Within ds) m (λ _. Within ds)
      → ((a : A) → Runs (Within ds) (k a) R)
      → Runs (Within ds) (m >>= k) R
  tried-then R ds m k f g = bind-Runs (Within ds) (λ _. Within ds) R m k f g
