-- ===== src/Fs/Handles.antt =====
-- src/fs.rs: `Handles`, which numbers the open handles.
use airgap.Prelude.{
  ℕ, ◌+◌, ◌<◌, ◌≡◌, ◌≢◌, [], Option, none, some, arith, nat_eq, ◌==◌, if◌then◌else◌, Option-cases,
  inl, inr,
}
use airgap.Prelude.Assoc
use airgap.Prelude.Assoc.{Assoc, lookup, lookup-insert, lookup-remove, lookup-empty}
use airgap.Fs.Types.{Handle}

pub record Handles (Fd : Type 0) : Type 0 where
  pub next : ℕ
  pub map : Assoc ℕ (Handle Fd)

module _ {Fd : Type 0} where
  unfoldable pub empty : Handles Fd
  empty = record { next = 1; map = [] }

  unfoldable pub insert : Handles Fd → Handle Fd → ℕ × Handles Fd
  insert hs h = (hs.next, record { next = hs.next + 1; map = Assoc.insert hs.map hs.next h })

  -- `map.get(fh)`, `map.remove(fh)`, and a change through `map.get_mut(fh)`.
  unfoldable pub get : Handles Fd → ℕ → Option (Handle Fd)
  get hs fh = lookup hs.map fh

  unfoldable pub remove : Handles Fd → ℕ → Handles Fd
  remove hs fh = record hs { map = Assoc.remove hs.map fh }

  unfoldable pub set : Handles Fd → ℕ → Handle Fd → Handles Fd
  set hs fh h = record hs { map = Assoc.insert hs.map fh h }

  -- Every handle in use is below the next one.
  pub record Inv (hs : Handles Fd) : Type 0 where
    pub below : (fh : ℕ) (h : Handle Fd) → get hs fh ≡ some h → fh < hs.next

  pub get-empty : (fh : ℕ) {h : Handle Fd} → get empty fh ≢ some h
  unfolding empty get
  get-empty fh e = ground (arith, lookup-empty {V = Handle Fd} fh)

  pub empty-Inv : Inv empty
  unfolding empty
  empty-Inv = record { below = λ fh h e. absurd (get-empty fh e) }

  pub insert-Inv : (hs : Handles Fd) (h : Handle Fd) → Inv hs → Inv (insert hs h).1
  unfolding insert get
  insert-Inv hs h v = record {
    below = λ fh g e. ground (arith, lookup-insert hs.map hs.next fh h, v.below fh g);
  }

  pub remove-Inv : (hs : Handles Fd) (fh : ℕ) → Inv hs → Inv (remove hs fh)
  unfolding remove get
  remove-Inv hs fh v = record {
    below = λ k g e. ground (arith, lookup-remove hs.map fh k, v.below k g);
  }

  pub set-Inv :
      (hs : Handles Fd) (fh : ℕ) (h : Handle Fd) {g : Handle Fd}
      → get hs fh ≡ some g
      → Inv hs
      → Inv (set hs fh h)
  unfolding set get
  set-Inv hs fh h {g} e v = record {
    below = λ k f q. ground (arith, lookup-insert hs.map fh k h, v.below k f, v.below fh g e);
  }

  pub get-set :
      (hs : Handles Fd) (fh k : ℕ) (h : Handle Fd)
      → get (set hs fh h) k ≡ (if fh == k then some h else get hs k)
  unfolding get set
  get-set hs fh k h = lookup-insert hs.map fh k h

  pub get-remove :
      (hs : Handles Fd) (fh k : ℕ) → get (remove hs fh) k ≡ (if fh == k then none else get hs k)
  unfolding get remove
  get-remove hs fh k = lookup-remove hs.map fh k

  -- A new handle has a number that was not in use, and leaves every other handle as it is.
  pub insert_lem :
      (hs : Handles Fd) (h : Handle Fd)
      → Inv hs
      → (get hs (insert hs h).0 ≡ none)
        × ((k : ℕ) → get (insert hs h).1 k ≡ (if (insert hs h).0 == k then some h else get hs k))
  unfolding insert get
  insert_lem hs h v = (
    elim (Option-cases (lookup hs.map hs.next)) [
      | inl e ↦ e
      | inr (g, e) ↦ absurd (omega (arith, v.below hs.next g e))
    ],
    λ k. lookup-insert hs.map hs.next k h,
  )
