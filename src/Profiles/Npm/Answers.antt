-- ===== src/Profiles/Npm/Answers.antt =====
-- src/profiles/npm.rs, `DirGate`: what any sequence of requests can say of an answer.
use airgap.Prelude.{
  ◌≡◌, refl, sym, ap, ◌∙◌, ◌⊎◌, inl, inr, Bool, true, false, ◌||◌, List, [], ◌∷◌, ◌++◌, arith, any,
  any-append, Bool-cases, All, All-append, append_assoc, if◌then◌else◌,
}
use airgap.Std.FilePath.{FilePath, starts_with, starts_with_refl, starts_with_trans}
use airgap.Fs.Types.{Access}
use airgap.Profiles.Npm.{GateState, Asker, covered, new, decide, allow}

module _ {W : Type 0} (ask : Asker W) where
  -- The state behind a list of requests.
  abbrev pub answered : GateState W → List (FilePath × Access) → GateState W
  answered st [] = st
  answered st ((p, a) ∷ rs) = answered (allow ask st p a).1 rs

  -- The path has an answer, and a granted one stays granted.
  abbrev pub Settled : FilePath → GateState W → Type 0
  Settled p st = (covered p st.allowed || covered p st.denied) ≡ true

  decide-grows :
      (p q : FilePath) (st : GateState W) (d : Bool × W)
      → ((covered p st.allowed ≡ true → covered p (decide st q d).1.allowed ≡ true)
          × (Settled p st → Settled p (decide st q d).1))
  unfolding decide covered
  decide-grows p q st (true, w) = (
    λ h. ground (arith, any-append (λ k. starts_with p k) st.allowed (q ∷ [])),
    λ h. ground (arith, any-append (λ k. starts_with p k) st.allowed (q ∷ [])),
  )
  decide-grows p q st (false, w) =
      (λ h. h, λ h. ground (arith, any-append (λ k. starts_with p k) st.denied (q ∷ [])))

  allow-grows :
      (p q : FilePath) (a : Access) (st : GateState W)
      → ((covered p st.allowed ≡ true → covered p (allow ask st q a).1.allowed ≡ true)
          × (Settled p st → Settled p (allow ask st q a).1))
  unfolding allow
  allow-grows p q a st =
      let d = decide-grows p q st (ask st.asker q a) in
      ((λ h. ground (arith, d.0)), λ h. ground (arith, d.1))

  answered-grows :
      (p : FilePath) (st : GateState W) (rs : List (FilePath × Access))
      → ((covered p st.allowed ≡ true → covered p (answered st rs).allowed ≡ true)
          × (Settled p st → Settled p (answered st rs)))
  answered-grows p st [] = (λ h. h, λ h. h)
  answered-grows p st ((q, a) ∷ rs) =
      let g = allow-grows p q a st in
      let gs = answered-grows p (allow ask st q a).1 rs in (λ h. gs.0 (g.0 h), λ h. gs.1 (g.1 h))

  decide-Settled : (p : FilePath) (st : GateState W) (d : Bool × W) → Settled p (decide st p d).1
  unfolding decide covered
  decide-Settled p st (true, w) =
      ground (arith, any-append (λ k. starts_with p k) st.allowed (p ∷ []), starts_with_refl p)
  decide-Settled p st (false, w) =
      ground (arith, any-append (λ k. starts_with p k) st.denied (p ∷ []), starts_with_refl p)

  allow-Settled : (p : FilePath) (a : Access) (st : GateState W) → Settled p (allow ask st p a).1
  unfolding allow
  allow-Settled p a st = ground (arith, decide-Settled p st (ask st.asker p a))

  allow_again :
      (p : FilePath) (a : Access) (st : GateState W) → Settled p st → (allow ask st p a).1 ≡ st
  unfolding allow
  allow_again p a st h = ground arith

  -- A file is asked about at most once: whatever was requested since its first request, another
  -- request for it, of any kind, asks nobody and changes nothing.
  pub asked_once :
      (st : GateState W) (p : FilePath) (a b : Access) (rs : List (FilePath × Access))
      → (allow ask (answered (allow ask st p a).1 rs) p b).1 ≡ answered (allow ask st p a).1 rs
  asked_once st p a b rs =
      allow_again p b (answered (allow ask st p a).1 rs)
        ((answered-grows p (allow ask st p a).1 rs).1 (allow-Settled p a st))

  decide-covered :
      (p : FilePath) (st : GateState W) (d : Bool × W)
      → (decide st p d).0 ≡ true
      → covered p (decide st p d).1.allowed ≡ true
  unfolding decide covered
  decide-covered p st (true, w) h =
      ground (arith, any-append (λ k. starts_with p k) st.allowed (p ∷ []), starts_with_refl p)
  decide-covered p st (false, w) h = cc

  allow-covered :
      (p : FilePath) (a : Access) (st : GateState W)
      → (allow ask st p a).0 ≡ true
      → covered p (allow ask st p a).1.allowed ≡ true
  unfolding allow
  allow-covered p a st h = ground (arith, decide-covered p st (ask st.asker p a))

  covered_granted :
      (p : FilePath) (a : Access) (st : GateState W)
      → covered p st.allowed ≡ true
      → (allow ask st p a).0 ≡ true
  unfolding allow
  covered_granted p a st h = ground arith

  -- A file that was granted stays granted for every kind of access, whatever was requested since.
  pub granted_stays :
      (st : GateState W) (p : FilePath) (a b : Access) (rs : List (FilePath × Access))
      → (allow ask st p a).0 ≡ true
      → (allow ask (answered (allow ask st p a).1 rs) p b).0 ≡ true
  granted_stays st p a b rs h =
      covered_granted p b (answered (allow ask st p a).1 rs)
        ((answered-grows p (allow ask st p a).1 rs).0 (allow-covered p a st h))

  -- A path that lies under one that was pre-approved, or that the user said yes to.
  abbrev pub Approved : List FilePath → FilePath → Type 0
  Approved preapproved p =
      (covered p preapproved ≡ true)
      ⊎ ((q : FilePath) × (w : W) × (a : Access) × ((ask w q a).0 ≡ true)
          × (starts_with p q ≡ true))

  Approved-under :
      (preapproved : List FilePath) (p q : FilePath)
      → starts_with p q ≡ true
      → Approved preapproved q
      → Approved preapproved p
  unfolding covered
  Approved-under preapproved p q h (inl c) = inl (go preapproved c)
    where
      go :
          (ps : List FilePath)
          → any (λ k. starts_with q k) ps ≡ true
          → any (λ k. starts_with p k) ps ≡ true
      go [] c = cc
      go (k ∷ ps) c = ground (arith, starts_with_trans p q k, go ps)
  Approved-under preapproved p q h (inr (r, w, a, y, s)) =
      inr (r, w, a, y, starts_with_trans p q r h s)

  covered-Approved :
      (preapproved : List FilePath) (p : FilePath) (ps : List FilePath)
      → covered p ps ≡ true
      → All (Approved preapproved) ps
      → Approved preapproved p
  unfolding covered
  covered-Approved preapproved p [] h vs = cc
  covered-Approved preapproved p (k ∷ ps) h (v, vs) = elim (Bool-cases (starts_with p k)) [
    | inl t ↦ Approved-under preapproved p k t v
    | inr f ↦ covered-Approved preapproved p ps (ground arith) vs
  ]

  decide-Approved :
      (preapproved : List FilePath) (p : FilePath) (a : Access) (w : W) (st : GateState W)
      (d : Bool × W)
      → ask w p a ≡ d
      → All (Approved preapproved) st.allowed
      → All (Approved preapproved) (decide st p d).1.allowed
  unfolding decide
  decide-Approved preapproved p a w st (true, w') e vs =
      All-append (Approved preapproved) st.allowed (p ∷ []) vs
        (inr (p, w, a, ap (λ d. d.0) e, starts_with_refl p), tt)
  decide-Approved preapproved p a w st (false, w') e vs = vs

  pub allow-Approved :
      (preapproved : List FilePath) (p : FilePath) (a : Access) (st : GateState W)
      → All (Approved preapproved) st.allowed
      → All (Approved preapproved) (allow ask st p a).1.allowed
  unfolding allow
  allow-Approved preapproved p a st vs =
      elim (covered p st.allowed)
        as (λ b.
          All (Approved preapproved)
            (if b
              then (true, st)
              else if covered p st.denied
              then (false, st)
              else decide st p (ask st.asker p a)).1.allowed) [
                | true ↦ vs
                | false ↦
                    elim (covered p st.denied)
                      as (λ b.
                        All (Approved preapproved)
                          (if b then (false, st) else decide st p (ask st.asker p a)).1.allowed) [
                            | true ↦ vs
                            | false ↦
                                decide-Approved preapproved p a st.asker st (ask st.asker p a) refl
                                  vs
                          ]
              ]

  answered-Approved :
      (preapproved : List FilePath) (st : GateState W) (rs : List (FilePath × Access))
      → All (Approved preapproved) st.allowed
      → All (Approved preapproved) (answered st rs).allowed
  answered-Approved preapproved st [] vs = vs
  answered-Approved preapproved st ((q, a) ∷ rs) vs =
      answered-Approved preapproved (allow ask st q a).1 rs (allow-Approved preapproved q a st vs)

  preapproved-Approved :
      (preapproved ps qs : List FilePath) → preapproved ≡ qs ++ ps → All (Approved preapproved) ps
  unfolding covered
  preapproved-Approved preapproved [] qs e = tt
  preapproved-Approved preapproved (p ∷ ps) qs e = (
    inl (rw e (ground (arith, any-append (λ k. starts_with p k) qs (p ∷ ps), starts_with_refl p))),
    preapproved-Approved preapproved ps (qs ++ (p ∷ [])) (e ∙ sym (append_assoc qs (p ∷ []) ps)),
  )

  -- From a state whose answers are approved, what is granted is.
  pub allow_true-Approved :
      (preapproved : List FilePath) (st : GateState W) (p : FilePath) (a : Access)
      → All (Approved preapproved) st.allowed
      → (allow ask st p a).0 ≡ true
      → Approved preapproved p
  allow_true-Approved preapproved st p a v h =
      covered-Approved preapproved p (allow ask st p a).1.allowed (allow-covered p a st h)
        (allow-Approved preapproved p a st v)

  pub new-Approved :
      (preapproved : List FilePath) (w : W) → All (Approved preapproved) (new preapproved w).allowed
  unfolding new
  new-Approved preapproved w = preapproved-Approved preapproved preapproved [] refl

  -- Nothing is granted but what is pre-approved, or lies under a path that the user said yes to.
  pub granted-Approved :
      (preapproved : List FilePath) (w : W) (rs : List (FilePath × Access)) (p : FilePath)
      (a : Access)
      → (allow ask (answered (new preapproved w) rs) p a).0 ≡ true
      → Approved preapproved p
  unfolding new
  granted-Approved preapproved w rs p a h =
      allow_true-Approved preapproved (answered (new preapproved w) rs) p a
        (answered-Approved preapproved (new preapproved w) rs (new-Approved preapproved w)) h
