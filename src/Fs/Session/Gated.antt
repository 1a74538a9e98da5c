-- ===== src/Fs/Session/Gated.antt =====
-- src/fs.rs with src/profiles/npm.rs: an overlay whose policy hook is `DirGate`.
use airgap.Prelude.{
  ℕ, ◌≡◌, refl, Bool, true, List, [], Option, none, some, arith, All, Bytes, ok, Option-cases,
  Bool-cases, inl, inr, subst, ◌∷◌,
}
use airgap.Std.FilePath.{FilePath, normal, join}
use airgap.Fs.Types.{Access, System, Tree}
use airgap.Fs.Inodes.{path_of}
use airgap.Fs.Io.Whole.{Posix}
use airgap.Fs.Files.{State, gate_allows, open_access, open_file, create_file}
use airgap.Fs.Session.{Request, new, run}
use airgap.Fs.Session.Sound.{Rules}
use airgap.Fs.Session.Whole.{run-new-Sound}
use airgap.Profiles.Npm
use airgap.Profiles.Npm.{GateState, Asker}
use airgap.Profiles.Npm.Answers.{Approved, allow-Approved, allow_true-Approved, new-Approved}

-- A system whose hook is a gate over the answers of a user.
abbrev pub gated : System → {W : Type 0} → Asker W → System
gated sys {W} ask = record sys { Gate = GateState W; allow = Npm.allow ask }

module _ (sys : System) where
  -- What an `open` or a `create` that succeeds was granted.
  open_file-granted :
      (s : State sys) (ino flags : ℕ) (g : sys.Gate) {fh : ℕ}
      → s.gate ≡ some g
      → (open_file sys s ino flags).0 ≡ ok fh
      → (rel : FilePath) × (path_of s.inodes ino ≡ some rel)
        × ((sys.allow g (join s.mount_root rel) (open_access flags)).0 ≡ true)
  unfolding open_file gate_allows
  open_file-granted s ino flags g e h = elim (Option-cases (path_of s.inodes ino)) [
    | inl p ↦ ground (arith, h, p)
    | inr (rel, p) ↦ elim (Bool-cases (sys.allow g (join s.mount_root rel) (open_access flags)).0) [
      | inl a ↦ (rel, p, a)
      | inr a ↦ ground (arith, h, p, e, a)
    ]
  ]

  create_file-granted :
      (s : State sys) (parent : ℕ) (name : Bytes) (mode flags : ℕ) (g : sys.Gate) {r : ℕ × ℕ}
      → s.gate ≡ some g
      → (create_file sys s parent name mode flags).0 ≡ ok r
      → (dir : FilePath) × (path_of s.inodes parent ≡ some dir)
        × ((sys.allow g (join s.mount_root (join dir (normal name ∷ []))) Access.create).0 ≡ true)
  unfolding create_file gate_allows
  create_file-granted s parent name mode flags g e h =
      elim (Option-cases (path_of s.inodes parent)) [
        | inl p ↦ ground (arith, h, p)
        | inr (dir, p) ↦
            elim (Bool-cases
              (sys.allow g (join s.mount_root (join dir (normal name ∷ []))) Access.create).0) [
                | inl a ↦ (dir, p, a)
                | inr a ↦ ground (arith, h, p, e, a)
              ]
      ]

module _ (sys : System) {W : Type 0} (ask : Asker W) (preapproved : List FilePath) where
  -- What the gate's answers rest on: every path that it allows is approved.
  abbrev IsGate : Option (GateState W) → Type 0
  IsGate none = ⊥
  IsGate (some st) = All (Approved ask preapproved) st.allowed

  abbrev rules : FilePath → Rules (gated sys ask)
  rules root = record {
    path = root;
    Seen = λ w. Unit;
    Sent = λ fh offset bytes. Unit;
    Kept = IsGate;
    keeps = λ st p a v. allow-Approved ask preapproved p a st v;
  }

  gate_of :
      (o : Option (GateState W))
      → IsGate o
      → (st : GateState W) × (o ≡ some st) × All (Approved ask preapproved) st.allowed
  gate_of none v = absurd v
  gate_of (some st) v = (st, refl, v)

  -- Whatever was requested of a new overlay with a new gate, an `open` that succeeds is of a file
  -- below the mounted directory whose path lies under a pre-approved one or one that the user
  -- said yes to. The file calls behave as documented.
  pub open_file-run-Approved :
      (tree : Tree (gated sys ask)) (posix : Posix (gated sys ask)) (root : FilePath)
      (redact : Bool) (world : sys.World) (w : W) (qs : List Request) (ino flags fh : ℕ)
      → (open_file
          (gated sys ask)
          (run
            (gated sys ask)
            tree
            (new (gated sys ask) world root redact (some (Npm.new preapproved w)))
            qs).1
          ino
          flags).0
        ≡ ok fh
      → (rel : FilePath) × (path_of
            (run
              (gated sys ask)
              tree
              (new (gated sys ask) world root redact (some (Npm.new preapproved w)))
              qs).1.inodes
            ino
          ≡ some rel)
        × Approved ask preapproved (join root rel)
  open_file-run-Approved tree posix root redact world w qs ino flags fh h =
      let gate = some (Npm.new preapproved w) in
      let s = (run (gated sys ask) tree (new (gated sys ask) world root redact gate) qs).1 in
      let v =
        run-new-Sound (gated sys ask) tree posix (rules root) redact world gate qs
          (new-Approved ask preapproved w) (λ ps rest e. tt, λ ps rest q e fh offset bytes w. tt) in
      let (st, e, a) = gate_of s.gate v.gated in
      let (rel, p, granted) = open_file-granted (gated sys ask) s ino flags st e h in
      (
        rel,
        p,
        subst (λ r. Approved ask preapproved (join r rel)) v.rooted
            (allow_true-Approved ask preapproved st (join s.mount_root rel) (open_access flags) a
              granted),
      )

  -- Whatever was requested of a new overlay with a new gate, a `create` that succeeds makes a file
  -- below the mounted directory, in the directory that the parent's inode leads to, whose path lies under
  -- a pre-approved one or one that the user said yes to. The file calls behave as documented.
  pub create_file-run-Approved :
      (tree : Tree (gated sys ask)) (posix : Posix (gated sys ask)) (root : FilePath)
      (redact : Bool) (world : sys.World) (w : W) (qs : List Request) (parent : ℕ) (name : Bytes)
      (mode flags : ℕ) (r : ℕ × ℕ)
      → (create_file
          (gated sys ask)
          (run
            (gated sys ask)
            tree
            (new (gated sys ask) world root redact (some (Npm.new preapproved w)))
            qs).1
          parent
          name
          mode
          flags).0
        ≡ ok r
      → (dir : FilePath) × (path_of
            (run
              (gated sys ask)
              tree
              (new (gated sys ask) world root redact (some (Npm.new preapproved w)))
              qs).1.inodes
            parent
          ≡ some dir)
        × Approved ask preapproved (join root (join dir (normal name ∷ [])))
  create_file-run-Approved tree posix root redact world w qs parent name mode flags r h =
      let gate = some (Npm.new preapproved w) in
      let s = (run (gated sys ask) tree (new (gated sys ask) world root redact gate) qs).1 in
      let v =
        run-new-Sound (gated sys ask) tree posix (rules root) redact world gate qs
          (new-Approved ask preapproved w) (λ ps rest e. tt, λ ps rest q e fh offset bytes w. tt) in
      let (st, e, a) = gate_of s.gate v.gated in
      let (dir, p, granted) = create_file-granted (gated sys ask) s parent name mode flags st e h in
      (
        dir,
        p,
        subst (λ m. Approved ask preapproved (join m (join dir (normal name ∷ [])))) v.rooted
            (allow_true-Approved ask preapproved st
              (join s.mount_root (join dir (normal name ∷ []))) Access.create a granted),
      )
