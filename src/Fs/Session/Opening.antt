-- ===== src/Fs/Session/Opening.antt =====
-- src/fs.rs, `open` and `create`: what the handles that they add hold.
use airgap.Prelude.{
  ◌%◌, subst, sym, if◌then◌else◌, ℕ, ◌≡◌, refl, Bool, true, false, [], ◌∷◌, none, some, arith,
  Bytes, ok, inl, inr, Option-cases, Result-cases, Bool-cases,
}
use airgap.Std.FilePath.{FilePath, normal, join}
use airgap.Redact.Detect.{is_env_file, is_npmrc_file}
use airgap.Fs.Types.{View, Handle, Access, OFlag, AccessMode, System}
use airgap.Fs.Inodes.{path_of, intern}
use airgap.Fs.Inodes.Invariant.{intern-Inv}
use airgap.Fs.Io.Whole.{Posix}
use airgap.Fs.View.{at, view_of_fd, sniffed, open_real, view_for, plain_read}
use airgap.Fs.View.Decide.{Decided, view_of_fd-Decided}
use airgap.Fs.Files.{
  State, gate_allows, open_access, open_view, open_allowed, open_file, created_handle, create_file,
  file_name_or_empty, has_trunc, passthrough_oflag, read_write_flag,
}
use airgap.Fs.Session.Hidden.{fresh, Pends, emptied, IsPassed, IsView, IsKeyView, IsHidden}
use airgap.Fs.Session.Sound.{
  Rules, Sound, world-Sound, inodes-Sound, gate_allows-Sound, gate_allows-world, add_handle-Sound,
}

module _ (sys : System) (posix : Posix sys) (Seen : sys.World → Type 0) where
  open sys use {World, Fd, content, pread, crates}

  -- What a view that is made while secrets are redacted may be.
  abbrev IsSafe : FilePath → World → View → Type 0
  IsSafe rel w View.passthrough = IsPassed sys Seen rel w
  IsSafe rel w (View.redacted kind bytes) = IsView sys kind bytes
  IsSafe rel w (View.key bytes) = IsKeyView sys bytes
  IsSafe rel w View.failed = Unit {0}

  view-IsSafe :
      (w : World) (looked : Fd) (rel : FilePath) (view : View)
      → (View.passthrough ≡ view → IsPassed sys Seen rel w)
      → Decided crates
          (file_name_or_empty rel)
          (sniffed (pread w looked 1024 0))
          (content w looked)
          view
      → IsSafe rel w view
  view-IsSafe w looked rel View.passthrough k d = k refl
  view-IsSafe w looked rel View.failed k d = tt
  view-IsSafe w looked rel (View.redacted kind bytes) k (inl (n, e)) = ground (arith, e)
  view-IsSafe w looked rel (View.redacted kind bytes) k (inr (h, n, r)) =
      inr (content w looked, rw r.0 r.1)
  view-IsSafe w looked rel (View.key bytes) k (inl (n, e)) = ground (arith, e)
  view-IsSafe w looked rel (View.key bytes) k (inr (h, n, inl r)) = inl (content w looked, r.1)
  view-IsSafe w looked rel (View.key bytes) k (inr (h, n, inr r)) = inr (content w looked, r.1)

  view_for-IsSafe :
      (w : World) (rel : FilePath) (view : View)
      → Seen w
      → (view_for sys w true rel (file_name_or_empty rel)).0 ≡ ok view
      → IsSafe rel (view_for sys w true rel (file_name_or_empty rel)).1 view
  unfolding view_for open_real
  view_for-IsSafe w rel view seen h =
      let opened = open_real sys w rel plain_read 0 in
      elim (Result-cases opened.0) [
        | inr (x, e) ↦ ground (arith, e)
        | inl (fd, e) ↦
            let left : opened.1 ≡ (view_for sys w true rel (file_name_or_empty rel)).1 =
              ground (arith, e) in
            let seen_as : view_of_fd sys opened.1 fd (file_name_or_empty rel) ≡ ok view =
              ground (arith, e) in
            let d =
              view_of_fd-Decided sys posix opened.1 fd (file_name_or_empty rel) view seen_as in
            subst (λ u. IsSafe rel u view) left
              (view-IsSafe opened.1 fd rel view
                (λ q. (
                  w,
                  fd,
                  seen,
                  e,
                  refl,
                  subst
                      (Decided crates (file_name_or_empty rel) (sniffed (pread opened.1 fd 1024 0))
                        (content opened.1 fd))
                      (sym q) d,
                ))
                d)
      ]

  open_view-IsHidden :
      (Sent : ℕ → Bytes → Type 0) (s : State sys) (rel : FilePath) (flags : ℕ) (view : View)
      (h : Handle Fd)
      → IsSafe rel s.world view
      → (open_view sys s rel flags view).0 ≡ ok h
      → IsHidden sys Seen Sent h
  unfolding open_view open_real
  open_view-IsHidden Sent s rel flags (View.key bytes) h v e =
      let q : Handle.key bytes ≡ h = ground (arith, e) in subst (IsHidden sys Seen Sent) q v
  open_view-IsHidden Sent s rel flags View.failed h v e =
      let q : Handle.failed ≡ h = ground (arith, e) in subst (IsHidden sys Seen Sent) q tt
  open_view-IsHidden Sent s rel flags View.passthrough h v e =
      elim (Result-cases (open_real sys s.world rel (passthrough_oflag flags) 0).0) [
        | inr (x, o) ↦ ground (arith, e, o)
        | inl (fd, o) ↦
            let q : Handle.file fd ≡ h = ground (arith, e, o) in
            subst (IsHidden sys Seen Sent) q (inl (rel, s.world, passthrough_oflag flags, v, o))
      ]
  open_view-IsHidden Sent s rel flags (View.redacted kind bytes) h v e =
      elim (Result-cases (open_real sys s.world rel read_write_flag 0).0) [
        | inr (x, o) ↦ ground (arith, e, o)
        | inl (fd, o) ↦
            let buf = if has_trunc flags then some [] else none in
            let q : Handle.redacted kind fd bytes buf ≡ h = ground (arith, e, o) in
            let p : Pends sys Sent bytes buf = elim (Bool-cases (has_trunc flags)) [
              | inl t ↦ rw t emptied
              | inr t ↦ rw t tt
            ] in
            subst (IsHidden sys Seen Sent) q (v, p)
      ]

  open_view-Sound :
      (root : Rules sys) (redact : Bool) (s : State sys) (rel : FilePath) (flags : ℕ) (view : View)
      → Sound sys root redact s
      → Sound sys root redact (open_view sys s rel flags view).1
  unfolding open_view
  open_view-Sound root redact s rel flags View.passthrough v = world-Sound sys root redact s _ v
  open_view-Sound root redact s rel flags (View.redacted kind bytes) v =
      world-Sound sys root redact s _ v
  open_view-Sound root redact s rel flags (View.key bytes) v = v
  open_view-Sound root redact s rel flags View.failed v = v

module _ (sys : System) (posix : Posix sys) (root : Rules sys) (redact : Bool) where
  open sys use {World, Fd, openat}

  looked-IsSafe :
      (s : State sys) (rel : FilePath) (view : View)
      → Sound sys root redact s
      → (view_for sys s.world s.redacting rel (file_name_or_empty rel)).0 ≡ ok view
      → redact ≡ true
      → root.Seen s.world
      → IsSafe sys posix root.Seen rel
          (view_for sys s.world s.redacting rel (file_name_or_empty rel)).1
          view
  looked-IsSafe s rel view v e r seen =
      rw (v.redacts, r)
        (view_for-IsSafe sys posix root.Seen s.world rel view seen (rw (v.redacts, r) at e))

  open_allowed-Sound :
      (s : State sys) (rel : FilePath) (flags : ℕ)
      → Sound sys root redact s
      → root.Seen s.world
      → Sound sys root redact (open_allowed sys s rel flags).1
  unfolding open_allowed
  open_allowed-Sound s rel flags v seen =
      let looked = view_for sys s.world s.redacting rel (file_name_or_empty rel) in
      let s' : State sys = record s { world = looked.1 } in
      let v' = world-Sound sys root redact s looked.1 v in
      elim (Result-cases looked.0) [
        | inr (x, e) ↦ rw (e, open_allowed) v'
        | inl (view, e) ↦
            let made = open_view sys s' rel flags view in
            let v'' = open_view-Sound sys posix root.Seen root redact s' rel flags view v' in
            elim (Result-cases made.0) [
              | inr (x, o) ↦ rw (e, open_allowed, o) v''
              | inl (h, o) ↦
                  rw (e, open_allowed, o)
                    (add_handle-Sound sys root redact made.1 h
                      (λ r i.
                        open_view-IsHidden sys posix root.Seen (root.Sent i) s' rel flags view h
                          (looked-IsSafe s rel view v e r seen) o)
                      v'')
            ]
      ]

  pub open_file-Sound :
      (s : State sys) (ino flags : ℕ)
      → Sound sys root redact s
      → root.Seen s.world
      → Sound sys root redact (open_file sys s ino flags).1
  unfolding open_file
  open_file-Sound s ino flags v seen = elim (Option-cases (path_of s.inodes ino)) [
    | inl e ↦ rw (e, open_file) v
    | inr (rel, e) ↦
        let asked = gate_allows sys s rel (open_access flags) in
        let v' = gate_allows-Sound sys root redact s rel (open_access flags) v in
        elim (Bool-cases asked.0) [
          | inl a ↦
              rw (e, open_file, a)
                (open_allowed-Sound asked.1 rel flags v'
                  (rw (gate_allows-world sys root redact s rel (open_access flags)) seen))
          | inr a ↦ rw (e, open_file, a) v'
        ]
  ]

  -- A file that is created is empty, so its view is.
  created_handle-IsHidden :
      (Sent : ℕ → Bytes → Type 0) (dir : FilePath) (name : Bytes) (fd : Fd) (w : World)
      (flag : OFlag) (mode : ℕ)
      → root.Seen w
      → flag.creat ≡ true
      → (openat w (at (join dir (normal name ∷ []))) flag mode).0 ≡ ok fd
      → IsHidden sys root.Seen Sent (created_handle sys true name fd)
  unfolding created_handle
  created_handle-IsHidden Sent dir name fd w flag mode seen c o =
      elim (Bool-cases (is_env_file name)) [
        | inl e ↦ rw e (inl refl, fresh)
        | inr e ↦ elim (Bool-cases (is_npmrc_file name)) [
          | inl n ↦ rw (e, n) (inl refl, fresh)
          | inr n ↦ rw (e, n) (inr (dir, name, w, flag, mode, seen, c, o, ground arith))
        ]
      ]

  pub create_file-Sound :
      (s : State sys) (parent : ℕ) (name : Bytes) (mode flags : ℕ)
      → Sound sys root redact s
      → root.Seen s.world
      → Sound sys root redact (create_file sys s parent name mode flags).1
  unfolding create_file open_real
  create_file-Sound s parent name mode flags v seen =
      elim (Option-cases (path_of s.inodes parent)) [
        | inl e ↦ rw (e, create_file) v
        | inr (dir, e) ↦
            let rel = join dir (normal name ∷ []) in
            let asked = gate_allows sys s rel Access.create in
            let s' = asked.1 in
            let v' = gate_allows-Sound sys root redact s rel Access.create v in
            elim (Bool-cases asked.0) [
              | inr a ↦ rw (e, create_file, a) v'
              | inl a ↦
                  let flag : OFlag = record {
                    mode = AccessMode.read_write;
                    append = false;
                    trunc = has_trunc flags;
                    creat = true;
                  } in
                  let made = open_real sys s'.world rel flag (mode % 4096) in
                  let v'' = world-Sound sys root redact s' made.1 v' in
                  elim (Result-cases made.0) [
                    | inr (x, o) ↦ rw (e, create_file, a, o) v''
                    | inl (fd, o) ↦
                        let t = intern s'.inodes rel in
                        rw (e, create_file, a, o)
                          (add_handle-Sound sys root redact
                            (record s' { world = made.1; inodes = t.1 })
                            (created_handle sys s'.redacting name fd)
                            (λ r i.
                              rw (v'.redacts, r)
                                (created_handle-IsHidden (root.Sent i) dir name fd s'.world flag
                                  (mode % 4096)
                                  (rw (gate_allows-world sys root redact s rel Access.create) seen)
                                  refl o))
                            (inodes-Sound sys root redact (record s' { world = made.1 }) t.1
                              (intern-Inv s'.inodes rel v'.inodes) v''))
                  ]
            ]
      ]
