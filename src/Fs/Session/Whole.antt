-- ===== src/Fs/Session/Whole.antt =====
-- src/fs.rs: whatever is requested of an overlay, its state stays sound, and what a read
-- may give.
use mathlib.Core.Option
use airgap.Prelude.{
  false, ◌++◌, ℕ, ◌≡◌, refl, Bool, true, List, [], ◌∷◌, Option, Bytes, inl, inr, Option-cases,
  Result-cases,
}
use airgap.Std.FilePath.{FilePath}
use airgap.Fs.Types.{System, Tree}
use airgap.Fs.Inodes.Invariant.{new-Inv}
use airgap.Fs.Handles
use airgap.Fs.Io.Whole.{Posix}
use airgap.Fs.Files.{State, create_file}
use airgap.Fs.Attrs.{attr}
use airgap.Fs.Names.{child}
use airgap.Fs.Session.{Request, new, created_attr, create, serve, run}
use airgap.Fs.Session.Sound.{Rules, Sound}
use airgap.Fs.Session.Opening.{open_file-Sound, create_file-Sound}
use airgap.Fs.Session.Storing.{write-Sound, persist-Sound, release-Sound}
use airgap.Fs.Session.Naming.{Sounds, attr-Sound, getattr-Sound, setattr-Sound}
use airgap.Fs.Session.Entries.{
  lookup_name-Sound, readdir-Sound, mkdir-Sound, symlink-Sound, link-Sound, remove_name-Sound,
  rename-Sound,
}

-- What holds of a request, if it is a write.
abbrev pub Sends : (ℕ → ℕ → Bytes → Type 0) → Request → Type 0
Sends Sent q =
    (fh offset : ℕ) (bytes : Bytes) → q ≡ Request.writes fh offset bytes → Sent fh offset bytes

-- What the rules say of the files holds whenever a request comes, and behind the last one, and what
-- they say of writes holds of those that come.
abbrev pub Comes : (sys : System) → Tree sys → Rules sys → State sys → List Request → Type 0
Comes sys tree root s qs =
    ((ps rest : List Request) → ps ++ rest ≡ qs → root.Seen (run sys tree s ps).1.world)
    × ((ps rest : List Request) (q : Request) → ps ++ (q ∷ rest) ≡ qs → Sends root.Sent q)

module _ (sys : System) (tree : Tree sys) (posix : Posix sys) (root : Rules sys)
    (redact : Bool) where
  open sys use {World, Fd}

  created_attr-Sound :
      (s : State sys) (rel : FilePath) (ino fh : ℕ)
      → Sound sys root redact s
      → Sounds sys tree root redact (created_attr sys tree s rel ino fh)
  unfolding created_attr
  created_attr-Sound s rel ino fh v = elim (Result-cases (attr sys tree s ino rel).0) [
    | inl (found, e) ↦ rw (e, created_attr) (attr-Sound sys tree root redact s ino rel v)
    | inr (x, e) ↦ rw (e, created_attr) (attr-Sound sys tree root redact s ino rel v)
  ]

  create-Sound :
      (s : State sys) (parent : ℕ) (name : Bytes) (mode flags : ℕ)
      → Sound sys root redact s
      → root.Seen s.world
      → Sounds sys tree root redact (create sys tree s parent name mode flags)
  unfolding create
  create-Sound s parent name mode flags v seen =
      let made = create_file sys s parent name mode flags in
      let v' = create_file-Sound sys posix root redact s parent name mode flags v seen in
      elim (Option-cases (child sys tree s parent name)) [
        | inl c ↦ rw (c, create) v
        | inr (rel, c) ↦ elim (Result-cases made.0) [
          | inr (x, e) ↦ rw (c, create, e) v'
          | inl (r, e) ↦ rw (c, create, e) (created_attr-Sound made.1 rel r.0 r.1 v')
        ]
      ]

  serve-Sound :
      (s : State sys) (q : Request)
      → Sound sys root redact s
      → root.Seen s.world
      → Sends root.Sent q
      → Sound sys root redact (serve sys tree s q).1
  unfolding serve
  serve-Sound s (Request.lookups parent name) v seen sent =
      lookup_name-Sound sys tree root redact s parent name v
  serve-Sound s (Request.getattrs ino) v seen sent = getattr-Sound sys tree root redact s ino v
  serve-Sound s (Request.readlinks ino) v seen sent = v
  serve-Sound s (Request.flushes fh) v seen sent = persist-Sound sys posix root redact s fh v
  serve-Sound s (Request.fsyncs fh) v seen sent = persist-Sound sys posix root redact s fh v
  serve-Sound s (Request.releases fh) v seen sent = release-Sound sys posix root redact s fh v
  serve-Sound s (Request.setattrs ino size fh) v seen sent =
      setattr-Sound sys tree root redact s ino size fh v
  serve-Sound s (Request.opens ino flags) v seen sent =
      open_file-Sound sys posix root redact s ino flags v seen
  serve-Sound s (Request.creates parent name mode flags) v seen sent =
      create-Sound s parent name mode flags v seen
  serve-Sound s (Request.reads fh offset size) v seen sent = v
  serve-Sound s (Request.writes fh offset bytes) v seen sent =
      write-Sound sys root redact s fh offset bytes (sent fh offset bytes refl) v
  serve-Sound s (Request.readdirs ino offset room) v seen sent =
      readdir-Sound sys tree root redact s ino offset room v
  serve-Sound s (Request.mkdirs parent name mode) v seen sent =
      mkdir-Sound sys tree root redact s parent name mode v
  serve-Sound s (Request.unlinks parent name) v seen sent =
      remove_name-Sound sys tree root redact s parent name false v
  serve-Sound s (Request.rmdirs parent name) v seen sent =
      remove_name-Sound sys tree root redact s parent name true v
  serve-Sound s (Request.renames parent name newparent newname) v seen sent =
      rename-Sound sys tree root redact s parent name newparent newname v
  serve-Sound s (Request.symlinks parent link_name target) v seen sent =
      symlink-Sound sys tree root redact s parent link_name target v
  serve-Sound s (Request.links ino newparent newname) v seen sent =
      link-Sound sys tree root redact s ino newparent newname v

  run-Sound :
      (s : State sys) (qs : List Request)
      → Comes sys tree root s qs
      → Sound sys root redact s
      → Sound sys root redact (run sys tree s qs).1
  unfolding run
  run-Sound s [] k v = v
  run-Sound s (q ∷ qs) (k, sends) v =
      run-Sound (serve sys tree s q).1 qs
        (λ ps rest e. k (q ∷ ps) rest (rw e refl), λ ps rest p e. sends (q ∷ ps) rest p (rw e refl))
        (serve-Sound s q v (k [] (q ∷ qs) refl) (sends [] qs q refl))

  new-Sound :
      (w : World) (gate : Option sys.Gate)
      → root.Kept gate
      → Sound sys root redact (new sys w root.path redact gate)
  unfolding new
  new-Sound w gate k = record {
    rooted = refl;
    redacts = refl;
    inodes = new-Inv;
    handles = Handles.empty-Inv;
    gated = k;
    hidden = λ r fh h e. absurd (Handles.get-empty fh e);
  }

  pub run-new-Sound :
      (w : World) (gate : Option sys.Gate) (qs : List Request)
      → root.Kept gate
      → Comes sys tree root (new sys w root.path redact gate) qs
      → Sound sys root redact (run sys tree (new sys w root.path redact gate) qs).1
  run-new-Sound w gate qs k c =
      run-Sound (new sys w root.path redact gate) qs c (new-Sound w gate k)

module _ (sys : System) (tree : Tree sys) where
  -- The states of the files in which a request came, or that the last one left.
  abbrev pub Reached : State sys → List Request → sys.World → Type 0
  Reached s qs w =
      (ps : List Request) × (rest : List Request) × (ps ++ rest ≡ qs)
      × (w ≡ (run sys tree s ps).1.world)

  -- A write that came among the requests.
  abbrev pub Wrote : List Request → ℕ → ℕ → Bytes → Type 0
  Wrote qs fh offset bytes =
      (ps : List Request) × (rest : List Request) × (ps ++ (Request.writes fh offset bytes ∷ rest)
        ≡ qs)
