-- ===== src/Fs/Session.antt =====
-- src/fs.rs, `impl Filesystem for OverlayFs`: the overlay as the kernel uses it, request by request.
-- The backend has one thread, so a request is served before the next one is read. `init` changes
-- nothing of the state.
pub mod Hidden
pub mod Sound
pub mod Opening
pub mod Storing
pub mod Naming
pub mod Entries
pub mod Whole
pub mod Gated
pub mod Contents
pub mod Editing
pub mod Saving
use airgap.Prelude.{ℕ, Bool, true, false, List, [], ◌∷◌, Option, none, some, Bytes, Result, ok, err}
use airgap.Std.FilePath.{FilePath}
use airgap.Fs.Types.{Errno, enoent, System, Tree}
use airgap.Fs.Inodes
use airgap.Fs.Handles
use airgap.Fs.Files.{State, open_file, create_file, read, write, persist, release}
use airgap.Fs.Attrs.{FileAttr, attr, getattr, setattr}
use airgap.Fs.Names.{
  DirEntry, child, lookup_name, readlink, readdir, mkdir, symlink, link, remove_name, rename,
}

-- The calls of `Filesystem`, with the arguments that the overlay uses.
pub data Request : Type 0 where
  lookups : ℕ → Bytes → Request
  getattrs readlinks flushes fsyncs releases : ℕ → Request
  setattrs : ℕ → Option ℕ → Option ℕ → Request
  opens : ℕ → ℕ → Request
  creates : ℕ → Bytes → ℕ → ℕ → Request
  reads : ℕ → ℕ → ℕ → Request
  writes : ℕ → ℕ → Bytes → Request
  readdirs : ℕ → ℕ → ℕ → Request
  mkdirs : ℕ → Bytes → ℕ → Request
  unlinks rmdirs : ℕ → Bytes → Request
  renames : ℕ → Bytes → ℕ → Bytes → Request
  symlinks : ℕ → Bytes → Bytes → Request
  links : ℕ → ℕ → Bytes → Request

pub data Reply : Type 0 where
  entry : Result Errno FileAttr → Reply
  opened : Result Errno ℕ → Reply
  created : Result Errno (ℕ × FileAttr) → Reply
  bytes : Result Errno Bytes → Reply
  written : Result Errno ℕ → Reply
  listing : Result Errno (List DirEntry) → Reply
  empty : Result Errno (Unit {0}) → Reply

-- `OverlayFs::new`, whose root descriptor is the files' own start.
unfoldable pub new : (sys : System) → sys.World → FilePath → Bool → Option sys.Gate → State sys
new sys world mount_root redact gate = record {
  world = world;
  mount_root = mount_root;
  redacting = redact;
  gate = gate;
  inodes = Inodes.new;
  handles = Handles.empty;
}

module _ (sys : System) (tree : Tree sys) where
  -- The attributes of the reply of a `create` that made a handle.
  unfoldable pub created_attr :
      State sys → FilePath → ℕ → ℕ → Result Errno (ℕ × FileAttr) × State sys
  unfolding attr
  created_attr s rel ino fh =
      let (r, s') = attr sys tree s ino rel in
      elim r [ err e ↦ (err e, s') | ok found ↦ (ok (fh, found), s') ]

  -- `create` as a whole: where the attributes cannot be had, the handle is left behind.
  unfoldable pub create : State sys → ℕ → Bytes → ℕ → ℕ → Result Errno (ℕ × FileAttr) × State sys
  unfolding child create_file created_attr
  create s parent name mode flags = elim (child sys tree s parent name) [
    | none ↦ (err enoent, s)
    | some rel ↦
        let (r, s') = create_file sys s parent name mode flags in
        elim r [ err e ↦ (err e, s') | ok (ino, fh) ↦ created_attr s' rel ino fh ]
  ]

  unfoldable pub serve : State sys → Request → Reply × State sys
  unfolding create lookup_name getattr readlink persist release setattr open_file read write readdir
      mkdir remove_name rename symlink link
  serve s (Request.lookups parent name) =
      let (r, s') = lookup_name sys tree s parent name in (Reply.entry r, s')
  serve s (Request.getattrs ino) = let (r, s') = getattr sys tree s ino in (Reply.entry r, s')
  serve s (Request.readlinks ino) = (Reply.bytes (readlink sys tree s ino), s)
  serve s (Request.flushes fh) = let (r, s') = persist sys s fh in (Reply.empty r, s')
  serve s (Request.fsyncs fh) = let (r, s') = persist sys s fh in (Reply.empty r, s')
  serve s (Request.releases fh) = let (r, s') = release sys s fh in (Reply.empty r, s')
  serve s (Request.setattrs ino size fh) =
      let (r, s') = setattr sys tree s ino size fh in (Reply.entry r, s')
  serve s (Request.opens ino flags) =
      let (r, s') = open_file sys s ino flags in (Reply.opened r, s')
  serve s (Request.creates parent name mode flags) =
      let (r, s') = create s parent name mode flags in (Reply.created r, s')
  serve s (Request.reads fh offset size) = (Reply.bytes (read sys s fh offset size), s)
  serve s (Request.writes fh offset sent) =
      let (r, s') = write sys s fh offset sent in (Reply.written r, s')
  serve s (Request.readdirs ino offset room) =
      let (r, s') = readdir sys tree s ino offset room in (Reply.listing r, s')
  serve s (Request.mkdirs parent name mode) =
      let (r, s') = mkdir sys tree s parent name mode in (Reply.entry r, s')
  serve s (Request.unlinks parent name) =
      let (r, s') = remove_name sys tree s parent name false in (Reply.empty r, s')
  serve s (Request.rmdirs parent name) =
      let (r, s') = remove_name sys tree s parent name true in (Reply.empty r, s')
  serve s (Request.renames parent name newparent newname) =
      let (r, s') = rename sys tree s parent name newparent newname in (Reply.empty r, s')
  serve s (Request.symlinks parent link_name target) =
      let (r, s') = symlink sys tree s parent link_name target in (Reply.entry r, s')
  serve s (Request.links ino newparent newname) =
      let (r, s') = link sys tree s ino newparent newname in (Reply.entry r, s')

  -- The session loop of the backend: each request on the state that the one before it left.
  unfoldable pub run : State sys → List Request → List Reply × State sys
  unfolding serve
  run s [] = ([], s)
  run s (q ∷ qs) = let (r, s') = serve s q in let (rs, s'') = run s' qs in (r ∷ rs, s'')
