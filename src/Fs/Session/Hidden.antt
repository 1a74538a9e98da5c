-- ===== src/Fs/Session/Hidden.antt =====
-- src/fs.rs: what an open handle of the overlay may hold, and what may be read through it.
use airgap.Prelude.{ℕ, ◌≡◌, ◌⊎◌, false, true, ◌||◌, [], ◌∷◌, Option, none, some, Bytes, ok, take}
use airgap.Std.FilePath.{FilePath, normal, join}
use airgap.Redact.{HandlerKind}
use airgap.Redact.Detect.{is_env_file, is_npmrc_file}
use airgap.Redact.Dispatch.{redact}
use airgap.Redact.Key.{redact_private_key}
use airgap.Redact.Yaml.{redact_mitm_yaml}
use airgap.Fs.Types.{View, Handle, OFlag, System}
use airgap.Fs.Io.{slice, resize, splice}
use airgap.Fs.View.{at, plain_read, sniffed}
use airgap.Fs.View.Decide.{Decided}
use airgap.Fs.Files.{file_name_or_empty}

-- A buffer that comes of what a program was served: it was emptied and resized, and the program's own
-- writes, of bytes that it sent for an offset, were put into it, and nothing else was.
pub data Edited (Sent : ℕ → Bytes → Type 0) (served : Bytes) : Bytes → Type 0 where
  fresh : Edited Sent served served
  emptied : Edited Sent served []
  written :
      {buf : Bytes} (offset : ℕ) (bytes : Bytes)
      → Sent offset bytes
      → Edited Sent served buf
      → Edited Sent served (splice buf offset bytes)
  resized : {buf : Bytes} (n : ℕ) → Edited Sent served buf → Edited Sent served (resize buf n)

module _ (sys : System) where
  open sys use {crates}

  -- Bytes that are served for a secret file: a handler's redacted view of some contents, or none.
  abbrev pub IsView : HandlerKind → Bytes → Type 0
  IsView kind served =
      (served ≡ []) ⊎ ((original : Bytes) × (redact crates kind original ≡ ok served))

  abbrev pub IsKeyView : Bytes → Type 0
  IsKeyView served =
      ((original : Bytes) × (redact_private_key original ≡ some served))
      ⊎ ((original : Bytes) × (redact_mitm_yaml crates.yaml original ≡ ok served))

  abbrev pub Pends : (ℕ → Bytes → Type 0) → Bytes → Option Bytes → Type 0
  Pends Sent served none = Unit {0}
  Pends Sent served (some buf) = Edited Sent served buf

-- `Seen` says which states of the files there were when a request came.
module _ (sys : System) (Seen : sys.World → Type 0) where
  open sys use {World, Fd, content, openat, pread, crates}

  -- The file was looked at, in a state that was seen, which left the given one; then no handler
  -- took it: none was found for its name and its first bytes, or it had a key's header and the key
  -- handler did not take it.
  abbrev pub IsPassed : FilePath → World → Type 0
  IsPassed rel w' =
      (w : World) × (looked : Fd) × Seen w
      × ((openat w (at rel) plain_read 0).0 ≡ ok looked)
      × (w' ≡ (openat w (at rel) plain_read 0).1)
      × Decided crates (file_name_or_empty rel) (sniffed (pread w' looked 1024 0))
          (content w' looked) View.passthrough

  -- A file that may be passed through: one that was opened right behind such a look, or one that was
  -- created, in a state that was seen, under a name that has no handler.
  abbrev pub IsPlain : Fd → Type 0
  IsPlain fd =
      ((rel : FilePath) × (w : World) × (flag : OFlag) × IsPassed rel w
        × ((openat w (at rel) flag 0).0 ≡ ok fd))
      ⊎ ((dir : FilePath) × (name : Bytes) × (w : World) × (flag : OFlag) × (mode : ℕ) × Seen w
          × (flag.creat ≡ true)
          × ((openat w (at (join dir (normal name ∷ []))) flag mode).0 ≡ ok fd)
          × ((is_env_file name || is_npmrc_file name) ≡ false))

  -- A handle of a file that may be passed through, or of a view and of what the writes sent through
  -- the handle made of it.
  abbrev pub IsHidden : (ℕ → Bytes → Type 0) → Handle Fd → Type 0
  IsHidden Sent (Handle.file fd) = IsPlain fd
  IsHidden Sent (Handle.redacted kind fd served pending) =
      IsView sys kind served × Pends sys Sent served pending
  IsHidden Sent (Handle.key served) = IsKeyView sys served
  IsHidden Sent Handle.failed = Unit {0}

  -- What a read gives: a piece of a plain file, of a buffer that the writes sent through the handle
  -- made of a redacted view, or of the view of a key.
  abbrev pub IsTold : (ℕ → Bytes → Type 0) → World → ℕ → ℕ → Bytes → Type 0
  IsTold Sent w offset size bytes =
      ((fd : Fd) × (got : Bytes) × IsPlain fd
        × (pread w fd size offset ≡ ok got)
        × (bytes ≡ take size got))
      ⊎ (((kind : HandlerKind) × (served : Bytes) × (buf : Bytes) × IsView sys kind served
            × Edited Sent served buf
            × (bytes ≡ slice buf offset size))
          ⊎ ((served : Bytes) × IsKeyView sys served × (bytes ≡ slice served offset size)))
