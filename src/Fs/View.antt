-- ===== src/Fs/View.antt =====
-- src/fs.rs: `view_for` decides what a file is served as, and where a symlink leads.
pub mod Decide
pub mod Normal
use mathlib.Core.Option
use airgap.Prelude.{
  ℕ, Bool, true, false, List, [], ◌∷◌, ◌++◌, Option, none, some, if◌then◌else◌, take, Bytes, Result,
  ok, err, ◌>>=◌,
}
use airgap.Std.FilePath.{
  FilePath, Component, root_dir, cur_dir, parent_dir, normal, components, is_absolute, join,
  starts_with, file_name, parent, pop,
}
use airgap.Redact.{HandlerKind, env, npmrc, private_key, mitm_yaml}
use airgap.Redact.Detect.{detect}
use airgap.Redact.Dispatch.{Crates, redact}
use airgap.Redact.Key.{redact_private_key}
use airgap.Redact.Yaml.{redact_mitm_yaml}
use airgap.Fs.Types.{Errno, View, passthrough, failed, redacted, key, OFlag, read_only, System}
use airgap.Fs.Io.{read_all}

-- The path to hand an `*at` call: `.` for the root itself.
unfoldable pub at : FilePath → FilePath
at [] = cur_dir ∷ []
at (c ∷ rel) = c ∷ rel

abbrev pub plain_read : OFlag
plain_read = record { mode = read_only; append = false; trunc = false; creat = false }

-- `pread(..).unwrap_or(0)` into a buffer of 1024 bytes.
unfoldable pub sniffed : Result Errno Bytes → Bytes
sniffed (ok bs) = take 1024 bs
sniffed (err e) = []

unfoldable pub key_view : Option Bytes → View
key_view none = passthrough
key_view (some bytes) = key bytes

-- The view of a file whose handler is known.
unfoldable pub handler_view : Crates → HandlerKind → Bytes → View
unfolding key_view
handler_view crates private_key original = key_view (redact_private_key original)
handler_view crates mitm_yaml original = elim (redact_mitm_yaml crates.yaml original) [
  | ok bytes ↦ key bytes
  | err e ↦ failed
]
handler_view crates kind original = elim (redact crates kind original) [
  | ok bytes ↦ redacted kind bytes
  | err e ↦ failed
]

module _ (sys : System) where
  open sys use {World, Fd, openat, pread, crates}

  unfoldable pub open_real : World → FilePath → OFlag → ℕ → Result Errno Fd × World
  open_real w rel oflag mode = openat w (at rel) oflag mode

  -- `view_for`, once the file is open.
  unfoldable pub view_of_fd : World → Fd → Bytes → Result Errno View
  unfolding handler_view sniffed
  view_of_fd w fd name = elim (detect name (sniffed (pread w fd 1024 0))) [
    | none ↦ ok passthrough
    | some kind ↦ (do original ← read_all sys w fd; ok (handler_view crates kind original))
  ]

  -- The flag says whether secrets are redacted at all.
  unfoldable pub view_for : World → Bool → FilePath → Bytes → Result Errno View × World
  unfolding view_of_fd open_real
  view_for w false rel name = (ok passthrough, w)
  view_for w true rel name =
      let (r, w') = open_real w rel plain_read 0 in
      elim r [ err e ↦ (err e, w') | ok fd ↦ (view_of_fd w' fd name, w') ]

-- One component of the loop of `lexically_normalize`.
unfoldable pub normalize_step : FilePath → Component → FilePath
normalize_step out cur_dir = out
normalize_step out parent_dir = elim (file_name out) [ none ↦ out | some name ↦ pop out ]
normalize_step out root_dir = join out (root_dir ∷ [])
normalize_step out (normal name) = join out (normal name ∷ [])

unfoldable pub normalize_from : FilePath → FilePath → FilePath
unfolding normalize_step
normalize_from out [] = out
normalize_from out (c ∷ p) = normalize_from (normalize_step out c) p

unfoldable pub lexically_normalize : FilePath → FilePath
unfolding normalize_from
lexically_normalize p = normalize_from [] p

module _ (sys : System) where
  -- Whether a symlink's target lies within the overlay that is mounted at `mount_root`.
  unfoldable pub symlink_target_within_overlay : sys.World → FilePath → FilePath → Bool
  unfolding lexically_normalize
  symlink_target_within_overlay w mount_root rel = elim (sys.readlinkat w (at rel)) [
    | err e ↦ false
    | ok bytes ↦
        let target = components bytes in
        let resolved =
          if is_absolute target
          then target
          else join (Option.get_or (parent (join mount_root rel)) mount_root) target in
        starts_with (lexically_normalize resolved) mount_root
  ]
