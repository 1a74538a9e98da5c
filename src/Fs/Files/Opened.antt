-- ===== src/Fs/Files/Opened.antt =====
-- src/fs.rs, `open` and `create`: the handle that is made is the one that the view or the name asks for.
use airgap.Prelude.{
  ℕ, ◌≡◌, ◌≢◌, true, false, ◌||◌, some, arith, Bytes, Result, ok, err, Result-cases, inl, inr,
}
use airgap.Std.FilePath.{FilePath}
use airgap.Redact.Detect.{is_env_file, is_npmrc_file}
use airgap.Fs.Types.{Errno, eio, View, Handle, System}
use airgap.Fs.Io.{slice}
use airgap.Fs.View.{open_real}
use airgap.Fs.Files.{State, open_view, created_handle, read_handle, has_trunc, read_write_flag}

module _ (sys : System) where
  -- What a read through a new handle gives, of a view that is not passed through.
  abbrev pub Shows : View → Result Errno Bytes → ℕ → ℕ → Type 0
  Shows View.passthrough r offset size = Unit {0}
  Shows (View.redacted kind bytes) r offset size = r ≡ ok (slice bytes offset size)
  Shows (View.key bytes) r offset size = r ≡ ok (slice bytes offset size)
  Shows View.failed r offset size = r ≡ err eio

  -- A file that is opened without O_TRUNC for a view that is not passed through is read as that view:
  -- a read gives a slice of the view's bytes, or fails where the handler failed, whatever the file holds.
  pub read_handle-open_view :
      (s : State sys) (rel : FilePath) (flags : ℕ) (view : View) (h : Handle sys.Fd) (w : sys.World)
      (offset size : ℕ)
      → has_trunc flags ≡ false
      → (open_view sys s rel flags view).0 ≡ ok h
      → Shows view (read_handle sys w (some h) offset size) offset size
  unfolding open_view read_handle
  read_handle-open_view s rel flags View.passthrough h w offset size t e = tt
  read_handle-open_view s rel flags (View.key bytes) h w offset size t e = ground (arith, e)
  read_handle-open_view s rel flags View.failed h w offset size t e = ground (arith, e)
  read_handle-open_view s rel flags (View.redacted kind bytes) h w offset size t e =
      elim (Result-cases (open_real sys s.world rel read_write_flag 0).0) [
        | inl (fd, o) ↦ ground (arith, e, o, t)
        | inr (x, o) ↦ ground (arith, e, o, t)
      ]

  -- A file that is created under the name of an `.env` file or of `.npmrc`, while secrets are redacted,
  -- is never passed through.
  pub created_handle_hides :
      (name : Bytes) (fd g : sys.Fd)
      → (is_env_file name || is_npmrc_file name) ≡ true
      → created_handle sys true name fd ≢ Handle.file g
  unfolding created_handle
  created_handle_hides name fd g h e = ground arith
