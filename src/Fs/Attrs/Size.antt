-- ===== src/Fs/Attrs/Size.antt =====
-- src/fs.rs, `attr`: the size that is shown is the size of what is served.
use airgap.Prelude.{◌≤◌, ◌≡◌, refl, ◌∙◌, ◌⊎◌, inl, inr, arith, Bytes, length, take-all}
use airgap.Redact.{HandlerKind}
use airgap.Fs.Types.{View}
use airgap.Fs.Io.{usize_max, slice}
use airgap.Fs.Files.Serve.{slice_plain}
use airgap.Fs.Attrs.{FileAttr, viewed, sized}

-- The view serves the bytes.
abbrev pub Serves : View → Bytes → Type 0
Serves view bytes =
    ((kind : HandlerKind) × (view ≡ View.redacted kind bytes)) ⊎ (view ≡ View.key bytes)

-- A program that reads as many bytes as the attributes of a file show gets all that its view serves.
-- The view is shorter than 2^64 bytes.
pub slice-viewed :
    (attr : FileAttr) (view : View) (bytes : Bytes)
    → Serves view bytes
    → length bytes ≤ usize_max
    → ((viewed attr view).size ≡ length bytes) × (slice bytes 0 (viewed attr view).size ≡ bytes)
unfolding viewed sized
slice-viewed attr view bytes (inl (kind, e)) h = rw e (
  refl,
  slice_plain bytes 0 (length bytes) (omega arith) ∙ take-all (length bytes) bytes (omega arith),
)
slice-viewed attr view bytes (inr e) h = rw e (
  refl,
  slice_plain bytes 0 (length bytes) (omega arith) ∙ take-all (length bytes) bytes (omega arith),
)
