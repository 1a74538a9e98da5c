-- ===== src/Fs/View/Decide.antt =====
-- src/fs.rs: when a file is served as it is, and what the normal form of a path looks like.
use airgap.Prelude.{
  ◌≡◌, refl, ◌⊎◌, inl, inr, Option, none, some, arith, Bytes, Result, ok, err, Option-cases,
}
use airgap.Redact.{HandlerKind, RedactError, env, npmrc, private_key, mitm_yaml}
use airgap.Redact.Detect.{detect}
use airgap.Redact.Dispatch.{Crates, redact}
use airgap.Redact.Env.{redact_env}
use airgap.Redact.Npmrc.{redact_npmrc}
use airgap.Redact.Key.{redact_private_key}
use airgap.Redact.Yaml.{redact_mitm_yaml}
use airgap.Fs.Types.{View, passthrough, failed, redacted, key, System}
use airgap.Fs.Io.Whole.{Posix, read_all-ReadsAs}
use airgap.Fs.View.{sniffed, key_view, handler_view, view_of_fd}

-- What a file with a handler is served as: the handler's view of the whole file, nothing where the
-- handler fails, and the file itself only for a key that the key handler does not take.
abbrev pub Served : Crates → HandlerKind → Bytes → View → Type 0
Served crates kind original passthrough =
    (kind ≡ private_key) × (redact_private_key original ≡ none)
Served crates kind original failed = (x : RedactError) × (redact crates kind original ≡ err x)
Served crates kind original (redacted k bytes) =
    (k ≡ kind) × (redact crates kind original ≡ ok bytes)
Served crates kind original (key bytes) =
    ((kind ≡ private_key) × (redact_private_key original ≡ some bytes))
    ⊎ ((kind ≡ mitm_yaml) × (redact_mitm_yaml crates.yaml original ≡ ok bytes))

handler_view-Served :
    (crates : Crates) (kind : HandlerKind) (original : Bytes)
    → Served crates kind original (handler_view crates kind original)
unfolding handler_view key_view redact
handler_view-Served crates env original = go (redact_env crates.dotenvy original) refl
  where
    go :
        (r : Result RedactError Bytes)
        → redact_env crates.dotenvy original ≡ r
        → Served crates env original (elim r [ ok bytes ↦ redacted env bytes | err e ↦ failed ])
    go (ok bytes) e = (refl, e)
    go (err x) e = (x, e)
handler_view-Served crates npmrc original = go (redact_npmrc original) refl
  where
    go :
        (r : Result RedactError Bytes)
        → redact_npmrc original ≡ r
        → Served crates npmrc original (elim r [ ok bytes ↦ redacted npmrc bytes | err e ↦ failed ])
    go (ok bytes) e = (refl, e)
    go (err x) e = (x, e)
handler_view-Served crates private_key original = go (redact_private_key original) refl
  where
    go :
        (r : Option Bytes)
        → redact_private_key original ≡ r
        → Served crates private_key original (key_view r)
    go none e = (refl, e)
    go (some bytes) e = inl (refl, e)
handler_view-Served crates mitm_yaml original = go (redact_mitm_yaml crates.yaml original) refl
  where
    go :
        (r : Result RedactError Bytes)
        → redact_mitm_yaml crates.yaml original ≡ r
        → Served crates mitm_yaml original (elim r [ ok bytes ↦ key bytes | err e ↦ failed ])
    go (ok bytes) e = inr (refl, e)
    go (err x) e = (x, e)

-- What is known of the view that `view_of_fd` gives for a file of a name.
abbrev pub Decided : Crates → Bytes → Bytes → Bytes → View → Type 0
Decided crates name prefix original view =
    ((detect name prefix ≡ none) × (view ≡ passthrough))
    ⊎ ((kind : HandlerKind) × (detect name prefix ≡ some kind) × Served crates kind original view)

module _ (sys : System) (posix : Posix sys) where
  open sys use {World, Fd, content, pread, crates}

  -- A file is served as it is only where no handler is found for its name and first bytes, or where
  -- it has a private key's header among its lines and `redact_private_key` does not take it. With
  -- any other handler its view is what the handler makes of the whole file, or it cannot be read.
  -- The file calls behave as documented.
  pub view_of_fd-Decided :
      (w : World) (fd : Fd) (name : Bytes) (view : View)
      → view_of_fd sys w fd name ≡ ok view
      → Decided crates name (sniffed (pread w fd 1024 0)) (content w fd) view
  unfolding view_of_fd
  view_of_fd-Decided w fd name view h =
      elim (Option-cases (detect name (sniffed (pread w fd 1024 0)))) [
        | inl e ↦ inl (e, ground (arith, e))
        | inr (kind, e) ↦ elim (read_all-ReadsAs sys posix w fd) [
          | inl r ↦
              let v : handler_view crates kind (content w fd) ≡ view = ground (arith, e, r) in
              inr (kind, e, rw v at (handler_view-Served crates kind (content w fd)))
          | inr (x, ne, r, offset, within, read) ↦ ground (arith, e, r)
        ]
      ]
