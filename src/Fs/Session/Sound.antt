-- ===== src/Fs/Session/Sound.antt =====
-- src/fs.rs: the invariant of the overlay's state, and how the changes of one part keep it.
use airgap.Prelude.{
  refl, Option, ℕ, ◌≡◌, Bool, true, some, arith, nat_eq, Option-cases, inl, inr, Bool-cases,
  nat_beq, subst, Bytes,
}
use airgap.Std.FilePath.{FilePath, join}
use airgap.Fs.Types.{Handle, Access, System}
use airgap.Fs.Inodes.{InodeTable}
use airgap.Fs.Inodes.Invariant
use airgap.Fs.Handles
use airgap.Fs.Handles.{Handles, get-set, get-remove, insert_lem}
use airgap.Fs.Files.{State, gate_allows, add_handle}
use airgap.Fs.Session.Hidden.{IsHidden}

-- What a session goes by: the mounted directory, the states of the files in which requests come, the
-- writes that are sent through a handle, and what is kept of the policy hook's state.
pub record Rules (sys : System) : Type 1 where
  pub path : FilePath
  pub Seen : sys.World → Type 0
  pub Sent : ℕ → ℕ → Bytes → Type 0
  pub Kept : Option sys.Gate → Type 0
  pub keeps :
      (g : sys.Gate) (p : FilePath) (a : Access) → Kept (some g) → Kept (some (sys.allow g p a).1)

-- The tables agree with themselves, the settings are those of the start, what is kept of the hook's
-- state holds, and while secrets are redacted every open handle is hidden.
pub record Sound (sys : System) (root : Rules sys) (redact : Bool) (s : State sys) : Type 0 where
  pub rooted : s.mount_root ≡ root.path
  pub redacts : s.redacting ≡ redact
  pub inodes : Invariant.Inv s.inodes
  pub handles : Handles.Inv s.handles
  pub gated : root.Kept s.gate
  pub hidden :
      redact ≡ true
      → (fh : ℕ) (h : Handle sys.Fd) → Handles.get s.handles fh ≡ some h
      → IsHidden sys root.Seen (root.Sent fh) h

module _ (sys : System) (root : Rules sys) (redact : Bool) where
  open sys use {World, Fd}

  pub world-Sound :
      (s : State sys) (w : World)
      → Sound sys root redact s
      → Sound sys root redact (record s { world = w })
  world-Sound s w v = record {
    rooted = v.rooted;
    redacts = v.redacts;
    inodes = v.inodes;
    handles = v.handles;
    gated = v.gated;
    hidden = v.hidden;
  }

  pub inodes-Sound :
      (s : State sys) (t : InodeTable)
      → Invariant.Inv t
      → Sound sys root redact s
      → Sound sys root redact (record s { inodes = t })
  inodes-Sound s t i v = record {
    rooted = v.rooted;
    redacts = v.redacts;
    inodes = i;
    handles = v.handles;
    gated = v.gated;
    hidden = v.hidden;
  }

  pub gate_allows-Sound :
      (s : State sys) (rel : FilePath) (access : Access)
      → Sound sys root redact s
      → Sound sys root redact (gate_allows sys s rel access).1
  unfolding gate_allows
  gate_allows-Sound s rel access v = elim (Option-cases s.gate) [
    | inl e ↦ rw (e, gate_allows) v
    | inr (g, e) ↦
        rw (e, gate_allows)
          (record {
            rooted = v.rooted;
            redacts = v.redacts;
            inodes = v.inodes;
            handles = v.handles;
            gated = root.keeps g (join s.mount_root rel) access (rw e at v.gated);
            hidden = v.hidden;
          })
  ]

  pub gate_allows-world :
      (s : State sys) (rel : FilePath) (access : Access)
      → (gate_allows sys s rel access).1.world ≡ s.world
  unfolding gate_allows
  gate_allows-world s rel access = elim (Option-cases s.gate) [
    | inl e ↦ rw (e, gate_allows) refl
    | inr (g, e) ↦ rw (e, gate_allows) refl
  ]

  -- A table of handles each of which is an old one or hidden.
  handles-Sound :
      (s : State sys) (hs : Handles Fd)
      → Handles.Inv hs
      → (redact ≡ true
          → (fh : ℕ) (h : Handle Fd) → Handles.get hs fh ≡ some h
          → IsHidden sys root.Seen (root.Sent fh) h)
      → Sound sys root redact s
      → Sound sys root redact (record s { handles = hs })
  handles-Sound s hs i k v = record {
    rooted = v.rooted;
    redacts = v.redacts;
    inodes = v.inodes;
    handles = i;
    gated = v.gated;
    hidden = k;
  }

  pub add_handle-Sound :
      (s : State sys) (h : Handle Fd)
      → (redact ≡ true → (fh : ℕ) → IsHidden sys root.Seen (root.Sent fh) h)
      → Sound sys root redact s
      → Sound sys root redact (add_handle sys s h).1
  unfolding add_handle
  add_handle-Sound s h k v =
      handles-Sound s (Handles.insert s.handles h).1 (Handles.insert-Inv s.handles h v.handles)
        (λ r fh g e.
          ground (arith, (insert_lem s.handles h v.handles).1 fh, v.hidden r fh g, k r fh))
        v

  pub set-Sound :
      (s : State sys) (fh : ℕ) (h : Handle Fd) {g : Handle Fd}
      → Handles.get s.handles fh ≡ some g
      → (redact ≡ true → IsHidden sys root.Seen (root.Sent fh) h)
      → Sound sys root redact s
      → Sound sys root redact (record s { handles = Handles.set s.handles fh h })
  set-Sound s fh h e k v =
      handles-Sound s (Handles.set s.handles fh h) (Handles.set-Inv s.handles fh h e v.handles)
        (λ r i g q. elim (Bool-cases (nat_beq fh i)) [
          | inr other ↦ v.hidden r i g (ground (arith, get-set s.handles fh i h, other, q))
          | inl here ↦
              let same : fh ≡ i = ground arith in
              let it : h ≡ g = ground (arith, get-set s.handles fh i h, here, q) in
              subst (λ x. IsHidden sys root.Seen (root.Sent x) g) same
                (subst (IsHidden sys root.Seen (root.Sent fh)) it (k r))
        ])
        v

  pub remove-Sound :
      (s : State sys) (fh : ℕ)
      → Sound sys root redact s
      → Sound sys root redact (record s { handles = Handles.remove s.handles fh })
  remove-Sound s fh v =
      handles-Sound s (Handles.remove s.handles fh) (Handles.remove-Inv s.handles fh v.handles)
        (λ r i g q. ground (arith, get-remove s.handles fh i, v.hidden r i g)) v
