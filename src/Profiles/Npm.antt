-- ===== src/Profiles/Npm.antt =====
-- src/profiles/npm.rs: `DirGate`, the interactive gate. The asker keeps a state of its own, of type
-- `W`: the terminal, whose every question may change it.
pub mod Answers
use airgap.Prelude.{Bool, true, false, List, [], ◌∷◌, ◌++◌, any, Bytes, codes, if◌then◌else◌}
use airgap.Std.FilePath.{FilePath, starts_with}
use airgap.Fs.Types.{Access}

pub record GateState (W : Type 0) : Type 0 where
  pub allowed : List FilePath
  pub denied : List FilePath
  pub asker : W

-- `Asker`: what the user is asked and answers.
abbrev pub Asker : Type 0 → Type 0
Asker W = W → FilePath → Access → Bool × W

unfoldable pub covered : FilePath → List FilePath → Bool
covered path prefixes = any (λ p. starts_with path p) prefixes

module _ {W : Type 0} where
  unfoldable pub new : List FilePath → W → GateState W
  new preapproved w = record { allowed = preapproved; denied = []; asker = w }

  unfoldable pub decide : GateState W → FilePath → Bool × W → Bool × GateState W
  decide st path (true, w) = (true, record st { allowed = st.allowed ++ (path ∷ []); asker = w })
  decide st path (false, w) = (false, record st { denied = st.denied ++ (path ∷ []); asker = w })

  unfoldable pub allow : Asker W → GateState W → FilePath → Access → Bool × GateState W
  unfolding covered decide
  allow ask st path access =
      if covered path st.allowed
      then (true, st)
      else if covered path st.denied
      then (false, st)
      else decide st path (ask st.asker path access)

-- The word of a prompt for an access.
unfoldable pub verb : Access → Bytes
verb Access.read = codes "read"
verb Access.write = codes "write"
verb Access.create = codes "create"
