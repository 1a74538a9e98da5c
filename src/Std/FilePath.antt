-- ===== src/Std/FilePath.antt =====
-- `std::path` on Unix. A path is its components: equality, hashing, `starts_with`, `file_name`,
-- `parent`, `join` and `pop` of the library are functions of them.
use mathlib.Core.List.{reverse}
use airgap.Prelude.{
  ◌≡◌, refl, ◌↔◌, Bool, true, false, ◌&&◌, List, [], ◌∷◌, ◌++◌, Option, none, some, arith,
  if◌then◌else◌, Bytes, codes, PartialEq, ◌==◌, list_eq, nat_eq, list_beq, list_beq_iff,
}
use airgap.Std.Text.{split}
use airgap.Std.Utf8.{from_utf8_lossy}

pub data Component : Type 0 where
  root_dir cur_dir parent_dir : Component
  normal : Bytes → Component

abbrev pub component_beq : Component → Component → Bool
component_beq root_dir root_dir = true
component_beq cur_dir cur_dir = true
component_beq parent_dir parent_dir = true
component_beq (normal a) (normal b) = list_beq a b
component_beq _ _ = false

pub component_beq_iff : (a b : Component) → (component_beq a b ≡ true) ↔ (a ≡ b)
component_beq_iff root_dir b = ground arith
component_beq_iff cur_dir b = ground arith
component_beq_iff parent_dir b = ground arith
component_beq_iff (normal a) (normal b) = ground (arith, list_beq_iff a b)
component_beq_iff (normal a) _ = ground arith

instance abbrev pub component_eq : PartialEq Component
component_eq = record { same = component_beq; same_iff = component_beq_iff }

abbrev pub FilePath : Type 0
FilePath = List Component

-- A piece between slashes. Empty pieces and inner `.` pieces are no components.
piece_components : Bytes → FilePath
piece_components [] = []
piece_components (c ∷ s) =
    if (c ∷ s) == codes "."
    then []
    else if (c ∷ s) == codes ".."
    then parent_dir ∷ []
    else normal (c ∷ s) ∷ []

pieces_components : List Bytes → FilePath
unfolding piece_components
pieces_components [] = []
pieces_components (p ∷ ps) = piece_components p ++ pieces_components ps

-- A leading `.` piece of a relative path is kept.
first_components : List Bytes → FilePath
unfolding pieces_components
first_components [] = []
first_components ([] ∷ []) = []
first_components ([] ∷ p ∷ ps) = root_dir ∷ pieces_components (p ∷ ps)
first_components ((c ∷ s) ∷ ps) =
    if (c ∷ s) == codes "."
    then cur_dir ∷ pieces_components ps
    else pieces_components ((c ∷ s) ∷ ps)

-- `Path::new(bytes)`, `PathBuf::from`.
unfoldable pub components : Bytes → FilePath
unfolding first_components split
components s = first_components (split b'/' s)

unfoldable pub is_absolute : FilePath → Bool
is_absolute (root_dir ∷ p) = true
is_absolute _ = false

-- A `.` at the head of what is joined is no inner component.
joined : FilePath → FilePath
joined (cur_dir ∷ q) = q
joined q = q

unfoldable pub join : FilePath → FilePath → FilePath
unfolding is_absolute joined
join [] q = q
join (c ∷ p) q = if is_absolute q then q else (c ∷ p) ++ joined q

unfoldable pub starts_with : FilePath → FilePath → Bool
starts_with p [] = true
starts_with [] (c ∷ q) = false
starts_with (b ∷ p) (c ∷ q) = b == c && starts_with p q

last_name : FilePath → Option Bytes
last_name (normal name ∷ p) = some name
last_name _ = none

unfoldable pub file_name : FilePath → Option Bytes
unfolding last_name
file_name p = last_name (reverse p)

but_last : FilePath → Option FilePath
but_last [] = none
but_last (root_dir ∷ p) = none
but_last (c ∷ p) = some (reverse p)

unfoldable pub parent : FilePath → Option FilePath
unfolding but_last
parent p = but_last (reverse p)

-- `pop`, which leaves a path with no parent as it is.
unfoldable pub pop : FilePath → FilePath
unfolding parent
pop p = elim (parent p) [ none ↦ p | some q ↦ q ]

lossy_component : Component → Component
unfolding from_utf8_lossy
lossy_component (normal name) = normal (from_utf8_lossy name)
lossy_component c = c

-- `PathBuf::from(path.to_string_lossy())`: a slash is ASCII, so the names are converted one by one.
unfoldable pub through_lossy : FilePath → FilePath
unfolding lossy_component
through_lossy [] = []
through_lossy (c ∷ p) = lossy_component c ∷ through_lossy p

paths :
    (components (codes "/home//u/./.env")
      ≡ root_dir ∷ normal (codes "home") ∷ normal (codes "u") ∷ normal (codes ".env") ∷ [])
    × (components (codes "./a/..") ≡ cur_dir ∷ normal (codes "a") ∷ parent_dir ∷ [])
    × (components (codes "/") ≡ root_dir ∷ [])
    × (starts_with (components (codes "/home/u2")) (components (codes "/home/u")) ≡ false)
    × (file_name (components (codes "a/b")) ≡ some (codes "b"))
    × (pop (components (codes "/")) ≡ root_dir ∷ [])
unfolding components starts_with file_name pop
paths = (refl, refl, refl, refl, refl, refl)

-- A path begins with another exactly when something follows the other.
pub starts_with-append : (p q : FilePath) → starts_with (p ++ q) p ≡ true
unfolding starts_with
starts_with-append [] q = refl
starts_with-append (c ∷ p) q = ground (arith, component_beq_iff c c, starts_with-append p q)

pub starts_with-eq-true :
    (p q : FilePath) → starts_with p q ≡ true → (rest : FilePath) × (p ≡ q ++ rest)
unfolding starts_with
starts_with-eq-true p [] h = (p, refl)
starts_with-eq-true [] (c ∷ q) h = cc
starts_with-eq-true (b ∷ p) (c ∷ q) h =
    let (rest, e) = starts_with-eq-true p q (ground arith) in
    (rest, ground (arith, component_beq_iff b c))

pub starts_with_refl : (p : FilePath) → starts_with p p ≡ true
unfolding starts_with
starts_with_refl [] = refl
starts_with_refl (c ∷ p) = ground (arith, component_beq_iff c c, starts_with_refl p)

pub starts_with_trans :
    (p q r : FilePath) → starts_with p q ≡ true → starts_with q r ≡ true → starts_with p r ≡ true
unfolding starts_with
starts_with_trans p q [] h k = ground arith
starts_with_trans p [] (c ∷ r) h k = cc
starts_with_trans [] (b ∷ q) (c ∷ r) h k = cc
starts_with_trans (a ∷ p) (b ∷ q) (c ∷ r) h k = ground (
  arith,
  component_beq_iff a b,
  component_beq_iff b c,
  component_beq_iff a c,
  starts_with_trans p q r,
)

-- What the last component says of a path.
pub file_name-last :
    (p q : FilePath) (name : Bytes)
    → reverse p ≡ normal name ∷ q
    → (file_name p ≡ some name) × (pop p ≡ reverse q)
unfolding file_name pop
file_name-last p q name e = (rw (file_name, e) refl, rw (pop, parent, e) refl)

pub join-normal :
    (p : FilePath) (name : Bytes) → join p (normal name ∷ []) ≡ p ++ (normal name ∷ [])
unfolding join
join-normal [] name = refl
join-normal (c ∷ p) name = refl

pub join-root_dir : (p : FilePath) → join p (root_dir ∷ []) ≡ root_dir ∷ []
unfolding join
join-root_dir [] = refl
join-root_dir (c ∷ p) = refl
