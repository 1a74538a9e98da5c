-- ===== src/Mitm/Config.antt =====
-- src/mitm/config.rs: the rules of the header rewriting, and which one a host has.
use mathlib.Core.List.{reverse}
use airgap.Prelude.{
  ℕ, ◌≡◌, refl, Bool, true, false, not, ◌&&◌, List, [], ◌∷◌, Option, if◌then◌else◌, find, length,
  Bytes, codes, ◌==◌, nat_eq, list_eq, nat_beq,
}
use airgap.Std.Text.{trim, to_ascii_lowercase}

-- `headers` holds the entries of the map in the order of their names.
pub record Rule : Type 0 where
  pub host : Bytes
  pub headers : List (Bytes × Bytes)

pub record Config : Type 0 where
  pub rules : List Rule

unfoldable pub len : Config → ℕ
len config = length config.rules

strip_front : ℕ → Bytes → Bytes
strip_front d [] = []
strip_front d (c ∷ cs) = let rest = strip_front d cs in if nat_beq c d then rest else c ∷ cs

-- `trim_matches(d)`.
unfoldable pub trim_matches : ℕ → Bytes → Bytes
unfolding strip_front
trim_matches d s = reverse (strip_front d (reverse (strip_front d s)))

unfoldable pub host_matches : Bytes → Bytes → Bool
unfolding trim_matches
host_matches pattern host =
    let pattern' = to_ascii_lowercase (trim_matches b'.' (trim pattern)) in
    not (pattern' == []) && host == pattern'

unfoldable pub matching : Config → Bytes → Option Rule
unfolding host_matches
matching config host = find (λ r. host_matches r.host host) config.rules

host_matches_exactly :
    (host_matches (codes "example.com") (codes "example.com") ≡ true)
    × (host_matches (codes "Example.COM") (codes "example.com") ≡ true)
    × (host_matches (codes ".example.com.") (codes "example.com") ≡ true)
    × (host_matches (codes "example.com") (codes "api.example.com") ≡ false)
    × (host_matches (codes "example.com") (codes "example.com.evil.com") ≡ false)
    × (host_matches [] (codes "example.com") ≡ false)
unfolding host_matches to_ascii_lowercase trim
host_matches_exactly = (refl, refl, refl, refl, refl, refl)
