-- ===== src/Mitm/Cert.antt =====
-- src/mitm/cert.rs: the certificates that the proxy shows, one for each name, kept in a cache.
use airgap.Prelude.{
  ◌≡◌, refl, ap, ◌∙◌, inl, inr, List, [], ◌∷◌, Option, none, some, Bytes, Result, ok, err, ==_cases,
  ==_refl, nat_eq, list_eq,
}
use airgap.Prelude.Assoc.{Assoc, lookup, insert, lookup-insert}

-- What the crates rcgen and rustls do: a leaf for a name under the authority, with a new key. `Source` is
-- the state of the random numbers.
pub record Issuer : Type 1 where
  pub Source : Type 0
  pub CertifiedKey : Type 0
  pub CertError : Type 0
  pub issue : Source → Bytes → Result CertError CertifiedKey × Source

module _ (ca : Issuer) where
  pub record CertMinter : Type 0 where
    pub cache : Assoc Bytes ca.CertifiedKey
    pub source : ca.Source

  unfoldable pub stored :
      CertMinter
      → Bytes
      → Result ca.CertError ca.CertifiedKey × ca.Source
      → Result ca.CertError ca.CertifiedKey × CertMinter
  stored m sni (err e, source) = (err e, record m { source = source })
  stored m sni (ok ck, source) = (ok ck, record { cache = insert m.cache sni ck; source = source })

  unfoldable pub minted :
      CertMinter → Bytes → Option ca.CertifiedKey → Result ca.CertError ca.CertifiedKey × CertMinter
  unfolding stored
  minted m sni (some ck) = (ok ck, m)
  minted m sni none = stored m sni (ca.issue m.source sni)

  unfoldable pub mint : CertMinter → Bytes → Result ca.CertError ca.CertifiedKey × CertMinter
  unfolding minted
  mint m sni = minted m sni (lookup m.cache sni)

  unfoldable pub resolved :
      Result ca.CertError ca.CertifiedKey × CertMinter → Option ca.CertifiedKey × CertMinter
  resolved (ok ck, m) = (some ck, m)
  resolved (err e, m) = (none, m)

  -- A client without a name gets no certificate.
  unfoldable pub resolve : CertMinter → Option Bytes → Option ca.CertifiedKey × CertMinter
  unfolding mint resolved
  resolve m none = (none, m)
  resolve m (some sni) = resolved (mint m sni)

  -- Handshakes, one after the other.
  unfoldable pub resolve_all : CertMinter → List (Option Bytes) → CertMinter
  unfolding resolve
  resolve_all m [] = m
  resolve_all m (name ∷ names) = resolve_all (resolve m name).1 names

  stored-lookup :
      (m : CertMinter) (sni name : Bytes) (ck : ca.CertifiedKey)
      (r : Result ca.CertError ca.CertifiedKey × ca.Source)
      → lookup m.cache sni ≡ none
      → lookup m.cache name ≡ some ck
      → lookup (stored m sni r).1.cache name ≡ some ck
  unfolding stored
  stored-lookup m sni name ck (err e, source) q h = h
  stored-lookup m sni name ck (ok new, source) q h = elim (==_cases sni name) [
    | inl (t, e) ↦ absurd (cc (h, q, e))
    | inr (f, e) ↦ rw (lookup-insert m.cache sni name new, f) h
  ]

  minted-lookup :
      (m : CertMinter) (sni name : Bytes) (ck : ca.CertifiedKey) (o : Option ca.CertifiedKey)
      → lookup m.cache sni ≡ o
      → lookup m.cache name ≡ some ck
      → lookup (minted m sni o).1.cache name ≡ some ck
  unfolding minted
  minted-lookup m sni name ck (some known) q h = h
  minted-lookup m sni name ck none q h = stored-lookup m sni name ck (ca.issue m.source sni) q h

  resolved-cache : (r : Result ca.CertError ca.CertifiedKey × CertMinter) → (resolved r).1 ≡ r.1
  unfolding resolved
  resolved-cache (ok ck, m) = refl
  resolved-cache (err e, m) = refl

  resolve-lookup :
      (m : CertMinter) (asked : Option Bytes) (name : Bytes) (ck : ca.CertifiedKey)
      → lookup m.cache name ≡ some ck
      → lookup (resolve m asked).1.cache name ≡ some ck
  unfolding resolve mint
  resolve-lookup m none name ck h = h
  resolve-lookup m (some sni) name ck h =
      ap (λ m'. lookup m'.cache name) (resolved-cache (mint m sni))
      ∙ minted-lookup m sni name ck (lookup m.cache sni) refl h

  resolve_all-lookup :
      (names : List (Option Bytes)) (m : CertMinter) (name : Bytes) (ck : ca.CertifiedKey)
      → lookup m.cache name ≡ some ck
      → lookup (resolve_all m names).cache name ≡ some ck
  unfolding resolve_all
  resolve_all-lookup [] m name ck h = h
  resolve_all-lookup (n ∷ names) m name ck h =
      resolve_all-lookup names (resolve m n).1 name ck (resolve-lookup m n name ck h)

  stored_found :
      (m : CertMinter) (name : Bytes) (ck : ca.CertifiedKey)
      (r : Result ca.CertError ca.CertifiedKey × ca.Source)
      → (resolved (stored m name r)).0 ≡ some ck
      → lookup (resolved (stored m name r)).1.cache name ≡ some ck
  unfolding resolved stored
  stored_found m name ck (err e, source) h = cc
  stored_found m name ck (ok new, source) h =
      rw (lookup-insert m.cache name name new, ==_refl name) h

  minted_found :
      (m : CertMinter) (name : Bytes) (ck : ca.CertifiedKey) (o : Option ca.CertifiedKey)
      → lookup m.cache name ≡ o
      → (resolved (minted m name o)).0 ≡ some ck
      → lookup (resolved (minted m name o)).1.cache name ≡ some ck
  unfolding resolved minted
  minted_found m name ck (some known) q h = q ∙ h
  minted_found m name ck none q h = stored_found m name ck (ca.issue m.source name) h

  resolve_found :
      (m : CertMinter) (name : Bytes) (ck : ca.CertifiedKey)
      → lookup m.cache name ≡ some ck
      → resolve m (some name) ≡ (some ck, m)
  unfolding resolve mint minted resolved
  resolve_found m name ck h = rw h refl

  -- A name that got a certificate gets the same one in every later handshake, whatever other handshakes
  -- there were since, and none is issued for it again.
  pub resolve-resolve_all :
      (m : CertMinter) (name : Bytes) (ck : ca.CertifiedKey) (names : List (Option Bytes))
      → (resolve m (some name)).0 ≡ some ck
      → resolve (resolve_all (resolve m (some name)).1 names) (some name)
        ≡ (some ck, resolve_all (resolve m (some name)).1 names)
  unfolding resolve mint
  resolve-resolve_all m name ck names h =
      resolve_found (resolve_all (resolve m (some name)).1 names) name ck (
        resolve_all-lookup names (resolve m (some name)).1 name ck
          (minted_found m name ck (lookup m.cache name) refl h))
