-- ===== src/Redact/Dispatch.antt =====
-- src/redact.rs: `redact` and `merge`, which choose the handler by its kind.
use airgap.Prelude.{Bytes, Result, err}
use airgap.Redact.{
  HandlerKind, env, npmrc, private_key, mitm_yaml, RedactError, not_mergeable, read_only,
}
use airgap.Redact.Env.{Dotenvy, redact_env, merge_env}
use airgap.Redact.Npmrc.{redact_npmrc, merge_npmrc}
use airgap.Redact.Yaml.{YamlCrate, redact_mitm_yaml}

-- The parsers of other crates that the handlers call.
pub record Crates : Type 0 where
  pub dotenvy : Dotenvy
  pub yaml : YamlCrate

unfoldable pub redact : Crates → HandlerKind → Bytes → Result RedactError Bytes
redact crates env original = redact_env crates.dotenvy original
redact crates npmrc original = redact_npmrc original
redact crates mitm_yaml original = redact_mitm_yaml crates.yaml original
redact crates private_key original = err not_mergeable

unfoldable pub merge : Crates → HandlerKind → Bytes → Bytes → Result RedactError Bytes
merge crates env original written = merge_env crates.dotenvy original written
merge crates npmrc original written = merge_npmrc original written
merge crates mitm_yaml original written = err read_only
merge crates private_key original written = err not_mergeable
