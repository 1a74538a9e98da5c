-- ===== src/Redact.antt =====
-- src/redact.rs: the content handlers, pure functions over the bytes of a file. This file has what
-- the handlers share; each handler is a child.
pub mod Detect
pub mod Npmrc
pub mod Env
pub mod Key
pub mod Yaml
pub mod Dispatch
use airgap.Prelude.{Bytes, codes}

-- Which handler matched.
pub data HandlerKind : Type 0 where
  env npmrc private_key mitm_yaml : HandlerKind

-- `RedactError`: its message is here the reason, which every caller drops.
pub data RedactError : Type 0 where
  parse_error not_utf8 not_mergeable read_only bad_yaml : RedactError

abbrev pub placeholder : Bytes
placeholder = codes "<redacted value>"
