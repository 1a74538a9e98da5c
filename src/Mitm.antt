-- ===== src/Mitm.antt =====
-- src/mitm.rs and src/mitm: the parts of the network interception that compute on bytes.
pub mod Dns
pub mod Tun
pub mod Netns
pub mod Channels
pub mod Cert
pub mod Config
pub mod Proxy
pub mod Stream
pub mod Smoltcp
pub mod Stack
use airgap.Prelude.{ℕ, ◌∷◌, [], ◌++◌, Bytes, replicate}

-- The addresses of the stack, 10.0.0.1 and fd00::1, in octets.
abbrev pub stack_ip : Bytes
stack_ip = 10 ∷ 0 ∷ 0 ∷ 1 ∷ []

abbrev pub stack_ip6 : Bytes
stack_ip6 = 253 ∷ replicate 14 0 ++ (1 ∷ [])
