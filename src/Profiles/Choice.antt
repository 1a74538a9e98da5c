-- ===== src/Profiles/Choice.antt =====
-- src/main.rs and src/profiles/mod.rs: which programs are refused.
use airgap.Prelude.{◌≡◌, ◌↔◌, false, none, arith, any, any-append, Bytes, ◌==◌, list_eq, nat_eq}
use airgap.Profiles.{
  ai_agents, npm_programs, program_basename, permitted_programs, select_profile, refused,
}

-- Where no profile is asked for and unknown programs are not allowed, a program is refused exactly if
-- its basename is none of the names that the message of the refusal lists.
pub select_profile-refused :
    (program : Bytes)
    → (any (λ name. program_basename program == name) permitted_programs ≡ false)
      ↔ (select_profile none false program ≡ refused)
unfolding select_profile permitted_programs
select_profile-refused program =
    ground (arith, any-append (λ name. program_basename program == name) ai_agents npm_programs)
