-- ===== src/Interchain/Image.antt =====
-- interchaintest/ci_integration.go: the image of the node. A version is the list of its bytes.
use echofi.Prelude.{
  ℕ, ◌≡◌, refl, ◌≢◌, false, List, [], ◌∷◌, String, Option, none, some, if◌then◌else◌, ◌==◌, length,
  All, arith,
}

abbrev pub Bytes : Type 0
Bytes = List ℕ

-- `strings.ReplaceAll(s, "/", "-")`
pub replace_slashes : Bytes → Bytes
replace_slashes [] = []
replace_slashes (b ∷ bs) = (if b == b'/' then b'-' else b) ∷ replace_slashes bs

-- The variable BRANCH_CI, if it is set. The repository is a named result, which is not set where
-- the variable is.
unfoldable pub get_docker_image_info : Option Bytes → String × Bytes
unfolding replace_slashes
get_docker_image_info none = ("echofi", replace_slashes (b'l' ∷ b'o' ∷ b'c' ∷ b'a' ∷ b'l' ∷ []))
get_docker_image_info (some branch_version) = ("", replace_slashes branch_version)

-- A version that a docker image may have.
pub record IsTag (branch version : Bytes) : Type 0 where
  pub no_slash : All (λ (b : ℕ). b ≢ b'/') version
  pub same_length : length version ≡ length branch
  pub unchanged : All (λ (b : ℕ). b ≢ b'/') branch → version ≡ branch

pub replace_slashes-IsTag : (bs : Bytes) → IsTag bs (replace_slashes bs)
unfolding replace_slashes
replace_slashes-IsTag [] = record { no_slash = tt; same_length = refl; unchanged = λ _. refl }
replace_slashes-IsTag (b ∷ bs) =
    let rest = replace_slashes-IsTag bs in
    record {
      no_slash = (ground arith, rest.no_slash);
      same_length = omega (arith, rest.same_length);
      unchanged = λ all.
          let other : b == b'/' ≡ false = ground (arith, all.0) in
          rw (other, rest.unchanged all.1) refl;
    }
