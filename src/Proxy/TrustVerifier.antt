-- ===== src/Proxy/TrustVerifier.antt =====
-- proxy/trust_verifier.go: trust tiers of skills, verified in the background and cached.
-- A section under the mutex is one step; a running goroutine is an entry of `running`. One
-- verification sees one state of the file system; `now` is the clock.
pub mod Tiers
pub mod Cache
mod Tests
use skillledger.Base.{
  ℕ, Bool, true, false, ◌&&◌, ◌||◌, not, Option, none, some, List, [], ◌∷◌, ◌++◌, if◌then◌else◌,
  Text, codes, text_eq, join, Outcome, ok, err, ◌>>=◌, ◌>>◌, wrap, Dict, lookup, put,
}
use skillledger.Verify.Types.{World, Pipeline, VerifyInput, StepResult, VerifyResult}
use skillledger.Verify.Checks.{read_lockfile}
use skillledger.Verify.Pipeline.{verify}

pub data TrustTier : Type 0 where
  verified partial unverified : TrustTier

-- SignerIdentity and Issuer are never set, and left out.
pub record VerificationResult : Type 0 where
  pub tier : TrustTier
  pub steps : List StepResult
  pub error : Text
  pub verified_at : ℕ
  pub in_flight : Bool

-- The fields of TrustVerifier that do not change: its own file system (with a test whether Stat
-- succeeds), the pipeline with the file system that it reads, and the lockfile directory.
pub record Config : Type 0 where
  pub fs : World
  pub exists : Text → Bool
  pub os : World
  pub pipeline : Pipeline
  pub lockfile_dir : Text

unfoldable pub any_passed : List StepResult → Bool
any_passed [] = false
any_passed (s ∷ ss) = s.passed || any_passed ss

-- AssignTier
unfoldable pub assign_tier : Option VerifyResult → TrustTier
unfolding any_passed
assign_tier none = unverified
assign_tier (some vr) =
    if vr.passed then verified else if any_passed vr.steps then partial else unverified

-- The lockfile of a skill.
abbrev pub lockfile_of : Config → Text → Text
lockfile_of c skill = c.fs.join c.lockfile_dir (c.fs.join skill (codes "skill-lock.json"))

-- ResolveArtifactHash; the result is the artifact id (the other two are not used).
unfoldable pub resolve_artifact : Config → Text → Outcome Text
resolve_artifact c skill = do
  lf ← wrap (codes "no lockfile for skill " ++ skill) (read_lockfile c.fs (lockfile_of c skill))
  ok lf.artifact_id

abbrev pub artifact_of : Config → Text → Text → Text
artifact_of c skill id = c.fs.join c.lockfile_dir (c.fs.join skill (id ++ codes ".tar.gz"))

-- The input of the pipeline: without an artifact on disk its path is empty.
abbrev pub input_for : Config → Text → Text → Bool → VerifyInput
input_for c skill id has_artifact = record {
  artifact_path = if has_artifact then artifact_of c skill id else [];
  bundle_path = [];
  lockfile_path = lockfile_of c skill;
  manifest_path = [];
  skip_tlog = false;
}

unfoldable pub is_verified : TrustTier → Bool
is_verified verified = true
is_verified _ = false

-- Without an artifact the tier is at most partial.
unfoldable pub cap_tier : Bool → TrustTier → TrustTier
unfolding is_verified
cap_tier has_artifact tier = if not has_artifact && is_verified tier then partial else tier

abbrev pub finished : TrustTier → List StepResult → Text → ℕ → VerificationResult
finished tier steps error now = record {
  tier = tier;
  steps = steps;
  error = error;
  verified_at = now;
  in_flight = false;
}

-- runVerification once the artifact id is known.
unfoldable pub run_pipeline : Config → ℕ → Text → Text → Bool → VerificationResult
unfolding assign_tier cap_tier
run_pipeline c now skill id has_artifact =
    elim (verify c.os c.pipeline (input_for c skill id has_artifact)) [
      | err e ↦ finished unverified [] e now
      | ok vr ↦ finished (cap_tier has_artifact (assign_tier (some vr))) vr.steps [] now
    ]

-- The result that runVerification writes.
unfoldable pub run_verification : Config → ℕ → Text → VerificationResult
unfolding resolve_artifact run_pipeline
run_verification c now skill = elim (resolve_artifact c skill) [
  | err e ↦ finished unverified [] (codes "no lockfile for skill " ++ skill) now
  | ok id ↦ run_pipeline c now skill id (c.exists (artifact_of c skill id))
]

pub record State : Type 0 where
  pub cache : Dict VerificationResult
  pub running : List Text

abbrev pub init : State
init = record { cache = []; running = [] }

abbrev pub pending : VerificationResult
pending = record { tier = unverified; steps = []; error = []; verified_at = 0; in_flight = true }

-- startVerification
unfoldable pub start_verification : Text → State → State
start_verification skill s = elim (lookup skill s.cache) [
  | some r ↦ s
  | none ↦ record { cache = put skill pending s.cache; running = skill ∷ s.running }
]

-- The fast path of GetTier: the tier of a cached result.
unfoldable pub peek : Text → State → Option TrustTier
peek skill s = elim (lookup skill s.cache) [
  | none ↦ none
  | some r ↦ some (if r.in_flight then unverified else r.tier)
]

-- GetTier, with nothing between its two sections.
unfoldable pub get_tier : Text → State → TrustTier × State
unfolding peek start_verification
get_tier skill s = elim (peek skill s) [
  | some tier ↦ (tier, s)
  | none ↦ (unverified, start_verification skill s)
]

-- GetResult
unfoldable pub get_result : Text → State → Option VerificationResult
get_result skill s = lookup skill s.cache

-- One goroutine of the skill ends.
unfoldable pub forget : Text → List Text → List Text
forget skill [] = []
forget skill (x ∷ xs) = if text_eq x skill then xs else x ∷ forget skill xs

-- writeResult, the end of the goroutine.
unfoldable pub write_result : Text → VerificationResult → State → State
unfolding forget
write_result skill r s = record {
  cache = put skill (record r { in_flight = false }) s.cache;
  running = forget skill s.running;
}
