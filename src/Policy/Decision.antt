-- ===== src/Policy/Decision.antt =====
-- The values of the policy engine: what it is asked, what it answers, and the environment that it
-- reads. app.PolicyInput and app.PolicyDecision are in internal/app/types.go, the error codes in
-- internal/app/errors.go.
use underpass_runtime.Base.{
  String, Bool, true, false, Option, none, some, List, [], ◌∷◌, is_empty, ◌||◌, if◌then◌else◌,
}
use underpass_runtime.Text.{Text, codes, text_eq}
use underpass_runtime.Json.{Json}
use underpass_runtime.Domain.{Session, Capability, Message, plain}

-- `json.Unmarshal` into an `any` (none: an error) and `os.Getenv`.
pub record Host : Type 0 where
  pub unmarshal : Text → Option Json
  pub getenv : Text → Text

pub record PolicyInput : Type 0 where
  pub session : Session
  pub capability : Capability
  pub args : Text
  pub approved : Bool

pub record PolicyDecision : Type 0 where
  pub allow : Bool
  pub error_code : String
  pub reason : Message

abbrev pub policy_denied : String
policy_denied = "policy_denied"

abbrev pub approval_required : String
approval_required = "approval_required"

abbrev pub environment_mismatch : String
environment_mismatch = "environment_mismatch"

-- app.PolicyDecision{Allow: true}
abbrev pub permit : PolicyDecision
permit = record { allow = true; error_code = ""; reason = plain "" }

abbrev pub deny : String → Message → PolicyDecision
deny code reason = record { allow = false; error_code = code; reason = reason }

-- A check that decides (`some`) ends the chain of `Authorize`; `none` goes on to the next.
infixr 20 ◌<|>◌
unfoldable pub ◌<|>◌ : Option PolicyDecision → PolicyDecision → PolicyDecision
none <|> rest = rest
some d <|> rest = d

unfoldable pub deny_if : Bool → String → String → Option PolicyDecision
deny_if b code reason = if b then some (deny code (plain reason)) else none

-- The checks on arguments return (true, "") or (false, reason): here none, or the reason.
abbrev pub Verdict : Type 0
Verdict = Option String

unfoldable pub deny_by : Verdict → Option PolicyDecision
deny_by none = none
deny_by (some reason) = some (deny policy_denied (plain reason))

-- `for _, x := range xs { if ok, reason := check(x); !ok { return false, reason } }`
unfoldable pub each {ℓ} : {A : Type ℓ} → (A → Verdict) → List A → Verdict
each check [] = none
each check (x ∷ xs) = elim (check x) [ none ↦ each check xs | some reason ↦ some reason ]

-- `len(raw) == 0 || string(raw) == "null"`
unfoldable pub no_args : Text → Bool
no_args raw = is_empty raw || text_eq raw (codes "null")

-- The part of the argument checks that they share: `check` sees the decoded payload.
unfoldable pub with_payload : Host → Text → (Json → Verdict) → Verdict
with_payload host raw check = elim (host.unmarshal raw) [
  | none ↦ some "invalid args payload"
  | some payload ↦ check payload
]
