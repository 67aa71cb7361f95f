-- ===== src/Policy/Combine.antt =====
-- How the checks of `authorize` combine: what a permitted or refused decision says of them.
use underpass_runtime.Base.{
  String, ◌≡◌, refl, ◌⊎◌, inl, inr, true, false, Option, none, some, List, ◌∷◌, Bool, false,
  Option-cases,
}
use underpass_runtime.Policy.Decision.{
  PolicyDecision, Verdict, deny_if, deny_by, each, policy_denied, environment_mismatch, ◌<|>◌,
}

-- The check refuses or says nothing.
abbrev pub Refuses : Option PolicyDecision → Type 0
Refuses none = Unit
Refuses (some d) = d.allow ≡ false

-- What is permitted passed a check that can only refuse.
pub passes_first :
    (o : Option PolicyDecision) (rest : PolicyDecision)
    → Refuses o
    → (o <|> rest).allow ≡ true
    → (o ≡ none) × (rest.allow ≡ true)
unfolding ◌<|>◌
passes_first none rest r h = (refl, h)
passes_first (some d) rest r h = absurd (cc)

pub deny_by-Refuses : (v : Verdict) → Refuses (deny_by v)
unfolding deny_by
deny_by-Refuses none = tt
deny_by-Refuses (some reason) = refl

pub deny_by-none : (v : Verdict) → deny_by v ≡ none → v ≡ none
unfolding deny_by
deny_by-none none h = refl
deny_by-none (some reason) h = cc

-- What is permitted passed every check on the arguments.
pub passes_check :
    (v : Verdict) (rest : PolicyDecision)
    → (deny_by v <|> rest).allow ≡ true
    → (v ≡ none) × (rest.allow ≡ true)
unfolding ◌<|>◌ deny_by
passes_check none rest h = (refl, h)
passes_check (some reason) rest h = absurd (cc)

pub passes_guard :
    (b : Bool) (code reason : String) (rest : PolicyDecision)
    → (deny_if b code reason <|> rest).allow ≡ true
    → (b ≡ false) × (rest.allow ≡ true)
unfolding ◌<|>◌ deny_if
passes_guard true code reason rest h = absurd (cc)
passes_guard false code reason rest h = (refl, h)

-- A loop that ends with no refusal saw none.
pub each-none {ℓ} :
    {A : Type ℓ} (check : A → Verdict) (x : A) (xs : List A)
    → each check (x ∷ xs) ≡ none
    → (check x ≡ none) × (each check xs ≡ none)
unfolding each
each-none check x xs h = elim (Option-cases (check x)) [
  | inl e ↦ (e, rw (e, each) at h)
  | inr (r, e) ↦ absurd (let g = rw (e, each) at h in cc)
]

-- The codes of the checks that do not ask for approval.
abbrev pub IsDenialCode : String → Type 0
IsDenialCode c = (c ≡ policy_denied) ⊎ (c ≡ environment_mismatch)

-- The decision does not ask for approval: it has no code, or one of those.
abbrev pub IsSound : PolicyDecision → Type 0
IsSound d = (d.error_code ≡ "") ⊎ IsDenialCode d.error_code

abbrev pub IsSoundCheck : Option PolicyDecision → Type 0
IsSoundCheck none = Unit
IsSoundCheck (some d) = IsSound d

pub <|>-IsSound :
    (o : Option PolicyDecision) (rest : PolicyDecision)
    → IsSoundCheck o
    → IsSound rest
    → IsSound (o <|> rest)
unfolding ◌<|>◌
<|>-IsSound none rest p q = q
<|>-IsSound (some d) rest p q = p

pub deny_by-IsSound : (v : Verdict) → IsSoundCheck (deny_by v)
unfolding deny_by
deny_by-IsSound none = tt
deny_by-IsSound (some reason) = inr (inl refl)

pub deny_if-IsSound :
    (b : Bool) (code reason : String) → IsDenialCode code → IsSoundCheck (deny_if b code reason)
unfolding deny_if
deny_if-IsSound true code reason c = inr c
deny_if-IsSound false code reason c = tt
