-- ===== src/Service/Quota/Results.antt =====
-- The limits on what a tool returns.
use underpass_runtime.Base.{
  ℕ, ◌+◌, ◌≤◌, ◌<◌, String, ◌≡◌, ◌↔◌, refl, ap, Bool, false, ◌&&◌, Option, none, some, List, [],
  ◌∷◌, ltb, length, arith, if◌then◌else◌,
}
use underpass_runtime.Text.{Text}
use underpass_runtime.Json.{Json}
use underpass_runtime.Service.Quota.{
  Limiter, ArtifactPayload, ToolRunResult, Marshal, payload_too_large, output_too_large,
  bytes_exceed, allow_run_result,
}

-- The bytes of all artifacts.
unfoldable pub total_bytes : List ArtifactPayload → ℕ
total_bytes [] = 0
total_bytes (a ∷ rest) = length a.payload + total_bytes rest

-- The loop, which stops early, finds exactly whether the whole is too large.
pub bytes_exceed_lem :
    (limit total : ℕ) (xs : List ArtifactPayload)
    → total ≤ limit
    → bytes_exceed limit total xs ≡ ltb limit (total + total_bytes xs)
unfolding bytes_exceed total_bytes
bytes_exceed_lem limit total [] h = ground arith
bytes_exceed_lem limit total (a ∷ rest) h =
    ground (arith, bytes_exceed_lem limit (total + length a.payload) rest)

-- A limit of 0 is none.
abbrev pub Fits : ℕ → ℕ → Type 0
Fits limit n = 0 < limit → n ≤ limit

-- The size of an output that can be marshalled.
abbrev pub OutputFits : Marshal → ℕ → Option Json → Type 0
OutputFits marshal limit output =
    (value : Json) (bytes : Text)
    → output ≡ some value
    → marshal value ≡ some bytes
    → Fits limit (length bytes)

some_eq : {a b : Text} → some a ≡ some b → a ≡ b
some_eq e = cc

payload-Fits :
    (limit : ℕ) (o : Option Text)
    → payload_too_large limit o ≡ false
    → (bytes : Text) → o ≡ some bytes
    → Fits limit (length bytes)
unfolding payload_too_large
payload-Fits limit none h bytes e = absurd (cc)
payload-Fits limit (some payload) h bytes e = ground (arith, ap {A = Text} length (some_eq e))

fitting_payload :
    (limit : ℕ) (o : Option Text)
    → ((bytes : Text) → o ≡ some bytes → Fits limit (length bytes))
    → payload_too_large limit o ≡ false
unfolding payload_too_large
fitting_payload limit none f = refl
fitting_payload limit (some payload) f = ground (arith, f payload refl)

output_fits :
    (marshal : Marshal) (limit : ℕ) (output : Option Json)
    → output_too_large marshal limit output ≡ false
    → OutputFits marshal limit output
unfolding output_too_large
output_fits marshal limit none h value bytes e m = absurd (cc)
output_fits marshal limit (some v) h value bytes e m = payload-Fits limit (marshal v) h bytes (cc)

fitting_output :
    (marshal : Marshal) (limit : ℕ) (output : Option Json)
    → OutputFits marshal limit output
    → output_too_large marshal limit output ≡ false
unfolding output_too_large
fitting_output marshal limit none f = refl
fitting_output marshal limit (some v) f =
    fitting_payload limit (marshal v) (λ bytes e. f v bytes refl e)

three_none :
    (a b c : Bool) (x y z : String)
    → ((if a then some x else if b then some y else if c then some z else none) ≡ none)
      ↔ ((a ≡ false) × (b ≡ false) × (c ≡ false))
three_none a b c x y z = ground arith

count-Fits : (limit n : ℕ) → ((ltb 0 limit && ltb limit n) ≡ false) ↔ Fits limit n
count-Fits limit n = ground arith

bytes_fit :
    (limit : ℕ) (xs : List ArtifactPayload)
    → ((ltb 0 limit && bytes_exceed limit 0 xs) ≡ false) ↔ Fits limit (total_bytes xs)
bytes_fit limit xs = ground (arith, bytes_exceed_lem limit 0 xs)

-- A result is accepted exactly when its output, the number of its artifacts and their bytes
-- together are within the limits that are set.
pub allow_run_result_iff :
    (marshal : Marshal) (l : Limiter) (result : ToolRunResult)
    → (allow_run_result marshal l result ≡ none) ↔ (
        OutputFits marshal l.max_output_bytes result.output
        × Fits l.max_artifacts_per_invoke (length result.artifacts)
        × Fits l.max_artifact_bytes_per_invoke (total_bytes result.artifacts))
unfolding allow_run_result
allow_run_result_iff marshal l result =
    let cases = three_none _ _ _ _ _ _ in
    (
      λ h.
          let (a, b, c) = cases.0 h in
          (output_fits _ _ _ a, (count-Fits _ _).0 b, (bytes_fit _ _).0 c),
      λ (a, b, c). cases.1 (fitting_output _ _ _ a, (count-Fits _ _).1 b, (bytes_fit _ _).1 c),
    )
