-- ===== src/Service/Listing.antt =====
-- internal/app/service.go: ListTools.
use underpass_runtime.Base.{
  Bool, true, false, Option, none, some, List, [], ◌∷◌, ltb, ◌==◌, if◌then◌else◌,
}
use underpass_runtime.Text.{Text, codes}
use underpass_runtime.Domain.{Session, Capability, plain}
use underpass_runtime.Policy.Decision.{PolicyInput, PolicyDecision}
use underpass_runtime.Service.Errors.{Served, served, refused_by, not_found_error, internal_error}
use underpass_runtime.Service.Runtime.{capability_supported_by_runtime}
use underpass_runtime.Service.Ports.{Answer, answered, failed_with, Ports}

-- a < b, byte by byte
unfoldable pub text_less : Text → Text → Bool
text_less s [] = false
text_less [] (d ∷ t) = true
text_less (c ∷ s) (d ∷ t) = if ltb c d then true else if c == d then text_less s t else false

-- sort.Slice by name, for tools of different names
unfoldable pub insert_by_name : Capability → List Capability → List Capability
insert_by_name c [] = c ∷ []
insert_by_name c (d ∷ ds) = if text_less d.name c.name then d ∷ insert_by_name c ds else c ∷ d ∷ ds

unfoldable pub sort_by_name : List Capability → List Capability
sort_by_name [] = []
sort_by_name (c ∷ cs) = insert_by_name c (sort_by_name cs)

unfoldable pub listing_input : Session → Capability → PolicyInput
listing_input session capability = record {
  session = session;
  capability = capability;
  args = codes "{}";
  approved = true;
}

unfoldable pub keep_allowed :
    Capability → Answer PolicyDecision → Served (List Capability) → Served (List Capability)
keep_allowed c (failed_with message) rest = refused_by (internal_error message)
keep_allowed c (answered decision) (refused_by err) = refused_by err
keep_allowed c (answered decision) (served cs) = served (if decision.allow then c ∷ cs else cs)

unfoldable pub enabled_tools :
    {S : Type 0} → Ports S → Session → List Capability → Served (List Capability)
enabled_tools p session [] = served []
enabled_tools p session (c ∷ cs) =
    let rest = enabled_tools p session cs in
    if capability_supported_by_runtime p.getenv session c
    then keep_allowed c (p.authorize (listing_input session c)) rest
    else rest

unfoldable pub sort_served : Served (List Capability) → Served (List Capability)
sort_served (refused_by err) = refused_by err
sort_served (served cs) = served (sort_by_name cs)

unfoldable pub list_for :
    {S : Type 0} → Ports S → Answer (Option Session) → Served (List Capability)
list_for p (failed_with message) = refused_by (internal_error message)
list_for p (answered none) = refused_by (not_found_error (plain "session not found"))
list_for p (answered (some session)) = sort_served (enabled_tools p session p.catalog)

unfoldable pub list_tools : {S : Type 0} → Ports S → Text → Served (List Capability)
list_tools p session_id = list_for p (p.get_session session_id)
