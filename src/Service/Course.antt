-- ===== src/Service/Course.antt =====
-- The whole of one invocation: what InvokeTool returns, and what it leaves behind, on every path.
use underpass_runtime.Base.{
  is_empty, ◌≡◌, refl, sym, ap, subst, subst₂, ◌∙◌, ◌⊎◌, inl, inr, Option, none, some, Bool-cases,
}
use underpass_runtime.Text.{trim_space}
use underpass_runtime.Domain.{Session, Capability, Invocation, running}
use underpass_runtime.Service.Errors.{ServiceError, internal_error}
use underpass_runtime.Service.Quota.{Limiter, Slot, release}
use underpass_runtime.Service.Quota.Balance.{SameSlots}
use underpass_runtime.Service.Ports.{
  Answer, answered, failed_with, Ports, Call, published, invocation_started, measured, World,
}
use underpass_runtime.Service.Reports.{emit, after_save, store_invocation, domain_event}
use underpass_runtime.Service.Invoke.{Outcome, Authorized, refused, granted}
use underpass_runtime.Service.Complete.{
  finish, run_tool, measure_as, measure, release_slot, run_authorized, new_invocation, start_stored,
  start_invocation, Request, rejected, existing, fresh, invoke_request, invoke_tool,
  validate_tool_request, check_existing, check_correlation, check_tool, check_session,
}
use underpass_runtime.Service.Tally.{
  Tally, tally, denied_tally, completed_tally, tally-after_save, tally-started, tally-measured,
  tally-quotas, quotas-tally,
}
use underpass_runtime.Service.Endings.{
  IsClosed, Ended, denied_end, failed_end, succeeded_end, unsaved_end,
}
use underpass_runtime.Service.Endings.Runs.{ran_tally, run_tool-Ended}
use underpass_runtime.Service.Story.{
  IsPermitted, with_quotas, Refused, Authorizes, authorize-Authorizes, begun,
}

-- The session and the tool are those that the call names.
pub record IsNamed {S : Type 0} (p : Ports S) (call : Call) (s : Session) (c : Capability)
    : Type 0 where
  pub session : p.get_session call.session_id ≡ answered (some s)
  pub tool : p.get_tool call.tool_name ≡ some c

abbrev pub Resolves : {S : Type 0} → Ports S → Call → Request → Type 0
Resolves p call (rejected err) = Unit
Resolves p call (existing inv) = Unit
Resolves p call (fresh s c) = IsNamed p call s c

module _ {S : Type 0} (p : Ports S) (call : Call) (w : World S) where
  check_existing-Resolves :
      (s : Session) (c : Capability)
      → IsNamed p call s c
      → (a : Answer (Option Invocation)) → Resolves p call (check_existing s c a)
  unfolding check_existing
  check_existing-Resolves s c n (failed_with m) = tt
  check_existing-Resolves s c n (answered (some inv)) = tt
  check_existing-Resolves s c n (answered none) = n

  check_correlation-Resolves :
      (s : Session) (c : Capability)
      → IsNamed p call s c
      → Resolves p call (check_correlation p call w s c)
  unfolding check_correlation
  check_correlation-Resolves s c n = elim (Bool-cases (is_empty (trim_space call.correlation_id))) [
    | inl e ↦ rw e n
    | inr e ↦ rw e (check_existing-Resolves s c n _)
  ]

  check_tool-Resolves :
      (s : Session)
      → p.get_session call.session_id ≡ answered (some s)
      → (t : Option Capability) → p.get_tool call.tool_name ≡ t
      → Resolves p call (check_tool p call w s t)
  unfolding check_tool
  check_tool-Resolves s k none e = tt
  check_tool-Resolves s k (some c) e =
      check_correlation-Resolves s c (record { session = k; tool = e })

  check_session-Resolves :
      (a : Answer (Option Session))
      → p.get_session call.session_id ≡ a
      → Resolves p call (check_session p call w a)
  unfolding check_session
  check_session-Resolves (failed_with m) e = tt
  check_session-Resolves (answered none) e = tt
  check_session-Resolves (answered (some s)) e = check_tool-Resolves s e _ refl

  validate-Resolves : Resolves p call (validate_tool_request p call w)
  unfolding validate_tool_request
  validate-Resolves = check_session-Resolves _ refl

-- How an invocation can go: it is answered before it starts; its record cannot be stored; it is
-- refused; or it is permitted and runs to one of the four ends. The slots are as before.
pub data Story {S : Type 0} (p : Ports S) (call : Call) (w : World S) (o : Outcome S) : Type 0 where
  answered_early :
      o.world ≡ w
      → ((o.invocation ≡ none) × ((err : ServiceError) × (o.error ≡ some err)))
        ⊎ (((inv : Invocation) × (o.invocation ≡ some inv)) × (o.error ≡ none))
      → Story p call w o
  unstored :
      (inv : Invocation) (err : ServiceError)
      → o.world ≡ w
      → o.invocation ≡ some inv
      → inv.status ≡ running
      → o.error ≡ some err
      → Story p call w o
  turned_away :
      (capability : Capability) (q : Limiter) (inv : Invocation) (err : ServiceError)
      → SameSlots q w.quotas
      → o.invocation ≡ some inv
      → o.error ≡ some err
      → IsClosed call (new_invocation call capability) inv
      → Refused (begun (tally w) q) inv err (tally o.world)
      → Story p call w o
  executed :
      (session : Session) (capability : Capability) (q : Limiter)
      → SameSlots q w.quotas
      → IsNamed p call session capability
      → IsPermitted p call session capability
      → Ended call (new_invocation call capability) (ran_tally (begun (tally w) q)) o
      → Story p call w o

-- Another world with the same tally.
Ended-world :
    {S : Type 0} {call : Call} {i : Invocation} {t : Tally} {o : Outcome S} (w : World S)
    (f : Tally → Tally)
    → tally w ≡ f (tally o.world)
    → (f (denied_tally t) ≡ denied_tally (f t)) × (f (completed_tally t) ≡ completed_tally (f t))
    → Ended call i t o
    → Ended call i (f t) (record o { world = w })
Ended-world w f e (d, c) (denied_end inv err p q k x y z) =
    denied_end inv err p q k x y (e ∙ ap f z ∙ d)
Ended-world w f e (d, c) (failed_end inv err p q k x z) =
    failed_end inv err p q k x (e ∙ ap f z ∙ c)
Ended-world w f e (d, c) (succeeded_end inv p q k x z) = succeeded_end inv p q k x (e ∙ ap f z ∙ c)
Ended-world w f e (d, c) (unsaved_end inv err p q k x y z) =
    unsaved_end inv err p q k x y (e ∙ ap f z)

-- The tally once the slot is released.
abbrev pub after_release : Slot → Tally → Tally
after_release slot x = with_quotas x (release x.quotas slot)

module _ {S : Type 0} (p : Ports S) {call : Call} {i : Invocation} {t : Tally} {o : Outcome S} where
  measure-Ended : (m : Option Invocation) → Ended call i t o → Ended call i t (measure_as m o)
  unfolding measure_as
  measure-Ended none e = e
  measure-Ended (some inv) e =
      Ended-world (emit o.world (measured inv)) (λ x. x) (tally-measured p o.world inv) (refl, refl)
        e

  release-Ended :
      (slot : Slot) → Ended call i t o → Ended call i (after_release slot t) (release_slot slot o)
  unfolding release_slot
  release-Ended slot e =
      Ended-world _ (after_release slot)
        (tally-quotas p o.world (release o.world.quotas slot)
          ∙ ap (λ (q : Limiter). with_quotas (tally o.world) (release q slot))
              (sym (quotas-tally o.world)))
        (refl, refl) e

quotas-after_save :
    {S : Type 0} (w : World S) (inv : Invocation) (a : Answer S)
    → (after_save w inv a).1.quotas ≡ w.quotas
unfolding after_save
quotas-after_save w inv (answered s) = refl
quotas-after_save w inv (failed_with m) = refl

new_status :
    (call : Call) (capability : Capability) → (new_invocation call capability).status ≡ running
unfolding new_invocation
new_status call capability = refl

module _ {S : Type 0} (p : Ports S) (call : Call) (session : Session) (capability : Capability)
    (named : IsNamed p call session capability) (w : World S) where
  -- From the world after the start, `v`: the rest of the invocation.
  run_authorized-Story :
      (v : World S)
      → SameSlots v.quotas w.quotas
      → ((q : Limiter) → with_quotas (tally v) q ≡ begun (tally w) q)
      → (a : Authorized S)
      → Authorizes p call session capability (new_invocation call capability) v a
      → Story p call w (run_authorized p call session capability (new_invocation call capability) a)
  unfolding run_authorized finish measure measure_as
  run_authorized-Story v same start (refused inv err v') (q, slots, closed, r) =
      turned_away capability q inv err (λ k. slots k ∙ same k) refl refl closed
        (subst₂ (λ t t'. Refused t inv err t') (start q) (sym (tally-measured p v' inv)) r)
  run_authorized-Story v same start (granted slot v') (q, slots, e, permitted) =
      executed session capability (release q slot) (λ k. slots k ∙ same k) named permitted
        (measure-Ended p _ ran_end)
    where
      inv : Invocation
      inv = new_invocation call capability

      ran_end :
          Ended call inv
            (ran_tally (begun (tally w) (release q slot)))
            (release_slot slot (run_tool p call session capability v' inv))
      ran_end =
          subst
            (λ t. Ended call inv t (release_slot slot (run_tool p call session capability v' inv)))
            (ap (λ (u : World S). after_release slot (ran_tally (tally u))) e
              ∙ ap (λ t. after_release slot (ran_tally t)) (tally-quotas p v q)
              ∙ ap (λ t. with_quotas (ran_tally t) (release q slot)) (start q))
            (release-Ended p slot
              (run_tool-Ended p call session capability v' inv (new_status call capability)))

  start_saved-Story :
      (a : Answer S)
      → Story p call w (
          start_stored p call session capability
            (new_invocation call capability)
            (after_save w (new_invocation call capability) a))
  unfolding after_save start_stored emit
  start_saved-Story (failed_with m) =
      unstored (new_invocation call capability) (internal_error m) refl refl
        (new_status call capability) refl
  start_saved-Story (answered s) =
      run_authorized-Story v (λ k. refl) begins _
        (authorize-Authorizes p call session capability inv v (new_status call capability))
    where
      inv : Invocation
      inv = new_invocation call capability

      saved : World S
      saved = (after_save w inv (answered s)).1

      v : World S
      v = emit saved (
          published
            (domain_event session (invocation_started inv.id inv.tool_name inv.correlation_id)))

      begins : (q : Limiter) → with_quotas (tally v) q ≡ begun (tally w) q
      begins q =
          ap (λ t. with_quotas t q)
            (tally-started p saved session inv.id inv.tool_name inv.correlation_id)
          ∙ ap (λ t. begun t q) (tally-after_save p w inv (answered s))

  start-Story : Story p call w (start_invocation p call session capability w)
  unfolding start_invocation store_invocation
  start-Story = start_saved-Story (p.save w.store (new_invocation call capability))

invoke_request-Story :
    {S : Type 0} (p : Ports S) (call : Call) (w : World S) (r : Request)
    → Resolves p call r
    → Story p call w (invoke_request p call w r)
unfolding invoke_request
invoke_request-Story p call w (rejected err) n = answered_early refl (inl (refl, (err, refl)))
invoke_request-Story p call w (existing inv) n = answered_early refl (inr ((inv, refl), refl))
invoke_request-Story p call w (fresh session capability) n =
    start-Story p call session capability n w

-- An invocation goes one of four ways, whatever the collaborators answer: it is answered before it
-- starts, and nothing changes; its record cannot be stored, and nothing changes; it is refused,
-- with the tool not run, one audit record, at most one denial event, and a closed record, denied or
-- failed, beside the matching error; or the session and the tool that the call names were permitted
-- by the runtime check and the authoriser, and the tool is run once and ends denied, failed,
-- succeeded, or succeeded with a record that could not be stored, each with its error and its count
-- of reports. The limiter that is left has the same slots in use as before.
pub invoke_tool-Story :
    {S : Type 0} (p : Ports S) (call : Call) (w : World S) → Story p call w (invoke_tool p call w)
unfolding invoke_tool
invoke_tool-Story p call w = invoke_request-Story p call w _ (validate-Resolves p call w)
