-- ===== src/Service/Story.antt =====
-- The whole of one invocation: what InvokeTool returns, and what it leaves behind, on every path.
use underpass_runtime.Base.{
  suc, String, ◌≡◌, refl, ap, subst, ◌∙◌, ◌⊎◌, inl, inr, true, Option, none, some, Bool-cases,
}
use underpass_runtime.Domain.{
  Session, Capability, Message, Invocation, running, failed, denied, Error,
}
use underpass_runtime.Policy.Decision.{PolicyDecision}
use underpass_runtime.Service.Errors.{ServiceError, internal_error}
use underpass_runtime.Service.Quota.{Limiter, Slot, release}
use underpass_runtime.Service.Quota.Balance.{
  SameSlots, Balanced, acquire-Balanced, allow_rate-SameSlots,
}
use underpass_runtime.Service.Runtime.{capability_supported_by_runtime}
use underpass_runtime.Service.Ports.{Answer, answered, failed_with, Ports, Call, audited, World}
use underpass_runtime.Service.Reports.{
  emit, store_invocation, finish_with_error, finish_status, audit_event_from_invocation,
}
use underpass_runtime.Service.Invoke.{
  Authorized, refused, granted, refuse, take_slot, check_decision, authorizer_failed, check_answer,
  policy_input, check_runtime, check_rate, authorize_tool_invocation, internal_failure,
}
use underpass_runtime.Service.Tally.{
  Tally, tally, denied_tally, audited_tally, tally-deny, tally-audit, tally-quotas,
}
use underpass_runtime.Service.Endings.{
  IsDenial, IsClosed, deny-IsClosed, deny_status, policy_denied_error-IsDenial,
}

-- The collaborators permit the run: the runtime supports the tool, and the authoriser allows it.
pub record IsPermitted {S : Type 0} (p : Ports S) (call : Call) (s : Session) (c : Capability)
    : Type 0 where
  pub supported : capability_supported_by_runtime p.getenv s c ≡ true
  pub decision : PolicyDecision
  pub decided : p.authorize (policy_input call s c) ≡ answered decision
  pub allowed : decision.allow ≡ true

abbrev pub with_quotas : Tally → Limiter → Tally
with_quotas t q = record t { quotas = q }

-- A refusal: one audit record; one denial event, but where the authoriser itself failed.
abbrev pub Refused : Tally → Invocation → ServiceError → Tally → Type 0
Refused t inv err t' =
    ((inv.status ≡ denied) × IsDenial err × (t' ≡ denied_tally t))
    ⊎ ((inv.status ≡ failed) × (err.http_status ≡ 500) × (t' ≡ audited_tally t))

module _ {S : Type 0} (p : Ports S) (call : Call) (session : Session) (capability : Capability)
    (inv : Invocation) where
  -- What the authorisation comes to, from a world `w`: the tool was not run; a slot that was taken
  -- can be given back; and a permission was given.
  abbrev pub Authorizes : World S → Authorized S → Type 0
  Authorizes w (refused inv' err w') =
      (q : Limiter) × SameSlots q w.quotas
      × IsClosed call inv inv'
      × Refused (with_quotas (tally w) q) inv' err (tally w')
  Authorizes w (granted slot w') =
      (q : Limiter) × SameSlots (release q slot) w.quotas
      × (w' ≡ record w { quotas = q })
      × IsPermitted p call session capability

  refuse-Authorizes :
      (w : World S) (q : Limiter) (err : Error)
      → SameSlots q w.quotas
      → Authorizes w (refuse p call session (record w { quotas = q }) inv err)
  unfolding refuse
  refuse-Authorizes w q err same = (
    q,
    same,
    deny-IsClosed p call session (record w { quotas = q }) inv err,
    inl (
      deny_status p call session (record w { quotas = q }) inv err,
      policy_denied_error-IsDenial err.code err.message,
      tally-deny p call session (record w { quotas = q }) inv err
          ∙ ap denied_tally (tally-quotas p w q),
    ),
  )

  take_slot-Authorizes :
      (w : World S)
      → IsPermitted p call session capability
      → (r : Limiter × Option Slot) → Balanced w.quotas r
      → Authorizes w (take_slot p call session w inv r)
  unfolding take_slot
  take_slot-Authorizes w permitted (q, none) same = refuse-Authorizes w q _ same
  take_slot-Authorizes w permitted (q, some slot) same = (q, same, refl, permitted)

  check_decision-Authorizes :
      (w : World S) (d : PolicyDecision)
      → capability_supported_by_runtime p.getenv session capability ≡ true
      → p.authorize (policy_input call session capability) ≡ answered d
      → Authorizes w (check_decision p call session w inv d)
  unfolding check_decision
  check_decision-Authorizes w d runs decides = elim (Bool-cases d.allow) [
    | inl e ↦ rw e (
        take_slot-Authorizes w
          (record { supported = runs; decision = d; decided = decides; allowed = e }) _
          (acquire-Balanced w.quotas inv.session_id))
    | inr e ↦ rw e (refuse-Authorizes w w.quotas _ (λ k. refl))
  ]

  failed-Authorizes :
      (w : World S) (m : Message)
      → inv.status ≡ running
      → Authorizes w (authorizer_failed p call session w inv m)
  unfolding authorizer_failed finish_with_error finish_status internal_error
  failed-Authorizes w m starts = (
    w.quotas,
    λ k. refl,
    record {
      same = record {
        id = refl;
        session_id = refl;
        tool_name = refl;
        correlation_id = refl;
        started_at = refl;
      };
      at_end = refl;
      lasted = refl;
    },
    inr (rw starts refl, refl, audit_only),
  )
    where
      ended : Invocation
      ended = finish_with_error call inv (internal_failure m)

      audit_only :
          tally (
            emit
              (store_invocation p w ended).1
              (audited (audit_event_from_invocation session ended)))
          ≡ audited_tally (with_quotas (tally w) w.quotas)
      audit_only = tally-audit p call session w ended ∙ ap audited_tally (tally-quotas p w w.quotas)

  check_answer-Authorizes :
      (w : World S) (a : Answer PolicyDecision)
      → inv.status ≡ running
      → capability_supported_by_runtime p.getenv session capability ≡ true
      → p.authorize (policy_input call session capability) ≡ a
      → Authorizes w (check_answer p call session w inv a)
  unfolding check_answer
  check_answer-Authorizes w (answered d) starts runs e = check_decision-Authorizes w d runs e
  check_answer-Authorizes w (failed_with m) starts runs e = failed-Authorizes w m starts

  check_runtime-Authorizes :
      (w : World S)
      → inv.status ≡ running
      → Authorizes w (check_runtime p call session capability w inv)
  unfolding check_runtime
  check_runtime-Authorizes w starts =
      elim (Bool-cases (capability_supported_by_runtime p.getenv session capability)) [
        | inl e ↦ rw e (check_answer-Authorizes w _ starts e refl)
        | inr e ↦ rw e (refuse-Authorizes w w.quotas _ (λ k. refl))
      ]

  -- A change of the quotas that keeps the slots may come before.
  Authorizes-quotas :
      (w : World S) (q : Limiter)
      → SameSlots q w.quotas
      → (a : Authorized S) → Authorizes (record w { quotas = q }) a
      → Authorizes w a
  Authorizes-quotas w q same (refused inv' err w') (m, slots, closed, r) = (
    m,
    λ k. slots k ∙ same k,
    closed,
    subst (λ t. Refused (with_quotas t m) inv' err (tally w')) (tally-quotas p w q) r,
  )
  Authorizes-quotas w q same (granted slot w') (m, slots, e, permitted) =
      (m, λ k. slots k ∙ same k, e, permitted)

  check_rate-Authorizes :
      (w : World S)
      → inv.status ≡ running
      → (r : Limiter × Option String) → SameSlots r.0 w.quotas
      → Authorizes w (check_rate p call session capability w inv r)
  unfolding check_rate
  check_rate-Authorizes w starts (q, none) same =
      Authorizes-quotas w q same _ (check_runtime-Authorizes (record w { quotas = q }) starts)
  check_rate-Authorizes w starts (q, some reason) same = refuse-Authorizes w q _ same

  pub authorize-Authorizes :
      (w : World S)
      → inv.status ≡ running
      → Authorizes w (authorize_tool_invocation p call session capability w inv)
  unfolding authorize_tool_invocation
  authorize-Authorizes w starts =
      check_rate-Authorizes w starts _ (allow_rate-SameSlots w.quotas session call.started_at)

-- The tally once the start is published, under other quotas.
abbrev pub begun : Tally → Limiter → Tally
begun t q = record t { quotas = q; starts = suc t.starts }
