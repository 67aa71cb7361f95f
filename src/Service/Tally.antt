-- ===== src/Service/Tally.antt =====
-- What the reports of an invocation leave behind, counted: the quotas, and the effects by kind.
use underpass_runtime.Base.{
  ℕ, suc, ◌≡◌, refl, ap, ◌∙◌, inl, inr, Bool, ◌&&◌, List, [], ◌∷◌, Bool-cases, arith,
}
use underpass_runtime.Text.{Text}
use underpass_runtime.Domain.{Session, Message, Invocation, Error}
use underpass_runtime.Service.Quota.{Limiter, ToolRunResult}
use underpass_runtime.Service.Ports.{
  Answer, answered, failed_with, Ports, Call, Payload, invocation_started, invocation_denied,
  invocation_completed, Effect, audited, published, ran, measured, World,
}
use underpass_runtime.Service.Reports.{
  emit, after_save, domain_event, store_invocation, update_online_bandit, record_telemetry,
  publish_invocation_completed, observe_denial, deny_invocation, fail_invocation, observe_tool_kpis,
  count_tool_call, is_executed, audit_event_from_invocation,
}

-- How many audit records, runs of a tool, and events of the three kinds there were.
pub record Tally : Type 0 where
  pub quotas : Limiter
  pub audits : ℕ
  pub runs : ℕ
  pub starts : ℕ
  pub denials : ℕ
  pub completions : ℕ

unfoldable pub count_event : Tally → Payload → Tally
count_event t (invocation_started a b c) = record t { starts = suc t.starts }
count_event t (invocation_denied a b c d) = record t { denials = suc t.denials }
count_event t (invocation_completed a b c d e f g h) = record t { completions = suc t.completions }
count_event t _ = t

unfoldable pub count_effect : Tally → Effect → Tally
count_effect t (audited a) = record t { audits = suc t.audits }
count_effect t (ran a b) = record t { runs = suc t.runs }
count_effect t (published e) = count_event t e.payload
count_effect t _ = t

unfoldable pub count_effects : Limiter → List Effect → Tally
count_effects q [] = record {
  quotas = q;
  audits = 0;
  runs = 0;
  starts = 0;
  denials = 0;
  completions = 0;
}
count_effects q (e ∷ es) = count_effect (count_effects q es) e

unfoldable pub tally : {S : Type 0} → World S → Tally
tally w = count_effects w.quotas w.effects

count_effect-quotas :
    (t : Tally) (q : Limiter) (e : Effect)
    → count_effect (record t { quotas = q }) e ≡ record (count_effect t e) { quotas = q }
unfolding count_effect count_event
count_effect-quotas t q (audited a) = refl
count_effect-quotas t q (ran a b) = refl
count_effect-quotas t q (published e) = event e.payload
  where
    event :
        (x : Payload)
        → count_event (record t { quotas = q }) x ≡ record (count_event t x) { quotas = q }
    event (invocation_started a b c) = refl
    event (invocation_denied a b c d) = refl
    event (invocation_completed a b c d f g h i) = refl
    event _ = refl
count_effect-quotas t q _ = refl

quotas_only :
    (q r : Limiter) (es : List Effect)
    → count_effects q es ≡ record (count_effects r es) { quotas = q }
unfolding count_effects
quotas_only q r [] = refl
quotas_only q r (e ∷ es) =
    ap (λ t. count_effect t e) (quotas_only q r es) ∙ count_effect-quotas (count_effects r es) q e

quotas-count_event : (t : Tally) (x : Payload) → (count_event t x).quotas ≡ t.quotas
unfolding count_event
quotas-count_event t (invocation_started a b c) = refl
quotas-count_event t _ = refl

quotas-count_effect : (t : Tally) (e : Effect) → (count_effect t e).quotas ≡ t.quotas
unfolding count_effect
quotas-count_effect t (published e) = quotas-count_event t e.payload
quotas-count_effect t _ = refl

kept : (q : Limiter) (es : List Effect) → (count_effects q es).quotas ≡ q
unfolding count_effects
kept q [] = refl
kept q (e ∷ es) = quotas-count_effect (count_effects q es) e ∙ kept q es

pub quotas-tally : {S : Type 0} (w : World S) → (tally w).quotas ≡ w.quotas
unfolding tally
quotas-tally w = kept w.quotas w.effects

module _ {S : Type 0} (p : Ports S) (w : World S) where
  pub tally-emit : (e : Effect) → tally (emit w e) ≡ count_effect (tally w) e
  unfolding tally emit count_effects
  tally-emit e = refl

  pub tally-after_save : (inv : Invocation) (a : Answer S) → tally (after_save w inv a).1 ≡ tally w
  unfolding tally after_save count_effects count_effect
  tally-after_save inv (answered s) = refl
  tally-after_save inv (failed_with message) = refl

  pub tally-store_invocation : (inv : Invocation) → tally (store_invocation p w inv).1 ≡ tally w
  unfolding store_invocation
  tally-store_invocation inv = tally-after_save inv (p.save w.store inv)

  pub tally-record_telemetry :
      (session : Session) (inv : Invocation) (result : ToolRunResult)
      → tally (record_telemetry p w session inv result) ≡ tally w
  unfolding record_telemetry update_online_bandit tally emit count_effects count_effect
  tally-record_telemetry session inv result =
      elim (Bool-cases (is_executed inv.status && p.learned session inv.tool_name)) [
        | inl e ↦ rw e refl
        | inr e ↦ rw e refl
      ]

  pub tally-publish_completed :
      (session : Session) (inv : Invocation)
      → tally (publish_invocation_completed p w session inv)
        ≡ record (tally w) { completions = suc (tally w).completions }
  unfolding publish_invocation_completed tally emit count_effects count_effect count_event
      domain_event
  tally-publish_completed session inv = refl

  pub tally-denial :
      (session : Session) (a b c : Text) (m : Message)
      → tally (emit w (published (domain_event session (invocation_denied a b c m))))
        ≡ record (tally w) { denials = suc (tally w).denials }
  unfolding tally emit count_effects count_effect count_event domain_event
  tally-denial session a b c m = refl

  pub tally-started :
      (session : Session) (a b c : Text)
      → tally (emit w (published (domain_event session (invocation_started a b c))))
        ≡ record (tally w) { starts = suc (tally w).starts }
  unfolding tally emit count_effects count_effect count_event domain_event
  tally-started session a b c = refl

  pub tally-ran :
      (a b : Text) → tally (emit w (ran a b)) ≡ record (tally w) { runs = suc (tally w).runs }
  unfolding tally emit count_effects count_effect
  tally-ran a b = refl

  pub tally-audited :
      (session : Session) (inv : Invocation)
      → tally (emit w (audited (audit_event_from_invocation session inv)))
        ≡ record (tally w) { audits = suc (tally w).audits }
  unfolding tally emit count_effects count_effect
  tally-audited session inv = refl

  pub tally-measured : (inv : Invocation) → tally (emit w (measured inv)) ≡ tally w
  unfolding tally emit count_effects count_effect
  tally-measured inv = refl

  pub tally-quotas :
      (q : Limiter) → tally (record w { quotas = q }) ≡ record (tally w) { quotas = q }
  unfolding tally
  tally-quotas q = quotas_only q w.quotas w.effects

  pub tally-observe_denial :
      (session : Session) (inv : Invocation) (err : Error)
      → tally (observe_denial p w session inv err) ≡ tally w
  unfolding observe_denial tally emit count_effects count_effect
  tally-observe_denial session inv err = elim (Bool-cases p.kpi_enabled) [
    | inl e ↦ rw e refl
    | inr e ↦ rw e refl
  ]

  pub tally-observe_tool_kpis :
      (session_id tool_name : Text) (ok : Bool)
      → tally (observe_tool_kpis p w session_id tool_name ok) ≡ tally w
  unfolding observe_tool_kpis count_tool_call tally emit count_effects count_effect
  tally-observe_tool_kpis session_id tool_name ok = ground arith

-- A denial leaves one audit record and one denial event.
abbrev pub denied_tally : Tally → Tally
denied_tally t = record t { audits = suc t.audits; denials = suc t.denials }

-- An execution that ends leaves one audit record and one completion event.
abbrev pub completed_tally : Tally → Tally
completed_tally t = record t { audits = suc t.audits; completions = suc t.completions }

abbrev pub audited_tally : Tally → Tally
audited_tally t = record t { audits = suc t.audits }

module _ {S : Type 0} (p : Ports S) (call : Call) (session : Session) (w : World S) where
  pub tally-audit :
      (inv : Invocation)
      → tally
          (emit (store_invocation p w inv).1 (audited (audit_event_from_invocation session inv)))
        ≡ audited_tally (tally w)
  tally-audit inv =
      tally-emit p _ _
      ∙ ap (λ t. count_effect t (audited (audit_event_from_invocation session inv)))
          (tally-store_invocation p w inv)
      ∙ one (tally w) (audit_event_from_invocation session inv)
    where
      one : (t : Tally) (a : _) → count_effect t (audited a) ≡ audited_tally t
      one t a = unfold count_effect in refl

  pub tally-deny :
      (inv : Invocation) (err : Error)
      → tally (deny_invocation p call session w inv err).1 ≡ denied_tally (tally w)
  unfolding deny_invocation
  tally-deny inv err =
      simp (tally-observe_denial, tally-denial, tally-record_telemetry, tally-audit)

  pub tally-fail :
      (inv : Invocation) (err : Error) (result : ToolRunResult)
      → tally (fail_invocation p call session w inv err result).1 ≡ completed_tally (tally w)
  unfolding fail_invocation
  tally-fail inv err result = simp (tally-record_telemetry, tally-publish_completed, tally-audit)
