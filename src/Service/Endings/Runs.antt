-- ===== src/Service/Endings/Runs.antt =====
-- From the end of a tool to the end of its invocation: the result is checked and kept, or refused.
use underpass_runtime.Base.{suc, String, ◌≡◌, refl, subst, ◌∙◌, true, Option, none, some}
use underpass_runtime.Domain.{Session, Capability, plain, Invocation, running, Error}
use underpass_runtime.Service.Quota.{allow_run_result}
use underpass_runtime.Service.Ports.{Answer, answered, failed_with, Ports, Call, ran, World}
use underpass_runtime.Service.Reports.{emit}
use underpass_runtime.Service.Invoke.{Outcome, Saved, deny_error}
use underpass_runtime.Service.Complete.{
  Run, with_artifacts, complete_tool_invocation, with_result, deny_result, after_run, run_tool,
}
use underpass_runtime.Service.Tally.{Tally, tally, tally-ran}
use underpass_runtime.Service.Endings.{
  SameRequest, IsClosed, Ended, denied_end, failed_end, succeeded_end, unsaved_end, finish_denied,
  check_artifacts_end, complete_error_end,
}

-- An end is one of the request that the invocation was made for.
same_trans : {a b c : Invocation} → SameRequest a b → SameRequest b c → SameRequest a c
same_trans h k = record {
  id = h.id ∙ k.id;
  session_id = h.session_id ∙ k.session_id;
  tool_name = h.tool_name ∙ k.tool_name;
  correlation_id = h.correlation_id ∙ k.correlation_id;
  started_at = h.started_at ∙ k.started_at;
}

IsClosed-trans :
    {call : Call} {a b c : Invocation} → SameRequest b c → IsClosed call b a → IsClosed call c a
IsClosed-trans e k = record { same = same_trans k.same e; at_end = k.at_end; lasted = k.lasted }

Ended-for :
    {S : Type 0} {call : Call} {b c : Invocation} {t : Tally} {o : Outcome S}
    → SameRequest b c
    → Ended call b t o
    → Ended call c t o
Ended-for s (denied_end inv err p q k x y z) = denied_end inv err p q (IsClosed-trans s k) x y z
Ended-for s (failed_end inv err p q k x z) = failed_end inv err p q (IsClosed-trans s k) x z
Ended-for s (succeeded_end inv p q k x z) = succeeded_end inv p q (IsClosed-trans s k) x z
Ended-for s (unsaved_end inv err p q k x y z) = unsaved_end inv err p q (IsClosed-trans s k) x y z

module _ {S : Type 0} (r : Run S) (w : World S) (inv : Invocation)
    (starts : inv.status ≡ running) where
  artifacts_same : (a : Answer Saved) → SameRequest (with_artifacts inv a) inv
  unfolding with_artifacts
  artifacts_same (failed_with m) = record {
    id = refl;
    session_id = refl;
    tool_name = refl;
    correlation_id = refl;
    started_at = refl;
  }
  artifacts_same (answered saved) = record {
    id = refl;
    session_id = refl;
    tool_name = refl;
    correlation_id = refl;
    started_at = refl;
  }

  artifacts_status : (a : Answer Saved) → (with_artifacts inv a).status ≡ running
  unfolding with_artifacts
  artifacts_status (failed_with m) = starts
  artifacts_status (answered saved) = starts

  complete_end :
      (run_err : Option Error)
      → Ended r.call inv (tally w) (complete_tool_invocation r w inv run_err)
  unfolding complete_tool_invocation
  complete_end none =
      Ended-for (artifacts_same _) (check_artifacts_end r w _ (artifacts_status _) _)
  complete_end (some err) =
      Ended-for (artifacts_same _) (complete_error_end r w _ (artifacts_status _) err)

module _ {S : Type 0} (r : Run S) (w : World S) (inv : Invocation)
    (starts : inv.status ≡ running) where
  result_same : SameRequest (with_result inv r.result) inv
  unfolding with_result
  result_same = record {
    id = refl;
    session_id = refl;
    tool_name = refl;
    correlation_id = refl;
    started_at = refl;
  }

  result_status : (with_result inv r.result).status ≡ running
  unfolding with_result
  result_status = starts

  checked_end :
      (verdict : Option String)
      → Ended r.call inv (tally w) (
          let o : Outcome S = elim verdict [
            | some reason ↦ deny_result r w inv reason
            | none ↦ complete_tool_invocation r w (with_result inv r.result) none
          ] in
          o)
  unfolding deny_result
  checked_end none = Ended-for result_same (complete_end r w _ result_status none)
  checked_end (some reason) =
      finish_denied r.ports r.call r.session w inv (deny_error (plain reason) true) _ _

  after_run_end : (run_err : Option Error) → Ended r.call inv (tally w) (after_run r w inv run_err)
  unfolding after_run
  after_run_end (some err) = Ended-for result_same (complete_end r w _ result_status (some err))
  after_run_end none = checked_end (allow_run_result r.ports.marshal w.quotas r.result)

-- The tally once the tool has run.
abbrev pub ran_tally : Tally → Tally
ran_tally t = record t { runs = suc t.runs }

-- Whatever the tool and the collaborators do, a run ends in one of the four ways.
pub run_tool-Ended :
    {S : Type 0} (p : Ports S) (call : Call) (session : Session) (capability : Capability)
    (w : World S) (inv : Invocation)
    → inv.status ≡ running
    → Ended call inv (ran_tally (tally w)) (run_tool p call session capability w inv)
unfolding run_tool
run_tool-Ended p call session capability w inv starts =
    subst (λ t. Ended call inv t (run_tool p call session capability w inv))
      (tally-ran p w session.id capability.name)
      (after_run_end _ (emit w (ran session.id capability.name)) inv starts _)
