-- ===== src/Remediation/Runs/Story.antt =====
-- internal/remediation/agent.go: the ways that the run of a playbook can go.
use underpass_runtime.Base.{
  String, ◌≡◌, refl, ap, subst₂, inl, inr, true, false, none, some, List, [], ◌∷◌, is_empty, any,
  all, Bool-cases, if◌then◌else◌,
}
use underpass_runtime.Text.{Text}
use underpass_runtime.Domain.{Message}
use underpass_runtime.Service.Ports.{Answer, answered, failed_with}
use underpass_runtime.Remediation.Agent.{
  Playbook, Action, created, closed, asked, AlertEvent, StepResult, Agent, Loop, run_all,
  chosen_tools, give_feedback, outcome_of, Finished, finish_run, run_recommended, run_session,
  execute_playbook,
}
use underpass_runtime.Remediation.Runs.{
  with_invocations, is_ok, tools_of, Ran, run_all-Ran, Feedback, give_feedback-Feedback,
}

-- The three ways of a run, with its log. In the last `tools` are those of the playbook or, if it has
-- none, the first recommended one.
pub data RunStory (a : Agent) (alert : AlertEvent) (pb : Playbook) (log : List Action)
    (f : Finished) : Type 0 where
  no_session :
      (m : Message)
      → f.error ≡ some m
      → f.result.outcome ≡ "failed"
      → f.result.steps ≡ []
      → f.log ≡ created a.tenant_id a.actor_id ∷ log
      → RunStory a alert pb log f
  no_advice :
      (session : Text) (m : Message)
      → f.error ≡ some m
      → f.result.outcome ≡ "failed"
      → f.result.steps ≡ []
      → f.log
        ≡ closed session
          ∷ (asked session pb.diagnose_hint 5 ∷ (created a.tenant_id a.actor_id ∷ log))
      → RunStory a alert pb log f
  executed :
      (session rec_id : Text) (recommended : List Text) (after : List Action)
      → f.error ≡ none
      → tools_of f.result.steps ≡ chosen_tools pb recommended
      → f.result.outcome ≡ (if all is_ok f.result.steps then "success" else "partial")
      → Feedback session rec_id recommended
          (chosen_tools pb recommended)
          (all is_ok f.result.steps)
          (with_invocations session
            (chosen_tools pb recommended)
            (asked session pb.diagnose_hint 5 ∷ (created a.tenant_id a.actor_id ∷ log)))
          after
      → f.log ≡ closed session ∷ after
      → RunStory a alert pb log f

not_all-outcome :
    (steps : List StepResult)
    → all is_ok steps ≡ false
    → ◌≡◌ {A = String} (if is_empty steps then "failed" else "partial") "partial"
unfolding all
not_all-outcome [] h = absurd (cc)
not_all-outcome (s ∷ steps) h = refl

outcome_of-all :
    (l : Loop)
    → l.all_succeeded ≡ all is_ok l.steps
    → outcome_of l ≡ (if all is_ok l.steps then "success" else "partial")
unfolding outcome_of
outcome_of-all l e = elim (Bool-cases (all is_ok l.steps)) [
  | inl h ↦ rw (e, h) refl
  | inr h ↦ rw (e, h) (not_all-outcome l.steps h)
]

run_recommended-Story :
    (a : Agent) (alert : AlertEvent) (pb : Playbook) (session : Text) (log : List Action)
    (r : Answer (List Text × Text))
    → (f : Finished) × (run_recommended a alert pb session
          (asked session pb.diagnose_hint 5 ∷ (created a.tenant_id a.actor_id ∷ log))
          r
        ≡ some f)
      × RunStory a alert pb log f
unfolding run_recommended finish_run
run_recommended-Story a alert pb session log (failed_with m) =
    (_, refl, no_advice session _ refl refl refl refl)
run_recommended-Story a alert pb session log (answered (recommended, rec_id)) =
    let (after, e, fb) = give_feedback-Feedback session rec_id recommended tools l (ran.used) in
    (
      _,
      ap (finish_run alert pb session l) e,
      executed session rec_id recommended after refl ran.tools (outcome_of-all l ran.all_ok)
          (subst₂ (λ ok log. Feedback session rec_id recommended tools ok log after) ran.all_ok
            ran.log fb)
          refl,
    )
  where
    tools : List Text
    tools = chosen_tools pb recommended

    base : List Action
    base = asked session pb.diagnose_hint 5 ∷ (created a.tenant_id a.actor_id ∷ log)

    l0 : Loop
    l0 = record { log = base; steps = []; all_succeeded = true; used_recommended = false }

    l : Loop
    l = run_all a.client session recommended tools l0

    ran : Ran a.client session recommended base tools l
    ran = run_all-Ran a.client session recommended base [] tools l0 (record {
      log = unfold with_invocations in refl;
      tools = unfold tools_of in refl;
      all_ok = unfold all in refl;
      used = unfold any in refl;
    })

run_session-Story :
    (a : Agent) (alert : AlertEvent) (pb : Playbook) (log : List Action) (r : Answer Text)
    → (f : Finished) × (run_session a alert pb (created a.tenant_id a.actor_id ∷ log) r ≡ some f)
      × RunStory a alert pb log f
unfolding run_session
run_session-Story a alert pb log (failed_with m) = (_, refl, no_session _ refl refl refl refl)
run_session-Story a alert pb log (answered session) = run_recommended-Story a alert pb session log _

-- The run of a playbook never panics, and goes one of three ways: without a session, nothing else is
-- called; without a recommendation, the session is closed; or each of the chosen tools is invoked
-- once, in order, whatever the ones before came to, the feedback fits what they came to, and the
-- session is closed last. The verdict of the last way is success exactly if every step is, and
-- partial otherwise.
pub execute_playbook-Story :
    (a : Agent) (alert : AlertEvent) (pb : Playbook) (log : List Action)
    → (f : Finished) × (execute_playbook a alert pb log ≡ some f) × RunStory a alert pb log f
unfolding execute_playbook
execute_playbook-Story a alert pb log = run_session-Story a alert pb log _

-- The verdict on a playbook without tools, where none is recommended, is success, if the session was
-- created and a list of recommendations came back.
pub empty_run_succeeds :
    (a : Agent) (alert : AlertEvent) (pb : Playbook) (session rec_id : Text) (log : List Action)
    → pb.tools ≡ []
    → (f : Finished) × (run_recommended a alert pb session log (answered ([], rec_id)) ≡ some f)
      × (f.result.steps ≡ [])
      × (f.result.outcome ≡ "success")
unfolding run_recommended chosen_tools run_all finish_run give_feedback outcome_of
empty_run_succeeds a alert pb session rec_id log e = rw e (_, refl, refl, refl)
