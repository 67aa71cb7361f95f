-- ===== src/Remediation/Runs.antt =====
-- What the agent does in a run: its calls in order, its feedback and its verdict.
pub mod Story
use underpass_runtime.Base.{
  String, ◌≡◌, refl, sym, ap, subst, subst₂, ◌∙◌, inl, inr, Bool, true, false, not, ◌&&◌, ◌||◌,
  Option, none, some, List, [], ◌∷◌, ◌++◌, is_empty, any, all, Bool-cases, arith, if◌then◌else◌,
}
use mathlib.Core.List.{append_assoc, append-nil}
use underpass_runtime.Text.{Text, text_eq, member}
use underpass_runtime.Domain.{Message}
use underpass_runtime.Service.Ports.{Answer, answered, failed_with}
use underpass_runtime.Remediation.Agent.{
  Playbook, Action, created, closed, asked, invoked, accepted, rejected, InvokeResult,
  RuntimeClient, AlertEvent, StepResult, Agent, succeeded_status, step_of, step_succeeded, Loop,
  run_one, run_all, chosen_tools, accept_first, give_feedback, outcome_of, Finished, finish_run,
  run_recommended, run_session, execute_playbook,
}

-- The log after a tool was invoked for each of a list, in order.
unfoldable pub with_invocations : Text → List Text → List Action → List Action
with_invocations session [] log = log
with_invocations session (tool ∷ tools) log =
    with_invocations session tools (invoked session tool ∷ log)

abbrev no_message : Option Message → Bool
no_message none = true
no_message (some m) = false

-- A step without an error, and with the status of success.
unfoldable pub is_ok : StepResult → Bool
is_ok s = no_message s.error && text_eq s.status succeeded_status

unfoldable pub tools_of : List StepResult → List Text
tools_of [] = []
tools_of (s ∷ steps) = s.tool ∷ tools_of steps

tools_of-append : (xs ys : List StepResult) → tools_of (xs ++ ys) ≡ tools_of xs ++ tools_of ys
unfolding tools_of
tools_of-append [] ys = refl
tools_of-append (x ∷ xs) ys = ap (λ t. x.tool ∷ t) (tools_of-append xs ys)

all-append :
    (p : StepResult → Bool) (xs ys : List StepResult) → all p (xs ++ ys) ≡ (all p xs && all p ys)
unfolding all
all-append p [] ys = refl
all-append p (x ∷ xs) ys = ground (arith, all-append p xs ys)

tool-step_of : (tool : Text) (r : InvokeResult × Option Message) → (step_of tool r).tool ≡ tool
unfolding step_of
tool-step_of tool (r, none) = refl
tool-step_of tool (r, some m) = refl

is_ok-step_of :
    (tool : Text) (r : InvokeResult × Option Message) → step_succeeded r ≡ is_ok (step_of tool r)
unfolding step_of is_ok step_succeeded
is_ok-step_of tool (r, none) = refl
is_ok-step_of tool (r, some m) = refl

module _ (client : RuntimeClient) (session : Text) (recommended : List Text) where
  -- What the loop has recorded of the tools that it has run.
  record Ran (base : List Action) (done : List Text) (l : Loop) : Type 0 where
    log : l.log ≡ with_invocations session done base
    tools : tools_of l.steps ≡ done
    all_ok : l.all_succeeded ≡ all is_ok l.steps
    used : l.used_recommended ≡ any (λ t. member t recommended) done

  with_invocations-append :
      (done : List Text) (tool : Text) (base : List Action)
      → with_invocations session (done ++ (tool ∷ [])) base
        ≡ invoked session tool ∷ with_invocations session done base
  unfolding with_invocations
  with_invocations-append [] tool base = refl
  with_invocations-append (t ∷ done) tool base =
      with_invocations-append done tool (invoked session t ∷ base)

  any-snoc :
      (p : Text → Bool) (done : List Text) (tool : Text)
      → any p (done ++ (tool ∷ [])) ≡ (any p done || p tool)
  unfolding any
  any-snoc p [] tool = ground arith
  any-snoc p (t ∷ done) tool = ground (arith, any-snoc p done tool)

  run_one-Ran :
      (base : List Action) (done : List Text) (l : Loop) (tool : Text)
      → Ran base done l
      → Ran base (done ++ (tool ∷ [])) (run_one client session recommended tool l)
  unfolding run_one tools_of all is_ok
  run_one-Ran base done l tool h = record {
    log = ap (λ t. invoked session tool ∷ t) h.log ∙ sym (with_invocations-append done tool base);
    tools =
        tools_of-append l.steps _
        ∙ rw (h.tools, tools_of, tool-step_of tool (client.invoke_tool l.log session tool)) refl;
    all_ok =
        rw
          (
            h.all_ok,
            all-append is_ok l.steps (step_of tool (client.invoke_tool l.log session tool) ∷ []),
          )
          (last_ok (all is_ok l.steps) _ _ (is_ok-step_of tool _));
    used = rw (h.used) (sym (any-snoc (λ t. member t recommended) done tool));
  }
    where
      last_ok : (a b c : Bool) → b ≡ c → (a && b) ≡ (a && (c && true))
      last_ok a b c e = ground arith

  run_all-Ran :
      (base : List Action) (done rest : List Text) (l : Loop)
      → Ran base done l
      → Ran base (done ++ rest) (run_all client session recommended rest l)
  unfolding run_all
  run_all-Ran base done [] l h = subst (λ t. Ran base t l) (sym (append-nil done)) h
  run_all-Ran base done (tool ∷ rest) l h =
      subst (λ t. Ran base t (run_all client session recommended (tool ∷ rest) l))
        (append_assoc done (tool ∷ []) rest)
        (run_all-Ran base (done ++ (tool ∷ [])) rest _ (run_one-Ran base done l tool h))

-- Whether the run says something of the recommendation.
unfoldable pub has_feedback : List Text → Text → List Text → Bool
has_feedback recommended rec_id tools =
    any (λ t. member t recommended) tools && not (is_empty rec_id)

-- The feedback of a run that invoked `tools`: none; acceptance, in the name of the first tool; or
-- rejection.
pub data Feedback (session rec_id : Text) (recommended tools : List Text) (ok : Bool)
    (before after : List Action) : Type 0 where
  silent :
      has_feedback recommended rec_id tools ≡ false
      → after ≡ before
      → Feedback session rec_id recommended tools ok before after
  praise :
      (tool : Text) (more : List Text)
      → has_feedback recommended rec_id tools ≡ true
      → ok ≡ true
      → tools ≡ tool ∷ more
      → after ≡ accepted session rec_id tool ∷ before
      → Feedback session rec_id recommended tools ok before after
  complaint :
      has_feedback recommended rec_id tools ≡ true
      → ok ≡ false
      → after ≡ rejected session rec_id "remediation partially failed" ∷ before
      → Feedback session rec_id recommended tools ok before after

first_accepted :
    (session rec_id : Text) (recommended tools : List Text) (log : List Action)
    → has_feedback recommended rec_id tools ≡ true
    → (after : List Action) × (accept_first session rec_id tools log ≡ some after)
      × Feedback session rec_id recommended tools true log after
unfolding accept_first has_feedback any
first_accepted session rec_id recommended [] log h = absurd (cc)
first_accepted session rec_id recommended (t ∷ ts) log h = (_, refl, praise t ts h refl refl refl)

-- The agent does not index an empty list of tools.
give_feedback-Feedback :
    (session rec_id : Text) (recommended tools : List Text) (l : Loop)
    → l.used_recommended ≡ any (λ t. member t recommended) tools
    → (after : List Action) × (give_feedback session rec_id tools l ≡ some after)
      × Feedback session rec_id recommended tools l.all_succeeded l.log after
unfolding give_feedback
give_feedback-Feedback session rec_id recommended tools l u =
    elim (Bool-cases (l.used_recommended && not (is_empty rec_id))) [
      | inl f ↦ elim (Bool-cases l.all_succeeded) [
        | inl ok ↦ rw (f, ok) (first_accepted session rec_id recommended tools l.log (same true f))
        | inr bad ↦ rw (f, bad) (_, refl, complaint (same true f) refl refl)
      ]
      | inr f ↦ rw f (_, refl, silent (same false f) refl)
    ]
  where
    same :
        (b : Bool)
        → (l.used_recommended && not (is_empty rec_id)) ≡ b
        → has_feedback recommended rec_id tools ≡ b
    same b h = unfold has_feedback in (ap (λ c. c && not (is_empty rec_id)) (sym u) ∙ h)
