-- ===== src/Service/Guarantees.antt =====
-- What a caller of InvokeTool can rely on: the slots, the permission for a run, and the error.
use underpass_runtime.Base.{suc, ◌≡◌, sym, ap, subst, ◌∙◌, ◌⊎◌, inl, inr, none, some}
use underpass_runtime.Domain.{Session, Capability, Invocation, succeeded}
use underpass_runtime.Service.Errors.{ServiceError}
use underpass_runtime.Service.Quota.{Limiter, in_flight}
use underpass_runtime.Service.Quota.Balance.{SameSlots}
use underpass_runtime.Service.Ports.{Ports, Call, World}
use underpass_runtime.Service.Invoke.{Outcome}
use underpass_runtime.Service.Complete.{invoke_tool}
use underpass_runtime.Service.Tally.{Tally, tally, completed_tally, quotas-tally}
use underpass_runtime.Service.Endings.{Ended, denied_end, failed_end, succeeded_end, unsaved_end}
use underpass_runtime.Service.Endings.Runs.{ran_tally}
use underpass_runtime.Service.Story.{IsPermitted, Refused, begun}
use underpass_runtime.Service.Course.{
  IsNamed, Story, answered_early, unstored, turned_away, executed, invoke_tool-Story,
}

module _ {S : Type 0} {call : Call} {i : Invocation} {t : Tally} {o : Outcome S} where
  Ended-quotas : Ended call i t o → (tally o.world).quotas ≡ t.quotas
  Ended-quotas (denied_end inv err p q k x y z) = ap (λ (u : Tally). u.quotas) z
  Ended-quotas (failed_end inv err p q k x z) = ap (λ (u : Tally). u.quotas) z
  Ended-quotas (succeeded_end inv p q k x z) = ap (λ (u : Tally). u.quotas) z
  Ended-quotas (unsaved_end inv err p q k x y z) = ap (λ (u : Tally). u.quotas) z

  Ended-runs : Ended call i t o → (tally o.world).runs ≡ t.runs
  Ended-runs (denied_end inv err p q k x y z) = ap (λ (u : Tally). u.runs) z
  Ended-runs (failed_end inv err p q k x z) = ap (λ (u : Tally). u.runs) z
  Ended-runs (succeeded_end inv p q k x z) = ap (λ (u : Tally). u.runs) z
  Ended-runs (unsaved_end inv err p q k x y z) = ap (λ (u : Tally). u.runs) z

Refused-quotas :
    (t t' : Tally) (inv : Invocation) (err : ServiceError)
    → Refused t inv err t'
    → t'.quotas ≡ t.quotas
Refused-quotas t t' inv err (inl (a, b, e)) = ap (λ (u : Tally). u.quotas) e
Refused-quotas t t' inv err (inr (a, b, e)) = ap (λ (u : Tally). u.quotas) e

Refused-runs :
    (t t' : Tally) (inv : Invocation) (err : ServiceError) → Refused t inv err t' → t'.runs ≡ t.runs
Refused-runs t t' inv err (inl (a, b, e)) = ap (λ (u : Tally). u.runs) e
Refused-runs t t' inv err (inr (a, b, e)) = ap (λ (u : Tally). u.runs) e

module _ {S : Type 0} (w v : World S) (q : Limiter) where
  in_quotas : (tally v).quotas ≡ q → SameSlots q w.quotas → SameSlots v.quotas w.quotas
  in_quotas e = subst (λ l. SameSlots l w.quotas) (sym e ∙ quotas-tally v)

-- The tool was run, and the run is on record: one start, one run, one audit, one completion.
pub record IsRecorded (t t' : Tally) : Type 0 where
  pub starts : t'.starts ≡ suc t.starts
  pub runs : t'.runs ≡ suc t.runs
  pub audits : t'.audits ≡ suc t.audits
  pub completions : t'.completions ≡ suc t.completions
  pub denials : t'.denials ≡ t.denials

IsRecorded-run :
    (t t' : Tally) (q : Limiter) → t' ≡ completed_tally (ran_tally (begun t q)) → IsRecorded t t'
IsRecorded-run t t' q e = record {
  starts = ap (λ (u : Tally). u.starts) e;
  runs = ap (λ (u : Tally). u.runs) e;
  audits = ap (λ (u : Tally). u.audits) e;
  completions = ap (λ (u : Tally). u.completions) e;
  denials = ap (λ (u : Tally). u.denials) e;
}

module _ {S : Type 0} {p : Ports S} {call : Call} {w : World S} {o : Outcome S} where
  Story-SameSlots : Story p call w o → SameSlots o.world.quotas w.quotas
  Story-SameSlots (answered_early e x) = λ k. ap (λ (u : World S). in_flight u.quotas k) e
  Story-SameSlots (unstored inv err e a b c) = λ k. ap (λ (u : World S). in_flight u.quotas k) e
  Story-SameSlots (turned_away c q inv err same a b k r) =
      in_quotas w o.world q (Refused-quotas _ _ inv err r) same
  Story-SameSlots (executed s c q same n k e) = in_quotas w o.world q (Ended-quotas e) same

  Story-runs :
      Story p call w o
      → ((tally o.world).runs ≡ (tally w).runs)
        ⊎ (((tally o.world).runs ≡ suc (tally w).runs)
            × ((s : Session) × (c : Capability) × IsNamed p call s c × IsPermitted p call s c))
  Story-runs (answered_early e x) = inl (ap (λ (u : World S). (tally u).runs) e)
  Story-runs (unstored inv err e a b c) = inl (ap (λ (u : World S). (tally u).runs) e)
  Story-runs (turned_away c q inv err same a b k r) = inl (Refused-runs _ _ inv err r)
  Story-runs (executed s c q same n k e) = inr (Ended-runs e, (s, c, n, k))

no_error :
    {S : Type 0} {A : Type 0} (o : Outcome S) (err : ServiceError)
    → o.error ≡ some err
    → o.error ≡ none
    → A
no_error o err some_err no_err = cc

-- What a call without an error did.
abbrev pub Succeeds : {S : Type 0} → World S → Outcome S → Type 0
Succeeds w o =
    (inv : Invocation) × (o.invocation ≡ some inv)
    × ((o.world ≡ w) ⊎ ((inv.status ≡ succeeded) × IsRecorded (tally w) (tally o.world)))

module _ {S : Type 0} {call : Call} (w : World S) (o : Outcome S) where
  Ended-Succeeds :
      {i : Invocation} (q : Limiter)
      → Ended call i (ran_tally (begun (tally w) q)) o
      → o.error ≡ none
      → Succeeds w o
  Ended-Succeeds q (denied_end inv err a b k x y z) e = no_error o err b e
  Ended-Succeeds q (failed_end inv err a b k x z) e = no_error o err b e
  Ended-Succeeds q (succeeded_end inv a b k x z) e =
      (inv, a, inr (x, IsRecorded-run (tally w) (tally o.world) q z))
  Ended-Succeeds q (unsaved_end inv err a b k x y z) e = no_error o err b e

module _ {S : Type 0} {p : Ports S} {call : Call} (w : World S) (o : Outcome S) where
  Story-Succeeds : Story p call w o → o.error ≡ none → Succeeds w o
  Story-Succeeds (answered_early same (inl (a, (err, b)))) e = no_error o err b e
  Story-Succeeds (answered_early same (inr ((inv, a), b))) e = (inv, a, inl same)
  Story-Succeeds (unstored inv err same a b c) e = no_error o err c e
  Story-Succeeds (turned_away c q inv err same a b k r) e = no_error o err b e
  Story-Succeeds (executed s c q same n k ended) e = Ended-Succeeds w o q ended e

module _ {S : Type 0} (p : Ports S) (call : Call) (w : World S) where
  -- Whatever happens in an invocation, the number of slots that each session holds is the same
  -- after it: none leaks, and none is given back twice.
  pub invoke_tool-SameSlots : SameSlots (invoke_tool p call w).world.quotas w.quotas
  invoke_tool-SameSlots = Story-SameSlots (invoke_tool-Story p call w)

  -- An invocation runs a tool at most once, and only if the runtime check passed and the
  -- authoriser answered a decision that allows it, for the session and the tool the call names.
  pub invoke_tool-runs :
      ((tally (invoke_tool p call w).world).runs ≡ (tally w).runs)
      ⊎ (((tally (invoke_tool p call w).world).runs ≡ suc (tally w).runs)
          × ((s : Session) × (c : Capability) × IsNamed p call s c × IsPermitted p call s c))
  invoke_tool-runs = Story-runs (invoke_tool-Story p call w)

  -- A call that returns no error returns an invocation: one that was found, with nothing changed,
  -- or one that succeeded, whose start, run, audit record and completion each happened exactly
  -- once, with no denial.
  pub invoke_tool-Succeeds : (invoke_tool p call w).error ≡ none → Succeeds w (invoke_tool p call w)
  invoke_tool-Succeeds = Story-Succeeds w _ (invoke_tool-Story p call w)
