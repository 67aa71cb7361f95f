-- ===== src/Grpc/Access.antt =====
-- internal/grpcapi/server.go: what the handlers do for an authenticated principal.
use underpass_runtime.Base.{
  suc, ◌≡◌, refl, sym, ap, ◌∙◌, ◌⊎◌, inl, inr, Option, none, some, List, subst, arith,
}
use underpass_runtime.Text.{Text, trim_space}
use underpass_runtime.Domain.{Session, Principal, Capability, Invocation, Artifact, LogLine}
use underpass_runtime.Service.Errors.{ServiceError}
use underpass_runtime.Service.Ports.{answered, Ports, Call, World}
use underpass_runtime.Service.Invoke.{Outcome}
use underpass_runtime.Service.Complete
use underpass_runtime.Service.Tally.{tally}
use underpass_runtime.Service.Story.{IsPermitted}
use underpass_runtime.Service.Course.{IsNamed}
use underpass_runtime.Service.Guarantees.{invoke_tool-runs}
use underpass_runtime.Service.Access.{Owns, IsSame, validate_session_access-Owns}
use underpass_runtime.Service.Sources.{IsView}
use underpass_runtime.Service.Given.{IsLogOf, AreArtifactsOf}
use underpass_runtime.Grpc.Auth.{replied, Status, Context}
use underpass_runtime.Grpc.Server

module _ {S : Type 0} (p : Ports S) (ctx : Context) (principal : Principal)
    (authenticated : ctx.principal ≡ some principal) where
  as_status-none : (e : Option ServiceError) → Server.as_status e ≡ none → e ≡ none
  unfolding Server.as_status
  as_status-none none h = refl
  as_status-none (some err) h = absurd (cc)

  session_passes :
      (id : Text) → Server.validate_session_auth p ctx id ≡ none → Owns p principal (trim_space id)
  unfolding Server.validate_session_auth
  session_passes id h =
      validate_session_access-Owns p id principal (as_status-none _ (rw authenticated at h))

  -- The session is at hand for the id as the call writes it, and there it belongs to the principal.
  owned_session :
      (id : Text) (s : Session)
      → trim_space id ≡ id
      → Owns p principal (trim_space id)
      → p.get_session id ≡ answered (some s)
      → IsSame s.principal principal
  owned_session id s trimmed (s', found, same) e =
      let g : p.get_session id ≡ answered (some s') = ap p.get_session (sym trimmed) ∙ found in
      let one : s' ≡ s = cc in subst (λ (x : Session). IsSame x.principal principal) one same

reply_invoked-world : {S : Type 0} (o : Outcome S) → (Server.reply_invoked o).1 ≡ o.world
unfolding Server.reply_invoked
reply_invoked-world o = ground arith

module _ {S : Type 0} (p : Ports S) (ctx : Context) (call : Call) (w : World S) where
  -- The call ran its tool once, for a session of the principal, with permission.
  abbrev pub RunsFor : Principal → World S → Type 0
  RunsFor principal w' =
      ((tally w').runs ≡ suc (tally w).runs)
      × ((s : Session) × (c : Capability) × IsNamed p call s c
          × IsPermitted p call s c
          × IsSame s.principal principal)

  checked_runs :
      (principal : Principal) (checked : Option Status)
      → ctx.principal ≡ some principal
      → trim_space call.session_id ≡ call.session_id
      → Server.validate_session_auth p ctx call.session_id ≡ checked
      → ((tally
            (Server.checked checked w
              (Server.reply_invoked (Complete.invoke_tool p call w))).1).runs
          ≡ (tally w).runs)
        ⊎ RunsFor principal
            (Server.checked checked w (Server.reply_invoked (Complete.invoke_tool p call w))).1
  unfolding Server.checked
  checked_runs principal (some status) auth trimmed e = inl refl
  checked_runs principal none auth trimmed e =
      rw (reply_invoked-world (Complete.invoke_tool p call w)) (elim (invoke_tool-runs p call w) [
        | inl quiet ↦ inl quiet
        | inr (ran, (s, c, n, k)) ↦ inr (
          ran,
          (
            s,
            c,
            n,
            k,
            owned_session p ctx principal auth call.session_id s trimmed
                (session_passes p ctx principal auth call.session_id e) n.session,
          ),
        )
      ])

  -- For an authenticated principal and a session id without space around it, a call of InvokeTool
  -- runs a tool at most once, and only one that the runtime and the authoriser permit, in a session
  -- that has the principal's tenant and actor.
  pub invoke_tool-RunsFor :
      (principal : Principal)
      → ctx.principal ≡ some principal
      → trim_space call.session_id ≡ call.session_id
      → ((tally (Server.invoke_tool p ctx call w).1).runs ≡ (tally w).runs)
        ⊎ RunsFor principal (Server.invoke_tool p ctx call w).1
  unfolding Server.invoke_tool
  invoke_tool-RunsFor principal auth trimmed = checked_runs principal _ auth trimmed refl

module _ {S : Type 0} (p : Ports S) (ctx : Context) (id : Text) (w : World S)
    (principal : Principal) where
  -- The invocation is that stored under the id, with the output and the artifacts that belong to it,
  -- and the session of the stored one belongs to the principal.
  pub record IsOwnView (inv : Invocation) : Type 0 where
    pub stored : Invocation
    pub loaded : p.load w.store id ≡ answered (some stored)
    pub view : IsView p stored inv
    pub owned : Owns p principal (trim_space stored.session_id)

  -- A handler gives an invocation, its logs, or its artifacts.
  abbrev pub Gives : Type 0
  Gives =
      ((inv : Invocation) × ((Server.get_invocation p ctx id w).0 ≡ replied inv))
      ⊎ (((logs : List LogLine) × ((Server.get_invocation_logs p ctx id w).0 ≡ replied logs))
          ⊎ ((artifacts : List Artifact) × ((Server.get_invocation_artifacts p ctx id w).0
                ≡ replied artifacts)))

  -- What is given is the principal's own invocation, its logs, or its artifacts.
  abbrev pub IsOwn : Gives → Type 0
  IsOwn (inl (inv, h)) = IsOwnView inv
  IsOwn (inr (inl (logs, h))) = (inv : Invocation) × IsOwnView inv × IsLogOf p inv logs
  IsOwn (inr (inr (artifacts, h))) =
      (inv : Invocation) × IsOwnView inv × AreArtifactsOf p id inv artifacts
