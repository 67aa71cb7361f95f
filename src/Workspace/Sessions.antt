-- ===== src/Workspace/Sessions.antt =====
-- internal/adapters/workspace/local_manager.go: the sessions a manager holds, over any calls.
use underpass_runtime.Base.{
  ℕ, ◌≤◌, ◌≡◌, refl, sym, ap, ◌∙◌, subst, inl, inr, false, Option, none, some, List, [], ◌∷◌, ltb,
  is_empty, ◌||◌, Bool-cases, arith, if◌then◌else◌,
}
use underpass_runtime.Text.{Text, codes, text_eq}
use underpass_runtime.Text.Laws.{eq_of_text_eq}
use underpass_runtime.TextMap.{get, put, delete, get-put, get-delete}
use underpass_runtime.Domain.{Session, Message}
use underpass_runtime.Service.Ports.{answered, CreateSessionRequest}
use underpass_runtime.Workspace.Local.{
  Files, LocalManager, new_local_manager, workspace_root, session_id_or, session_in, add_session,
  fill_session, make_session, create_session, remove_root, close_session, live_session, get_session,
}

-- Each session is held under its own id, and its directory is that of its tenant and its id.
pub record IsConsistent (m : LocalManager) : Type 0 where
  pub rooted :
      (id : Text) (s : Session)
      → get m.session id ≡ some s
      → (s.id ≡ id) × (get m.roots id ≡ some (workspace_root m s.principal.tenant_id id))

some_inj : {A : Type 0} {a b : A} → some a ≡ some b → a ≡ b
some_inj h = cc

answered_inj : {A : Type 0} {a b : A} → answered a ≡ answered b → a ≡ b
answered_inj h = cc

new_local_manager-IsConsistent : (base_path : Text) → IsConsistent (new_local_manager base_path)
unfolding new_local_manager get
new_local_manager-IsConsistent base_path = record { rooted = λ id s h. absurd (cc) }

add_session-IsConsistent :
    (m : LocalManager) (s : Session)
    → IsConsistent m
    → IsConsistent (add_session m s (workspace_root m s.principal.tenant_id s.id)).1
unfolding add_session workspace_root
add_session-IsConsistent m s v = record { rooted = rooted }
  where
    rooted :
        (id : Text) (t : Session)
        → get (put m.session s.id s) id ≡ some t
        → (t.id ≡ id)
          × (get (put m.roots s.id (workspace_root m s.principal.tenant_id s.id)) id
              ≡ some (workspace_root m t.principal.tenant_id id))
    rooted id t h = elim (Bool-cases (text_eq s.id id)) [
      | inl same ↦
          let e : s.id ≡ id = eq_of_text_eq s.id id same in
          let one : s ≡ t = some_inj (rw (get-put m.session s.id id s, same) at h) in
          (
            ap (λ (u : Session). u.id) (sym one) ∙ e,
            rw (get-put m.roots s.id id (workspace_root m s.principal.tenant_id s.id), same)
                (subst
                  (λ (i : Text).
                    some (workspace_root m s.principal.tenant_id s.id)
                    ≡ some (workspace_root m t.principal.tenant_id i))
                  e (ap (λ (u : Session). some (workspace_root m u.principal.tenant_id s.id)) one)),
          )
      | inr other ↦
          let (a, b) = v.rooted id t (rw (get-put m.session s.id id s, other) at h) in
          (a, rw (get-put m.roots s.id id (workspace_root m s.principal.tenant_id s.id), other) b)
    ]

delete-IsConsistent :
    (m : LocalManager) (id : Text)
    → IsConsistent m
    → IsConsistent (record m { session = delete m.session id; roots = delete m.roots id })
unfolding workspace_root
delete-IsConsistent m id v = record {
  rooted = λ j s h. elim (Bool-cases (text_eq id j)) [
    | inl same ↦ absurd (let g = rw (get-delete m.session id j, same) at h in cc)
    | inr other ↦
        let (a, b) = v.rooted j s (rw (get-delete m.session id j, other) at h) in
        (a, rw (get-delete m.roots id j, other) b)
  ];
}

-- A removal is only noted.
remove_root-IsConsistent :
    (files : Files) (m : LocalManager) (root : Option Text)
    → IsConsistent m
    → IsConsistent (remove_root files m root).1
unfolding remove_root workspace_root
remove_root-IsConsistent files m none v = v
remove_root-IsConsistent files m (some root) v =
    elim (Bool-cases (is_empty root || text_eq root (codes "/"))) [
      | inl e ↦ rw e v
      | inr e ↦ rw e (record { rooted = v.rooted })
    ]

-- The calls that a manager is given; `now` is the clock at the call.
pub data ManagerCall : Type 0 where
  creates : CreateSessionRequest → Text → ℕ → ManagerCall
  gets : Text → ℕ → ManagerCall
  closes : Text → ManagerCall

unfoldable pub after_call : Files → LocalManager → ManagerCall → LocalManager
after_call files m (creates req new_id now) = (create_session files m req new_id now).1
after_call files m (gets id now) = (get_session files m id now).1
after_call files m (closes id) = (close_session files m id).1

unfoldable pub after_calls : Files → LocalManager → List ManagerCall → LocalManager
after_calls files m [] = m
after_calls files m (call ∷ calls) = after_calls files (after_call files m call) calls

module _ (files : Files) where
  close_session-IsConsistent :
      (m : LocalManager) (id : Text) → IsConsistent m → IsConsistent (close_session files m id).1
  unfolding close_session
  close_session-IsConsistent m id v =
      remove_root-IsConsistent files _ (get m.roots id) (delete-IsConsistent m id v)

  live_session-IsConsistent :
      (m : LocalManager) (id : Text) (now : ℕ) (held : Option Session)
      → IsConsistent m
      → IsConsistent (live_session files m id now held).1
  unfolding live_session
  live_session-IsConsistent m id now none v = v
  live_session-IsConsistent m id now (some s) v = elim (Bool-cases (ltb s.expires_at now)) [
    | inl over ↦ rw over (close_session-IsConsistent m id v)
    | inr live ↦ rw live v
  ]

  fill_session-IsConsistent :
      (m : LocalManager) (req : CreateSessionRequest) (s : Session) (failure : Option Message)
      → IsConsistent m
      → IsConsistent (fill_session m req s (workspace_root m s.principal.tenant_id s.id) failure).1
  unfolding fill_session
  fill_session-IsConsistent m req s none v = add_session-IsConsistent m s v
  fill_session-IsConsistent m req s (some message) v = v

  make_session-IsConsistent :
      (m : LocalManager) (req : CreateSessionRequest) (s : Session) (failure : Option Message)
      → IsConsistent m
      → IsConsistent
          (make_session files m req s (workspace_root m s.principal.tenant_id s.id) failure).1
  unfolding make_session
  make_session-IsConsistent m req s none v = fill_session-IsConsistent m req s _ v
  make_session-IsConsistent m req s (some message) v = v

  create_session-IsConsistent :
      (m : LocalManager) (req : CreateSessionRequest) (new_id : Text) (now : ℕ)
      → IsConsistent m
      → IsConsistent (create_session files m req new_id now).1
  unfolding create_session session_in
  create_session-IsConsistent m req new_id now v = make_session-IsConsistent m req _ _ v

  after_call-IsConsistent :
      (m : LocalManager) (call : ManagerCall)
      → IsConsistent m
      → IsConsistent (after_call files m call)
  unfolding after_call get_session
  after_call-IsConsistent m (creates req new_id now) v =
      create_session-IsConsistent m req new_id now v
  after_call-IsConsistent m (gets id now) v =
      live_session-IsConsistent m id now (get m.session id) v
  after_call-IsConsistent m (closes id) v = close_session-IsConsistent m id v

  after_calls-IsConsistent :
      (m : LocalManager) (calls : List ManagerCall)
      → IsConsistent m
      → IsConsistent (after_calls files m calls)
  unfolding after_calls
  after_calls-IsConsistent m [] v = v
  after_calls-IsConsistent m (call ∷ calls) v =
      after_calls-IsConsistent (after_call files m call) calls (after_call-IsConsistent m call v)

  live :
      (m : LocalManager) (id : Text) (now : ℕ) (held : Option Session) (s : Session)
      → (live_session files m id now held).0 ≡ some s
      → (held ≡ some s) × (ltb s.expires_at now ≡ false)
  unfolding live_session
  live m id now none s h = absurd (cc)
  live m id now (some t) s h = elim (Bool-cases (ltb t.expires_at now)) [
    | inl over ↦ absurd (let g = rw over at h in cc)
    | inr running ↦
        let same : t ≡ s = some_inj (rw running at h) in
        (ap some same, subst (λ (u : Session). ltb u.expires_at now ≡ false) same running)
  ]

  -- After any calls of a new manager, a session that GetSession answers has the id that was asked
  -- for and is not past its expiry, and its directory is the one that the base, its tenant and its
  -- id make.
  pub get_session-after_calls :
      (base_path : Text) (calls : List ManagerCall) (id : Text) (now : ℕ) (s : Session)
      → (get_session files (after_calls files (new_local_manager base_path) calls) id now).0
        ≡ some s
      → (s.id ≡ id)
        × (now ≤ s.expires_at)
        × (get (after_calls files (new_local_manager base_path) calls).roots id
            ≡ some (
                workspace_root
                  (after_calls files (new_local_manager base_path) calls)
                  s.principal.tenant_id
                  id))
  unfolding get_session
  get_session-after_calls base_path calls id now s h =
      let m = after_calls files (new_local_manager base_path) calls in
      let (held, running) = live m id now _ s h in
      let v = after_calls-IsConsistent _ calls (new_local_manager-IsConsistent base_path) in
      let (a, b) = v.rooted id s held in (a, ground arith, b)

-- What a creation that succeeds leaves: the session, of the request's principal and under its id or
-- else the new one; other sessions as they were.
pub record IsCreated (files : Files) (m : LocalManager) (req : CreateSessionRequest) (new_id : Text)
    (s : Session) (m' : LocalManager) : Type 0 where
  pub id : s.id ≡ session_id_or req.session_id new_id
  pub principal : s.principal ≡ req.principal
  pub answers :
      (id : Text) (now : ℕ)
      → (get_session files m' id now).0 ≡ (
          if text_eq s.id id
          then (if ltb s.expires_at now then none else some s)
          else (get_session files m id now).0)

module _ (files : Files) (m : LocalManager) (req : CreateSessionRequest) (new_id : Text) where
  live_same :
      (m' : LocalManager) (id : Text) (now : ℕ) (held : Option Session)
      → (live_session files m' id now held).0 ≡ (live_session files m id now held).0
  unfolding live_session
  live_same m' id now none = refl
  live_same m' id now (some s) = ground arith

  add_session-IsCreated :
      (s : Session) (root : Text)
      → s.id ≡ session_id_or req.session_id new_id
      → s.principal ≡ req.principal
      → IsCreated files m req new_id s (add_session m s root).1
  unfolding add_session get_session live_session
  add_session-IsCreated s root i c = record {
    id = i;
    principal = c;
    answers = λ id now. elim (Bool-cases (text_eq s.id id)) [
      | inl same ↦ rw (get-put m.session s.id id s, same) (own id now)
      | inr other ↦ rw (get-put m.session s.id id s, other) (live_same _ id now _)
    ];
  }
    where
      own :
          (id : Text) (now : ℕ)
          → (live_session files (add_session m s root).1 id now (some s)).0
            ≡ (if ltb s.expires_at now then none else some s)
      own id now = ground arith

  filled :
      (s t : Session) (root : Text) (failure : Option Message)
      → s.id ≡ session_id_or req.session_id new_id
      → s.principal ≡ req.principal
      → (fill_session m req s root failure).0 ≡ answered t
      → IsCreated files m req new_id t (fill_session m req s root failure).1
  unfolding fill_session add_session
  filled s t root (some message) i c h = absurd (cc)
  filled s t root none i c h =
      let same : s ≡ t = answered_inj h in
      subst (λ u. IsCreated files m req new_id u (add_session m s root).1) same
        (add_session-IsCreated s root i c)

  made :
      (s t : Session) (root : Text) (failure : Option Message)
      → s.id ≡ session_id_or req.session_id new_id
      → s.principal ≡ req.principal
      → (make_session files m req s root failure).0 ≡ answered t
      → IsCreated files m req new_id t (make_session files m req s root failure).1
  unfolding make_session
  made s t root (some message) i c h = absurd (cc)
  made s t root none i c h = filled s t root _ i c h

  -- A session that CreateSession answers has the request's principal, and the request's id, or the
  -- new one where that is empty. Afterwards GetSession answers it for that id until it expires,
  -- whatever session was held under the id before, and answers the other ids as before.
  pub create_session-IsCreated :
      (now : ℕ) (s : Session)
      → (create_session files m req new_id now).0 ≡ answered s
      → IsCreated files m req new_id s (create_session files m req new_id now).1
  unfolding create_session session_in
  create_session-IsCreated now s h = made _ s _ _ refl refl h
