-- ===== src/Service/Quota/Balance.antt =====
-- A slot that is acquired and released leaves every session's counter as it was.
use underpass_runtime.Base.{
  ℕ, ◌+◌, ◌-◌, ◌≡◌, refl, inl, inr, Option, none, some, leb, ◌==◌, Bool-cases, arith,
}
use underpass_runtime.Text.{Text}
use underpass_runtime.Text.Laws.{text_eq_iff, text_eq_refl}
use underpass_runtime.TextMap.{get_or, put, get_or-put, get_or-delete}
use underpass_runtime.Domain.{Session}
use underpass_runtime.Service.Quota.{
  Limiter, Slot, unlimited, held, in_flight, acquire_concurrency, release, allow_rate,
  allow_rate_at, allow_principal_rate,
}

-- Every session's counter is the same.
abbrev pub SameSlots : Limiter → Limiter → Type 0
SameSlots l m = (k : Text) → in_flight l k ≡ in_flight m k

release-put :
    (l : Limiter) (s : Text)
    → SameSlots
        (release
          (record l { per_session_in_flight = put l.per_session_in_flight s (in_flight l s + 1) })
          (held s))
        l
unfolding release in_flight
release-put l s k = ground (
  arith,
  text_eq_iff s k,
  get_or-put l.per_session_in_flight s s (get_or l.per_session_in_flight s 0 + 1) 0,
  get_or-put l.per_session_in_flight s k (get_or l.per_session_in_flight s 0 + 1) 0,
  text_eq_refl s,
  get_or-delete (put l.per_session_in_flight s (get_or l.per_session_in_flight s 0 + 1)) s k 0,
  get_or-put (put l.per_session_in_flight s (get_or l.per_session_in_flight s 0 + 1)) s k
      (get_or (put l.per_session_in_flight s (get_or l.per_session_in_flight s 0 + 1)) s 0 - 1) 0,
)

-- What an attempt to acquire leaves: the counters as they were, once a slot is released again.
abbrev pub Balanced : Limiter → Limiter × Option Slot → Type 0
Balanced l (m, none) = SameSlots m l
Balanced l (m, some slot) = SameSlots (release m slot) l

release-unlimited : (l : Limiter) → SameSlots (release l unlimited) l
unfolding release
release-unlimited l k = refl

-- An attempt to acquire a slot that is refused leaves every counter as it was, and one that succeeds
-- is undone by its release.
pub acquire-Balanced : (l : Limiter) (s : Text) → Balanced l (acquire_concurrency l s)
unfolding acquire_concurrency
acquire-Balanced l s = elim (Bool-cases (l.max_concurrent_per_session == 0)) [
  | inl e ↦ rw e (release-unlimited l)
  | inr e ↦ elim (Bool-cases (leb l.max_concurrent_per_session (in_flight l s))) [
    | inl full ↦ rw (e, full) (λ k. refl)
    | inr room ↦ rw (e, room) (release-put l s)
  ]
]

pub allow_rate-SameSlots :
    (l : Limiter) (session : Session) (now : ℕ) → SameSlots (allow_rate l session now).0 l
unfolding allow_rate allow_rate_at allow_principal_rate in_flight
allow_rate-SameSlots l session now k = ground arith
