-- ===== src/Service/Quota/Slots.antt =====
-- The concurrency slots of the sessions, over every interleaving of acquisitions and releases.
use underpass_runtime.Base.{
  ℕ, ◌+◌, ◌-◌, ◌≤◌, ◌<◌, ◌≡◌, refl, inl, inr, false, Option, none, some, List, [], ◌∷◌, leb, ◌==◌,
  Bool-cases, arith, if◌then◌else◌,
}
use underpass_runtime.Text.{Text, text_eq}
use underpass_runtime.Text.Laws.{text_eq_iff, eq_of_text_eq}
use underpass_runtime.TextMap.{get, put, get_or, get-put, get-delete, get_or-put, get_or-delete}
use underpass_runtime.Service.Quota.{
  Limiter, Slot, unlimited, held, in_flight, acquire_concurrency, release,
}

-- How many slots a session holds.
unfoldable pub holds : Text → List Text → ℕ
holds s [] = 0
holds s (t ∷ ts) = (if text_eq t s then 1 else 0) + holds s ts

unfoldable pub drop_one : Text → List Text → List Text
drop_one s [] = []
drop_one s (t ∷ ts) = let rest = t ∷ drop_one s ts in if text_eq t s then ts else rest

-- The limiter, and the sessions whose invocations run: one entry for each slot.
pub record Pool : Type 0 where
  pub limiter : Limiter
  pub holders : List Text

-- An invocation asks for a slot, or gives its slot back.
pub data Event : Type 0 where
  acquires : Text → Event
  releases : Text → Event

unfoldable pub take_slot : Text → List Text → Limiter × Option Slot → Pool
take_slot s holders (l, none) = record { limiter = l; holders = holders }
take_slot s holders (l, some unlimited) = record { limiter = l; holders = holders }
take_slot s holders (l, some (held t)) = record { limiter = l; holders = t ∷ holders }

-- Only an invocation that holds a slot releases one.
unfoldable pub step : Pool → Event → Pool
step p (acquires s) = take_slot s p.holders (acquire_concurrency p.limiter s)
step p (releases s) =
    if holds s p.holders == 0
    then p
    else record { limiter = release p.limiter (held s); holders = drop_one s p.holders }

unfoldable pub run : Pool → List Event → Pool
run p [] = p
run p (e ∷ es) = run (step p e) es

-- The counters are exactly the slots that are held, at most the limit, and none is kept at zero.
pub record IsAccounted (max : ℕ) (p : Pool) : Type 0 where
  pub limit : p.limiter.max_concurrent_per_session ≡ max
  pub counted : (s : Text) → in_flight p.limiter s ≡ holds s p.holders
  pub bounded : (s : Text) → holds s p.holders ≤ max
  pub positive : (s : Text) (n : ℕ) → get p.limiter.per_session_in_flight s ≡ some n → 0 < n

holds-drop_one :
    (s j : Text) (ts : List Text)
    → 0 < holds s ts
    → holds j ts ≡ (if text_eq s j then 1 else 0) + holds j (drop_one s ts)
unfolding holds drop_one
holds-drop_one s j [] h = absurd (omega arith)
holds-drop_one s j (t ∷ ts) h = elim (Bool-cases (text_eq t s)) [
  | inl e ↦ rw (e, eq_of_text_eq t s e) refl
  | inr e ↦ rw e (ground (arith, holds-drop_one s j ts (later e h)))
]
  where
    later : text_eq t s ≡ false → 0 < (if text_eq t s then 1 else 0) + holds s ts → 0 < holds s ts
    later e g = ground arith

module _ {max : ℕ} (0<max : 0 < max) (p : Pool) (v : IsAccounted max p) (s : Text) where
  -- A session with room gets a slot, and one at its limit is refused.
  pub acquire_lem : acquire_concurrency p.limiter s ≡ (
      if leb max (holds s p.holders) then (p.limiter, none) else (
        record (p.limiter) {
          per_session_in_flight = put p.limiter.per_session_in_flight s (holds s p.holders + 1);
        },
        some (held s),
      ))
  unfolding acquire_concurrency
  acquire_lem = simp (v.counted s, v.limit, not_zero max 0<max)
    where
      not_zero : (x : ℕ) → 0 < x → (x == 0) ≡ false
      not_zero x h = ground arith

  acquired-IsAccounted :
      leb max (holds s p.holders) ≡ false
      → IsAccounted max (record {
        limiter = record (p.limiter) {
          per_session_in_flight = put p.limiter.per_session_in_flight s (holds s p.holders + 1);
        };
        holders = s ∷ p.holders;
      })
  unfolding in_flight holds
  acquired-IsAccounted room = record {
    limit = v.limit;
    counted = λ j. ground (
      arith,
      v.counted j,
      text_eq_iff s j,
      get_or-put p.limiter.per_session_in_flight s j (holds s p.holders + 1) 0,
    );
    bounded = λ j. ground (arith, v.bounded j, text_eq_iff s j);
    positive = λ j n h. ground (
      arith,
      v.positive j n,
      get-put p.limiter.per_session_in_flight s j (holds s p.holders + 1),
    );
  }

  released-IsAccounted :
      (holds s p.holders == 0) ≡ false
      → IsAccounted max
          (record { limiter = release p.limiter (held s); holders = drop_one s p.holders })
  unfolding release in_flight
  released-IsAccounted some_held = record {
    limit = ground (arith, v.limit);
    counted = λ j. ground (
      arith,
      v.counted j,
      v.counted s,
      text_eq_iff s j,
      holds-drop_one s j p.holders,
      get_or-delete p.limiter.per_session_in_flight s j 0,
      get_or-put p.limiter.per_session_in_flight s j
          (get_or p.limiter.per_session_in_flight s 0 - 1) 0,
    );
    bounded = λ j. ground (arith, v.bounded j, holds-drop_one s j p.holders);
    positive = λ j n h. ground (
      arith,
      v.positive j n,
      v.counted s,
      get-delete p.limiter.per_session_in_flight s j,
      get-put p.limiter.per_session_in_flight s j (get_or p.limiter.per_session_in_flight s 0 - 1),
    );
  }

step-IsAccounted :
    {max : ℕ} (0<max : 0 < max) (p : Pool) (e : Event)
    → IsAccounted max p
    → IsAccounted max (step p e)
unfolding step take_slot
step-IsAccounted {max} 0<max p (acquires s) v =
    rw (acquire_lem 0<max p v s) (elim (Bool-cases (leb max (holds s p.holders))) [
      | inl full ↦ rw full v
      | inr room ↦ rw room (acquired-IsAccounted 0<max p v s room)
    ])
step-IsAccounted {max} 0<max p (releases s) v = elim (Bool-cases (holds s p.holders == 0)) [
  | inl idle ↦ rw idle v
  | inr some_held ↦ rw some_held (released-IsAccounted 0<max p v s some_held)
]

-- Under a positive limit, however acquisitions and releases of any sessions interleave, each
-- session's counter stays the number of slots that it holds and at most the limit, and no counter
-- is kept at zero.
pub run-IsAccounted :
    {max : ℕ} (0<max : 0 < max) (p : Pool) (es : List Event)
    → IsAccounted max p
    → IsAccounted max (run p es)
unfolding run
run-IsAccounted 0<max p [] v = v
run-IsAccounted 0<max p (e ∷ es) v =
    run-IsAccounted 0<max (step p e) es (step-IsAccounted 0<max p e v)
