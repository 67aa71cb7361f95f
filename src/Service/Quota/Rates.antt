-- ===== src/Service/Quota/Rates.antt =====
-- The rate limit of one window: how many of a series of invocations are admitted.
use underpass_runtime.Base.{
  ℕ, ◌+◌, ◌<◌, ◌≡◌, ◌≢◌, refl, ap, ◌∙◌, inl, inr, Bool, true, false, not, ◌&&◌, List, [], ◌∷◌, leb,
  ◌==◌, is_empty, Bool-cases, arith, if◌then◌else◌,
}
use underpass_runtime.Text.{Text, text_eq, trim_space}
use underpass_runtime.TextMap.{TextMap, get_or, put, get_or-put}
use underpass_runtime.Service.Quota.{
  QuotaWindow, no_window, current_window, count_in_window, increment_trimmed,
  increment_quota_window_counter,
}

abbrev pub Counters : Type 0
Counters = TextMap QuotaWindow

-- The invocations that a key has made in the window that begins at `start`.
unfoldable pub used : Counters → Text → ℕ → ℕ
used c k start = (current_window (get_or c k no_window) start).count

current_window_same :
    (w : QuotaWindow) (start : ℕ) → 0 < start → (current_window w start).start ≡ start
unfolding current_window
current_window_same w start h = ground arith

current_window_count :
    (w : QuotaWindow) (start : ℕ)
    → 0 < start
    → w.start ≡ start
    → (current_window w start).count ≡ w.count
unfolding current_window
current_window_count w start h e = ground arith

used-put :
    (c : Counters) (k j : Text) (w : QuotaWindow) (start : ℕ)
    → 0 < start
    → w.start ≡ start
    → used (put c k w) j start ≡ (if text_eq k j then w.count else used c j start)
unfolding used
used-put c k j w start h e =
    ap {A = QuotaWindow} (λ v. (current_window v start).count) (get_or-put c k j w no_window)
    ∙ split (text_eq k j)
  where
    split :
        (b : Bool)
        → (current_window (if b then w else get_or c j no_window) start).count
          ≡ (if b then w.count else (current_window (get_or c j no_window) start).count)
    split true = current_window_count w start h e
    split false = refl

-- What an attempt in the window does: its verdict, and the uses of every key afterwards.
abbrev pub Counts : Counters × Bool → Counters → Text → ℕ → ℕ → Type 0
Counts r c k start max =
    (r.1 ≡ not (leb max (used c k start)))
    × ((j : Text)
        → used r.0 j start ≡ (
            if text_eq k j
            then (if leb max (used c k start) then used c k start else used c k start + 1)
            else used c j start))

count_in_window-Counts :
    (c : Counters) (k : Text) (start max : ℕ)
    → 0 < start
    → Counts (count_in_window c k (current_window (get_or c k no_window) start) max) c k start max
unfolding count_in_window used
count_in_window-Counts c k start max h =
    elim (Bool-cases (leb max (current_window (get_or c k no_window) start).count)) [
      | inl full ↦ rw full (refl, λ j. used-put c k j window start h same)
      | inr room ↦ rw room (refl, λ j. used-put c k j more start h same)
    ]
  where
    window : QuotaWindow
    window = current_window (get_or c k no_window) start

    more : QuotaWindow
    more = record window { count = window.count + 1 }

    same : window.start ≡ start
    same = current_window_same (get_or c k no_window) start h

-- One attempt under a key that is not blank is admitted if its window has room, and only then
-- counted; the other keys' uses stay as they were.
pub increment-Counts :
    (c : Counters) (key : Text) (start max : ℕ)
    → 0 < start
    → 0 < max
    → trim_space key ≢ []
    → Counts (increment_quota_window_counter c key start max) c (trim_space key) start max
unfolding increment_quota_window_counter increment_trimmed
increment-Counts c key start max h m n =
    rw (not_zero max m, not_empty (trim_space key) n)
      (count_in_window-Counts c (trim_space key) start max h)
  where
    not_zero : (x : ℕ) → 0 < x → (x == 0) ≡ false
    not_zero x p = ground arith

    not_empty : (t : Text) → t ≢ [] → is_empty t ≡ false
    not_empty [] p = absurd (p refl)
    not_empty (d ∷ t) p = refl

-- A series of attempts in one window: how many of those under key `k` are admitted.
unfoldable pub admitted : Text → Counters → List Text → ℕ → ℕ → ℕ
admitted k c [] start max = 0
admitted k c (key ∷ keys) start max =
    let (c', allowed) = increment_quota_window_counter c key start max in
    (if text_eq (trim_space key) k && allowed then 1 else 0) + admitted k c' keys start max

-- How many attempts are made under `k`.
unfoldable pub attempts : Text → List Text → ℕ
attempts k [] = 0
attempts k (key ∷ keys) = (if text_eq (trim_space key) k then 1 else 0) + attempts k keys

-- Every key of the series is not blank.
abbrev pub NotBlank : List Text → Type 0
NotBlank [] = Unit
NotBlank (key ∷ keys) = (trim_space key ≢ []) × NotBlank keys
