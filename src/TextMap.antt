-- ===== src/TextMap.antt =====
-- Go maps with string keys, as association lists. No operation that is modelled iterates over
-- such a map, so the order of the entries is not observed.
use underpass_runtime.Base.{◌≡◌, Option, none, some, List, [], ◌∷◌, arith, if◌then◌else◌}
use underpass_runtime.Text.{Text, text_eq}
use underpass_runtime.Text.Laws.{text_eq_iff}

abbrev pub TextMap {ℓ} : Type ℓ → Type ℓ
TextMap V = List (Text × V)

module _ {ℓ} {V : Type ℓ} where
  -- v, ok := m[key]
  unfoldable pub get : TextMap V → Text → Option V
  get [] key = none
  get ((k, v) ∷ m) key = if text_eq k key then some v else get m key

  -- delete(m, key)
  unfoldable pub delete : TextMap V → Text → TextMap V
  delete [] key = []
  delete ((k, v) ∷ m) key = let rest = delete m key in if text_eq k key then rest else (k, v) ∷ rest

  -- m[key] = v
  unfoldable pub put : TextMap V → Text → V → TextMap V
  put m key v = (key, v) ∷ delete m key

  -- m[key], with the zero value where the key is missing
  unfoldable pub get_or : TextMap V → Text → V → V
  get_or m key zero_value = elim (get m key) [ none ↦ zero_value | some v ↦ v ]

  pub get-delete :
      (m : TextMap V) (key j : Text)
      → get (delete m key) j ≡ (if text_eq key j then none else get m j)
  unfolding get delete
  get-delete [] key j = ground arith
  get-delete ((k, v) ∷ m) key j =
      ground (arith, get-delete m key j, text_eq_iff k key, text_eq_iff k j, text_eq_iff key j)

  pub get-put :
      (m : TextMap V) (key j : Text) (v : V)
      → get (put m key v) j ≡ (if text_eq key j then some v else get m j)
  unfolding get put
  get-put m key j v = ground (arith, get-delete m key j)

  pub get_or-put :
      (m : TextMap V) (key j : Text) (v z : V)
      → get_or (put m key v) j z ≡ (if text_eq key j then v else get_or m j z)
  unfolding get_or
  get_or-put m key j v z = ground (arith, get-put m key j v)

  pub get_or-delete :
      (m : TextMap V) (key j : Text) (z : V)
      → get_or (delete m key) j z ≡ (if text_eq key j then z else get_or m j z)
  unfolding get_or
  get_or-delete m key j z = ground (arith, get-delete m key j)
