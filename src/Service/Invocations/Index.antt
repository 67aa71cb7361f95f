-- ===== src/Service/Invocations/Index.antt =====
-- The store after any series of saves, against what the series alone says.
use underpass_runtime.Base.{
  ◌≡◌, ◌≢◌, refl, ap, sym, ◌∙◌, inl, inr, Bool, true, false, Option, none, some, List, [], ◌∷◌,
  Bool-cases, is_empty, if◌then◌else◌,
}
use underpass_runtime.Text.{Text, text_eq}
use underpass_runtime.Text.Laws.{eq_of_text_eq}
use underpass_runtime.TextMap.{TextMap, get, put, get-put}
use underpass_runtime.Domain.{Invocation}
use underpass_runtime.Service.Invocations.{
  InvocationStore, empty_store, key_of, put_if_absent, save, get_invocation, find_by_key,
}

unfoldable pub save_all : InvocationStore → List Invocation → InvocationStore
save_all s [] = s
save_all s (inv ∷ invs) = save_all (save s inv) invs

-- The id of the first record of the series under a key.
unfoldable pub first_id : Text → List Invocation → Option Text
first_id key [] = none
first_id key (inv ∷ invs) = if text_eq (key_of inv) key then some inv.id else first_id key invs

unfoldable pub or_else {ℓ} : {A : Type ℓ} → Option A → Option A → Option A
or_else (some a) b = some a
or_else none b = b

-- The last record of the series with an id.
unfoldable pub last_with : Text → List Invocation → Option Invocation
last_with id [] = none
last_with id (inv ∷ invs) =
    or_else (last_with id invs) (if text_eq inv.id id then some inv else none)

pub or_else_assoc :
    {A : Type 0} (a b c : Option A) → or_else a (or_else b c) ≡ or_else (or_else a b) c
unfolding or_else
or_else_assoc none b c = refl
or_else_assoc (some a) b c = refl

pub or_else-if :
    {A : Type 0} (b : Bool) (x : A) (y : Option A)
    → (if b then some x else y) ≡ or_else (if b then some x else none) y
unfolding or_else
or_else-if true x y = refl
or_else-if false x y = refl

get-save :
    (s : InvocationStore) (inv : Invocation) (id : Text)
    → get_invocation (save s inv) id
      ≡ or_else (if text_eq inv.id id then some inv else none) (get_invocation s id)
unfolding get_invocation save
get-save s inv id =
    get-put s.invocations inv.id id inv ∙ or_else-if (text_eq inv.id id) inv (get s.invocations id)

get-save_all :
    (s : InvocationStore) (invs : List Invocation) (id : Text)
    → get_invocation (save_all s invs) id ≡ or_else (last_with id invs) (get_invocation s id)
unfolding save_all last_with or_else
get-save_all s [] id = refl
get-save_all s (inv ∷ invs) id =
    get-save_all (save s inv) invs id
    ∙ ap (or_else (last_with id invs)) (get-save s inv id)
    ∙ or_else_assoc (last_with id invs) _ _

pub or_else-none : {A : Type 0} (a : Option A) → a ≡ or_else a none
unfolding or_else
or_else-none none = refl
or_else-none (some a) = refl

module _ (m : TextMap Text) (k j id : Text) where
  -- One attempt to index, where what the key has is `g`.
  indexed_or :
      (g : Option Text)
      → get m k ≡ g
      → get (elim g [ none ↦ put m k id | some _ ↦ m ]) j
        ≡ or_else (get m j) (if text_eq k j then some id else none)
  unfolding or_else
  indexed_or none e = elim (Bool-cases (text_eq k j)) [
    | inl same ↦ get-put m k j id ∙ rw (same, sym (ap (get m) (eq_of_text_eq k j same)) ∙ e) refl
    | inr other ↦ get-put m k j id ∙ rw other (or_else-none (get m j))
  ]
  indexed_or (some x) e = elim (Bool-cases (text_eq k j)) [
    | inl same ↦ rw (sym (ap (get m) (eq_of_text_eq k j same)) ∙ e) refl
    | inr other ↦ rw other (or_else-none (get m j))
  ]

  get-put_if_absent :
      j ≢ []
      → get (put_if_absent m k id) j ≡ or_else (get m j) (if text_eq k j then some id else none)
  unfolding put_if_absent
  get-put_if_absent n = elim (Bool-cases (is_empty k)) [
    | inl blank ↦ rw (blank, differs blank) (or_else-none (get m j))
    | inr filled ↦ rw filled (indexed_or (get m k) refl)
  ]
    where
      empty : (t : Text) → is_empty t ≡ true → t ≡ []
      empty [] e = refl
      empty (c ∷ t) e = absurd (cc)

      differs : is_empty k ≡ true → text_eq k j ≡ false
      differs b = elim (Bool-cases (text_eq k j)) [
        | inl same ↦ absurd (n (sym (eq_of_text_eq k j same) ∙ empty k b))
        | inr other ↦ other
      ]

-- The id that a key stands for after a series of saves.
index-save_all :
    (s : InvocationStore) (invs : List Invocation) (key : Text)
    → key ≢ []
    → get (save_all s invs).by_corr_key key ≡ or_else (get s.by_corr_key key) (first_id key invs)
unfolding save_all first_id save
index-save_all s [] key n = or_else-none _
index-save_all s (inv ∷ invs) key n =
    index-save_all (save s inv) invs key n
    ∙ ap (λ g. or_else g (first_id key invs))
        (get-put_if_absent s.by_corr_key (key_of inv) key inv.id n)
    ∙ sym (or_else_assoc (get s.by_corr_key key) _ _)
    ∙ ap (or_else (get s.by_corr_key key))
        (sym (or_else-if (text_eq (key_of inv) key) inv.id (first_id key invs)))

-- The last record that has the id of the first record of the series under a key.
unfoldable pub latest_of_first : Text → List Invocation → Option Invocation
latest_of_first key invs = elim (first_id key invs) [ none ↦ none | some id ↦ last_with id invs ]

-- Get after any series of saves into a new store is the last record that was saved with the id.
pub get_invocation-save_all :
    (invs : List Invocation) (id : Text)
    → get_invocation (save_all empty_store invs) id ≡ last_with id invs
unfolding get_invocation get
get_invocation-save_all invs id =
    get-save_all empty_store invs id ∙ sym (or_else-none (last_with id invs))

not_empty : (key : Text) → key ≢ [] → is_empty key ≡ false
not_empty [] n = absurd (n refl)
not_empty (c ∷ key) n = refl

pub find_by_key-save_all :
    (invs : List Invocation) (key : Text)
    → key ≢ []
    → find_by_key (save_all empty_store invs) key ≡ latest_of_first key invs
unfolding find_by_key latest_of_first get or_else
find_by_key-save_all invs key n =
    rw (not_empty key n, index-save_all empty_store invs key n) (located (first_id key invs))
  where
    by_id : (id : Text) → get (save_all empty_store invs).invocations id ≡ last_with id invs
    by_id id = unfold get_invocation in get_invocation-save_all invs id

    located :
        (g : Option Text)
        → (elim g [ none ↦ none | some id ↦ get (save_all empty_store invs).invocations id ])
          ≡ (elim g [ none ↦ none | some id ↦ last_with id invs ])
    located none = refl
    located (some id) = by_id id
