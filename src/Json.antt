-- ===== src/Json.antt =====
-- The values that `json.Unmarshal` puts into an `any`, and the ways in which the program reads
-- them. A float64 is given by what the program asks of it: its integer part, as `int(x)` and
-- `math.Trunc` have it, and whether it is whole.
mod Int
unfoldable pub use Int.*
use underpass_runtime.Base.{
  ℕ, zero, ◌+◌, ◌*◌, ◌-◌, ◌^◌, Bool, true, false, ◌&&◌, Option, none, some, List, [], ◌∷◌, leb,
  ◌==◌, is_empty, if◌then◌else◌,
}
use underpass_runtime.Text.{Text, text_eq, trim_space}

mutual
  pub data Json : Type 0 where
    null : Json
    bool : Bool → Json
    num : ℤ → Bool → Json
    str : Text → Json
    arr : Items → Json
    obj : Members → Json

  pub data Items : Type 0 where
    nil : Items
    cons : Json → Items → Items

  pub data Members : Type 0 where
    end : Members
    member_of : Text → Json → Members → Members

-- object[key]
unfoldable pub field_of : Members → Text → Option Json
field_of end key = none
field_of (member_of k v rest) key = if text_eq k key then some v else field_of rest key

-- lookupField
unfoldable pub lookup_field : Json → List Text → Option Json
lookup_field j [] = some j
lookup_field (obj ms) (w ∷ ws) = elim (field_of ms w) [ none ↦ none | some j ↦ lookup_field j ws ]
lookup_field _ (w ∷ ws) = none
