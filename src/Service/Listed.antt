-- ===== src/Service/Listed.antt =====
-- internal/app/service.go: what the list of ListTools holds.
use underpass_runtime.Base.{
  ◌≡◌, refl, ◌⊎◌, inl, inr, true, false, Option, none, some, List, [], ◌∷◌, Any, Bool-cases, ◌↔◌,
  subst, sym, arith,
}
use underpass_runtime.Text.{Text}
use underpass_runtime.Domain.{Session, Capability}
use underpass_runtime.Policy.Decision.{PolicyDecision}
use underpass_runtime.Service.Errors.{Served, served, refused_by}
use underpass_runtime.Service.Runtime.{capability_supported_by_runtime}
use underpass_runtime.Service.Ports.{Answer, answered, failed_with, Ports}
use underpass_runtime.Service.Listing.{
  text_less, insert_by_name, sort_by_name, listing_input, keep_allowed, enabled_tools, sort_served,
  list_for, list_tools,
}

-- The runtime supports the tool, and the authoriser allows it, approved and without arguments.
pub record IsEnabled {S : Type 0} (p : Ports S) (session : Session) (c : Capability) : Type 0 where
  pub supported : capability_supported_by_runtime p.getenv session c ≡ true
  pub decision : PolicyDecision
  pub decided : p.authorize (listing_input session c) ≡ answered decision
  pub allowed : decision.allow ≡ true

-- No tool stands directly before one with a lesser name.
abbrev pub Follows : Capability → List Capability → Type 0
Follows c [] = Unit
Follows c (d ∷ ds) = text_less d.name c.name ≡ false

abbrev pub IsSorted : List Capability → Type 0
IsSorted [] = Unit
IsSorted (c ∷ cs) = Follows c cs × IsSorted cs

abbrev pub Among : Capability → List Capability → Type 0
Among c = Any (λ d. d ≡ c)

text_less_asym : (s t : Text) → text_less s t ≡ true → text_less t s ≡ false
unfolding text_less
text_less_asym s [] h = absurd (cc)
text_less_asym [] (d ∷ t) h = refl
text_less_asym (c ∷ s) (d ∷ t) h = ground (arith, text_less_asym s t)

Follows-insert_by_name :
    (d c : Capability) (ds : List Capability)
    → text_less d.name c.name ≡ true
    → Follows d ds
    → Follows d (insert_by_name c ds)
unfolding insert_by_name
Follows-insert_by_name d c [] h f = text_less_asym d.name c.name h
Follows-insert_by_name d c (e ∷ es) h f = elim (Bool-cases (text_less e.name c.name)) [
  | inl less ↦ rw less f
  | inr more ↦ rw more (text_less_asym d.name c.name h)
]

insert_by_name-IsSorted :
    (c : Capability) (cs : List Capability) → IsSorted cs → IsSorted (insert_by_name c cs)
unfolding insert_by_name
insert_by_name-IsSorted c [] s = (tt, tt)
insert_by_name-IsSorted c (d ∷ ds) (f, s) = elim (Bool-cases (text_less d.name c.name)) [
  | inl less ↦ rw less (Follows-insert_by_name d c ds less f, insert_by_name-IsSorted c ds s)
  | inr more ↦ rw more (more, (f, s))
]

sort_by_name-IsSorted : (cs : List Capability) → IsSorted (sort_by_name cs)
unfolding sort_by_name
sort_by_name-IsSorted [] = tt
sort_by_name-IsSorted (c ∷ cs) =
    insert_by_name-IsSorted c (sort_by_name cs) (sort_by_name-IsSorted cs)

swap_first : {A B C : Type 0} → A ⊎ (B ⊎ C) → B ⊎ (A ⊎ C)
swap_first (inl a) = inr (inl a)
swap_first (inr (inl b)) = inl b
swap_first (inr (inr c)) = inr (inr c)

in_rest : {A B C : Type 0} → (B → C) → A ⊎ B → A ⊎ C
in_rest f (inl a) = inl a
in_rest f (inr b) = inr (f b)

Among-insert_by_name :
    (x c : Capability) (cs : List Capability) → Among x (insert_by_name c cs) ↔ Among x (c ∷ cs)
unfolding insert_by_name
Among-insert_by_name x c [] = (λ h. h, λ h. h)
Among-insert_by_name x c (d ∷ ds) = elim (Bool-cases (text_less d.name c.name)) [
  | inl less ↦
      let (to, from) = Among-insert_by_name x c ds in
      rw less (λ h. swap_first (in_rest to h), λ h. in_rest from (swap_first h))
  | inr more ↦ rw more (λ h. h, λ h. h)
]

Among-sort_by_name :
    (x : Capability) (cs : List Capability) → Among x (sort_by_name cs) ↔ Among x cs
unfolding sort_by_name
Among-sort_by_name x [] = (λ h. h, λ h. h)
Among-sort_by_name x (c ∷ cs) =
    let (to, from) = Among-insert_by_name x c (sort_by_name cs) in
    let (to', from') = Among-sort_by_name x cs in
    (λ h. in_rest to' (to h), λ h. from (in_rest from' h))

module _ {S : Type 0} (p : Ports S) (session : Session) where
  -- The tools are those of a part of the catalogue that are enabled.
  abbrev Selects : List Capability → Served (List Capability) → Type 0
  Selects cs (refused_by err) = Unit
  Selects cs (served ds) = (x : Capability) → Among x ds ↔ (Among x cs × IsEnabled p session x)

  keep_tool :
      (c : Capability) (cs ds : List Capability)
      → IsEnabled p session c
      → Selects cs (served ds)
      → Selects (c ∷ cs) (served (c ∷ ds))
  keep_tool c cs ds enabled h x = (forth, back)
    where
      forth : Among x (c ∷ ds) → Among x (c ∷ cs) × IsEnabled p session x
      forth (inl e) = (inl e, subst (IsEnabled p session) e enabled)
      forth (inr m) = let (a, b) = (h x).0 m in (inr a, b)

      back : Among x (c ∷ cs) × IsEnabled p session x → Among x (c ∷ ds)
      back (inl e, b) = inl e
      back (inr a, b) = inr ((h x).1 (a, b))

  drop_tool :
      (c : Capability) (cs ds : List Capability)
      → (IsEnabled p session c → ⊥)
      → Selects cs (served ds)
      → Selects (c ∷ cs) (served ds)
  drop_tool c cs ds disabled h x = (forth, back)
    where
      forth : Among x ds → Among x (c ∷ cs) × IsEnabled p session x
      forth m = let (a, b) = (h x).0 m in (inr a, b)

      back : Among x (c ∷ cs) × IsEnabled p session x → Among x ds
      back (inl e, b) = absurd (disabled (subst (IsEnabled p session) (sym e) b))
      back (inr a, b) = (h x).1 (a, b)

  unsupported :
      (c : Capability)
      → capability_supported_by_runtime p.getenv session c ≡ false
      → IsEnabled p session c
      → ⊥
  unsupported c refuted e = cc (e.supported)

  disallowed :
      (c : Capability) (d : PolicyDecision)
      → p.authorize (listing_input session c) ≡ answered d
      → d.allow ≡ false
      → IsEnabled p session c
      → ⊥
  disallowed c d decides refuted e = cc (e.decided, e.allowed)

  select_decided :
      (c : Capability) (cs : List Capability) (a : Answer PolicyDecision)
      (rest : Served (List Capability))
      → capability_supported_by_runtime p.getenv session c ≡ true
      → p.authorize (listing_input session c) ≡ a
      → Selects cs rest
      → Selects (c ∷ cs) (keep_allowed c a rest)
  unfolding keep_allowed
  select_decided c cs (failed_with message) rest runs decides h = tt
  select_decided c cs (answered d) (refused_by err) runs decides h = tt
  select_decided c cs (answered d) (served ds) runs decides h = elim (Bool-cases d.allow) [
    | inl holds ↦ rw holds (
        keep_tool c cs ds
          (record { supported = runs; decision = d; decided = decides; allowed = holds }) h)
    | inr fails ↦ rw fails (drop_tool c cs ds (disallowed c d decides fails) h)
  ]

  select_unsupported :
      (c : Capability) (cs : List Capability) (rest : Served (List Capability))
      → capability_supported_by_runtime p.getenv session c ≡ false
      → Selects cs rest
      → Selects (c ∷ cs) rest
  select_unsupported c cs (refused_by err) lacks h = tt
  select_unsupported c cs (served ds) lacks h = drop_tool c cs ds (unsupported c lacks) h

  enabled_tools-Selects : (cs : List Capability) → Selects cs (enabled_tools p session cs)
  unfolding enabled_tools
  enabled_tools-Selects [] = λ x. (λ m. absurd m, λ m. m.0)
  enabled_tools-Selects (c ∷ cs) =
      elim (Bool-cases (capability_supported_by_runtime p.getenv session c)) [
        | inl holds ↦ rw holds (select_decided c cs _ _ holds refl (enabled_tools-Selects cs))
        | inr fails ↦ rw fails (select_unsupported c cs _ fails (enabled_tools-Selects cs))
      ]

  sort_selected :
      (cs : List Capability) (r : Served (List Capability)) (tools : List Capability)
      → Selects cs r
      → sort_served r ≡ served tools
      → IsSorted tools × Selects cs (served tools)
  unfolding sort_served
  sort_selected cs (refused_by err) tools h e = absurd (cc)
  sort_selected cs (served ds) tools h e =
      let eq : sort_by_name ds ≡ tools = cc in
      subst (λ ts. IsSorted ts × Selects cs (served ts)) eq
        (
          sort_by_name-IsSorted ds,
          λ x.
              let (to, from) = Among-sort_by_name x ds in
              (λ m. (h x).0 (to m), λ m. from ((h x).1 m)),
        )

-- The tools are sorted by name, and they are those of the catalogue that are enabled for the
-- session of the id.
pub record IsListing {S : Type 0} (p : Ports S) (session_id : Text) (tools : List Capability)
    : Type 0 where
  pub session : Session
  pub found : p.get_session session_id ≡ answered (some session)
  pub in_order : IsSorted tools
  pub exact : (c : Capability) → Among c tools ↔ (Among c p.catalog × IsEnabled p session c)

list_for-IsListing :
    {S : Type 0} (p : Ports S) (id : Text) (a : Answer (Option Session)) (tools : List Capability)
    → p.get_session id ≡ a
    → list_for p a ≡ served tools
    → IsListing p id tools
unfolding list_for
list_for-IsListing p id (failed_with message) tools e h = absurd (cc)
list_for-IsListing p id (answered none) tools e h = absurd (cc)
list_for-IsListing p id (answered (some s)) tools e h =
    let (sorts, selects) =
      sort_selected p s p.catalog _ tools (enabled_tools-Selects p s p.catalog) h in
    record { session = s; found = e; in_order = sorts; exact = selects }

-- The tools that ListTools answers are sorted by name, and are exactly the tools of the catalogue
-- that the runtime of the session supports and that the authoriser allows, approved and without
-- arguments.
pub list_tools-IsListing :
    {S : Type 0} (p : Ports S) (session_id : Text) (tools : List Capability)
    → list_tools p session_id ≡ served tools
    → IsListing p session_id tools
unfolding list_tools
list_tools-IsListing p session_id tools h = list_for-IsListing p session_id _ tools refl h
