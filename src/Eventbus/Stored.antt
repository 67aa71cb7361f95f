-- ===== src/Eventbus/Stored.antt =====
-- What is published to the outbox is what a drain reads.
use underpass_runtime.Base.{
  ℕ, ◌<◌, ◌≡◌, refl, sym, subst, subst₂, String, Option, none, some, List, [], ◌∷◌, ◌++◌, take,
}
use mathlib.Core.List.{append_assoc, append-nil}
use underpass_runtime.Text.{Text}
use underpass_runtime.Service.Ports.{Answer, answered, failed_with, DomainEvent}
use underpass_runtime.Eventbus.Outbox.{ListClient, Codec, push_entry, publish, in_context, drain}
use underpass_runtime.Eventbus.Delivery.{Decodes, nothing, entry, Decodes-append}
use underpass_runtime.Eventbus.Progress.{IsUp, drain-take}

-- Decoding gives back what was encoded.
abbrev pub IsFaithful : Codec → Type 0
IsFaithful codec = (e : DomainEvent) (x : Text) → codec.encode e ≡ some x → codec.decode x ≡ some e

module _ {V : Type 0} (c : ListClient V) (codec : Codec) where
  unfoldable pub publish_next : (V → Answer V) → Answer V → Answer V
  publish_next next (failed_with m) = failed_with m
  publish_next next (answered v) = next v

  -- Events published one after the other, up to a failure.
  unfoldable pub publish_all : List DomainEvent → V → Answer V
  publish_all [] v = answered v
  publish_all (e ∷ es) v = publish_next (publish_all es) (publish c codec v e)

  context_answer :
      {A : Type 0} (place : String) (r : Answer A) (a : A)
      → in_context place r ≡ answered a
      → r ≡ answered a
  unfolding in_context
  context_answer place (failed_with m) a h = absurd (cc)
  context_answer place (answered b) a h = h

  next_answer :
      (next : V → Answer V) (r : Answer V) (v' : V)
      → publish_next next r ≡ answered v'
      → (u : V) × (r ≡ answered u) × (next u ≡ answered v')
  unfolding publish_next
  next_answer next (failed_with m) v' h = absurd (cc)
  next_answer next (answered u) v' h = (u, refl, h)

  pushed :
      (v v' : V) (e : DomainEvent) (o : Option Text)
      → IsFaithful codec
      → codec.encode e ≡ o
      → push_entry c v o ≡ answered v'
      → (x : Text) × (codec.decode x ≡ some e) × (c.items v' ≡ c.items v ++ (x ∷ []))
  unfolding push_entry
  pushed v v' e none f k h = absurd (cc)
  pushed v v' e (some x) f k h =
      (x, f e x k, c.items-rpush v v' x (context_answer "rpush outbox event" _ v' h))

  Decodes-publish :
      (e : DomainEvent) (old : List DomainEvent) (v v' : V)
      → IsFaithful codec
      → Decodes codec (c.items v) old
      → publish c codec v e ≡ answered v'
      → Decodes codec (c.items v') (old ++ (e ∷ []))
  unfolding publish
  Decodes-publish e old v v' f ds h =
      let (x, d, i) = pushed v v' e (codec.encode e) f refl h in
      subst (λ t. Decodes codec t (old ++ (e ∷ []))) (sym i) (Decodes-append ds (entry d nothing))

  Decodes-publish_all :
      (es : List DomainEvent) (old : List DomainEvent) (v v' : V)
      → IsFaithful codec
      → Decodes codec (c.items v) old
      → publish_all es v ≡ answered v'
      → Decodes codec (c.items v') (old ++ es)
  unfolding publish_all
  Decodes-publish_all [] old v v' f ds h =
      let e : v ≡ v' = cc in
      subst₂ (λ u es. Decodes codec (c.items u) es) e (sym (append-nil old)) ds
  Decodes-publish_all (e ∷ es) old v v' f ds h =
      let (u, p, q) = next_answer (publish_all es) (publish c codec v e) v' h in
      subst (Decodes codec (c.items v')) (append_assoc old (e ∷ []) es)
        (Decodes-publish_all es (old ++ (e ∷ [])) u v' f (Decodes-publish e old v u f ds p) q)

  -- With a codec that gives back what it encodes and a server whose operations succeed: after a series
  -- of events is published to an outbox whose entries decode, a drain reads the oldest events, those
  -- that were there and then those of the series in order, up to the size of the batch.
  pub drain-publish_all :
      (es old : List DomainEvent) (v v' : V) (b : ℕ)
      → IsFaithful codec
      → IsUp c
      → Decodes codec (c.items v) old
      → publish_all es v ≡ answered v'
      → 0 < b
      → drain c codec v' b ≡ answered (take b (old ++ es))
  drain-publish_all es old v v' b f up ds h k =
      drain-take c codec up v' b (old ++ es) k (Decodes-publish_all es old v v' f ds h)
