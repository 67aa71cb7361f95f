-- ===== src/Eventbus/Outbox.antt =====
-- internal/adapters/eventbus/outbox.go: OutboxPublisher, over the list operations of its client.
use underpass_runtime.Base.{
  ℕ, String, ◌+◌, ◌-◌, ◌≡◌, Option, none, some, List, [], ◌∷◌, ◌++◌, take, drop, length,
}
use underpass_runtime.Text.{Text}
use underpass_runtime.Domain.{wrapped, plain}
use underpass_runtime.Service.Ports.{Answer, answered, failed_with, DomainEvent}

-- outboxClient: RPUSH, LRANGE and LLEN of a key, and LTRIM from an index to the end (`-1`), on a
-- server whose state is `V`. Each may fail; `items` is the list under the key, and the laws are those
-- of the server's documentation, for an operation that succeeds.
pub record ListClient (V : Type 0) : Type 0 where
  pub items : V → List Text
  pub rpush : V → Text → Answer V
  pub lrange : V → ℕ → ℕ → Answer (List Text)
  pub llen : V → Answer ℕ
  pub ltrim_from : V → ℕ → Answer V
  pub items-rpush : (v v' : V) (x : Text) → rpush v x ≡ answered v' → items v' ≡ items v ++ (x ∷ [])
  pub lrange-items :
      (v : V) (stop : ℕ) (xs : List Text)
      → lrange v 0 stop ≡ answered xs
      → xs ≡ take (stop + 1) (items v)
  pub llen-items : (v : V) (n : ℕ) → llen v ≡ answered n → n ≡ length (items v)
  pub items-ltrim_from :
      (v v' : V) (n : ℕ) → ltrim_from v n ≡ answered v' → items v' ≡ drop n (items v)

-- json.Marshal and json.Unmarshal of an event; none is an error.
pub record Codec : Type 0 where
  pub encode : DomainEvent → Option Text
  pub decode : Text → Option DomainEvent

module _ (codec : Codec) where
  unfoldable pub cons_decoded :
      Option DomainEvent → Answer (List DomainEvent) → Answer (List DomainEvent)
  cons_decoded none rest = failed_with (plain "unmarshal outbox event")
  cons_decoded (some event) (failed_with m) = failed_with m
  cons_decoded (some event) (answered events) = answered (event ∷ events)

  -- the loop of Drain: an entry that does not decode is an error
  unfoldable pub decode_all : List Text → Answer (List DomainEvent)
  decode_all [] = answered []
  decode_all (entry ∷ entries) = cons_decoded (codec.decode entry) (decode_all entries)

  unfoldable pub decode_range : Answer (List Text) → Answer (List DomainEvent)
  decode_range (failed_with m) = failed_with (wrapped "lrange outbox" m)
  decode_range (answered entries) = decode_all entries

unfoldable pub in_context : {A : Type 0} → String → Answer A → Answer A
in_context where_from (failed_with m) = failed_with (wrapped where_from m)
in_context where_from (answered a) = answered a

module _ {V : Type 0} (c : ListClient V) where
  unfoldable pub push_entry : V → Option Text → Answer V
  push_entry v none = failed_with (plain "marshal outbox event")
  push_entry v (some entry) = in_context "rpush outbox event" (c.rpush v entry)

  unfoldable pub publish : Codec → V → DomainEvent → Answer V
  publish codec v event = push_entry v (codec.encode event)

  unfoldable pub pending : V → Answer ℕ
  pending v = in_context "llen outbox" (c.llen v)

  unfoldable pub drain : Codec → V → ℕ → Answer (List DomainEvent)
  drain codec v batch_size = decode_range codec (c.lrange v 0 (batch_size - 1))

  unfoldable pub ack : V → ℕ → Answer V
  ack v n = in_context "ltrim outbox" (c.ltrim_from v n)
