-- ===== src/Eventbus/Relay.antt =====
-- internal/adapters/eventbus/outbox_relay.go: OutboxRelay. Its goroutine is a series of rounds; what
-- a round waits for is part of its result. Start and Stop only begin and end the series.
use Prim.Native.Nat.{min}
use underpass_runtime.Base.{
  ℕ, zero, suc, ◌*◌, ◌≡◌, ◌⊎◌, Option, none, some, List, [], ◌∷◌, ◌++◌, length, ◌==◌, if◌then◌else◌,
}
use underpass_runtime.Domain.{Message}
use underpass_runtime.Service.Ports.{Answer, answered, failed_with, DomainEvent}
use underpass_runtime.Eventbus.Outbox.{ListClient, Codec, drain, ack}

-- The downstream EventPublisher, with its state: what it has received, oldest first. An event whose
-- Publish succeeds is received; one whose Publish fails may have been.
pub record Downstream (D : Type 0) : Type 0 where
  pub received : D → List DomainEvent
  pub publish : D → DomainEvent → D × Option Message
  pub received-publish :
      (d d' : D) (e : DomainEvent) → publish d e ≡ (d', none) → received d' ≡ received d ++ (e ∷ [])
  pub received-failed :
      (d d' : D) (e : DomainEvent) (m : Message)
      → publish d e ≡ (d', some m)
      → (received d' ≡ received d) ⊎ (received d' ≡ received d ++ (e ∷ []))

-- 30 seconds, in nanoseconds
abbrev pub max_backoff : ℕ
max_backoff = 30000000000

abbrev pub backoff_multiplier : ℕ
backoff_multiplier = 2

-- The options of NewOutboxRelay; both are positive.
pub record Config : Type 0 where
  pub batch_size : ℕ
  pub poll_interval : ℕ

-- What the goroutine sees: the list, the downstream, and its backoff.
pub record RelayState (V D : Type 0) : Type 0 where
  pub list : V
  pub down : D
  pub backoff : ℕ

module _ {D : Type 0} (downstream : Downstream D) where
  unfoldable pub forward_rest : (D → D × Option Message) → D × Option Message → D × Option Message
  forward_rest next (d, some m) = (d, some m)
  forward_rest next (d, none) = next d

  -- the loop over the events: the first failure ends it
  unfoldable pub forward_all : D → List DomainEvent → D × Option Message
  forward_all d [] = (d, none)
  forward_all d (e ∷ es) = forward_rest (λ d'. forward_all d' es) (downstream.publish d e)

module _ {V D : Type 0} (c : ListClient V) where
  unfoldable pub removed : V → D → ℕ → Answer V → (V × D) × Answer ℕ
  removed v d n (failed_with m) = ((v, d), failed_with m)
  removed v d n (answered v') = ((v', d), answered n)

  -- what was forwarded is removed
  unfoldable pub after_forward : V → ℕ → D × Option Message → (V × D) × Answer ℕ
  after_forward v n (d, some m) = ((v, d), failed_with m)
  after_forward v n (d, none) = removed v d n (ack c v n)

  unfoldable pub forward_drained :
      Downstream D → V → D → Answer (List DomainEvent) → (V × D) × Answer ℕ
  forward_drained downstream v d (failed_with m) = ((v, d), failed_with m)
  forward_drained downstream v d (answered []) = ((v, d), answered 0)
  forward_drained downstream v d (answered (e ∷ es)) =
      after_forward v (length (e ∷ es)) (forward_all downstream d (e ∷ es))

-- the end of a round: the next state, and how long the goroutine waits
unfoldable pub end_round :
    {V D : Type 0} → Config → ℕ → (V × D) × Answer ℕ → RelayState V D × Option ℕ
end_round cfg backoff ((v, d), failed_with m) = (
  record { list = v; down = d; backoff = min (backoff * backoff_multiplier) max_backoff },
  some backoff,
)
end_round cfg backoff ((v, d), answered n) = (
  record { list = v; down = d; backoff = cfg.poll_interval },
  if n == 0 then some cfg.poll_interval else none,
)

module _ {V D : Type 0} (c : ListClient V) (codec : Codec) (downstream : Downstream D) where
  unfoldable pub drain_and_forward : V → D → ℕ → (V × D) × Answer ℕ
  drain_and_forward v d batch_size = forward_drained c downstream v d (drain c codec v batch_size)

  unfoldable pub round : Config → RelayState V D → RelayState V D × Option ℕ
  round cfg s = end_round cfg s.backoff (drain_and_forward s.list s.down cfg.batch_size)

  unfoldable pub rounds : Config → ℕ → RelayState V D → RelayState V D
  rounds cfg zero s = s
  rounds cfg (suc n) s = rounds cfg n (round cfg s).0

-- the state that `loop` starts from
unfoldable pub start : {V D : Type 0} → Config → V → D → RelayState V D
start cfg v d = record { list = v; down = d; backoff = cfg.poll_interval }
