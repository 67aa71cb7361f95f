-- ===== src/Eventbus/Delivery.antt =====
-- At-least-once delivery, in order: nothing leaves the outbox that was not received.
use underpass_runtime.Base.{
  ℕ, zero, suc, ◌+◌, ◌-◌, ◌≡◌, refl, ap, sym, subst, ◌∙◌, inl, inr, Option, none, some, List, [],
  ◌∷◌, ◌++◌, take, drop, length,
}
use mathlib.Core.List.{append_assoc, append-nil}
use underpass_runtime.Text.{Text}
use underpass_runtime.Domain.{Message}
use underpass_runtime.Service.Ports.{Answer, answered, failed_with, DomainEvent}
use underpass_runtime.Eventbus.Outbox.{
  ListClient, Codec, cons_decoded, decode_all, decode_range, drain, in_context, ack,
}
use underpass_runtime.Eventbus.Relay.{
  Downstream, Config, RelayState, forward_rest, forward_all, removed, after_forward,
  forward_drained, drain_and_forward, end_round, round, rounds,
}

answered_inj : {A : Type 0} {a b : A} → answered a ≡ answered b → a ≡ b
answered_inj h = cc

-- The events of the first list stand in the second, in the same order.
pub data Sublist {A : Type 0} : List A → List A → Type 0 where
  done : Sublist [] []
  keep : {x : A} {xs ys : List A} → Sublist xs ys → Sublist (x ∷ xs) (x ∷ ys)
  skip : {y : A} {xs ys : List A} → Sublist xs ys → Sublist xs (y ∷ ys)

none_of : {A : Type 0} (ys : List A) → Sublist [] ys
none_of [] = done
none_of (y ∷ ys) = skip (none_of ys)

same_list : {A : Type 0} (xs : List A) → Sublist xs xs
same_list [] = done
same_list (x ∷ xs) = keep (same_list xs)

Sublist-append :
    {A : Type 0} {xs ys us vs : List A}
    → Sublist xs ys
    → Sublist us vs
    → Sublist (xs ++ us) (ys ++ vs)
Sublist-append done t = t
Sublist-append (keep s) t = keep (Sublist-append s t)
Sublist-append (skip s) t = skip (Sublist-append s t)

-- The entries decode to the events, one by one.
pub data Decodes (codec : Codec) : List Text → List DomainEvent → Type 0 where
  nothing : Decodes codec [] []
  entry :
      {x : Text} {e : DomainEvent} {xs : List Text} {es : List DomainEvent}
      → codec.decode x ≡ some e
      → Decodes codec xs es
      → Decodes codec (x ∷ xs) (e ∷ es)

pub Decodes-append :
    {codec : Codec} {xs ys : List Text} {es fs : List DomainEvent}
    → Decodes codec xs es
    → Decodes codec ys fs
    → Decodes codec (xs ++ ys) (es ++ fs)
Decodes-append nothing t = t
Decodes-append (entry e s) t = entry e (Decodes-append s t)

length-Decodes :
    {codec : Codec} {xs : List Text} {es : List DomainEvent}
    → Decodes codec xs es
    → length xs ≡ length es
length-Decodes nothing = refl
length-Decodes (entry e s) = ap suc (length-Decodes s)

module _ (codec : Codec) where
  cons-Decodes :
      (x : Text) (xs : List Text) (o : Option DomainEvent) (r : Answer (List DomainEvent))
      (es : List DomainEvent)
      → codec.decode x ≡ o
      → ((fs : List DomainEvent) → r ≡ answered fs → Decodes codec xs fs)
      → cons_decoded codec o r ≡ answered es
      → Decodes codec (x ∷ xs) es
  unfolding cons_decoded
  cons-Decodes x xs none r es d ih h = absurd (cc)
  cons-Decodes x xs (some e) (failed_with m) es d ih h = absurd (cc)
  cons-Decodes x xs (some e) (answered fs) es d ih h =
      subst (Decodes codec (x ∷ xs)) (answered_inj h) (entry d (ih fs refl))

  pub decode_all-Decodes :
      (xs : List Text) (es : List DomainEvent)
      → decode_all codec xs ≡ answered es
      → Decodes codec xs es
  unfolding decode_all
  decode_all-Decodes [] es h = subst (Decodes codec []) (answered_inj h) nothing
  decode_all-Decodes (x ∷ xs) es h =
      cons-Decodes x xs (codec.decode x) (decode_all codec xs) es refl (decode_all-Decodes xs) h

-- What a downstream received in a series of attempts: the events in order, up to a failure.
abbrev pub Sent : {D : Type 0} → Downstream D → D → List DomainEvent → D × Option Message → Type 0
Sent downstream d es (d', r) =
    (sent : List DomainEvent) × (downstream.received d' ≡ downstream.received d ++ sent)
    × (r ≡ none → sent ≡ es)

module _ {D : Type 0} (downstream : Downstream D) where
  next-Sent :
      (d : D) (e : DomainEvent) (es : List DomainEvent) (next : D → D × Option Message)
      → ((d' : D) → Sent downstream d' es (next d'))
      → (r : D × Option Message) → downstream.publish d e ≡ r
      → Sent downstream d (e ∷ es) (forward_rest downstream next r)
  unfolding forward_rest
  next-Sent d e es next ih (d', some m) h = elim (downstream.received-failed d d' e m h) [
    | inl same ↦ ([], same ∙ sym (append-nil _), λ n. absurd (cc))
    | inr more ↦ (e ∷ [], more, λ n. absurd (cc))
  ]
  next-Sent d e es next ih (d', none) h =
      let (sent, grows, whole) = ih d' in
      (
        e ∷ sent,
        grows
            ∙ ap (λ xs. xs ++ sent) (downstream.received-publish d d' e h)
            ∙ append_assoc (downstream.received d) (e ∷ []) sent,
        λ n. ap (λ xs. e ∷ xs) (whole n),
      )

  pub forward_all-Sent :
      (d : D) (es : List DomainEvent) → Sent downstream d es (forward_all downstream d es)
  unfolding forward_all
  forward_all-Sent d [] = ([], sym (append-nil _), λ e. refl)
  forward_all-Sent d (e ∷ es) =
      next-Sent d e es (λ d'. forward_all downstream d' es) (λ d'. forward_all-Sent d' es) _ refl

take-append-rest : {A : Type 0} (k : ℕ) (l : List A) → l ≡ take k l ++ drop (length (take k l)) l
take-append-rest zero l = refl
take-append-rest (suc k) [] = refl
take-append-rest (suc k) (x ∷ l) = ap (λ t. x ∷ t) (take-append-rest k l)

-- Between two states, the entries that left the outbox are the oldest ones, and the events that they
-- hold stand, in their order, among those that the downstream received in between.
pub record Delivered {V D : Type 0} (c : ListClient V) (codec : Codec) (downstream : Downstream D)
    (v : V) (d : D) (v' : V) (d' : D) : Type 0 where
  pub gone : List Text
  pub events : List DomainEvent
  pub got : List DomainEvent
  pub items : c.items v ≡ gone ++ c.items v'
  pub decodes : Decodes codec gone events
  pub received : downstream.received d' ≡ downstream.received d ++ got
  pub in_order : Sublist events got

module _ {V D : Type 0} (c : ListClient V) (codec : Codec) (downstream : Downstream D) where
  Delivered-trans :
      {v v' v'' : V} {d d' d'' : D}
      → Delivered c codec downstream v d v' d'
      → Delivered c codec downstream v' d' v'' d''
      → Delivered c codec downstream v d v'' d''
  Delivered-trans a b = record {
    gone = a.gone ++ b.gone;
    events = a.events ++ b.events;
    got = a.got ++ b.got;
    items = a.items ∙ ap (λ t. a.gone ++ t) b.items ∙ sym (append_assoc a.gone b.gone _);
    decodes = Decodes-append a.decodes b.decodes;
    received =
        b.received
        ∙ ap (λ t. t ++ b.got) a.received
        ∙ append_assoc (downstream.received _) a.got b.got;
    in_order = Sublist-append a.in_order b.in_order;
  }

  -- Nothing left the outbox, and some events may have been received.
  kept :
      (v : V) (d d' : D) (got : List DomainEvent)
      → downstream.received d' ≡ downstream.received d ++ got
      → Delivered c codec downstream v d v d'
  kept v d d' got e = record {
    gone = [];
    events = [];
    got = got;
    items = refl;
    decodes = nothing;
    received = e;
    in_order = none_of got;
  }

  unchanged : (v : V) (d : D) → Delivered c codec downstream v d v d
  unchanged v d = kept v d d [] (sym (append-nil _))

  removed-Delivered :
      (v : V) (d d' : D) (xs : List Text) (es : List DomainEvent) (k : ℕ)
      → xs ≡ take k (c.items v)
      → Decodes codec xs es
      → downstream.received d' ≡ downstream.received d ++ es
      → (r : Answer V) → c.ltrim_from v (length es) ≡ r
      → let ((v', d''), a) = removed c v d' (length es) (in_context "ltrim outbox" r) in
        Delivered c codec downstream v d v' d''
  unfolding removed in_context
  removed-Delivered v d d' xs es k t ds got (failed_with m) h = kept v d d' es got
  removed-Delivered v d d' xs es k t ds got (answered v') h = record {
    gone = xs;
    events = es;
    got = es;
    items =
        take-append-rest k (c.items v)
        ∙ rw (sym t, length-Decodes ds, sym (c.items-ltrim_from v v' (length es) h)) refl;
    decodes = ds;
    received = got;
    in_order = same_list es;
  }

  forwarded-Delivered :
      (v : V) (d : D) (xs : List Text) (es : List DomainEvent) (k : ℕ)
      → xs ≡ take k (c.items v)
      → Decodes codec xs es
      → (r : D × Option Message) → Sent downstream d es r
      → let ((v', d'), a) = after_forward c v (length es) r in
        Delivered c codec downstream v d v' d'
  unfolding after_forward ack
  forwarded-Delivered v d xs es k t ds (d', some m) (sent, grows, whole) = kept v d d' sent grows
  forwarded-Delivered v d xs es k t ds (d', none) (sent, grows, whole) =
      removed-Delivered v d d' xs es k t ds
        (grows ∙ ap (λ l. downstream.received d ++ l) (whole refl)) (c.ltrim_from v (length es))
        refl

  drained-Delivered :
      (v : V) (d : D) (k : ℕ) (r : Answer (List Text))
      → ((xs : List Text) → r ≡ answered xs → xs ≡ take k (c.items v))
      → (a : Answer (List DomainEvent)) → decode_range codec r ≡ a
      → let ((v', d'), b) = forward_drained c downstream v d a in
        Delivered c codec downstream v d v' d'
  unfolding forward_drained decode_range
  drained-Delivered v d k r t (failed_with m) h = unchanged v d
  drained-Delivered v d k r t (answered []) h = unchanged v d
  drained-Delivered v d k (failed_with m) t (answered (e ∷ es)) h = absurd (cc)
  drained-Delivered v d k (answered xs) t (answered (e ∷ es)) h =
      forwarded-Delivered v d xs (e ∷ es) k (t xs refl) (decode_all-Decodes codec xs (e ∷ es) h) _
        (forward_all-Sent downstream d (e ∷ es))

  drain_and_forward-Delivered :
      (v : V) (d : D) (b : ℕ)
      → let ((v', d'), a) = drain_and_forward c codec downstream v d b in
        Delivered c codec downstream v d v' d'
  unfolding drain_and_forward drain
  drain_and_forward-Delivered v d b =
      drained-Delivered v d (b - 1 + 1) (c.lrange v 0 (b - 1))
        (λ xs e. c.lrange-items v (b - 1) xs e) _ refl

  end_round-Delivered :
      (cfg : Config) (backoff : ℕ) (v : V) (d : D) (r : (V × D) × Answer ℕ)
      → (let ((v', d'), a) = r in Delivered c codec downstream v d v' d')
      → let s = (end_round cfg backoff r).0 in Delivered c codec downstream v d s.list s.down
  unfolding end_round
  end_round-Delivered cfg backoff v d ((v', d'), failed_with m) h = h
  end_round-Delivered cfg backoff v d ((v', d'), answered n) h = h

  -- However many rounds the relay makes, and whatever fails in them, the entries that have left the
  -- outbox are the oldest ones, they decode, and their events stand in their order among those that
  -- the downstream received: no event is lost, though one may be received again.
  pub rounds-Delivered :
      (cfg : Config) (n : ℕ) (s : RelayState V D)
      → let s' = rounds c codec downstream cfg n s in
        Delivered c codec downstream s.list s.down s'.list s'.down
  unfolding rounds round
  rounds-Delivered cfg zero s = unchanged s.list s.down
  rounds-Delivered cfg (suc n) s =
      Delivered-trans
        (end_round-Delivered cfg s.backoff s.list s.down _
          (drain_and_forward-Delivered s.list s.down cfg.batch_size))
        (rounds-Delivered cfg n (round c codec downstream cfg s).0)
