-- ===== src/Eventbus/Progress.antt =====
-- When the relay makes progress: with healthy collaborators it empties the outbox, an entry that does
-- not decode stops it, and its waits are bounded.
use Prim.Native.Nat.{max}
use underpass_runtime.Base.{
  ℕ, zero, suc, ◌+◌, ◌-◌, ◌*◌, ◌≤◌, ◌<◌, ◌≡◌, refl, ap, sym, subst, ◌∙◌, Option, none, some, List,
  [], ◌∷◌, ◌++◌, take, drop, take-append-drop, subst₂, length, arith,
}
use mathlib.Core.List.{append_assoc, append-nil}
use underpass_runtime.Text.{Text}
use underpass_runtime.Domain.{Message, plain}
use underpass_runtime.Service.Ports.{Answer, answered, failed_with, DomainEvent}
use underpass_runtime.Eventbus.Outbox.{
  ListClient, Codec, cons_decoded, decode_all, decode_range, drain, in_context, ack,
}
use underpass_runtime.Eventbus.Relay.{
  Downstream, Config, RelayState, forward_rest, forward_all, removed, after_forward,
  forward_drained, drain_and_forward, end_round, round, rounds, start, max_backoff,
}
use underpass_runtime.Eventbus.Delivery.{Decodes, nothing, entry}

-- The server's operations succeed.
pub record IsUp {V : Type 0} (c : ListClient V) : Type 0 where
  pub pushes : (v : V) (x : Text) → (v' : V) × (c.rpush v x ≡ answered v')
  pub ranges : (v : V) (stop : ℕ) → (xs : List Text) × (c.lrange v 0 stop ≡ answered xs)
  pub trims : (v : V) (n : ℕ) → (v' : V) × (c.ltrim_from v n ≡ answered v')

-- The downstream accepts every event.
abbrev pub Accepts : {D : Type 0} → Downstream D → Type 0
Accepts {D} downstream =
    (d : D) (e : DomainEvent) → (d' : D) × (downstream.publish d e ≡ (d', none))

decode_all-of :
    {codec : Codec} {xs : List Text} {es : List DomainEvent}
    → Decodes codec xs es
    → decode_all codec xs ≡ answered es
unfolding decode_all cons_decoded
decode_all-of nothing = refl
decode_all-of (entry d s) = rw (d, decode_all-of s) refl

Decodes-take :
    {codec : Codec} (k : ℕ) {xs : List Text} {es : List DomainEvent}
    → Decodes codec xs es
    → Decodes codec (take k xs) (take k es)
Decodes-take zero s = nothing
Decodes-take (suc k) nothing = nothing
Decodes-take (suc k) (entry d s) = entry d (Decodes-take k s)

Decodes-drop :
    {codec : Codec} (k : ℕ) {xs : List Text} {es : List DomainEvent}
    → Decodes codec xs es
    → Decodes codec (drop k xs) (drop k es)
Decodes-drop zero s = s
Decodes-drop (suc k) nothing = nothing
Decodes-drop (suc k) (entry d s) = Decodes-drop k s

module _ {V : Type 0} (c : ListClient V) (codec : Codec) (up : IsUp c) where
  -- What Drain reads.
  pub drain-take :
      (v : V) (b : ℕ) (es : List DomainEvent)
      → 0 < b
      → Decodes codec (c.items v) es
      → drain c codec v b ≡ answered (take b es)
  unfolding drain decode_range
  drain-take v b es h s =
      let (xs, e) = up.ranges v (b - 1) in
      let b' : b - 1 + 1 ≡ b = omega arith in
      let t = c.lrange-items v (b - 1) xs e in
      rw e (
        decode_all-of (
          subst (λ l. Decodes codec l (take b es)) (sym (t ∙ ap (λ k. take k (c.items v)) b'))
            (Decodes-take b s)))

forward_all-whole :
    {D : Type 0} (downstream : Downstream D)
    → Accepts downstream
    → (d : D) (es : List DomainEvent)
    → (d' : D) × (forward_all downstream d es ≡ (d', none))
      × (downstream.received d' ≡ downstream.received d ++ es)
unfolding forward_all forward_rest
forward_all-whole downstream accepts d [] = (d, refl, sym (append-nil _))
forward_all-whole downstream accepts d (e ∷ es) =
    let (d1, h) = accepts d e in
    let (d2, g, r) = forward_all-whole downstream accepts d1 es in
    (
      d2,
      rw h g,
      r
          ∙ ap (λ t. t ++ es) (downstream.received-publish d d1 e h)
          ∙ append_assoc (downstream.received d) (e ∷ []) es,
    )

drop-length-take : {A : Type 0} (b : ℕ) (xs : List A) → drop (length (take b xs)) xs ≡ drop b xs
drop-length-take zero xs = refl
drop-length-take (suc b) [] = refl
drop-length-take (suc b) (x ∷ xs) = drop-length-take b xs

length-drop : {A : Type 0} (b n : ℕ) (xs : List A) → length xs ≤ b + n → length (drop b xs) ≤ n
length-drop zero n xs h = omega arith
length-drop (suc b) n [] h = omega arith
length-drop (suc b) n (x ∷ xs) h = length-drop b n xs (omega arith)

module _ {V D : Type 0} (c : ListClient V) (codec : Codec) (downstream : Downstream D)
    (cfg : Config) (up : IsUp c) (accepts : Accepts downstream) where
  -- The state after a round that forwards a batch.
  abbrev Forwarded : RelayState V D → List DomainEvent → RelayState V D → Type 0
  Forwarded s es s' =
      Decodes codec (c.items s'.list) (drop cfg.batch_size es)
      × (downstream.received s'.down ≡ downstream.received s.down ++ take cfg.batch_size es)

  batch-Forwarded :
      (s : RelayState V D) (es : List DomainEvent)
      → Decodes codec (c.items s.list) es
      → (a : List DomainEvent) → a ≡ take cfg.batch_size es
      → Forwarded s es
          (end_round cfg s.backoff (forward_drained c downstream s.list s.down (answered a))).0
  unfolding end_round forward_drained after_forward removed ack in_context
  batch-Forwarded s es ds [] h = (
    subst (Decodes codec (c.items s.list)) (nothing_taken cfg.batch_size es h) ds,
    rw (sym h) (sym (append-nil _)),
  )
    where
      nothing_taken : (b : ℕ) (es : List DomainEvent) → [] ≡ take b es → es ≡ drop b es
      nothing_taken zero es h = refl
      nothing_taken (suc b) [] h = refl
      nothing_taken (suc b) (e ∷ es) h = absurd (cc)
  batch-Forwarded s es ds (e ∷ a) h =
      let (d', f, r) = forward_all-whole downstream accepts s.down (e ∷ a) in
      let (v', t) = up.trims s.list (length (e ∷ a)) in
      rw (f, t)
        (
          subst₂ (Decodes codec) (sym (c.items-ltrim_from s.list v' (length (e ∷ a)) t))
              (ap (λ l. drop (length l) es) h ∙ drop-length-take cfg.batch_size es)
              (Decodes-drop (length (e ∷ a)) ds),
          r ∙ ap (λ l. downstream.received s.down ++ l) h,
        )

  round-Forwarded :
      (s : RelayState V D) (es : List DomainEvent)
      → 0 < cfg.batch_size
      → Decodes codec (c.items s.list) es
      → Forwarded s es (round c codec downstream cfg s).0
  unfolding round drain_and_forward
  round-Forwarded s es h ds =
      rw (drain-take c codec up s.list cfg.batch_size es h ds) (batch-Forwarded s es ds _ refl)

  empty_items : {xs : List Text} → Decodes codec xs [] → xs ≡ []
  empty_items nothing = refl

  -- With a server whose operations succeed and a downstream that accepts every event, an outbox whose
  -- entries decode is empty after as many rounds as it has batches, and the downstream has received
  -- every event exactly once, in order.
  pub rounds_empty :
      (n : ℕ) (s : RelayState V D) (es : List DomainEvent)
      → 0 < cfg.batch_size
      → Decodes codec (c.items s.list) es
      → length es ≤ n * cfg.batch_size
      → let s' = rounds c codec downstream cfg n s in
        (c.items s'.list ≡ []) × (downstream.received s'.down ≡ downstream.received s.down ++ es)
  unfolding rounds
  rounds_empty zero s [] h ds l = (empty_items ds, sym (append-nil _))
  rounds_empty zero s (e ∷ es) h ds l = absurd (omega arith)
  rounds_empty (suc n) s es h ds l =
      let (ds', r) = round-Forwarded s es h ds in
      let (done, got) =
        rounds_empty n (round c codec downstream cfg s).0 (drop cfg.batch_size es) h ds'
          (length-drop cfg.batch_size (n * cfg.batch_size) es (grind arith)) in
      (
        done,
        got
            ∙ ap (λ l. l ++ drop cfg.batch_size es) r
            ∙ append_assoc (downstream.received s.down) _ _
            ∙ ap (λ l. downstream.received s.down ++ l) (take-append-drop cfg.batch_size es),
      )

module _ {V D : Type 0} (c : ListClient V) (codec : Codec) (downstream : Downstream D)
    (cfg : Config) where
  poisoned_drain :
      (v : V) (x : Text) (xs : List Text) (b : ℕ)
      → c.items v ≡ x ∷ xs
      → codec.decode x ≡ none
      → (r : Answer (List Text)) → c.lrange v 0 (b - 1) ≡ r
      → (m : Message) × (decode_range codec r ≡ failed_with m)
  unfolding decode_range
  poisoned_drain v x xs b h p (failed_with m) e = (_, refl)
  poisoned_drain v x xs b h p (answered ys) e =
      first_fails ys (c.lrange-items v (b - 1) ys e ∙ ap (take (b - 1 + 1)) h)
    where
      count : b - 1 + 1 ≡ suc (b - 1)
      count = omega arith

      first_fails :
          (ys : List Text)
          → ys ≡ take (b - 1 + 1) (x ∷ xs)
          → (m : Message) × (decode_all codec ys ≡ failed_with m)
      first_fails ys g =
          rw (g ∙ ap (λ k. take k (x ∷ xs)) count)
            (plain "unmarshal outbox event", unfold decode_all cons_decoded in rw p refl)

  round_poisoned :
      (s : RelayState V D) (x : Text) (xs : List Text)
      → c.items s.list ≡ x ∷ xs
      → codec.decode x ≡ none
      → let s' = (round c codec downstream cfg s).0 in (s'.list ≡ s.list) × (s'.down ≡ s.down)
  unfolding round drain_and_forward drain forward_drained end_round
  round_poisoned s x xs h p =
      let (m, e) = poisoned_drain s.list x xs cfg.batch_size h p _ refl in rw e (refl, refl)

  -- An entry at the head of the outbox that does not decode stops the relay: in however many rounds,
  -- whatever the server answers, the outbox stays as it is and the downstream receives nothing.
  pub rounds_poisoned :
      (n : ℕ) (s : RelayState V D) (x : Text) (xs : List Text)
      → c.items s.list ≡ x ∷ xs
      → codec.decode x ≡ none
      → let s' = rounds c codec downstream cfg n s in (s'.list ≡ s.list) × (s'.down ≡ s.down)
  unfolding rounds
  rounds_poisoned zero s x xs h p = (refl, refl)
  rounds_poisoned (suc n) s x xs h p =
      let (l, d) = round_poisoned s x xs h p in
      let (l', d') =
        rounds_poisoned n (round c codec downstream cfg s).0 x xs (ap c.items l ∙ h) p in
      (l' ∙ l, d' ∙ d)

  abbrev Bounded : RelayState V D × Option ℕ → Type 0
  Bounded (s, o) =
      (s.backoff ≤ max cfg.poll_interval max_backoff)
      × ((wait : ℕ) → o ≡ some wait → wait ≤ max cfg.poll_interval max_backoff)

  end_round-Bounded :
      (backoff : ℕ) (r : (V × D) × Answer ℕ)
      → backoff ≤ max cfg.poll_interval max_backoff
      → Bounded (end_round cfg backoff r)
  unfolding end_round
  end_round-Bounded backoff ((v, d), failed_with m) h = (omega arith, λ w e. ground arith)
  end_round-Bounded backoff ((v, d), answered n) h = (omega arith, λ w e. ground arith)

  rounds_backoff :
      (n : ℕ) (s : RelayState V D)
      → s.backoff ≤ max cfg.poll_interval max_backoff
      → (rounds c codec downstream cfg n s).backoff ≤ max cfg.poll_interval max_backoff
  unfolding rounds round
  rounds_backoff zero s h = h
  rounds_backoff (suc n) s h = rounds_backoff n _ (end_round-Bounded s.backoff _ h).0

  -- However many rounds were made since the loop started, the relay waits after the next one no longer
  -- than its poll interval or 30 seconds, whichever is more.
  pub round_waits :
      (n wait : ℕ) (v : V) (d : D)
      → (round c codec downstream cfg (rounds c codec downstream cfg n (start cfg v d))).1
        ≡ some wait
      → wait ≤ max cfg.poll_interval max_backoff
  unfolding round start
  round_waits n wait v d h =
      (end_round-Bounded _ _ (rounds_backoff n (start cfg v d) (omega arith))).1 wait h
