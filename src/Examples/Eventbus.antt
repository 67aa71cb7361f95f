-- ===== src/Examples/Eventbus.antt =====
-- The outbox and its relay on a server and a downstream that are lists.
use underpass_runtime.Base.{
  ℕ, ◌+◌, ◌-◌, ◌≡◌, refl, sym, ap, Option, none, some, List, [], ◌∷◌, ◌++◌, take, drop, length,
  arith,
}
use underpass_runtime.Text.{Text, codes}
use underpass_runtime.Domain.{Message}
use underpass_runtime.Service.Ports.{answered, DomainEvent, Payload, invocation_started}
use underpass_runtime.Eventbus.Outbox.{ListClient, Codec, publish, push_entry, in_context, drain}
use underpass_runtime.Eventbus.Relay.{Downstream, Config, RelayState, rounds, start}
use underpass_runtime.Eventbus.Delivery.{Decodes, nothing, entry, Delivered, rounds-Delivered}
use underpass_runtime.Eventbus.Progress.{IsUp, rounds_empty, rounds_poisoned}
use underpass_runtime.Eventbus.Stored.{IsFaithful, publish_all, publish_next, drain-publish_all}

answer_of : {A : Type 0} {a b : A} → answered a ≡ answered b → b ≡ a
answer_of h = cc

abbrev list_client : ListClient (List Text)
list_client = record {
  items = λ v. v;
  rpush = λ v x. answered (v ++ (x ∷ []));
  lrange = λ v first last. answered (take (last + 1 - first) (drop first v));
  llen = λ v. answered (length v);
  ltrim_from = λ v n. answered (drop n v);
  items-rpush = λ v v' x h. answer_of h;
  lrange-items = λ v last xs h. cc (answer_of h, whole last v);
  llen-items = λ v n h. answer_of h;
  items-ltrim_from = λ v v' n h. answer_of h;
}
  where
    whole : (last : ℕ) (v : List Text) → take (last + 1 - 0) v ≡ take (last + 1) v
    whole last v = ap (λ n. take n v) (omega arith)

abbrev event : Text → DomainEvent
event id = record {
  session_id = [];
  tenant_id = [];
  actor_id = [];
  payload = invocation_started id [] [];
}

-- A codec for the events of that kind: the text is the id.
abbrev encode_parts : Text → Text → Text → Payload → Option Text
encode_parts [] [] [] (invocation_started id [] []) = some (codes "e" ++ id)
encode_parts _ _ _ _ = none

abbrev decode_id : Text → Option DomainEvent
decode_id [] = none
decode_id (c ∷ id) = some (event id)

abbrev codec : Codec
codec = record {
  encode = λ e. encode_parts e.session_id e.tenant_id e.actor_id e.payload;
  decode = decode_id;
}

abbrev receiver : Downstream (List DomainEvent)
receiver = record {
  received = λ d. d;
  publish = λ d e. (d ++ (e ∷ []), none);
  received-publish = λ d d' e h. sym (ap (λ (r : List DomainEvent × Option Message). r.0) h);
  received-failed =
      λ d d' e m h. absurd (cc (ap (λ (r : List DomainEvent × Option Message). r.1) h));
}

abbrev two_entries : List Text
two_entries = codes "e1" ∷ codes "e2" ∷ []

abbrev two_events : List DomainEvent
two_events = event (codes "1") ∷ event (codes "2") ∷ []

abbrev two_entries-Decodes : Decodes codec two_entries two_events
two_entries-Decodes = entry refl (entry refl nothing)

abbrev up : IsUp list_client
up = record { pushes = λ v x. (_, refl); ranges = λ v last. (_, refl); trims = λ v n. (_, refl) }

abbrev config : Config
config = record { batch_size = 1; poll_interval = 5 }

abbrev started : RelayState (List Text) (List DomainEvent)
started = start config two_entries []

rounds-Delivered_example :
    let s' = rounds list_client codec receiver config 1 started in
    Delivered list_client codec receiver started.list started.down s'.list s'.down
rounds-Delivered_example = rounds-Delivered list_client codec receiver config 1 started

rounds_empty_example :
    let s' =
      rounds list_client codec receiver config 2
        (record { list = two_entries; down = []; backoff = 5 }) in
    (s'.list ≡ []) × (s'.down ≡ two_events)
rounds_empty_example =
    rounds_empty list_client codec receiver config up (λ d e. (_, refl)) 2
      (record { list = two_entries; down = []; backoff = 5 }) two_events (omega arith)
      two_entries-Decodes (omega arith)

rounds_poisoned_example :
    let s' =
      rounds list_client codec receiver config 9
        (record { list = [] ∷ two_entries; down = []; backoff = 5 }) in
    (s'.list ≡ [] ∷ two_entries) × (s'.down ≡ [])
rounds_poisoned_example =
    rounds_poisoned list_client codec receiver config 9
      (record { list = [] ∷ two_entries; down = []; backoff = 5 }) [] two_entries refl refl

encoded-IsFaithful :
    (s t a : Text) (payload : Payload) (x : Text)
    → encode_parts s t a payload ≡ some x
    → decode_id x ≡ some (record { session_id = s; tenant_id = t; actor_id = a; payload = payload })
encoded-IsFaithful [] [] [] (invocation_started id [] []) x h =
    let e : codes "e" ++ id ≡ x = cc in rw (sym e) refl
encoded-IsFaithful _ _ _ _ x h = absurd (cc)

abbrev codec-IsFaithful : IsFaithful codec
codec-IsFaithful = λ e x h. encoded-IsFaithful e.session_id e.tenant_id e.actor_id e.payload x h

drain-publish_all_example :
    drain list_client codec (two_entries ++ (codes "e3" ∷ [])) 2 ≡ answered two_events
unfolding publish_all publish_next publish push_entry in_context
drain-publish_all_example =
    drain-publish_all list_client codec (event (codes "3") ∷ []) two_events two_entries
      (two_entries ++ (codes "e3" ∷ [])) 2 codec-IsFaithful up two_entries-Decodes refl
      (omega arith)
