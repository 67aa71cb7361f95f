-- ===== src/Examples/Storage.antt =====
-- Stores over a map: a codec for one record.
use underpass_runtime.Base.{
  ℕ, ltb, ◌+◌, ◌==◌, ◌∙◌, arith, zero, ◌≡◌, refl, sym, ap, Bool, true, false, ◌&&◌, Option, none,
  some, List, [], ◌∷◌, &&-eq-true, if◌then◌else◌,
}
use underpass_runtime.Text.{
  split, push_char, Text, codes, text_eq, has_prefix, trim_space, trim_left, trim_right, snoc_space,
  is_space,
}
use underpass_runtime.Text.Laws.{text_eq_refl, eq_of_text_eq}
use underpass_runtime.TextMap.{TextMap, get, put, delete, get-put}
use underpass_runtime.Json.{ℤ, pos}
use underpass_runtime.Domain.{Invocation, Status, running, Artifact, Error}
use underpass_runtime.Service.Ports.{answered}
use underpass_runtime.Service.Reading.{find_artifact}
use underpass_runtime.Storage.Records.{
  InvocationEnvelope, to_envelope, Backend, ValkeyStore, key, failing, corr_key, correlation_key,
  index_invocation, write_envelope, save, find_by_correlation,
}
use underpass_runtime.Storage.Reload.{IsWorking}
use underpass_runtime.Storage.Loads.{shown, save_all}
use underpass_runtime.Storage.Series.{IsEscaping, find_by_correlation-save_all}
use underpass_runtime.Service.Invocations.Matching.{latest_belonging}
use underpass_runtime.Text.Parts.{LacksSeparator}
use underpass_runtime.Storage.Artifacts.{
  Entry, artifact_id_of, file_name_of, list_entries, stored_name,
}
use underpass_runtime.Storage.Names.{find-list_entries, IsSegment, stored_name-IsSegment}

answer_of : {A : Type 0} {a b : A} → answered a ≡ answered b → b ≡ a
answer_of h = cc

abbrev the_artifact : Artifact
the_artifact = record {
  id = codes "a";
  name = codes "o";
  path = [];
  content_type = [];
  size_bytes = 0;
  sha256 = [];
  created_at = 0;
}

abbrev the_record : Invocation
the_record = record {
  id = codes "i";
  session_id = codes "s";
  tool_name = codes "t";
  correlation_id = codes "c";
  status = running;
  started_at = 0;
  completed_at = none;
  duration_ms = 0;
  trace_name = [];
  span_name = [];
  exit_code = pos 0;
  output = none;
  output_ref = codes "a";
  logs = [];
  logs_ref = [];
  artifacts = the_artifact ∷ [];
  error = none;
}

abbrev the_envelope : InvocationEnvelope
the_envelope = record {
  id = codes "i";
  session_id = codes "s";
  tool_name = codes "t";
  correlation_id = codes "c";
  status = running;
  started_at = 0;
  completed_at = none;
  duration_ms = 0;
  trace_name = [];
  span_name = [];
  exit_code = pos 0;
  output_ref = codes "a";
  logs_ref = [];
  artifacts = the_artifact ∷ [];
  error = none;
}

abbrev artifact_test : Text → Text → Text → Text → ℕ → Text → ℕ → Bool
artifact_test id name [] [] zero [] zero = text_eq id (codes "a") && text_eq name (codes "o")
artifact_test _ _ _ _ _ _ _ = false

abbrev artifacts_test : List Artifact → Bool
artifacts_test [] = false
artifacts_test (x ∷ []) =
    artifact_test x.id x.name x.path x.content_type x.size_bytes x.sha256 x.created_at
artifacts_test (x ∷ y ∷ xs) = false

abbrev names_test : Text → Text → Text → Text → List Artifact → Bool
names_test session tool correlation ref artifacts =
    text_eq session (codes "s")
    && (text_eq tool (codes "t")
        && (text_eq correlation (codes "c")
            && (text_eq ref (codes "a") && artifacts_test artifacts)))

abbrev rest_test : Status → ℕ → Option ℕ → ℕ → Text → Text → ℤ → Text → Option Error → Bool
rest_test running zero none zero [] [] (pos zero) [] none = true
rest_test _ _ _ _ _ _ _ _ _ = false

abbrev envelope_test : InvocationEnvelope → Bool
envelope_test e =
    rest_test e.status e.started_at e.completed_at e.duration_ms e.trace_name e.span_name
      e.exit_code e.logs_ref e.error
    && names_test e.session_id e.tool_name e.correlation_id e.output_ref e.artifacts

artifact_known :
    (id name path kind : Text) (size : ℕ) (hash : Text) (at : ℕ)
    → artifact_test id name path kind size hash at ≡ true
    → ◌≡◌ {A = Artifact}
        (record {
          id = id;
          name = name;
          path = path;
          content_type = kind;
          size_bytes = size;
          sha256 = hash;
          created_at = at;
        })
        the_artifact
artifact_known id name [] [] zero [] zero h =
    let (a, b) = &&-eq-true _ _ h in rw (eq_of_text_eq _ _ a, eq_of_text_eq _ _ b) refl
artifact_known _ _ _ _ _ _ _ h = absurd (cc)

artifacts_known : (xs : List Artifact) → artifacts_test xs ≡ true → xs ≡ the_artifact ∷ []
artifacts_known [] h = absurd (cc)
artifacts_known (x ∷ []) h =
    ap (λ y. y ∷ [])
      (artifact_known x.id x.name x.path x.content_type x.size_bytes x.sha256 x.created_at h)
artifacts_known (x ∷ y ∷ xs) h = absurd (cc)

envelope_known :
    (status : Status) (started : ℕ) (completed : Option ℕ) (took : ℕ) (trace span : Text) (code : ℤ)
    (logs : Text) (error : Option Error) (id session tool correlation ref : Text)
    (artifacts : List Artifact)
    → rest_test status started completed took trace span code logs error ≡ true
    → names_test session tool correlation ref artifacts ≡ true
    → ◌≡◌ {A = InvocationEnvelope}
        (record {
          id = id;
          session_id = session;
          tool_name = tool;
          correlation_id = correlation;
          status = status;
          started_at = started;
          completed_at = completed;
          duration_ms = took;
          trace_name = trace;
          span_name = span;
          exit_code = code;
          output_ref = ref;
          logs_ref = logs;
          artifacts = artifacts;
          error = error;
        })
        (record the_envelope { id = id })
envelope_known running zero none zero [] [] (pos zero) [] none id s t c ref as' h k =
    let (b, k2) = &&-eq-true _ _ k in
    let (d, k3) = &&-eq-true _ _ k2 in
    let (e, k4) = &&-eq-true _ _ k3 in
    let (f, g) = &&-eq-true _ _ k4 in
    rw
      (
        eq_of_text_eq _ _ b,
        eq_of_text_eq _ _ d,
        eq_of_text_eq _ _ e,
        eq_of_text_eq _ _ f,
        artifacts_known as' g,
      )
      refl
envelope_known _ _ _ _ _ _ _ _ _ id s t c ref as' h k = absurd (cc)

-- A code without colons: the colon and what follows it move by one.
abbrev shift : ℕ → ℕ
shift c = if ltb c 58 then c else c + 1

abbrev shifted : Text → Text
shifted [] = []
shifted (c ∷ t) = shift c ∷ shifted t

shift_apart : (c : ℕ) → (shift c == b':') ≡ false
shift_apart c = ground arith

shift_inj : (c d : ℕ) → shift c ≡ shift d → c ≡ d
shift_inj c d h = ground arith

shifted-LacksSeparator : (t : Text) → LacksSeparator b':' (shifted t)
unfolding split push_char
shifted-LacksSeparator [] = refl
shifted-LacksSeparator (c ∷ t) = rw (shift_apart c, shifted-LacksSeparator t) refl

shifted_inj : (t u : Text) → shifted t ≡ shifted u → t ≡ u
shifted_inj [] [] h = refl
shifted_inj [] (d ∷ u) h = absurd (cc)
shifted_inj (c ∷ t) [] h = absurd (cc)
shifted_inj (c ∷ t) (d ∷ u) h =
    let e : shift c ≡ shift d = cc in
    let g : shifted t ≡ shifted u = cc in cc (shift_inj c d e, shifted_inj t u g)

shifted-IsEscaping : IsEscaping shifted
shifted-IsEscaping = record { lacks_colon = shifted-LacksSeparator; injective = shifted_inj }

abbrev set_if_absent : TextMap Text → Text → Text → Option Text → TextMap Text
set_if_absent v k t none = put v k t
set_if_absent v k t (some x) = v

abbrev backend : Backend (TextMap Text)
backend = record {
  get = λ v k. answered (get v k);
  set = λ v k t ttl. answered (put v k t);
  set_nx = λ v k t ttl. answered (set_if_absent v k t (get v k));
  encode = λ e. if envelope_test e then some e.id else none;
  decode = λ written. some (record the_envelope { id = written });
  query_escape = shifted;
}

codec_law :
    (e : InvocationEnvelope) (b : Bool) (written : Text)
    → envelope_test e ≡ b
    → (if b then some e.id else none) ≡ some written
    → some (record the_envelope { id = written }) ≡ some e
codec_law e false written t h = absurd (cc)
codec_law e true written t h =
    let (a, b) = &&-eq-true _ _ t in
    let same : e.id ≡ written = some_inj h in
    ap (λ w. some (record the_envelope { id = w })) (sym same)
    ∙ ap (λ x. some x)
        (sym (
          envelope_known e.status e.started_at e.completed_at e.duration_ms e.trace_name e.span_name
            e.exit_code e.logs_ref e.error e.id e.session_id e.tool_name e.correlation_id
            e.output_ref e.artifacts a b))
  where
    some_inj : {x y : Text} → some x ≡ some y → x ≡ y
    some_inj g = cc

set_law :
    (v v' : TextMap Text) (k t : Text)
    → v' ≡ put v k t
    → (answered (get v' k) ≡ answered (some t))
      × ((j : Text) → text_eq k j ≡ false → answered (get v' j) ≡ answered (get v j))
set_law v v' k t e =
    (rw (e, get-put v k k t, text_eq_refl k) refl, λ j other. rw (e, get-put v k j t, other) refl)

set_nx_law :
    (v v' : TextMap Text) (k t : Text) (held : Option Text)
    → get v k ≡ held
    → v' ≡ set_if_absent v k t held
    → (answered (get v k) ≡ answered none → answered (get v' k) ≡ answered (some t))
      × ((x : Text)
          → answered (get v k) ≡ answered (some x)
          → answered (get v' k) ≡ answered (some x))
      × ((j : Text) → text_eq k j ≡ false → answered (get v' j) ≡ answered (get v j))
set_nx_law v v' k t none g e =
    (λ absent. (set_law v v' k t e).0, λ x there. absurd (cc), (set_law v v' k t e).1)
set_nx_law v v' k t (some y) g e =
    (λ absent. absurd (cc), λ x there. rw e there, λ j other. rw e refl)

backend-IsWorking : IsWorking backend
backend-IsWorking = record {
  get_set = λ v v' k t ttl h. set_law v v' k t (answer_of h);
  get_set_nx = λ v v' k t ttl h. set_nx_law v v' k t (get v k) refl (answer_of h);
  decode_encode = λ e written h. codec_law e (envelope_test e) written refl h;
}

abbrev valkey : ValkeyStore
valkey = record { key_prefix = codes "p"; ttl = 0 }

-- Another invocation of the same session, tool and correlation id.
abbrev rival : Invocation
rival = record the_record { id = codes "k" }

abbrev series : List Invocation
series = the_record ∷ rival ∷ the_record ∷ []

abbrev saved_series : TextMap Text
saved_series =
    (codes "p:i", codes "i") ∷ (codes "p:k", codes "k") ∷ (codes "p:corr:t:u:d", codes "i") ∷ []

find_by_correlation-save_all_example :
    find_by_correlation backend valkey saved_series (codes "s") (codes "t") (codes "c")
    ≡ answered (shown (latest_belonging (codes "s") (codes "t") (codes "c") series))
unfolding key failing corr_key correlation_key index_invocation write_envelope save save_all
    to_envelope trim_space trim_left trim_right snoc_space is_space text_eq get put delete
    has_prefix
find_by_correlation-save_all_example =
    find_by_correlation-save_all backend valkey backend-IsWorking shifted-IsEscaping (codes "s")
      (codes "t") (codes "c") refl refl refl [] saved_series series (refl, (refl, (refl, tt)))
      (λ k. refl) refl

abbrev saved_file : Entry
saved_file = record {
  name = file_name_of (artifact_id_of (codes "0a")) (codes "out");
  is_dir = false;
  size = 3;
  hash = [];
  modified = 0;
}

find-list_entries_example :
    find_artifact (list_entries (codes "/a/i") (saved_file ∷ [])) (artifact_id_of (codes "0a"))
    ≡ none
find-list_entries_example =
    find-list_entries (codes "/a/i") (codes "0a") (saved_file ∷ [])
      ((codes "0a", codes "out", refl), tt)

stored_name-IsSegment_example : IsSegment (stored_name (codes "a/../b..c"))
stored_name-IsSegment_example = stored_name-IsSegment (codes "a/../b..c")
