-- ===== src/Service/Invocations.antt =====
-- internal/app/invocation_store_memory.go: InMemoryInvocationStore, with its index by correlation.
-- Its operations do not fail.
pub mod Index
pub mod Matching
use underpass_runtime.Base.{◌||◌, Option, none, some, [], ◌∷◌, ◌++◌, is_empty, if◌then◌else◌}
use underpass_runtime.Text.{Text, trim_space}
use underpass_runtime.TextMap.{TextMap, get, put}
use underpass_runtime.Domain.{Invocation}

pub record InvocationStore : Type 0 where
  pub invocations : TextMap Invocation
  pub by_corr_key : TextMap Text

abbrev pub empty_store : InvocationStore
empty_store = record { invocations = []; by_corr_key = [] }

unfoldable pub join_key : Text → Text → Text → Text
join_key session_id tool_name correlation_id =
    if is_empty session_id || is_empty tool_name || is_empty correlation_id
    then []
    else session_id ++ (b'|' ∷ (tool_name ++ (b'|' ∷ correlation_id)))

-- empty: the invocation is not indexed
unfoldable pub correlation_lookup_key : Text → Text → Text → Text
correlation_lookup_key session_id tool_name correlation_id =
    join_key (trim_space session_id) (trim_space tool_name) (trim_space correlation_id)

unfoldable pub key_of : Invocation → Text
key_of inv = correlation_lookup_key inv.session_id inv.tool_name inv.correlation_id

-- the first invocation under a key stays
unfoldable pub put_if_absent : TextMap Text → Text → Text → TextMap Text
put_if_absent index key id =
    if is_empty key
    then index
    else elim (get index key) [ none ↦ put index key id | some _ ↦ index ]

unfoldable pub save : InvocationStore → Invocation → InvocationStore
save s inv = record {
  invocations = put s.invocations inv.id inv;
  by_corr_key = put_if_absent s.by_corr_key (key_of inv) inv.id;
}

unfoldable pub get_invocation : InvocationStore → Text → Option Invocation
get_invocation s id = get s.invocations id

unfoldable pub find_by_key : InvocationStore → Text → Option Invocation
find_by_key s key =
    if is_empty key
    then none
    else elim (get s.by_corr_key key) [ none ↦ none | some id ↦ get s.invocations id ]

unfoldable pub find_by_correlation : InvocationStore → Text → Text → Text → Option Invocation
find_by_correlation s session_id tool_name correlation_id =
    find_by_key s (correlation_lookup_key session_id tool_name correlation_id)
