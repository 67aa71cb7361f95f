-- ===== src/Examples/Sessions.antt =====
-- The tools that are listed for a session.
use underpass_runtime.Base.{refl, List, [], ◌∷◌}
use underpass_runtime.Text.{
  codes, text_eq, member, trim_space, trim_left, trim_right, snoc_space, is_space,
}
use underpass_runtime.Domain.{Invocation}
use underpass_runtime.Service.Ports.{Ports}
use underpass_runtime.Service.Runtime.{
  capability_supported_by_runtime, is_cluster, is_kubernetes, is_k8s_delivery_capability,
}
use underpass_runtime.Service.Listing.{
  text_less, insert_by_name, sort_by_name, keep_allowed, enabled_tools, sort_served, list_for,
  list_tools,
}
use underpass_runtime.Service.Listed.{IsListing, list_tools-IsListing}
use underpass_runtime.Examples.Inputs.{good_ports, note_tool, guarded_tool}

-- a catalogue of two tools, out of order
abbrev two_tools : Ports (List Invocation)
two_tools = record good_ports { catalog = guarded_tool ∷ note_tool ∷ [] }

list_tools-IsListing_example : IsListing two_tools (codes "s1") (note_tool ∷ guarded_tool ∷ [])
unfolding text_less insert_by_name sort_by_name keep_allowed enabled_tools sort_served list_for
    list_tools capability_supported_by_runtime is_cluster is_kubernetes is_k8s_delivery_capability
    member text_eq trim_space trim_left trim_right snoc_space is_space
list_tools-IsListing_example =
    list_tools-IsListing two_tools (codes "s1") (note_tool ∷ guarded_tool ∷ []) refl
