-- ===== src/Examples/Grpc.antt =====
-- Calls over gRPC: a configuration with a shared token, and the principal of the session.
use underpass_runtime.Base.{
  ◌≡◌, ◌⊎◌, refl, inl, Bool, true, none, some, List, [], ◌∷◌, if◌then◌else◌,
}
use underpass_runtime.Text.{
  Text, codes, text_eq, trim_space, trim_left, trim_right, snoc_space, is_space, to_lower, lower,
}
use underpass_runtime.Domain.{Principal, Invocation}
use underpass_runtime.Service.Ports.{World}
use underpass_runtime.Service.Access.{
  same_principal_identity, check_owner, validate_session_access, check_invocation_owner,
  validate_invocation_access,
}
use underpass_runtime.Service.Tally.{tally}
use underpass_runtime.Service.Complete.{new_invocation}
use underpass_runtime.Service.Reading.{hydrate_output_by_ref, serve, hydrate_found}
use underpass_runtime.Service.Reading
use underpass_runtime.Grpc.Auth.{
  AuthConfig, default_auth_config, auth_mode_trusted_headers, or_default, header_name,
  read_auth_config, check_headers, check_auth_config, auth_config_from_env, auth_enabled, Reply,
  replied, Context, unary_auth_interceptor,
}
use underpass_runtime.Grpc.Admission.{IsGuarded, Admits, unary_auth_interceptor-Admits}
use underpass_runtime.Grpc.Server
use underpass_runtime.Grpc.Access.{RunsFor, invoke_tool-RunsFor, Gives}
use underpass_runtime.Examples.Inputs.{admin_session, good_ports, note_call, note_tool, new_world}

-- `TRUSTED_HEADERS` and a token with space around it
abbrev environment : Text → Text
environment key =
    if text_eq key (codes "WORKSPACE_AUTH_MODE")
    then codes "TRUSTED_HEADERS"
    else if text_eq key (codes "WORKSPACE_AUTH_SHARED_TOKEN")
    then codes " k1 "
    else []

abbrev trusted : AuthConfig
trusted = record default_auth_config { mode = auth_mode_trusted_headers; shared_token = codes "k1" }

-- metadata that has the same value under every key
abbrev incoming : Context
incoming = record { metadata = some (λ key. codes "k1" ∷ []); principal = none }

abbrev whoami : Context → List Text → Reply Bool × List Text
whoami ctx w = (replied true, codes "called" ∷ w)

unary_auth_interceptor-Admits_example :
    IsGuarded trusted
    × Admits trusted whoami incoming [] (unary_auth_interceptor trusted whoami incoming [])
unfolding text_eq or_default header_name read_auth_config check_headers check_auth_config
    auth_config_from_env auth_enabled trim_space trim_left trim_right snoc_space is_space to_lower
    lower
unary_auth_interceptor-Admits_example =
    unary_auth_interceptor-Admits trusted whoami incoming [] environment refl refl

abbrev owner : Principal
owner = admin_session.principal

abbrev by_owner : Context
by_owner = record { metadata = none; principal = some owner }

invoke_tool-RunsFor_example :
    ((tally (Server.invoke_tool good_ports by_owner note_call new_world).1).runs
      ≡ (tally new_world).runs)
    ⊎ RunsFor good_ports by_owner note_call new_world owner
        (Server.invoke_tool good_ports by_owner note_call new_world).1
unfolding trim_space trim_left trim_right snoc_space is_space
invoke_tool-RunsFor_example =
    invoke_tool-RunsFor good_ports by_owner note_call new_world owner refl refl

abbrev stored_one : World (List Invocation)
stored_one = record new_world { store = new_invocation note_call note_tool ∷ [] }

abbrev given_one : Gives good_ports by_owner (codes "i1") stored_one owner
unfolding text_eq trim_space trim_left trim_right snoc_space is_space same_principal_identity
    check_owner validate_session_access check_invocation_owner validate_invocation_access
    Reading.get_invocation hydrate_output_by_ref serve hydrate_found new_invocation
    Server.get_invocation Server.checked Server.reply_of Server.validate_invocation_auth
    Server.as_status
given_one = inl (new_invocation note_call note_tool, refl)
