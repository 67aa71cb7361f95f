-- ===== src/Domain/Messages.antt =====
-- The texts of reasons and errors: a literal, a text that comes from elsewhere, or one that
-- `fmt.Sprintf` builds from parts.
use underpass_runtime.Base.{String}
use underpass_runtime.Text.{Text}
use underpass_runtime.Domain.Sessions.{RuntimeKind}

pub data Message : Type 0 where
  plain : String → Message
  text : Text → Message
  environments_differ : Text → Text → Message
  needs_kubernetes : RuntimeKind → Message
  missing_field : Text → Message
  invalid_field : Text → Message
  type_mismatch : Text → Message
  -- `fmt.Errorf("…: %w", err)`
  wrapped : String → Message → Message
  -- `fmt.Errorf("… %s: %w", name, err)`
  wrapped_naming : String → Text → Message → Message
