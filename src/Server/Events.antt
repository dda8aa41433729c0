-- ===== src/Server/Events.antt =====
-- src/optisocks5/server/events.py: what a session asks of its driver.
use optisocks.Prelude.{ℕ, ℤ, Option, Bytes, Text}

-- The texts that `Close` is given in src/optisocks5/server/session.py, in their order there.
pub data CloseReason : Type 0 where
  bad_version greeting_too_large no_acceptable_method auth_too_large auth_refused : CloseReason
  unsupported_atyp request_too_large malformed_request unsupported_command : CloseReason
  request_rejected upstream_failed relay_finished closed_already : CloseReason

pub data Event : Type 0 where
  send : Bytes → Event
  need_data : Event
  authorize : Option Text → Option Text → Event
  connect : ℕ → Text → ℕ → Event
  relay : Text → ℤ → Event
  close : CloseReason → Event
