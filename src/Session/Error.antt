-- ===== src/Session/Error.antt =====
-- internal/agent/session: the errors that the package's functions return, one constructor for each
-- error value or message. Go's `error` is `Option Error`, with `none` for nil.
use kvm_infrastructure_manag.Base.{String}

pub data Error : Type 0 where
  -- envelope.go
  receipt_mismatch receipt_generation_zero : Error
  unknown_disposition : String → Error
  envelope_incomplete envelope_generation_zero unknown_stream payload_size digest_mismatch : Error
  -- authority.go
  authority_incomplete unknown_authority_state host_changed generation_decreased : Error
  rearm_refused session_fenced : Error
  -- queue.go
  limits_invalid reserved_messages_invalid reserved_bytes_invalid consecutive_invalid : Error
  stream_limit_missing queue_full message_too_large : Error
  -- manager.go
  session_already_open session_not_open module_set_sealed stale_session : Error
  handshake_incomplete descriptor_incomplete module_registered schema_empty schema_registered :
      Error
  schema_ambiguous schema_unrouted module_unregistered : Error
  joined : Error → Error → Error
  -- what a transport or a module reports
  transport : String → Error
  handler : String → Error
