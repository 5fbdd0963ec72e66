-- ===== src/Session/Envelope.antt =====
-- internal/agent/session/envelope.go: the logical streams, the envelope and the durable receipt.
-- `digest` stands for the hexadecimal SHA-256 of a payload. A byte is a number.
use kvm_infrastructure_manag.Base.{
  ℕ, String, ◌≡◌, Bool, true, false, ◌||◌, not, Option, none, some, List, length, ltb, ◌==◌,
  if◌then◌else◌, str_eq, refl, ap, eq_iff, eq_refl,
}
use kvm_infrastructure_manag.Session.Error.{
  Error, receipt_mismatch, receipt_generation_zero, unknown_disposition, envelope_incomplete,
  envelope_generation_zero, unknown_stream, payload_size, digest_mismatch,
}

-- `other` holds a stream name that is none of the seven constants.
pub data Stream : Type 0 where
  control command result heartbeat credential inventory resync : Stream
  other : String → Stream

abbrev pub is_known : Stream → Bool
is_known (other s) = false
is_known _ = true

abbrev pub stream_eq : Stream → Stream → Bool
stream_eq control control = true
stream_eq command command = true
stream_eq result result = true
stream_eq heartbeat heartbeat = true
stream_eq credential credential = true
stream_eq inventory inventory = true
stream_eq resync resync = true
stream_eq (other s) (other t) = str_eq s t
stream_eq _ _ = false

pub record Envelope : Type 0 where
  pub host_identity : String
  pub session_generation : ℕ
  pub stream : Stream
  pub message_id : String
  pub schema_version : String
  pub sequence_scope : String
  pub sequence : ℕ
  pub resource_generation : ℕ
  pub payload_digest : String
  pub correlation_key : String
  pub payload : List ℕ

pub record Receipt : Type 0 where
  pub host_identity : String
  pub accepted_session_generation : ℕ
  pub stream : Stream
  pub message_id : String
  pub sequence_scope : String
  pub sequence : ℕ
  pub payload_digest : String
  pub disposition : String

known_disposition : String → Bool
known_disposition d =
    str_eq d "ACCEPTED" || str_eq d "STALE" || str_eq d "REJECTED" || str_eq d "QUARANTINED"

unfoldable pub validate_for : Receipt → Envelope → Option Error
unfolding known_disposition
validate_for r e =
    if not (str_eq r.host_identity e.host_identity)
      || not (stream_eq r.stream e.stream)
      || not (str_eq r.message_id e.message_id)
      || not (str_eq r.sequence_scope e.sequence_scope)
      || not (r.sequence == e.sequence)
      || not (str_eq r.payload_digest e.payload_digest)
    then some receipt_mismatch
    else if r.accepted_session_generation == 0
    then some receipt_generation_zero
    else if known_disposition r.disposition
    then none
    else some (unknown_disposition r.disposition)

-- The copy of the payload is a value here.
unfoldable pub bind_session : Envelope → ℕ → Envelope
bind_session e generation = record e { session_generation = generation }

module _ (digest : List ℕ → String) where
  unfoldable pub validate : Envelope → ℕ → Option Error
  validate e max_message_bytes =
      if str_eq e.host_identity ""
        || str_eq e.message_id ""
        || str_eq e.schema_version ""
        || str_eq e.sequence_scope ""
      then some envelope_incomplete
      else if e.session_generation == 0
      then some envelope_generation_zero
      else if not (is_known e.stream)
      then some unknown_stream
      else if ltb max_message_bytes 1 || ltb max_message_bytes (length e.payload)
      then some payload_size
      else if not (str_eq e.payload_digest (digest e.payload))
      then some digest_mismatch
      else none

  unfoldable pub new_envelope :
      String → ℕ → Stream → String → String → String → ℕ → List ℕ → Envelope
  new_envelope host generation stream message_id schema sequence_scope sequence payload = record {
    host_identity = host;
    session_generation = generation;
    stream = stream;
    message_id = message_id;
    schema_version = schema;
    sequence_scope = sequence_scope;
    sequence = sequence;
    resource_generation = 0;
    payload_digest = digest payload;
    correlation_key = "";
    payload = payload;
  }

-- The test decides equality.
pub stream_eq→eq : (s t : Stream) → stream_eq s t ≡ true → s ≡ t
stream_eq→eq (other s) (other t) h = ap other ((eq_iff s t).0 h)
stream_eq→eq control control h = refl
stream_eq→eq command command h = refl
stream_eq→eq result result h = refl
stream_eq→eq heartbeat heartbeat h = refl
stream_eq→eq credential credential h = refl
stream_eq→eq inventory inventory h = refl
stream_eq→eq resync resync h = refl
stream_eq→eq _ _ h = cc

pub stream_eq_refl : (s : Stream) → stream_eq s s ≡ true
stream_eq_refl (other s) = eq_refl s
stream_eq_refl control = refl
stream_eq_refl _ = refl
