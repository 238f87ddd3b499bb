-- ===== src/Execution/Worker/Wire/Decode.antt =====
-- src/execution/guest_worker_wire.cpp: decoding a frame, from its first byte on. The payload starts
-- at byte 12.
use astraea.Prelude.{
  ℕ, ◌+◌, not, Option, none, some, List, ltb, ◌==◌, if◌then◌else◌, length, take, success, failure,
}
use astraea.Prelude.Attempts.{Attempt, ◌>>=◌, ◌>>◌, read, check}
use astraea.Prelude.LittleEndian.{read_little_endian}
use astraea.Execution.Worker.{fault_kinds, diagnostic_kinds, stop_reasons, termination_reasons}
use astraea.Execution.Worker.Wire.{
  GuestWorkerWireMessageKind, GuestWorkerWireMessage, GuestWorkerWireError, GuestWorkerWireHeader,
  error, wire_magic, payload_size, is_enumerator, valid_message, hello, ready, run_request,
  syscall_request, syscall_result, stop, fault, terminate, diagnostic, hello_message, ready_message,
  run_request_message, syscall_request_message, syscall_result_message, stop_message, fault_message,
  terminate_message, diagnostic_message, frame_too_short, invalid_magic, unsupported_wire_version,
  unknown_message_kind, payload_too_large, payload_size_mismatch, invalid_message_value,
}

unfoldable pub decode_kind : ℕ → Option GuestWorkerWireMessageKind
decode_kind raw =
    if raw == 1
    then some hello
    else if raw == 2
    then some ready
    else if raw == 3
    then some run_request
    else if raw == 4
    then some syscall_request
    else if raw == 5
    then some syscall_result
    else if raw == 6
    then some stop
    else if raw == 7
    then some fault
    else if raw == 8
    then some terminate
    else if raw == 9
    then some diagnostic
    else none

abbrev pub known_kind :
    ℕ → Option GuestWorkerWireMessageKind → Attempt GuestWorkerWireMessageKind GuestWorkerWireError
known_kind raw none = some (failure (error unknown_message_kind 6 raw))
known_kind raw (some kind) = some (success kind)

unfoldable pub decode_guest_worker_wire_header :
    List ℕ → Attempt GuestWorkerWireHeader GuestWorkerWireError
decode_guest_worker_wire_header header = do
  check (not (length header == 12)) (error frame_too_short (length header) 0)
  magic ← read (read_little_endian header 0 4)
  check (not (magic == wire_magic)) (error invalid_magic 0 magic)
  version ← read (read_little_endian header 4 2)
  check (not (version == 1)) (error unsupported_wire_version 4 version)
  raw_kind ← read (read_little_endian header 6 2)
  kind ← known_kind raw_kind (decode_kind raw_kind)
  declared_size ← read (read_little_endian header 8 4)
  check (ltb 128 declared_size) (error payload_too_large 8 declared_size)
  check (not (declared_size == payload_size kind)) (error payload_size_mismatch 8 declared_size)
  some (
      success
        (record { kind = kind; payload_size = declared_size; frame_size = 12 + declared_size }))

-- The switch on the kind: the fields at their offsets into the frame.
unfoldable pub decode_payload :
    GuestWorkerWireMessageKind → List ℕ → Attempt GuestWorkerWireMessage GuestWorkerWireError
decode_payload hello frame = do
  protocol_version ← read (read_little_endian frame 12 4)
  some (success (hello_message (record { protocol_version = protocol_version })))
decode_payload ready frame = do
  protocol_version ← read (read_little_endian frame 12 4)
  worker_id ← read (read_little_endian frame 16 8)
  some (
      success
        (ready_message (record { protocol_version = protocol_version; worker_id = worker_id })))
decode_payload run_request frame = do
  budget_microseconds ← read (read_little_endian frame 12 8)
  some (success (run_request_message (record { budget_microseconds = budget_microseconds })))
decode_payload syscall_request frame = do
  request_id ← read (read_little_endian frame 12 8)
  worker_id ← read (read_little_endian frame 20 8)
  thread_id ← read (read_little_endian frame 28 8)
  guest_syscall_number ← read (read_little_endian frame 36 8)
  guest_rip ← read (read_little_endian frame 92 8)
  at0 ← read (read_little_endian frame 44 8)
  at1 ← read (read_little_endian frame 52 8)
  at2 ← read (read_little_endian frame 60 8)
  at3 ← read (read_little_endian frame 68 8)
  at4 ← read (read_little_endian frame 76 8)
  at5 ← read (read_little_endian frame 84 8)
  some (
      success (
        syscall_request_message (record {
          request_id = request_id;
          worker_id = worker_id;
          thread_id = thread_id;
          guest_syscall_number = guest_syscall_number;
          guest_rip = guest_rip;
          arguments = record { at0 = at0; at1 = at1; at2 = at2; at3 = at3; at4 = at4; at5 = at5 };
        })))
decode_payload syscall_result frame = do
  request_id ← read (read_little_endian frame 12 8)
  worker_id ← read (read_little_endian frame 20 8)
  thread_id ← read (read_little_endian frame 28 8)
  return_value ← read (read_little_endian frame 36 8)
  guest_errno ← read (read_little_endian frame 44 4)
  some (
      success (
        syscall_result_message (record {
          request_id = request_id;
          worker_id = worker_id;
          thread_id = thread_id;
          return_value = return_value;
          guest_errno = guest_errno;
        })))
decode_payload stop frame = do
  reason ← read (read_little_endian frame 28 4)
  check (not (is_enumerator reason stop_reasons)) (error invalid_message_value 28 reason)
  worker_id ← read (read_little_endian frame 12 8)
  thread_id ← read (read_little_endian frame 20 8)
  guest_rip ← read (read_little_endian frame 32 8)
  some (
      success (
        stop_message (record {
          reason = reason;
          worker_id = worker_id;
          thread_id = thread_id;
          guest_rip = guest_rip;
        })))
decode_payload fault frame = do
  kind ← read (read_little_endian frame 28 4)
  check (not (is_enumerator kind fault_kinds)) (error invalid_message_value 28 kind)
  worker_id ← read (read_little_endian frame 12 8)
  thread_id ← read (read_little_endian frame 20 8)
  guest_rip ← read (read_little_endian frame 32 8)
  fault_address ← read (read_little_endian frame 40 8)
  some (
      success (
        fault_message (record {
          kind = kind;
          worker_id = worker_id;
          thread_id = thread_id;
          guest_rip = guest_rip;
          fault_address = fault_address;
        })))
decode_payload terminate frame = do
  reason ← read (read_little_endian frame 12 4)
  check (not (is_enumerator reason termination_reasons)) (error invalid_message_value 12 reason)
  some (success (terminate_message (record { reason = reason })))
decode_payload diagnostic frame = do
  kind ← read (read_little_endian frame 28 4)
  check (not (is_enumerator kind diagnostic_kinds)) (error invalid_message_value 28 kind)
  worker_id ← read (read_little_endian frame 12 8)
  thread_id ← read (read_little_endian frame 20 8)
  guest_rip ← read (read_little_endian frame 32 8)
  detail0 ← read (read_little_endian frame 40 8)
  detail1 ← read (read_little_endian frame 48 8)
  some (
      success (
        diagnostic_message (record {
          kind = kind;
          worker_id = worker_id;
          thread_id = thread_id;
          guest_rip = guest_rip;
          detail0 = detail0;
          detail1 = detail1;
        })))

unfoldable pub decode_guest_worker_wire_message :
    List ℕ → Attempt GuestWorkerWireMessage GuestWorkerWireError
decode_guest_worker_wire_message frame = do
  check (ltb (length frame) 12) (error frame_too_short (length frame) 0)
  header ← decode_guest_worker_wire_header (take 12 frame)
  check (not (length frame == header.frame_size))
      (error payload_size_mismatch (length frame) (length frame))
  message ← decode_payload header.kind frame
  check (not (valid_message message)) (error invalid_message_value 12 0)
  some (success message)
