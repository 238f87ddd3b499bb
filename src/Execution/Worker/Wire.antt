-- ===== src/Execution/Worker/Wire.antt =====
-- include/astraea/execution/guest_worker_wire.hpp and src/execution/guest_worker_wire.cpp: the
-- frames that carry the messages. A number of `size` bytes is appended by `little_endian` and read by
-- `read_little_endian`. Allocation always succeeds here.
pub mod Decode
pub mod Fields
pub mod Header
pub mod RoundTrip
pub mod Payload
pub mod Canonical
use astraea.Prelude.{
  ℕ, ◌+◌, Bool, true, not, Option, none, some, List, [], ◌∷◌, ◌++◌, ltb, ◌==◌, if◌then◌else◌,
  length, any, Result, success, failure,
}
use astraea.Prelude.Attempts.{Attempt, ◌>>=◌, ◌>>◌, read, check}
use astraea.Prelude.LittleEndian.{read_little_endian, little_endian}
use astraea.Execution.Worker.{
  GuestWorkerHello, GuestWorkerReady, GuestWorkerRunRequest, GuestWorkerSyscallRequest,
  GuestWorkerSyscallResult, GuestWorkerDiagnostic, GuestWorkerFault, GuestWorkerStop,
  GuestWorkerTerminate, fault_kinds, diagnostic_kinds, stop_reasons, termination_reasons,
}

pub data GuestWorkerWireMessageKind : Type 0 where
  hello ready run_request syscall_request syscall_result : GuestWorkerWireMessageKind
  stop fault terminate diagnostic : GuestWorkerWireMessageKind

pub data GuestWorkerWireMessage : Type 0 where
  hello_message : GuestWorkerHello → GuestWorkerWireMessage
  ready_message : GuestWorkerReady → GuestWorkerWireMessage
  run_request_message : GuestWorkerRunRequest → GuestWorkerWireMessage
  syscall_request_message : GuestWorkerSyscallRequest → GuestWorkerWireMessage
  syscall_result_message : GuestWorkerSyscallResult → GuestWorkerWireMessage
  stop_message : GuestWorkerStop → GuestWorkerWireMessage
  fault_message : GuestWorkerFault → GuestWorkerWireMessage
  terminate_message : GuestWorkerTerminate → GuestWorkerWireMessage
  diagnostic_message : GuestWorkerDiagnostic → GuestWorkerWireMessage

pub data GuestWorkerWireErrorCode : Type 0 where
  frame_too_short invalid_magic unsupported_wire_version : GuestWorkerWireErrorCode
  unknown_message_kind payload_too_large payload_size_mismatch : GuestWorkerWireErrorCode
  invalid_message_value host_allocation_failure : GuestWorkerWireErrorCode

pub record GuestWorkerWireError : Type 0 where
  pub code : GuestWorkerWireErrorCode
  pub byte_offset : ℕ
  pub actual_value : ℕ

pub record GuestWorkerWireHeader : Type 0 where
  pub kind : GuestWorkerWireMessageKind
  pub payload_size : ℕ
  pub frame_size : ℕ

abbrev pub error : GuestWorkerWireErrorCode → ℕ → ℕ → GuestWorkerWireError
error code offset value = record { code = code; byte_offset = offset; actual_value = value }

abbrev pub wire_magic : ℕ
wire_magic = 1381258049

abbrev pub kind_value : GuestWorkerWireMessageKind → ℕ
kind_value hello = 1
kind_value ready = 2
kind_value run_request = 3
kind_value syscall_request = 4
kind_value syscall_result = 5
kind_value stop = 6
kind_value fault = 7
kind_value terminate = 8
kind_value diagnostic = 9

-- The valid_..._kind and valid_..._reason functions: whether the number is one of the enumerators.
abbrev pub is_enumerator : ℕ → List ℕ → Bool
is_enumerator raw values = any (λ v. raw == v) values

abbrev pub payload_size : GuestWorkerWireMessageKind → ℕ
payload_size hello = 4
payload_size ready = 12
payload_size run_request = 8
payload_size syscall_request = 88
payload_size syscall_result = 36
payload_size stop = 28
payload_size fault = 36
payload_size terminate = 4
payload_size diagnostic = 44

abbrev pub kind_of : GuestWorkerWireMessage → GuestWorkerWireMessageKind
kind_of (hello_message m) = hello
kind_of (ready_message m) = ready
kind_of (run_request_message m) = run_request
kind_of (syscall_request_message m) = syscall_request
kind_of (syscall_result_message m) = syscall_result
kind_of (stop_message m) = stop
kind_of (fault_message m) = fault
kind_of (terminate_message m) = terminate
kind_of (diagnostic_message m) = diagnostic

unfoldable pub valid_message : GuestWorkerWireMessage → Bool
valid_message (hello_message m) = true
valid_message (ready_message m) = true
valid_message (run_request_message m) = not (m.budget_microseconds == 0)
valid_message (syscall_request_message m) = true
valid_message (syscall_result_message m) = true
valid_message (stop_message m) = is_enumerator m.reason stop_reasons
valid_message (fault_message m) = is_enumerator m.kind fault_kinds
valid_message (terminate_message m) = is_enumerator m.reason termination_reasons
valid_message (diagnostic_message m) = is_enumerator m.kind diagnostic_kinds

-- One append_u16, append_u32 or append_u64 for each field, with its size in bytes.
unfoldable pub append_fields : List (ℕ × ℕ) → List ℕ
append_fields [] = []
append_fields ((size, value) ∷ fields) = little_endian size value ++ append_fields fields

-- What append_payload appends, in order.
abbrev pub payload_fields : GuestWorkerWireMessage → List (ℕ × ℕ)
payload_fields (hello_message m) = (4, m.protocol_version) ∷ []
payload_fields (ready_message m) = (4, m.protocol_version) ∷ (8, m.worker_id) ∷ []
payload_fields (run_request_message m) = (8, m.budget_microseconds) ∷ []
payload_fields (syscall_request_message m) =
    (8, m.request_id)
    ∷ (8, m.worker_id)
    ∷ (8, m.thread_id)
    ∷ (8, m.guest_syscall_number)
    ∷ (8, m.arguments.at0)
    ∷ (8, m.arguments.at1)
    ∷ (8, m.arguments.at2)
    ∷ (8, m.arguments.at3)
    ∷ (8, m.arguments.at4)
    ∷ (8, m.arguments.at5)
    ∷ (8, m.guest_rip)
    ∷ []
payload_fields (syscall_result_message m) =
    (8, m.request_id)
    ∷ (8, m.worker_id)
    ∷ (8, m.thread_id)
    ∷ (8, m.return_value)
    ∷ (4, m.guest_errno)
    ∷ []
payload_fields (stop_message m) =
    (8, m.worker_id) ∷ (8, m.thread_id) ∷ (4, m.reason) ∷ (8, m.guest_rip) ∷ []
payload_fields (fault_message m) =
    (8, m.worker_id) ∷ (8, m.thread_id) ∷ (4, m.kind) ∷ (8, m.guest_rip) ∷ (8, m.fault_address) ∷ []
payload_fields (terminate_message m) = (4, m.reason) ∷ []
payload_fields (diagnostic_message m) =
    (8, m.worker_id)
    ∷ (8, m.thread_id)
    ∷ (4, m.kind)
    ∷ (8, m.guest_rip)
    ∷ (8, m.detail0)
    ∷ (8, m.detail1)
    ∷ []

-- The four fields of the header, and the payload.
abbrev pub frame_fields : GuestWorkerWireMessage → List (ℕ × ℕ)
frame_fields m =
    let kind = kind_of m in
    (4, wire_magic) ∷ (2, 1) ∷ (2, kind_value kind) ∷ (4, payload_size kind) ∷ payload_fields m

unfoldable pub encode_guest_worker_wire_message :
    GuestWorkerWireMessage → Result (List ℕ) GuestWorkerWireError
encode_guest_worker_wire_message m =
    let size = payload_size (kind_of m) in
    if not (valid_message m)
    then failure (error invalid_message_value 0 0)
    else if ltb 128 size
    then failure (error payload_too_large 8 size)
    else success (append_fields (frame_fields m))
