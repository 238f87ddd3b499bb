-- ===== src/Execution/Worker.antt =====
-- include/astraea/execution/guest_worker_protocol.hpp and src/execution/guest_worker_protocol.cpp:
-- the messages between the controller and a guest worker. An identifier or an address is the number
-- that it wraps. An enumeration is its number too, since a cast can make one with no enumerator. A
-- signed number stands for its bits, which is what the wire carries.
pub mod Wire
use astraea.Prelude.{
  ℕ, zero, suc, ◌+◌, ◌-◌, ◌*◌, ◌/◌, ◌%◌, ◌^◌, ◌≤◌, ◌<◌, min, max, bit_and, bit_or, ◌≡◌, refl, sym,
  ap, ◌∙◌, ◌≢◌, ◌↔◌, ◌⊎◌, inl, inr, Bool, true, false, not, ◌&&◌, ◌||◌, Option, none, some, List,
  [], ◌∷◌, ◌++◌, map, arith, ltb, leb, ◌==◌, if◌then◌else◌, u64_max, u32_max, ltb→lt, lt→ltb,
  leb→le, le→leb, ==_iff, Bool-cases, Option-cases, length, get_elem?, take, drop, any,
  length-append, get_elem?-lt, get_elem?-ge, All, All-append, Any, Result, success, failure,
  has_value, Result-cases,
}
use astraea.Prelude.Attempts.{
  Attempt, ◌>>=◌, ◌>>◌, read, check, Ensures, Ensures->>=, Ensures-read, Ensures-check,
  Ensures-success,
}
use astraea.Prelude.LittleEndian.{
  read_little_endian, little_endian, AllBytes, read_little_endian-lt, length-little_endian,
  read_little_endian-append, read-little_endian,
}

pub record GuestWorkerHello : Type 0 where
  pub protocol_version : ℕ

pub record GuestWorkerReady : Type 0 where
  pub protocol_version : ℕ
  pub worker_id : ℕ

pub record GuestWorkerRunRequest : Type 0 where
  pub budget_microseconds : ℕ

-- The six arguments of the array, by their index.
pub record SyscallArguments : Type 0 where
  pub at0 : ℕ
  pub at1 : ℕ
  pub at2 : ℕ
  pub at3 : ℕ
  pub at4 : ℕ
  pub at5 : ℕ

pub record GuestWorkerSyscallRequest : Type 0 where
  pub request_id : ℕ
  pub worker_id : ℕ
  pub thread_id : ℕ
  pub guest_syscall_number : ℕ
  pub arguments : SyscallArguments
  pub guest_rip : ℕ

pub record GuestWorkerSyscallResult : Type 0 where
  pub request_id : ℕ
  pub worker_id : ℕ
  pub thread_id : ℕ
  pub return_value : ℕ
  pub guest_errno : ℕ

pub record GuestWorkerDiagnostic : Type 0 where
  pub worker_id : ℕ
  pub thread_id : ℕ
  pub kind : ℕ
  pub guest_rip : ℕ
  pub detail0 : ℕ
  pub detail1 : ℕ

pub record GuestWorkerFault : Type 0 where
  pub worker_id : ℕ
  pub thread_id : ℕ
  pub kind : ℕ
  pub guest_rip : ℕ
  pub fault_address : ℕ

pub record GuestWorkerStop : Type 0 where
  pub worker_id : ℕ
  pub thread_id : ℕ
  pub reason : ℕ
  pub guest_rip : ℕ

pub record GuestWorkerTerminate : Type 0 where
  pub reason : ℕ

-- The enumerators of each enumeration.
abbrev pub fault_kinds : List ℕ
fault_kinds = 0 ∷ 1 ∷ 2 ∷ 3 ∷ []

abbrev pub diagnostic_kinds : List ℕ
diagnostic_kinds = 1 ∷ 2 ∷ 3 ∷ 4 ∷ 5 ∷ 6 ∷ 7 ∷ 8 ∷ 9 ∷ []

abbrev pub stop_reasons : List ℕ
stop_reasons = 0 ∷ 1 ∷ 2 ∷ 3 ∷ 4 ∷ 5 ∷ 6 ∷ 7 ∷ []

abbrev pub termination_reasons : List ℕ
termination_reasons = 0 ∷ 1 ∷ 2 ∷ 3 ∷ 4 ∷ []

abbrev pub protocol_version : ℕ
protocol_version = 1

pub data GuestWorkerProtocolValidationErrorCode : Type 0 where
  unsupported_protocol_version zero_run_budget : GuestWorkerProtocolValidationErrorCode
  syscall_request_id_mismatch syscall_worker_id_mismatch : GuestWorkerProtocolValidationErrorCode
  syscall_thread_id_mismatch : GuestWorkerProtocolValidationErrorCode

unfoldable pub validate_guest_worker_handshake :
    GuestWorkerHello → GuestWorkerReady → Result Bool GuestWorkerProtocolValidationErrorCode
validate_guest_worker_handshake hello ready =
    if not (hello.protocol_version == protocol_version)
      || (not (ready.protocol_version == protocol_version)
          || not (hello.protocol_version == ready.protocol_version))
    then failure unsupported_protocol_version
    else success true

unfoldable pub validate_guest_worker_run_request :
    GuestWorkerRunRequest → Result Bool GuestWorkerProtocolValidationErrorCode
validate_guest_worker_run_request request =
    if request.budget_microseconds == 0 then failure zero_run_budget else success true

unfoldable pub validate_guest_worker_syscall_result :
    GuestWorkerSyscallRequest
    → GuestWorkerSyscallResult
    → Result Bool GuestWorkerProtocolValidationErrorCode
validate_guest_worker_syscall_result request result =
    if not (request.request_id == result.request_id)
    then failure syscall_request_id_mismatch
    else if not (request.worker_id == result.worker_id)
    then failure syscall_worker_id_mismatch
    else if not (request.thread_id == result.thread_id)
    then failure syscall_thread_id_mismatch
    else success true
