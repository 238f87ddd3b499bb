-- ===== src/Loader/InitialStack/Layout.antt =====
-- src/loader/initial_stack.cpp: the request, the checks on it, and the layout of the stack.
use astraea.Prelude.{
  ℕ, ◌+◌, ◌-◌, ◌*◌, ◌/◌, ◌%◌, Bool, not, ◌&&◌, Option, none, some, List, [], ◌∷◌, ltb, ◌==◌,
  u64_max, length, any, success, failure,
}
use astraea.Prelude.Attempts.{Attempt, ◌>>=◌, ◌>>◌, check}
use astraea.Memory.Address.{GuestRange, checked_add}

pub record AuxiliaryVectorEntry : Type 0 where
  pub type : ℕ
  pub value : ℕ

pub record InitialStackRequest : Type 0 where
  pub storage : GuestRange
  pub arguments : List (List ℕ)
  pub environment : List (List ℕ)
  pub auxiliary_vector : List AuxiliaryVectorEntry

pub data InitialStackErrorCode : Type 0 where
  embedded_nul auxv_contains_terminator layout_size_overflow : InitialStackErrorCode
  stack_too_small host_size_unrepresentable guest_address_overflow : InitialStackErrorCode
  host_allocation_failure : InitialStackErrorCode

pub data InitialStackInputKind : Type 0 where
  argument environment auxiliary_vector : InitialStackInputKind

pub record InitialStackError : Type 0 where
  pub code : InitialStackErrorCode
  pub input_kind : Option InitialStackInputKind
  pub input_index : Option ℕ

pub record InitialStackImage : Type 0 where
  pub storage : GuestRange
  pub used_range : GuestRange
  pub rsp : ℕ
  pub bytes : List ℕ

abbrev pub stack_error : InitialStackErrorCode → InitialStackError
stack_error code = record { code = code; input_kind = none; input_index = none }

abbrev pub input_error : InitialStackErrorCode → InitialStackInputKind → ℕ → InitialStackError
input_error code kind index = record {
  code = code;
  input_kind = some kind;
  input_index = some index;
}

-- checked_add_u64 and checked_mul_u64, with the layout's error.
abbrev pub add_sizes : ℕ → ℕ → Attempt ℕ InitialStackError
add_sizes lhs rhs = do
  check (ltb (u64_max - rhs) lhs) (stack_error layout_size_overflow)
  some (success (lhs + rhs))

abbrev pub multiply_sizes : ℕ → ℕ → Attempt ℕ InitialStackError
multiply_sizes lhs rhs = do
  check (not (lhs == 0) && ltb (u64_max / lhs) rhs) (stack_error layout_size_overflow)
  some (success (lhs * rhs))

abbrev pub contains_nul : List ℕ → Bool
contains_nul value = any (λ c. c == 0) value

-- The first two loops, from index `i` on.
unfoldable pub check_strings :
    InitialStackInputKind → List (List ℕ) → ℕ → Attempt (Unit {0}) InitialStackError
check_strings kind [] i = some (success tt)
check_strings kind (s ∷ ss) i = do
  check (contains_nul s) (input_error embedded_nul kind i)
  check_strings kind ss (i + 1)

unfoldable pub check_auxiliary :
    List AuxiliaryVectorEntry → ℕ → Attempt (Unit {0}) InitialStackError
check_auxiliary [] i = some (success tt)
check_auxiliary (e ∷ es) i = do
  check (e.type == 0) (input_error auxv_contains_terminator auxiliary_vector i)
  check_auxiliary es (i + 1)

-- add_string_size over a list, from the size so far.
unfoldable pub add_string_sizes : List (List ℕ) → ℕ → Attempt ℕ InitialStackError
add_string_sizes [] size = some (success size)
add_string_sizes (s ∷ ss) size = do
  terminated_size ← add_sizes (length s) 1
  next ← add_sizes size terminated_size
  add_string_sizes ss next

-- The sum over `pieces`, from the size so far.
unfoldable pub add_pieces : List ℕ → ℕ → Attempt ℕ InitialStackError
add_pieces [] size = some (success size)
add_pieces (p ∷ ps) size = do next ← add_sizes size p; add_pieces ps next

unfoldable pub control_size_of : InitialStackRequest → Attempt ℕ InitialStackError
control_size_of request = do
  argument_pointer_bytes ← multiply_sizes (length request.arguments) 8
  environment_pointer_bytes ← multiply_sizes (length request.environment) 8
  aux_count_with_terminator ← add_sizes (length request.auxiliary_vector) 1
  aux_bytes ← multiply_sizes aux_count_with_terminator 16
  add_pieces (argument_pointer_bytes ∷ 8 ∷ environment_pointer_bytes ∷ 8 ∷ aux_bytes ∷ []) 8

unfoldable pub address_at : ℕ → ℕ → Attempt ℕ InitialStackError
address_at base offset = elim (checked_add base offset) [
  | success address ↦ some (success address)
  | failure e ↦ some (failure (stack_error guest_address_overflow))
]

-- Where the stack pointer and the strings go, as offsets into the storage.
pub record Layout : Type 0 where
  pub rsp : ℕ
  pub rsp_offset : ℕ
  pub information_start : ℕ

-- `value & ~15` is `value` without its remainder by 16.
unfoldable pub layout_of : GuestRange → ℕ → ℕ → Attempt Layout InitialStackError
layout_of storage information_size control_size =
    let capacity = storage.size in
    let information_start = capacity - information_size in
    let max_rsp_offset = information_start - control_size in
    do
      check (ltb capacity information_size) (stack_error stack_too_small)
      check (ltb information_start control_size) (stack_error stack_too_small)
      max_rsp ← address_at storage.base max_rsp_offset
      let aligned = max_rsp - max_rsp % 16
      check (ltb aligned storage.base) (stack_error stack_too_small)
      let rsp_offset = aligned - storage.base
      check (ltb max_rsp_offset rsp_offset) (stack_error stack_too_small)
      some (
          success (record {
            rsp = aligned;
            rsp_offset = rsp_offset;
            information_start = information_start;
          }))
