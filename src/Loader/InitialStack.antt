-- ===== src/Loader/InitialStack.antt =====
-- include/astraea/loader/initial_stack.hpp and src/loader/initial_stack.cpp: the initial stack of a
-- guest. A string is the list of its bytes. Allocation always succeeds here; `none` is a write
-- outside the stack's bytes.
pub mod Layout
pub mod Bytes
pub mod Fill
pub mod Sizes
pub mod Build
use astraea.Prelude.Stores.{zeros, store}
use astraea.Prelude.{
  ℕ, zero, suc, ◌+◌, ◌-◌, ◌/◌, Option, none, some, List, [], ◌∷◌, ◌++◌, ltb, length, success,
  failure,
}
use astraea.Prelude.Attempts.{Attempt, ◌>>=◌, ◌>>◌, read, check}
use astraea.Prelude.LittleEndian.{little_endian}
use astraea.Memory.Address.{GuestRange, create}
use astraea.Loader.InitialStack.Layout.{
  AuxiliaryVectorEntry, InitialStackRequest, InitialStackError, InitialStackImage, stack_error,
  check_strings, check_auxiliary, add_string_sizes, control_size_of, layout_of, address_at,
  argument, environment, guest_address_overflow, host_size_unrepresentable,
}

-- The loop that stores bytes from an offset on.
unfoldable pub store_bytes : List ℕ → ℕ → List ℕ → Attempt (List ℕ) InitialStackError
store_bytes bytes offset [] = some (success bytes)
store_bytes bytes offset (b ∷ bs) = do
  next ← read (store bytes offset b)
  store_bytes next (offset + 1) bs

-- What copying a list of strings leaves: the bytes, the cursor and the strings' addresses.
pub record Copied : Type 0 where
  pub bytes : List ℕ
  pub cursor : ℕ
  pub addresses : List ℕ

unfoldable pub copy_strings : ℕ → List ℕ → ℕ → List (List ℕ) → Attempt Copied InitialStackError
copy_strings base bytes cursor [] =
    some (success (record { bytes = bytes; cursor = cursor; addresses = [] }))
copy_strings base bytes cursor (s ∷ ss) = do
  address ← address_at base cursor
  copied ← store_bytes bytes cursor s
  terminated ← read (store copied (cursor + length s) 0)
  rest ← copy_strings base terminated (cursor + (length s + 1)) ss
  some (
      success
        (record { bytes = rest.bytes; cursor = rest.cursor; addresses = address ∷ rest.addresses }))

-- write_u64 for each word, from a cursor on.
unfoldable pub write_words : List ℕ → ℕ → List ℕ → Attempt (List ℕ) InitialStackError
write_words bytes cursor [] = some (success bytes)
write_words bytes cursor (w ∷ ws) = do
  next ← store_bytes bytes cursor (little_endian 8 w)
  write_words next (cursor + 8) ws

abbrev pub auxiliary_words : List AuxiliaryVectorEntry → List ℕ
auxiliary_words [] = 0 ∷ 0 ∷ []
auxiliary_words (e ∷ es) = e.type ∷ e.value ∷ auxiliary_words es

-- The words from the stack pointer on, in the order of the calls of write_u64.
abbrev pub stack_words : ℕ → List ℕ → List ℕ → List AuxiliaryVectorEntry → List ℕ
stack_words argument_count args env aux =
    argument_count ∷ (args ++ (0 ∷ (env ++ (0 ∷ auxiliary_words aux))))

abbrev pub used_range_of : ℕ → ℕ → Attempt GuestRange InitialStackError
used_range_of base size = elim (create base size) [
  | success r ↦ some (success r)
  | failure e ↦ some (failure (stack_error guest_address_overflow))
]

-- `max_size` is that of the vector of bytes.
unfoldable pub build_initial_stack :
    ℕ → InitialStackRequest → Attempt InitialStackImage InitialStackError
build_initial_stack max_size request = do
  check_strings argument request.arguments 0
  check_strings environment request.environment 0
  check_auxiliary request.auxiliary_vector 0
  argument_size ← add_string_sizes request.arguments 0
  information_size ← add_string_sizes request.environment argument_size
  control_size ← control_size_of request
  layout ← layout_of request.storage information_size control_size
  let used_size = request.storage.size - layout.rsp_offset
  check (ltb max_size used_size) (stack_error host_size_unrepresentable)
  used_range ← used_range_of layout.rsp used_size
  let start = layout.information_start - layout.rsp_offset
  arguments ← copy_strings used_range.base (zeros used_size) start request.arguments
  strings ← copy_strings used_range.base arguments.bytes arguments.cursor request.environment
  bytes ← write_words strings.bytes 0 (
      stack_words (length request.arguments) arguments.addresses strings.addresses
        request.auxiliary_vector)
  some (
      success (record {
        storage = request.storage;
        used_range = used_range;
        rsp = layout.rsp;
        bytes = bytes;
      }))
