-- ===== src/Execution/GuestMemory/Access.antt =====
-- GuestMemoryAccess::read, write, preflight_write, read_c_string, is_exact_executable_address and
-- current_mapping_epoch, over a process memory that is passed on explicitly.
pub mod Write
pub mod CString
use astraea.Memory.Address.{contains, checked_add}
use astraea.Memory.Permissions.{GuestPermission, read, write, execute, has}
use astraea.Execution.MemoryPlan.{ExecutionMemoryPlan}
use astraea.Execution.GuestMemory.{
  GuestImage, GuestMemoryError, GuestMemoryAccess, memory_error_at, validate,
  guest_memory_range_overflow, host_size_unrepresentable, unterminated_string,
}
use astraea.Prelude.{
  ℕ, zero, suc, ◌+◌, ◌-◌, ◌*◌, ◌/◌, ◌%◌, ◌^◌, ◌≤◌, ◌<◌, min, max, bit_and, bit_or, ◌≡◌, refl, sym,
  ap, ◌∙◌, ◌≢◌, ◌↔◌, ◌⊎◌, inl, inr, Bool, true, false, not, ◌&&◌, ◌||◌, Option, none, some, List,
  [], ◌∷◌, ◌++◌, map, arith, ltb, leb, ◌==◌, if◌then◌else◌, u64_max, u32_max, ltb→lt, lt→ltb,
  leb→le, le→leb, ==_iff, Bool-cases, Option-cases, length, get_elem?, take, drop, any,
  length-append, get_elem?-lt, get_elem?-ge, All, All-append, Any, Result, success, failure,
  has_value, Result-cases, ◌>>=◌, ◌>>◌, fail_if, >>=-eq-success,
}

-- The bytes at the process's addresses.
abbrev pub HostMemory : Type 0
HostMemory = ℕ → ℕ

-- `std::memcpy` from an address and to an address.
unfoldable pub load : HostMemory → ℕ → ℕ → List ℕ
load memory address zero = []
load memory address (suc n) = memory address ∷ load memory (address + 1) n

unfoldable pub store : HostMemory → ℕ → List ℕ → HostMemory
store memory address [] = memory
store memory address (b ∷ bs) = λ x. if x == address then b else store memory (address + 1) bs x

-- What `read` and `write` do once `validate` has answered: the result, with the contents that
-- `output` has afterwards, or with the memory that is left.
unfoldable pub read_validated :
    HostMemory
    → ℕ
    → List ℕ
    → Option (Result ℕ GuestMemoryError)
    → Option (Result ℕ GuestMemoryError × List ℕ)
read_validated memory address output none = none
read_validated memory address output (some (failure e)) = some (failure e, output)
read_validated memory address output (some (success n)) =
    if length output == 0
    then some (success 0, output)
    else some (success (length output), load memory address (length output))

unfoldable pub write_validated :
    HostMemory
    → ℕ
    → List ℕ
    → Option (Result ℕ GuestMemoryError)
    → Option (Result ℕ GuestMemoryError × HostMemory)
write_validated memory address input none = none
write_validated memory address input (some (failure e)) = some (failure e, memory)
write_validated memory address input (some (success n)) =
    if length input == 0
    then some (success 0, memory)
    else some (success (length input), store memory address input)

unfoldable pub read_bytes :
    GuestMemoryAccess → HostMemory → ℕ → List ℕ → Option (Result ℕ GuestMemoryError × List ℕ)
read_bytes g memory address output =
    read_validated memory address output (validate g address (length output) read)

unfoldable pub write_bytes :
    GuestMemoryAccess → HostMemory → ℕ → List ℕ → Option (Result ℕ GuestMemoryError × HostMemory)
write_bytes g memory address input =
    write_validated memory address input (validate g address (length input) write)

unfoldable pub preflight_write : GuestMemoryAccess → ℕ → ℕ → Option (Result ℕ GuestMemoryError)
preflight_write g address byte_count = validate g address byte_count write

-- The loop of read_c_string, with `remaining` rounds left. `std::string::push_back` is `++`.
unfoldable pub c_string_loop :
    GuestMemoryAccess → HostMemory → ℕ → ℕ → ℕ → List ℕ → Option (Result (List ℕ) GuestMemoryError)
c_string_loop g memory address zero cursor result =
    some (failure (memory_error_at unterminated_string address))
c_string_loop g memory address (suc remaining) cursor result =
    elim (read_bytes g memory cursor (0 ∷ [])) [
      | none ↦ none
      | some (failure e, value) ↦ some (failure e)
      | some (success n, []) ↦ none
      | some (success n, value ∷ rest) ↦
          let next =
            c_string_loop g memory address remaining (cursor + 1) (result ++ (value ∷ [])) in
          if value == 0 then some (success result) else (elim (checked_add cursor 1) [
            | failure e ↦ some (failure (memory_error_at guest_memory_range_overflow cursor))
            | success address' ↦ next
          ])
    ]

-- `max_size` is that of `std::string`, past which `reserve` throws `std::length_error`.
unfoldable pub read_c_string :
    ℕ → GuestMemoryAccess → HostMemory → ℕ → ℕ → Option (Result (List ℕ) GuestMemoryError)
read_c_string max_size g memory address max_bytes =
    let copied = c_string_loop g memory address max_bytes address [] in
    if ltb max_size max_bytes
    then some (failure (memory_error_at host_size_unrepresentable address))
    else copied

unfoldable pub is_exact_executable_address : GuestMemoryAccess → ℕ → Bool
is_exact_executable_address g address = elim g.image [
  | none ↦ false
  | some image ↦ elim g.prepared_plan [
    | none ↦ false
    | some plan ↦
        if not g.prepared_memory_available
        then false
        else if not
            (any (λ m. has m.permissions execute && contains m.range address) image.mappings)
        then false
        else any (λ r. has r.permissions execute && contains r.range address) plan.regions
  ]
]

abbrev has_regions : Option ExecutionMemoryPlan → Bool
has_regions none = false
has_regions (some plan) = ltb 0 (length plan.regions)

abbrev is_some : Option GuestImage → Bool
is_some none = false
is_some (some image) = true

unfoldable pub current_mapping_epoch : GuestMemoryAccess → ℕ
current_mapping_epoch g = elim g.prepared_epoch [
  | none ↦ 0
  | some epoch ↦
      if is_some g.image && (g.prepared_memory_available && has_regions g.prepared_plan)
      then epoch
      else 0
]
