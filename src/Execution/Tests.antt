-- ===== src/Execution/Tests.antt =====
-- The execution library on an image with one writable mapping, a stack, and a plan with two pages.
use astraea.Prelude.{
  ◌≤◌, ◌↔◌, ℕ, ◌≡◌, refl, inl, inr, true, some, List, [], ◌∷◌, arith, ◌==◌, if◌then◌else◌, length,
  Result, success, failure,
}
use astraea.Prelude.Attempts.{Ensures}
use astraea.Prelude.LittleEndian.{little_endian}
use astraea.Execution.Worker.Wire.{
  GuestWorkerWireMessage, stop_message, encode_guest_worker_wire_message, append_fields,
  valid_message,
}
use astraea.Execution.Worker.Wire.Decode.{decode_guest_worker_wire_message}
use astraea.Execution.Worker.Wire.RoundTrip.{decode-encode}
use astraea.Execution.Worker.Wire.Payload.{InFrame}
use astraea.Execution.Worker.Wire.Canonical.{decode_guest_worker_wire_message_lem, IsEncoding}
use astraea.Memory.Address.{contains, GuestRange}
use astraea.Memory.Permissions.{read, write, has}
use astraea.Memory.Mapping.{MappingIntent, file}
use astraea.Prelude.Sorting.{sort, insert, unique, unique_from}
use astraea.Execution.MemoryPlan.{
  ExecutionMemoryPlan, ExecutionMemoryRegion, ExecutionMemorySource, ExecutionMemorySourceKind,
  mapping, initial_stack, guest_write_owned_by_plan,
}
use astraea.Execution.MemoryPlan.Build.{
  ExecutionMemoryPlanRequest, build_execution_memory_plan, is_power_of_two, mapping_spans,
  stack_spans, to_page_span, regions_of, sorted_boundaries, boundaries, build_regions, region_of,
  bits_at, sources_at, span_covers, source_less,
}
use astraea.Execution.MemoryPlan.Order.{Placed}
use astraea.Execution.Prepared.Pages.{IsExclusive, build_execution_memory_plan-IsExclusive}
use astraea.Execution.Prepared.{
  build_execution_memory_plan-Placed, image_of, AllowedRange,
  build_execution_memory_plan-prepared_allows, validate-AllowedRange,
}
use astraea.Memory.Address.{create}
use astraea.Memory.Permissions.{checked_from_bits}
use astraea.Execution.MemoryPlan.Writes.{guest_write_owned_by_plan_iff}
use astraea.Execution.GuestMemory.{
  host_size_unrepresentable, GuestMemoryError, scan, prepared_coverage, guest_coverage, chunk_at,
  validate_loop, validate_available, GuestImage, GuestMemoryAccess, validate, memory_error_at,
  guest_memory_unmapped,
}
use astraea.Execution.GuestMemory.Coverage.{byte_error, guest_allows, prepared_allows}
use astraea.Execution.GuestMemory.Validate.{IsPrepared, first_error, validate-first_error}
use astraea.Execution.GuestMemory.Access.{
  load, read_validated, write_validated, HostMemory, store, read_bytes, write_bytes, read_c_string,
  load,
}
use astraea.Execution.GuestMemory.Access.Write.{write-read, write_bytes_confined}
use astraea.Execution.GuestMemory.Access.CString.{read_c_string_iff}

abbrev data_mapping : MappingIntent
data_mapping = record {
  range = record { base = 4096; size = 3 };
  permissions = record { bits = 3 };
  backing = record { kind = file; file_offset = 0; byte_count = 3 };
  source_index = 0;
}

abbrev stack : GuestRange
stack = record { base = 8192; size = 16 }

abbrev image : GuestImage
image = record { mappings = data_mapping ∷ []; stack_storage = stack }

abbrev plan : ExecutionMemoryPlan
plan = record {
  host_page_size = 4096;
  regions =
      record {
        range = record { base = 4096; size = 4096 };
        permissions = record { bits = 3 };
        sources = [];
      }
      ∷ record {
        range = record { base = 8192; size = 4096 };
        permissions = record { bits = 3 };
        sources = [];
      }
      ∷ [];
}

abbrev guest : GuestMemoryAccess
guest = record {
  image = some image;
  prepared_plan = some plan;
  prepared_epoch = some 1;
  prepared_memory_available = true;
}

guest-IsPrepared : IsPrepared guest image plan
guest-IsPrepared = record { image_is = refl; plan_is = refl; available = refl }

-- "A" and a zero at 4096.
abbrev memory : HostMemory
memory a = if a == 4096 then 65 else 0

validate-first_error_example :
    validate guest 4097 4 read ≡ some (failure (memory_error_at guest_memory_unmapped 4099))
unfolding first_error byte_error contains has
validate-first_error_example = validate-first_error 4097 4 read guest-IsPrepared (omega arith)

abbrev patch : List ℕ
patch = 7 ∷ 8 ∷ []

abbrev done : Result ℕ GuestMemoryError
done = success 2

write-read_example : (patch ≡ 7 ∷ 8 ∷ []) × (length patch ≡ 2) × (length patch ≡ 2)
unfolding write_bytes read_bytes write_validated read_validated validate validate_available
    validate_loop chunk_at guest_coverage prepared_coverage scan contains has store load
write-read_example =
    write-read guest memory (store memory 4097 patch) 4097 patch (0 ∷ 0 ∷ []) patch 2 2 refl refl
      refl

write_bytes_confined_example :
    (guest_allows image write 4097 ≡ true)
    × (prepared_allows plan write 4097 ≡ true)
    × (done ≡ success 2)
unfolding write_bytes read_bytes write_validated read_validated validate validate_available
    validate_loop chunk_at guest_coverage prepared_coverage scan contains has store load
write_bytes_confined_example =
    write_bytes_confined guest-IsPrepared memory (store memory 4097 patch) 4097 4097 patch done
      (omega arith) (omega arith) refl (λ h. omega (arith, h))

read_c_string_too_large :
    read_c_string 64 guest memory 4096 65
    ≡ some (failure (memory_error_at host_size_unrepresentable 4096))
unfolding read_c_string
read_c_string_too_large = refl

read_c_string_iff_example : read_c_string 64 guest memory 4096 2 ≡ some (success (65 ∷ []))
unfolding validate validate_available validate_loop chunk_at guest_coverage prepared_coverage scan
    contains has
read_c_string_iff_example = (read_c_string_iff 64 guest memory 4096 2 (65 ∷ [])).1 (
  omega arith,
  omega arith,
  ((1, refl), refl, (λ h. omega (arith, h)), omega arith, ((1, refl), refl)),
)

guest_write_owned_by_plan_iff_example :
    guest_write_owned_by_plan plan (data_mapping ∷ []) stack 4097 2 ≡ true
unfolding has
guest_write_owned_by_plan_iff_example =
    (guest_write_owned_by_plan_iff plan (data_mapping ∷ []) stack 4097 2 (omega arith)).1 (
      omega arith,
      (λ h. omega (arith, h)),
      omega arith,
      inr (inl (refl, (omega arith, omega arith))),
      (inl refl, tt),
      inl ((omega arith, omega arith), refl, refl),
    )

-- Code at 12288, and the data and the stack from above.
abbrev code_mapping : MappingIntent
code_mapping = record {
  range = record { base = 12288; size = 16 };
  permissions = record { bits = 5 };
  backing = record { kind = file; file_offset = 16; byte_count = 16 };
  source_index = 1;
}

abbrev request : ExecutionMemoryPlanRequest
request = record {
  mappings = data_mapping ∷ code_mapping ∷ [];
  stack_storage = stack;
  entry_point = 12290;
  stack_pointer = 8200;
  host_page_size = 4096;
}

abbrev source : ExecutionMemorySourceKind → ℕ → ExecutionMemorySource
source kind index = record { kind = kind; source_index = index }

abbrev page_region : ℕ → ℕ → ExecutionMemorySource → ExecutionMemoryRegion
page_region base bits s = record {
  range = record { base = base; size = 4096 };
  permissions = record { bits = bits };
  sources = s ∷ [];
}

abbrev built : ExecutionMemoryPlan
built = record {
  host_page_size = 4096;
  regions =
      page_region 4096 3 (source mapping 0)
      ∷ page_region 8192 3 (source initial_stack 0)
      ∷ page_region 12288 5 (source mapping 1)
      ∷ [];
}

build_built : build_execution_memory_plan request ≡ success built
unfolding build_execution_memory_plan is_power_of_two mapping_spans stack_spans to_page_span
    checked_from_bits regions_of sorted_boundaries boundaries unique unique_from sort insert
    build_regions region_of bits_at sources_at span_covers create contains has source_less
build_built = refl

build_execution_memory_plan-prepared_allows_example : prepared_allows built write 8193 ≡ true
unfolding contains has
build_execution_memory_plan-prepared_allows_example =
    build_execution_memory_plan-prepared_allows request built write 8193
      (omega arith, (omega arith, tt)) (omega arith) (λ h. cc) build_built refl

build_execution_memory_plan-IsExclusive_example : IsExclusive request built
build_execution_memory_plan-IsExclusive_example =
    build_execution_memory_plan-IsExclusive request built (omega arith, (omega arith, tt))
      (omega arith) (omega arith) build_built

build_execution_memory_plan-Placed_example : Placed 0 built.regions
build_execution_memory_plan-Placed_example =
    build_execution_memory_plan-Placed request built build_built

abbrev prepared_guest : GuestMemoryAccess
prepared_guest = record {
  image = some (image_of request);
  prepared_plan = some built;
  prepared_epoch = some 1;
  prepared_memory_available = true;
}

prepared_guest-IsPrepared : IsPrepared prepared_guest (image_of request) built
prepared_guest-IsPrepared = record { image_is = refl; plan_is = refl; available = refl }

validate-AllowedRange_example :
    (validate prepared_guest 4097 2 write ≡ some (success 2))
    ↔ AllowedRange (image_of request) write 4097 2
validate-AllowedRange_example =
    validate-AllowedRange prepared_guest request built write 4097 2 prepared_guest-IsPrepared
      build_built (omega arith, (omega arith, tt)) (λ h. cc) (omega arith)

-- A worker stops with a guest fault, at this address.
abbrev stopped : GuestWorkerWireMessage
stopped = stop_message (record { worker_id = 7; thread_id = 1; reason = 3; guest_rip = 4198400 })

abbrev stopped_frame : List ℕ
stopped_frame =
    65 ∷ 83 ∷ 84 ∷ 82 ∷ 1 ∷ 0 ∷ 6 ∷ 0 ∷ 28 ∷ 0 ∷ 0 ∷ 0 ∷ 7 ∷ 0 ∷ 0 ∷ 0 ∷ 0 ∷ 0 ∷ 0 ∷ 0 ∷ 1 ∷ 0 ∷ 0
    ∷ 0 ∷ 0 ∷ 0 ∷ 0 ∷ 0 ∷ 3 ∷ 0 ∷ 0 ∷ 0 ∷ 0 ∷ 16 ∷ 64 ∷ 0 ∷ 0 ∷ 0 ∷ 0 ∷ 0 ∷ []

encode_stopped : encode_guest_worker_wire_message stopped ≡ success stopped_frame
unfolding encode_guest_worker_wire_message valid_message append_fields little_endian
encode_stopped = refl

decode-encode_example :
    (frame : List ℕ) × (encode_guest_worker_wire_message stopped ≡ success frame)
    × (length frame ≤ 140)
    × (decode_guest_worker_wire_message frame ≡ some (success stopped))
unfolding valid_message
decode-encode_example = decode-encode stopped (omega arith) refl

decode_guest_worker_wire_message_lem_example :
    Ensures
      (IsEncoding stopped_frame)
      (InFrame stopped_frame)
      (decode_guest_worker_wire_message stopped_frame)
decode_guest_worker_wire_message_lem_example =
    decode_guest_worker_wire_message_lem stopped_frame (omega arith)
