-- ===== src/Execution/Worker/Wire/Header.antt =====
-- A header is decoded as what was put into it.
use astraea.Prelude.{
  eq→==, le→ltb, ℕ, ◌+◌, ◌^◌, ◌≤◌, ◌<◌, ◌≡◌, refl, some, List, [], ◌∷◌, ◌++◌, arith, length, All,
  success,
}
use astraea.Prelude.LittleEndian.{little_endian}
use astraea.Execution.Worker.Wire.{
  GuestWorkerWireMessageKind, hello, ready, run_request, syscall_request, syscall_result, stop,
  fault, terminate, diagnostic, wire_magic, kind_value, payload_size, append_fields,
}
use astraea.Execution.Worker.Wire.Decode.{decode_kind, decode_guest_worker_wire_header}
use astraea.Execution.Worker.Wire.Fields.{FitsSize, field_at, read_little_endian-fields}

abbrev pub header_fields : GuestWorkerWireMessageKind → List (ℕ × ℕ)
header_fields kind = (4, wire_magic) ∷ (2, 1) ∷ (2, kind_value kind) ∷ (4, payload_size kind) ∷ []

pub kind_bounds :
    (kind : GuestWorkerWireMessageKind) → (kind_value kind < 256 ^ 2) × (payload_size kind ≤ 128)
kind_bounds hello = (omega arith, omega arith)
kind_bounds ready = (omega arith, omega arith)
kind_bounds run_request = (omega arith, omega arith)
kind_bounds syscall_request = (omega arith, omega arith)
kind_bounds syscall_result = (omega arith, omega arith)
kind_bounds stop = (omega arith, omega arith)
kind_bounds fault = (omega arith, omega arith)
kind_bounds terminate = (omega arith, omega arith)
kind_bounds diagnostic = (omega arith, omega arith)

decode-kind_value : (kind : GuestWorkerWireMessageKind) → decode_kind (kind_value kind) ≡ some kind
unfolding decode_kind
decode-kind_value hello = refl
decode-kind_value ready = refl
decode-kind_value run_request = refl
decode-kind_value syscall_request = refl
decode-kind_value syscall_result = refl
decode-kind_value stop = refl
decode-kind_value fault = refl
decode-kind_value terminate = refl
decode-kind_value diagnostic = refl

pub header_fields-FitsSize :
    (kind : GuestWorkerWireMessageKind) (fields : List (ℕ × ℕ))
    → All FitsSize fields
    → All FitsSize (header_fields kind ++ fields)
header_fields-FitsSize kind fields h =
    let (small, size) = kind_bounds kind in
    (omega arith, (omega arith, (small, (omega (arith, size), h))))

length-header :
    (kind : GuestWorkerWireMessageKind) → length (append_fields (header_fields kind)) ≡ 12
unfolding append_fields little_endian
length-header kind = refl

-- The header is decoded as the kind and the size that were put into it.
pub decode_header_lem :
    (kind : GuestWorkerWireMessageKind)
    → decode_guest_worker_wire_header (append_fields (header_fields kind))
      ≡ some (
          success (record {
            kind = kind;
            payload_size = payload_size kind;
            frame_size = 12 + payload_size kind;
          }))
unfolding decode_guest_worker_wire_header
decode_header_lem kind =
    let fields = header_fields kind in
    let fits = header_fields-FitsSize kind [] tt in
    let field = λ (offset n v : ℕ) (e : field_at fields offset n ≡ some v).
      read_little_endian-fields fields offset n v fits e in
    let size : length (append_fields fields) ≡ 12 = length-header kind in
    rw
      (
        size,
        field 0 4 wire_magic refl,
        field 4 2 1 refl,
        field 6 2 (kind_value kind) refl,
        decode-kind_value kind,
        field 8 4 (payload_size kind) refl,
        le→ltb 128 (payload_size kind) (kind_bounds kind).1,
        eq→== (payload_size kind) (payload_size kind) refl,
      )
      refl
