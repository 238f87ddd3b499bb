-- ===== src/Execution/Worker/Wire/RoundTrip.antt =====
-- A message whose numbers fit their fields is decoded from the frame that it is encoded as.
use astraea.Execution.Worker.Wire.Header.{
  header_fields, kind_bounds, header_fields-FitsSize, decode_header_lem,
}
use astraea.Prelude.{
  eq→==, le→ltb, ℕ, ◌+◌, ◌≤◌, ◌≡◌, refl, true, some, List, ◌++◌, arith, length, take, All, success,
}
use astraea.Prelude.LittleEndian.{read_little_endian, little_endian}
use astraea.Execution.Worker.Wire.{
  GuestWorkerWireMessageKind, GuestWorkerWireMessage, hello_message, ready_message,
  run_request_message, syscall_request_message, syscall_result_message, stop_message, fault_message,
  terminate_message, diagnostic_message, payload_size, kind_of, valid_message, append_fields,
  payload_fields, frame_fields, encode_guest_worker_wire_message,
}
use astraea.Execution.Worker.Wire.Decode.{decode_payload, decode_guest_worker_wire_message}
use astraea.Execution.Worker.Wire.Fields.{FitsSize, field_at, read_little_endian-fields}

-- Every number of the message fits its field.
abbrev pub Fits : GuestWorkerWireMessage → Type 0
Fits m = All FitsSize (payload_fields m)

take-frame :
    (kind : GuestWorkerWireMessageKind) (fields : List (ℕ × ℕ))
    → take 12 (append_fields (header_fields kind ++ fields)) ≡ append_fields (header_fields kind)
unfolding append_fields little_endian
take-frame kind fields = refl

length-frame :
    (m : GuestWorkerWireMessage)
    → length (append_fields (frame_fields m)) ≡ 12 + payload_size (kind_of m)
unfolding append_fields little_endian
length-frame (hello_message m) = refl
length-frame (ready_message m) = refl
length-frame (run_request_message m) = refl
length-frame (syscall_request_message m) = refl
length-frame (syscall_result_message m) = refl
length-frame (stop_message m) = refl
length-frame (fault_message m) = refl
length-frame (terminate_message m) = refl
length-frame (diagnostic_message m) = refl

module _ (m : GuestWorkerWireMessage) (fits : Fits m) where
  field :
      (offset n v : ℕ)
      → field_at (frame_fields m) offset n ≡ some v
      → read_little_endian (append_fields (frame_fields m)) offset n ≡ some v
  field offset n v e =
      read_little_endian-fields (frame_fields m) offset n v
        (header_fields-FitsSize (kind_of m) (payload_fields m) fits) e

-- The payload is decoded as the fields that were put into it.
decode_payload-frame :
    (m : GuestWorkerWireMessage)
    → Fits m
    → valid_message m ≡ true
    → decode_payload (kind_of m) (append_fields (frame_fields m)) ≡ some (success m)
unfolding decode_payload valid_message
decode_payload-frame (hello_message m) h v =
    let f = field (hello_message m) h in rw (decode_payload, f 12 4 m.protocol_version refl) refl
decode_payload-frame (ready_message m) h v =
    let f = field (ready_message m) h in
    rw (decode_payload, f 12 4 m.protocol_version refl, f 16 8 m.worker_id refl) refl
decode_payload-frame (run_request_message m) h v =
    let f = field (run_request_message m) h in
    rw (decode_payload, f 12 8 m.budget_microseconds refl) refl
decode_payload-frame (syscall_request_message m) h v =
    let f = field (syscall_request_message m) h in
    rw
      (
        decode_payload,
        f 12 8 m.request_id refl,
        f 20 8 m.worker_id refl,
        f 28 8 m.thread_id refl,
        f 36 8 m.guest_syscall_number refl,
        f 92 8 m.guest_rip refl,
        f 44 8 m.arguments.at0 refl,
        f 52 8 m.arguments.at1 refl,
        f 60 8 m.arguments.at2 refl,
        f 68 8 m.arguments.at3 refl,
        f 76 8 m.arguments.at4 refl,
        f 84 8 m.arguments.at5 refl,
      )
      refl
decode_payload-frame (syscall_result_message m) h v =
    let f = field (syscall_result_message m) h in
    rw
      (
        decode_payload,
        f 12 8 m.request_id refl,
        f 20 8 m.worker_id refl,
        f 28 8 m.thread_id refl,
        f 36 8 m.return_value refl,
        f 44 4 m.guest_errno refl,
      )
      refl
decode_payload-frame (stop_message m) h v =
    let f = field (stop_message m) h in
    rw
      (
        decode_payload,
        f 28 4 m.reason refl,
        v,
        f 12 8 m.worker_id refl,
        f 20 8 m.thread_id refl,
        f 32 8 m.guest_rip refl,
      )
      refl
decode_payload-frame (fault_message m) h v =
    let f = field (fault_message m) h in
    rw
      (
        decode_payload,
        f 28 4 m.kind refl,
        v,
        f 12 8 m.worker_id refl,
        f 20 8 m.thread_id refl,
        f 32 8 m.guest_rip refl,
        f 40 8 m.fault_address refl,
      )
      refl
decode_payload-frame (terminate_message m) h v =
    let f = field (terminate_message m) h in rw (decode_payload, f 12 4 m.reason refl, v) refl
decode_payload-frame (diagnostic_message m) h v =
    let f = field (diagnostic_message m) h in
    rw
      (
        decode_payload,
        f 28 4 m.kind refl,
        v,
        f 12 8 m.worker_id refl,
        f 20 8 m.thread_id refl,
        f 32 8 m.guest_rip refl,
        f 40 8 m.detail0 refl,
        f 48 8 m.detail1 refl,
      )
      refl

payload_bound : (size n : ℕ) → n ≡ 12 + size → size ≤ 128 → n ≤ 140
payload_bound size n e h = omega (arith, e, h)

-- A valid message whose numbers fit their fields is encoded, as at most 140 bytes, and decoding
-- these gives the message back.
pub decode-encode :
    (m : GuestWorkerWireMessage)
    → Fits m
    → valid_message m ≡ true
    → (frame : List ℕ) × (encode_guest_worker_wire_message m ≡ success frame)
      × (length frame ≤ 140)
      × (decode_guest_worker_wire_message frame ≡ some (success m))
unfolding encode_guest_worker_wire_message decode_guest_worker_wire_message
decode-encode m h v =
    let frame = append_fields (frame_fields m) in
    let size = length-frame m in
    let bound = (kind_bounds (kind_of m)).1 in
    (
      frame,
      rw (v, le→ltb 128 (payload_size (kind_of m)) bound) refl,
      payload_bound (payload_size (kind_of m)) (length frame) size bound,
      rw
          (
            size,
            le→ltb (12 + payload_size (kind_of m)) 12 (omega arith),
            take-frame (kind_of m) (payload_fields m),
            decode_header_lem (kind_of m),
            eq→== (12 + payload_size (kind_of m)) (12 + payload_size (kind_of m)) refl,
            decode_payload-frame m h v,
            v,
          )
          refl,
    )
