-- ===== src/Execution/Worker/Wire/Canonical.antt =====
-- What is decoded from a frame is a valid message, of which the frame is the encoding.
use astraea.Execution.Worker.Wire.Payload.{InFrame, DecodedPayload, decode_payload-Ensures}
use mathlib.Core.Path.{subst}
use mathlib.Core.List.{append_assoc}
use astraea.Prelude.{
  length-take, All-take, le→ltb, not-false, ltb→le, take-drop, ℕ, ◌+◌, ◌≤◌, ◌<◌, ◌≡◌, refl, sym, ap,
  ◌∙◌, inl, inr, true, not, some, List, [], ◌∷◌, ◌++◌, arith, ltb, ◌==◌, ==_iff, Option-cases,
  length, take, success,
}
use astraea.Prelude.Attempts.{Ensures, Ensures->>=, Ensures-check}
use astraea.Prelude.LittleEndian.{Ensures-field, little_endian, AllBytes}
use astraea.Execution.Worker.Wire.{
  GuestWorkerWireMessageKind, GuestWorkerWireMessage, GuestWorkerWireHeader, hello, ready,
  run_request, syscall_request, syscall_result, stop, fault, terminate, diagnostic, wire_magic,
  kind_value, payload_size, kind_of, valid_message, append_fields, payload_fields, frame_fields,
  encode_guest_worker_wire_message,
}
use astraea.Execution.Worker.Wire.Decode.{
  decode_kind, known_kind, decode_guest_worker_wire_header, decode_guest_worker_wire_message,
}
use astraea.Execution.Worker.Wire.Fields.{FieldsAt, append_fields-FieldsAt}
use astraea.Execution.Worker.Wire.RoundTrip.{Fits}
use astraea.Execution.Worker.Wire.Header.{header_fields, kind_bounds}

abbrev DecodedHeader : List ℕ → GuestWorkerWireHeader → Type 0
DecodedHeader header h =
    (h.frame_size ≡ 12 + payload_size h.kind) × FieldsAt header 0 (header_fields h.kind)

decode_kind-success :
    (raw : ℕ) (kind : GuestWorkerWireMessageKind)
    → decode_kind raw ≡ some kind
    → raw ≡ kind_value kind
unfolding decode_kind
decode_kind-success raw hello e = ground arith
decode_kind-success raw ready e = ground arith
decode_kind-success raw run_request e = ground arith
decode_kind-success raw syscall_request e = ground arith
decode_kind-success raw syscall_result e = ground arith
decode_kind-success raw stop e = ground arith
decode_kind-success raw fault e = ground arith
decode_kind-success raw terminate e = ground arith
decode_kind-success raw diagnostic e = ground arith

known_kind-Ensures :
    (frame : List ℕ) (raw : ℕ)
    → 12 ≤ length frame
    → Ensures (λ kind. raw ≡ kind_value kind) (InFrame frame) (known_kind raw (decode_kind raw))
known_kind-Ensures frame raw fits = elim (Option-cases (decode_kind raw)) [
  | inl e ↦ rw e (omega arith)
  | inr (kind, e) ↦ rw e (decode_kind-success raw kind e)
]

decode_header-Ensures :
    (frame header : List ℕ)
    → AllBytes header
    → length header ≡ 12
    → 12 ≤ length frame
    → Ensures (DecodedHeader header) (InFrame frame) (decode_guest_worker_wire_header header)
unfolding decode_guest_worker_wire_header
decode_header-Ensures frame header ab size fits =
    let P = DecodedHeader header in
    let Q = InFrame frame in
    Ensures-check P Q (not (length header == 12)) _ _ (omega (arith, size, fits)) (λ u.
      Ensures-field P Q header 0 4 _ ab (omega (arith, size)) (λ magic e_magic s_magic.
        Ensures-check P Q (not (magic == wire_magic)) _ _ (omega arith) (λ is_magic.
          Ensures-field P Q header 4 2 _ ab (omega (arith, size)) (λ version e_version s_version.
            Ensures-check P Q (not (version == 1)) _ _ (omega (arith, fits)) (λ is_version.
              Ensures-field P Q header 6 2 _ ab (omega (arith, size)) (λ raw e_raw s_raw.
                Ensures->>= (λ kind. raw ≡ kind_value kind) Q P _ _
                  (known_kind-Ensures frame raw fits)
                  (λ kind e_kind same.
                    Ensures-field P Q header 8 4 _ ab (omega (arith, size))
                      (λ declared e_declared s_declared.
                        Ensures-check P Q (ltb 128 declared) _ _ (omega (arith, fits)) (λ small.
                          Ensures-check P Q (not (declared == payload_size kind)) _ _
                            (omega (arith, fits))
                            (λ is_size.
                              let m =
                                (==_iff magic wire_magic).0
                                  (not-false (magic == wire_magic) is_magic) in
                              let w = (==_iff version 1).0 (not-false (version == 1) is_version) in
                              let d =
                                (==_iff declared (payload_size kind)).0
                                  (not-false (declared == payload_size kind) is_size) in
                              (
                                ap (λ n. 12 + n) d,
                                (
                                  e_magic ∙ ap some m,
                                  (
                                    e_version ∙ ap some w,
                                    (e_raw ∙ ap some same, (e_declared ∙ ap some d, sym size)),
                                  ),
                                ),
                              )))))))))))

abbrev pub IsEncoding : List ℕ → GuestWorkerWireMessage → Type 0
IsEncoding frame m =
    (encode_guest_worker_wire_message m ≡ success frame) × Fits m × (valid_message m ≡ true)

append_fields-append :
    (xs ys : List (ℕ × ℕ)) → append_fields (xs ++ ys) ≡ append_fields xs ++ append_fields ys
unfolding append_fields
append_fields-append [] ys = refl
append_fields-append ((size, value) ∷ xs) ys =
    rw (append_fields-append xs ys)
      (sym (append_assoc (little_endian size value) (append_fields xs) (append_fields ys)))

decoded :
    (frame : List ℕ) (kind : GuestWorkerWireMessageKind) (m : GuestWorkerWireMessage)
    → AllBytes frame
    → AllBytes (take 12 frame)
    → FieldsAt (take 12 frame) 0 (header_fields kind)
    → DecodedPayload frame kind m
    → valid_message m ≡ true
    → IsEncoding frame m
unfolding encode_guest_worker_wire_message
decoded frame kind m ab ab' head (same, fields, fits) valid =
    let first = subst (λ k. FieldsAt (take 12 frame) 0 (header_fields k)) (sym same) head in
    let parts = append_fields-append (header_fields (kind_of m)) (payload_fields m) in
    let front = append_fields-FieldsAt (take 12 frame) 0 (header_fields (kind_of m)) ab' first in
    let back = append_fields-FieldsAt frame 12 (payload_fields m) ab fields in
    let whole : append_fields (frame_fields m) ≡ frame =
      parts ∙ rw (front, back) (take-drop 12 frame) in
    (
      rw (valid, le→ltb 128 (payload_size (kind_of m)) (kind_bounds (kind_of m)).1, whole) refl,
      fits,
      valid,
    )

-- Decoding a list of bytes stays inside it. When it gives a message, the message is valid, its
-- numbers fit their fields, and encoding it gives the same bytes. When it
-- fails, the error names a byte of the frame or its end.
pub decode_guest_worker_wire_message_lem :
    (frame : List ℕ)
    → AllBytes frame
    → Ensures (IsEncoding frame) (InFrame frame) (decode_guest_worker_wire_message frame)
unfolding decode_guest_worker_wire_message
decode_guest_worker_wire_message_lem frame ab =
    let P = IsEncoding frame in
    let Q = InFrame frame in
    Ensures-check P Q (ltb (length frame) 12) _ _ (omega arith) (λ long.
      let fits = ltb→le (length frame) 12 long in
      let ab' = All-take (λ b. b < 256) 12 frame ab in
      Ensures->>= (DecodedHeader (take 12 frame)) Q P _ _
        (decode_header-Ensures frame (take 12 frame) ab' (length-take 12 frame fits) fits)
        (λ h e_h head.
          Ensures-check P Q (not (length frame == h.frame_size)) _ _ (omega arith) (λ whole.
            let size =
              (==_iff (length frame) h.frame_size).0
                (not-false (length frame == h.frame_size) whole)
              ∙ head.0 in
            Ensures->>= (DecodedPayload frame h.kind) Q P _ _
              (decode_payload-Ensures frame h.kind ab size)
              (λ m e_m payload.
                Ensures-check P Q (not (valid_message m)) _ _ (omega (arith, fits)) (λ valid.
                  decoded frame h.kind m ab ab' head.1 payload
                    (not-false (valid_message m) valid))))))
