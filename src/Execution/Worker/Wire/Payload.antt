-- ===== src/Execution/Worker/Wire/Payload.antt =====
-- What is decoded from a payload, of which the fields are those that the frame holds.
use astraea.Prelude.{ℕ, ◌+◌, ◌≤◌, ◌≡◌, refl, sym, not, List, arith, length}
use astraea.Prelude.Attempts.{Ensures, Ensures-check}
use astraea.Prelude.LittleEndian.{Ensures-field, AllBytes}
use astraea.Execution.Worker.{fault_kinds, diagnostic_kinds, stop_reasons, termination_reasons}
use astraea.Execution.Worker.Wire.{
  GuestWorkerWireMessageKind, GuestWorkerWireMessage, GuestWorkerWireError, hello, ready,
  run_request, syscall_request, syscall_result, stop, fault, terminate, diagnostic, payload_size,
  kind_of, payload_fields, is_enumerator,
}
use astraea.Execution.Worker.Wire.Decode.{decode_payload}
use astraea.Execution.Worker.Wire.Fields.{FieldsAt}
use astraea.Execution.Worker.Wire.RoundTrip.{Fits}

-- An error names a byte of the frame, or its end.
abbrev pub InFrame : List ℕ → GuestWorkerWireError → Type 0
InFrame frame e = e.byte_offset ≤ length frame

abbrev pub DecodedPayload : List ℕ → GuestWorkerWireMessageKind → GuestWorkerWireMessage → Type 0
DecodedPayload frame kind m = (kind_of m ≡ kind) × FieldsAt frame 12 (payload_fields m) × Fits m

pub decode_payload-Ensures :
    (frame : List ℕ) (kind : GuestWorkerWireMessageKind)
    → AllBytes frame
    → length frame ≡ 12 + payload_size kind
    → Ensures (DecodedPayload frame kind) (InFrame frame) (decode_payload kind frame)
unfolding decode_payload
decode_payload-Ensures frame hello ab size =
    let P = DecodedPayload frame hello in
    let Q = InFrame frame in
    Ensures-field P Q frame 12 4 _ ab (omega (arith, size))
      (λ protocol_version e_protocol_version s_protocol_version.
        (refl, (e_protocol_version, sym size), (s_protocol_version, tt)))
decode_payload-Ensures frame ready ab size =
    let P = DecodedPayload frame ready in
    let Q = InFrame frame in
    Ensures-field P Q frame 12 4 _ ab (omega (arith, size))
      (λ protocol_version e_protocol_version s_protocol_version.
        Ensures-field P Q frame 16 8 _ ab (omega (arith, size))
          (λ worker_id e_worker_id s_worker_id. (
            refl,
            (e_protocol_version, (e_worker_id, sym size)),
            (s_protocol_version, (s_worker_id, tt)),
          )))
decode_payload-Ensures frame run_request ab size =
    let P = DecodedPayload frame run_request in
    let Q = InFrame frame in
    Ensures-field P Q frame 12 8 _ ab (omega (arith, size))
      (λ budget_microseconds e_budget_microseconds s_budget_microseconds.
        (refl, (e_budget_microseconds, sym size), (s_budget_microseconds, tt)))
decode_payload-Ensures frame syscall_request ab size =
    let P = DecodedPayload frame syscall_request in
    let Q = InFrame frame in
    Ensures-field P Q frame 12 8 _ ab (omega (arith, size)) (λ request_id e_request_id s_request_id.
      Ensures-field P Q frame 20 8 _ ab (omega (arith, size)) (λ worker_id e_worker_id s_worker_id.
        Ensures-field P Q frame 28 8 _ ab (omega (arith, size))
          (λ thread_id e_thread_id s_thread_id.
            Ensures-field P Q frame 36 8 _ ab (omega (arith, size))
              (λ guest_syscall_number e_guest_syscall_number s_guest_syscall_number.
                Ensures-field P Q frame 92 8 _ ab (omega (arith, size))
                  (λ guest_rip e_guest_rip s_guest_rip.
                    Ensures-field P Q frame 44 8 _ ab (omega (arith, size)) (λ at0 e_at0 s_at0.
                      Ensures-field P Q frame 52 8 _ ab (omega (arith, size)) (λ at1 e_at1 s_at1.
                        Ensures-field P Q frame 60 8 _ ab (omega (arith, size)) (λ at2 e_at2 s_at2.
                          Ensures-field P Q frame 68 8 _ ab (omega (arith, size))
                            (λ at3 e_at3 s_at3.
                              Ensures-field P Q frame 76 8 _ ab (omega (arith, size))
                                (λ at4 e_at4 s_at4.
                                  Ensures-field P Q frame 84 8 _ ab (omega (arith, size))
                                    (λ at5 e_at5 s_at5. (
                                      refl,
                                      (
                                        e_request_id,
                                        (
                                          e_worker_id,
                                          (
                                            e_thread_id,
                                            (
                                              e_guest_syscall_number,
                                              (
                                                e_at0,
                                                (
                                                  e_at1,
                                                  (
                                                    e_at2,
                                                    (
                                                      e_at3,
                                                      (e_at4, (e_at5, (e_guest_rip, sym size))),
                                                    ),
                                                  ),
                                                ),
                                              ),
                                            ),
                                          ),
                                        ),
                                      ),
                                      (
                                        s_request_id,
                                        (
                                          s_worker_id,
                                          (
                                            s_thread_id,
                                            (
                                              s_guest_syscall_number,
                                              (
                                                s_at0,
                                                (
                                                  s_at1,
                                                  (
                                                    s_at2,
                                                    (s_at3, (s_at4, (s_at5, (s_guest_rip, tt)))),
                                                  ),
                                                ),
                                              ),
                                            ),
                                          ),
                                        ),
                                      ),
                                    ))))))))))))
decode_payload-Ensures frame syscall_result ab size =
    let P = DecodedPayload frame syscall_result in
    let Q = InFrame frame in
    Ensures-field P Q frame 12 8 _ ab (omega (arith, size)) (λ request_id e_request_id s_request_id.
      Ensures-field P Q frame 20 8 _ ab (omega (arith, size)) (λ worker_id e_worker_id s_worker_id.
        Ensures-field P Q frame 28 8 _ ab (omega (arith, size))
          (λ thread_id e_thread_id s_thread_id.
            Ensures-field P Q frame 36 8 _ ab (omega (arith, size))
              (λ return_value e_return_value s_return_value.
                Ensures-field P Q frame 44 4 _ ab (omega (arith, size))
                  (λ guest_errno e_guest_errno s_guest_errno. (
                    refl,
                    (
                      e_request_id,
                      (e_worker_id, (e_thread_id, (e_return_value, (e_guest_errno, sym size)))),
                    ),
                    (
                      s_request_id,
                      (s_worker_id, (s_thread_id, (s_return_value, (s_guest_errno, tt)))),
                    ),
                  ))))))
decode_payload-Ensures frame stop ab size =
    let P = DecodedPayload frame stop in
    let Q = InFrame frame in
    Ensures-field P Q frame 28 4 _ ab (omega (arith, size)) (λ reason e_reason s_reason.
      Ensures-check P Q (not (is_enumerator reason stop_reasons)) _ _ (omega (arith, size))
        (λ valid.
          Ensures-field P Q frame 12 8 _ ab (omega (arith, size))
            (λ worker_id e_worker_id s_worker_id.
              Ensures-field P Q frame 20 8 _ ab (omega (arith, size))
                (λ thread_id e_thread_id s_thread_id.
                  Ensures-field P Q frame 32 8 _ ab (omega (arith, size))
                    (λ guest_rip e_guest_rip s_guest_rip. (
                      refl,
                      (e_worker_id, (e_thread_id, (e_reason, (e_guest_rip, sym size)))),
                      (s_worker_id, (s_thread_id, (s_reason, (s_guest_rip, tt)))),
                    ))))))
decode_payload-Ensures frame fault ab size =
    let P = DecodedPayload frame fault in
    let Q = InFrame frame in
    Ensures-field P Q frame 28 4 _ ab (omega (arith, size)) (λ kind e_kind s_kind.
      Ensures-check P Q (not (is_enumerator kind fault_kinds)) _ _ (omega (arith, size)) (λ valid.
        Ensures-field P Q frame 12 8 _ ab (omega (arith, size))
          (λ worker_id e_worker_id s_worker_id.
            Ensures-field P Q frame 20 8 _ ab (omega (arith, size))
              (λ thread_id e_thread_id s_thread_id.
                Ensures-field P Q frame 32 8 _ ab (omega (arith, size))
                  (λ guest_rip e_guest_rip s_guest_rip.
                    Ensures-field P Q frame 40 8 _ ab (omega (arith, size))
                      (λ fault_address e_fault_address s_fault_address. (
                        refl,
                        (
                          e_worker_id,
                          (e_thread_id, (e_kind, (e_guest_rip, (e_fault_address, sym size)))),
                        ),
                        (
                          s_worker_id,
                          (s_thread_id, (s_kind, (s_guest_rip, (s_fault_address, tt)))),
                        ),
                      )))))))
decode_payload-Ensures frame terminate ab size =
    let P = DecodedPayload frame terminate in
    let Q = InFrame frame in
    Ensures-field P Q frame 12 4 _ ab (omega (arith, size)) (λ reason e_reason s_reason.
      Ensures-check P Q (not (is_enumerator reason termination_reasons)) _ _ (omega (arith, size))
        (λ valid. (refl, (e_reason, sym size), (s_reason, tt))))
decode_payload-Ensures frame diagnostic ab size =
    let P = DecodedPayload frame diagnostic in
    let Q = InFrame frame in
    Ensures-field P Q frame 28 4 _ ab (omega (arith, size)) (λ kind e_kind s_kind.
      Ensures-check P Q (not (is_enumerator kind diagnostic_kinds)) _ _ (omega (arith, size))
        (λ valid.
          Ensures-field P Q frame 12 8 _ ab (omega (arith, size))
            (λ worker_id e_worker_id s_worker_id.
              Ensures-field P Q frame 20 8 _ ab (omega (arith, size))
                (λ thread_id e_thread_id s_thread_id.
                  Ensures-field P Q frame 32 8 _ ab (omega (arith, size))
                    (λ guest_rip e_guest_rip s_guest_rip.
                      Ensures-field P Q frame 40 8 _ ab (omega (arith, size))
                        (λ detail0 e_detail0 s_detail0.
                          Ensures-field P Q frame 48 8 _ ab (omega (arith, size))
                            (λ detail1 e_detail1 s_detail1. (
                              refl,
                              (
                                e_worker_id,
                                (
                                  e_thread_id,
                                  (e_kind, (e_guest_rip, (e_detail0, (e_detail1, sym size)))),
                                ),
                              ),
                              (
                                s_worker_id,
                                (
                                  s_thread_id,
                                  (s_kind, (s_guest_rip, (s_detail0, (s_detail1, tt)))),
                                ),
                              ),
                            ))))))))
