-- ===== src/Execution/Worker/Wire/Fields.antt =====
-- The fields of a frame are read back where they were appended, and determine the frame.
use mathlib.Core.Path.{subst}
use astraea.Prelude.{
  drop_all, ℕ, ◌+◌, ◌-◌, ◌^◌, ◌<◌, ◌≡◌, sym, ◌∙◌, inl, inr, Option, none, some, List, [], ◌∷◌, ◌++◌,
  arith, leb, ◌==◌, if◌then◌else◌, leb→le, ==_iff, Bool-cases, length, drop, All,
}
use astraea.Prelude.LittleEndian.{
  little_endian-read, read_little_endian, little_endian, AllBytes, read_little_endian-append,
  read-little_endian,
}
use astraea.Execution.Worker.Wire.{append_fields}

-- The value of the field at an offset, if one starts there and has this size.
abbrev pub field_at : List (ℕ × ℕ) → ℕ → ℕ → Option ℕ
field_at [] offset n = none
field_at ((size, value) ∷ fields) offset n =
    let rest = field_at fields (offset - size) n in
    if offset == 0
    then (if size == n then some value else none)
    else if leb size offset
    then rest
    else none

abbrev pub FitsSize : ℕ × ℕ → Type 0
FitsSize (size, value) = value < 256 ^ size

pub read_little_endian-fields :
    (fields : List (ℕ × ℕ)) (offset n v : ℕ)
    → All FitsSize fields
    → field_at fields offset n ≡ some v
    → read_little_endian (append_fields fields) offset n ≡ some v
unfolding append_fields
read_little_endian-fields [] offset n v fits e = cc
read_little_endian-fields ((size, value) ∷ fields) offset n v fits e =
    elim (Bool-cases (offset == 0)) [
      | inl start ↦ elim (Bool-cases (size == n)) [
        | inl same ↦
            (let at = (==_iff offset 0).0 start in
              let z = (==_iff size n).0 same in
              let v_lem : value ≡ v = ground arith in
              rw (at, ← z, ← v_lem) (read-little_endian size value (append_fields fields) fits.0))
        | inr other ↦ ground arith
      ]
      | inr later ↦ elim (Bool-cases (leb size offset)) [
        | inl past ↦
            (let split : offset ≡ size + (offset - size) = omega (arith, leb→le size offset past) in
              let rest : field_at fields (offset - size) n ≡ some v = ground arith in
              subst
                (λ k.
                  read_little_endian (little_endian size value ++ append_fields fields) k n
                  ≡ some v)
                (sym split)
                (read_little_endian-append size value (append_fields fields) (offset - size) n
                  ∙ read_little_endian-fields fields (offset - size) n v fits.1 rest))
        | inr inside ↦ ground arith
      ]
    ]

-- The fields are those that the bytes hold from an offset on, to their end.
abbrev pub FieldsAt : List ℕ → ℕ → List (ℕ × ℕ) → Type 0
FieldsAt bytes offset [] = offset ≡ length bytes
FieldsAt bytes offset ((size, value) ∷ fields) =
    (read_little_endian bytes offset size ≡ some value) × FieldsAt bytes (offset + size) fields

pub append_fields-FieldsAt :
    (bytes : List ℕ) (offset : ℕ) (fields : List (ℕ × ℕ))
    → AllBytes bytes
    → FieldsAt bytes offset fields
    → append_fields fields ≡ drop offset bytes
unfolding append_fields
append_fields-FieldsAt bytes offset [] ab h = sym (drop_all bytes offset (omega (arith, h)))
append_fields-FieldsAt bytes offset ((size, value) ∷ fields) ab (here, later) =
    rw (append_fields-FieldsAt bytes (offset + size) fields ab later)
      (little_endian-read size bytes offset value ab here)
