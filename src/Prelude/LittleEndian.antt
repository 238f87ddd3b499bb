-- ===== src/Prelude/LittleEndian.antt =====
-- Unsigned numbers as bytes in little-endian order. `none` is an index outside the bytes.
use astraea.Prelude.Attempts.{◌>>=◌, read, Ensures, Attempt}
use mathlib.Core.Logic.{inl, inr}
use astraea.Prelude.Tests.{Option-cases}
use Prim.Native.Nat.{ℕ, zero, suc, ◌+◌, ◌*◌, ◌/◌, ◌%◌, ◌^◌, ◌≤◌, ◌<◌}
use mathlib.Core.Path.{◌≡◌, refl, sym, ap}
use mathlib.Core.List.{List, [], ◌∷◌, ◌++◌}
use mathlib.Core.Option.{Option, none, some}
use native.Mathlib.Omega.{arith}
use native.Mathlib.Nat.{pow-suc, zero-add, add-zero}
use astraea.Prelude.Lists.{drop_step, drop, length, get_elem?, All, get_elem?-lt}

-- The bytes do not overlap, so that `|=` adds them up.
abbrev join_byte : ℕ → Option ℕ → Option ℕ
join_byte b none = none
join_byte b (some rest) = some (b + rest * 256)

unfoldable pub read_little_endian : List ℕ → ℕ → ℕ → Option ℕ
read_little_endian bytes offset zero = some 0
read_little_endian bytes offset (suc size) =
    let rest = read_little_endian bytes (offset + 1) size in
    elim (get_elem? bytes offset) [ none ↦ none | some b ↦ join_byte b rest ]

unfoldable pub little_endian : ℕ → ℕ → List ℕ
little_endian zero value = []
little_endian (suc size) value = value % 256 ∷ little_endian size (value / 256)

abbrev pub AllBytes : List ℕ → Type 0
AllBytes = All (λ b. b < 256)

All-get_elem? : (bytes : List ℕ) (i b : ℕ) → AllBytes bytes → get_elem? bytes i ≡ some b → b < 256
All-get_elem? [] i b h e = cc
All-get_elem? (x ∷ xs) zero b h e = ground (arith, h.0)
All-get_elem? (x ∷ xs) (suc i) b h e = All-get_elem? xs i b h.1 e

-- Inside the bytes there is a value, which fits the size.
pub read_little_endian-lt :
    (bytes : List ℕ) (offset size : ℕ)
    → AllBytes bytes
    → offset + size ≤ length bytes
    → (v : ℕ) × (read_little_endian bytes offset size ≡ some v) × (v < 256 ^ size)
unfolding read_little_endian
read_little_endian-lt bytes offset zero h fits = (0, refl, omega arith)
read_little_endian-lt bytes offset (suc size) h fits =
    let (b, at) = get_elem?-lt bytes offset (omega arith) in
    let (rest, later, small) = read_little_endian-lt bytes (offset + 1) size h (omega arith) in
    (
      b + rest * 256,
      rw (read_little_endian, at, later) refl,
      omega (arith, All-get_elem? bytes offset b h at, small, pow-suc 256 size),
    )

pub read_little_endian-some :
    (bytes : List ℕ) (offset size : ℕ)
    → offset + size ≤ length bytes
    → (v : ℕ) × (read_little_endian bytes offset size ≡ some v)
unfolding read_little_endian
read_little_endian-some bytes offset zero fits = (0, refl)
read_little_endian-some bytes offset (suc size) fits =
    let (b, at) = get_elem?-lt bytes offset (omega arith) in
    let (rest, later) = read_little_endian-some bytes (offset + 1) size (omega arith) in
    (b + rest * 256, rw (read_little_endian, at, later) refl)

pub length-little_endian : (size value : ℕ) → length (little_endian size value) ≡ size
unfolding little_endian
length-little_endian zero value = refl
length-little_endian (suc size) value = ap (λ n. suc n) (length-little_endian size (value / 256))

-- A read past the first byte is a read in the rest.
pub read_little_endian-cons :
    (x : ℕ) (bytes : List ℕ) (offset n : ℕ)
    → read_little_endian (x ∷ bytes) (suc offset) n ≡ read_little_endian bytes offset n
unfolding read_little_endian
read_little_endian-cons x bytes offset zero = refl
read_little_endian-cons x bytes offset (suc n) =
    let later = read_little_endian-cons x bytes (offset + 1) n in
    let next : suc offset + 1 ≡ suc (offset + 1) = omega arith in
    ground (arith, later, next, ap (λ k. read_little_endian (x ∷ bytes) k n) next)

-- A read past a number is a read in what follows it.
pub read_little_endian-append :
    (size value : ℕ) (bytes : List ℕ) (offset n : ℕ)
    → read_little_endian (little_endian size value ++ bytes) (size + offset) n
      ≡ read_little_endian bytes offset n
unfolding little_endian
read_little_endian-append zero value bytes offset n = rw zero-add refl
read_little_endian-append (suc size) value bytes offset n =
    let next : suc size + offset ≡ suc (size + offset) = omega arith in
    let rest = read_little_endian-append size (value / 256) bytes offset n in
    rw (next, read_little_endian-cons) rest

-- A number that fits the size is read back where it was put.
pub read-little_endian :
    (size value : ℕ) (bytes : List ℕ)
    → value < 256 ^ size
    → read_little_endian (little_endian size value ++ bytes) 0 size ≡ some value
unfolding little_endian read_little_endian
read-little_endian zero value bytes h = ground (arith, h)
read-little_endian (suc size) value bytes h =
    let small : value / 256 < 256 ^ size = omega (arith, pow-suc 256 size) in
    let rest = read-little_endian size (value / 256) bytes small in
    let skip : read_little_endian (little_endian (suc size) value ++ bytes) 1 size
        ≡ read_little_endian (little_endian size (value / 256) ++ bytes) 0 size =
      read_little_endian-cons (value % 256) (little_endian size (value / 256) ++ bytes) 0 size in
    rw (skip, rest) (ap some (omega arith))

join_byte-some :
    (b v : ℕ) (o : Option ℕ) → join_byte b o ≡ some v → (r : ℕ) × (o ≡ some r) × (v ≡ b + r * 256)
join_byte-some b v none e = cc
join_byte-some b v (some r) e = (r, refl, cc)

-- Writing what was read gives the bytes back.
pub little_endian-read :
    (size : ℕ) (bytes : List ℕ) (offset value : ℕ)
    → AllBytes bytes
    → read_little_endian bytes offset size ≡ some value
    → little_endian size value ++ drop (offset + size) bytes ≡ drop offset bytes
unfolding little_endian read_little_endian
little_endian-read zero bytes offset value ab e = rw add-zero refl
little_endian-read (suc size) bytes offset value ab e =
    elim (Option-cases (get_elem? bytes offset)) [
      | inl out ↦ ground arith
      | inr (b, at) ↦
          let joined : join_byte b (read_little_endian bytes (offset + 1) size) ≡ some value =
            rw (read_little_endian, at) at e in
          let (r, later, sum) =
            join_byte-some b value (read_little_endian bytes (offset + 1) size) joined in
          let small = All-get_elem? bytes offset b ab at in
          let low : value % 256 ≡ b = omega (arith, sum, small) in
          let high : value / 256 ≡ r = omega (arith, sum, small) in
          let rest = little_endian-read size bytes (offset + 1) r ab later in
          let ends : offset + suc size ≡ offset + 1 + size = omega arith in
          let next : offset + 1 ≡ suc offset = omega arith in
          rw (low, high, ends, rest, next) (sym (drop_step bytes offset at))
    ]

-- A read inside the bytes goes on with the value that stands there.
pub Ensures-field {ℓ} :
    {A : Type ℓ} {E : Type 0} (P : A → Type 0) (Q : E → Type 0) (bytes : List ℕ) (offset size : ℕ)
    (f : ℕ → Attempt A E)
    → AllBytes bytes
    → offset + size ≤ length bytes
    → ((v : ℕ) → read_little_endian bytes offset size ≡ some v → v < 256 ^ size → Ensures P Q (f v))
    → Ensures P Q (read (read_little_endian bytes offset size) >>= f)
Ensures-field P Q bytes offset size f h fits k =
    let (v, e, small) = read_little_endian-lt bytes offset size h fits in rw e (k v e small)
