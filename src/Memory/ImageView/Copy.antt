-- ===== src/Memory/ImageView/Copy.antt =====
-- InitializedImageView::copy_bytes in terms of read_byte.
use astraea.Memory.Address.{IsRange, GuestRange, checked_add}
use astraea.Memory.ImageView.{
  InitializedImageError, store_byte, InitializedImageView, copy_loop, copy_bytes, read_byte,
}
use native.Mathlib.Nat.{add_assoc, add-zero}
use astraea.Prelude.{
  ℕ, suc, ◌+◌, ◌≤◌, ◌≡◌, refl, sym, ap, ◌∙◌, ◌↔◌, Option, none, some, List, [], ◌∷◌, arith, u64_max,
  length, Result, success, failure,
}

-- The bytes from address `a` on are these.
abbrev pub Reads : InitializedImageView → ℕ → List ℕ → Type 0
Reads v a [] = Unit
Reads v a (b ∷ bs) = (read_byte v a ≡ some (success b)) × Reads v (a + 1) bs

store_byte-success :
    (o : ℕ) (os : List ℕ) (r : Option (Result ℕ InitializedImageError))
    (t : Option (Result (Unit {0}) InitializedImageError × List ℕ)) {bs : List ℕ}
    → store_byte o os r t ≡ some (success tt, bs)
    → (b : ℕ) × (rest : List ℕ) × (r ≡ some (success b))
      × (t ≡ some (success tt, rest))
      × (bs ≡ b ∷ rest)
unfolding store_byte
store_byte-success o os none t h = cc
store_byte-success o os (some (failure e)) t h = ground arith
store_byte-success o os (some (success b)) none h = cc
store_byte-success o os (some (success b)) (some (r, rest)) h =
    (b, rest, refl, ground arith, ground arith)

copy_loop_round :
    (v : InitializedImageView) (base i o : ℕ) (os bs : List ℕ)
    → copy_loop v base i (o ∷ os) ≡ some (success tt, bs)
    → store_byte o os (read_byte v (base + i)) (copy_loop v base (i + 1) os) ≡ some (success tt, bs)
unfolding copy_loop checked_add
copy_loop_round v base i o os bs h = ground arith

copy_loop_next :
    (v : InitializedImageView) (base i o : ℕ) (os : List ℕ)
    → base + i ≤ u64_max
    → copy_loop v base i (o ∷ os)
      ≡ store_byte o os (read_byte v (base + i)) (copy_loop v base (i + 1) os)
unfolding copy_loop checked_add
copy_loop_next v base i o os h = ground arith

copy_loop-success :
    (v : InitializedImageView) (base i : ℕ) (out bs : List ℕ)
    → copy_loop v base i out ≡ some (success tt, bs)
    → Reads v (base + i) bs × (length bs ≡ length out)
copy_loop-success v base i [] bs h = unfold copy_loop in ground arith
copy_loop-success v base i (o ∷ os) bs h =
    let (b, rest, read, copied, same) =
      store_byte-success o os (read_byte v (base + i)) _ (copy_loop_round v base i o os bs h) in
    let (reads, size) = copy_loop-success v base (i + 1) os rest copied in
    rw same ((read, rw (← add_assoc base i 1) at reads), ap suc size)

copy_loop-Reads :
    (v : InitializedImageView) (base i : ℕ) (out bs : List ℕ)
    → base + i + length out ≤ u64_max + 1
    → length bs ≡ length out
    → Reads v (base + i) bs
    → copy_loop v base i out ≡ some (success tt, bs)
copy_loop-Reads v base i [] [] fits same h = unfold copy_loop in refl
copy_loop-Reads v base i [] (b ∷ bs) fits same h = absurd (omega arith)
copy_loop-Reads v base i (o ∷ os) [] fits same h = absurd (omega arith)
copy_loop-Reads v base i (o ∷ os) (b ∷ bs) fits same h =
    rw (copy_loop_next v base i o os (omega arith)) (
      rw h.0 (
        rw
          (copy_loop-Reads v base (i + 1) os bs (omega arith) (omega arith)
            (rw (add_assoc base i 1) at h.1))
          (unfold store_byte in refl)))

copy_bytes_cases :
    (v : InitializedImageView) (r : GuestRange) (out bs : List ℕ)
    → (copy_bytes v r out ≡ some (success r.size, bs))
      ↔ ((length out ≡ r.size) × (copy_loop v r.base 0 out ≡ some (success tt, bs)))
unfolding copy_bytes
copy_bytes_cases v r out bs = ground arith

-- Copying a valid range into a buffer succeeds exactly when the buffer has the range's size and
-- every byte of the range can be read, and then the buffer holds just those bytes.
pub copy_bytes_iff :
    (v : InitializedImageView) (r : GuestRange) (out bs : List ℕ)
    → IsRange r
    → (copy_bytes v r out ≡ some (success r.size, bs))
      ↔ ((length out ≡ r.size) × (length bs ≡ r.size) × Reads v r.base bs)
copy_bytes_iff v r out bs valid = (there, back)
  where
    there :
        copy_bytes v r out ≡ some (success r.size, bs)
        → (length out ≡ r.size) × (length bs ≡ r.size) × Reads v r.base bs
    there h =
        let (size, copied) = (copy_bytes_cases v r out bs).0 h in
        let (reads, same) = copy_loop-success v r.base 0 out bs copied in
        (size, same ∙ size, rw (add-zero r.base) at reads)

    back :
        (length out ≡ r.size) × (length bs ≡ r.size) × Reads v r.base bs
        → copy_bytes v r out ≡ some (success r.size, bs)
    back (size, same, reads) = (copy_bytes_cases v r out bs).1 (
      size,
      copy_loop-Reads v r.base 0 out bs (omega (arith, valid.last_fits)) (same ∙ sym size)
          (rw (← add-zero r.base) at reads),
    )
