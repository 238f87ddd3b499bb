-- ===== src/Execution/GuestMemory/Access/Write.antt =====
-- Reads and writes of guest memory: nothing but writable guest bytes changes, and a write is read
-- back.
use astraea.Memory.Permissions.{write}
use astraea.Execution.MemoryPlan.{ExecutionMemoryPlan}
use astraea.Execution.GuestMemory.{GuestImage, GuestMemoryError, GuestMemoryAccess, validate}
use astraea.Execution.GuestMemory.Coverage.{guest_allows, prepared_allows, allowed_of_none}
use astraea.Execution.GuestMemory.Validate.{
  IsPrepared, first_error, first_error-none, range_result, validate-first_error, validate_overflow,
}
use astraea.Execution.GuestMemory.Access.{
  HostMemory, load, store, read_validated, write_validated, read_bytes, write_bytes, read_validated,
  write_validated,
}
use astraea.Prelude.{
  ℕ, zero, suc, ◌+◌, ◌-◌, ◌≤◌, ◌<◌, ◌≡◌, refl, sym, ap, ◌∙◌, ◌≢◌, ◌⊎◌, inl, inr, true, false, ◌&&◌,
  Option, none, some, List, [], ◌∷◌, arith, ltb, leb, u64_max, ltb→lt, Bool-cases, length, Result,
  success, failure,
}

store-outside :
    (memory : HostMemory) (a x : ℕ) (bs : List ℕ)
    → (x < a) ⊎ (a + length bs ≤ x)
    → store memory a bs x ≡ memory x
unfolding store
store-outside memory a x [] h = refl
store-outside memory a x (b ∷ bs) h = ground (arith, store-outside memory (a + 1) x bs)

load-above : (m n : HostMemory) (a k : ℕ) → ((x : ℕ) → a ≤ x → m x ≡ n x) → load m a k ≡ load n a k
unfolding load
load-above m n a zero h = refl
load-above m n a (suc k) h =
    rw (h a (omega arith)) (rw (load-above m n (a + 1) k (λ x lt. h x (omega arith))))

store-head : (memory : HostMemory) (a b : ℕ) (bs : List ℕ) → store memory a (b ∷ bs) a ≡ b
unfolding store
store-head memory a b bs = ground arith

store-tail :
    (memory : HostMemory) (a b x : ℕ) (bs : List ℕ)
    → a + 1 ≤ x
    → store memory a (b ∷ bs) x ≡ store memory (a + 1) bs x
unfolding store
store-tail memory a b x bs h = ground arith

-- What was stored is loaded back.
pub load-store :
    (memory : HostMemory) (a : ℕ) (bs : List ℕ) → load (store memory a bs) a (length bs) ≡ bs
unfolding load
load-store memory a [] = refl
load-store memory a (b ∷ bs) = rw (store-head memory a b bs) (
    ap (◌∷◌ b) (
      load-above _ _ (a + 1) (length bs) (λ x h. store-tail memory a b x bs h)
      ∙ load-store memory (a + 1) bs))

pub write_validated_cases :
    (memory : HostMemory) (a : ℕ) (input : List ℕ) (v : Option (Result ℕ GuestMemoryError))
    {r : Result ℕ GuestMemoryError} {after : HostMemory}
    → write_validated memory a input v ≡ some (r, after)
    → ((e : GuestMemoryError) × (v ≡ some (failure e)) × (r ≡ failure e) × (after ≡ memory))
      ⊎ ((k : ℕ) × (v ≡ some (success k))
          × (r ≡ success (length input))
          × (after ≡ store memory a input))
unfolding write_validated
write_validated_cases memory a input none h = cc
write_validated_cases memory a input (some (failure e)) h =
    inl (e, refl, ground arith, ground arith)
write_validated_cases memory a [] (some (success k)) h =
    inr (k, refl, ground arith, unfold store in ground arith)
write_validated_cases memory a (b ∷ bs) (some (success k)) h =
    inr (k, refl, ground arith, ground arith)

read_validated_success :
    (memory : HostMemory) (a : ℕ) (output : List ℕ) (v : Option (Result ℕ GuestMemoryError)) {k : ℕ}
    {bs : List ℕ}
    → read_validated memory a output v ≡ some (success k, bs)
    → (k ≡ length output) × (bs ≡ load memory a (length output))
unfolding read_validated
read_validated_success memory a output none h = cc
read_validated_success memory a output (some (failure e)) h = ground arith
read_validated_success memory a [] (some (success n)) h = unfold load in ground arith
read_validated_success memory a (o ∷ os) (some (success n)) h = ground arith

-- What a write puts into memory, a read of as many bytes at that address gives back. Both say how
-- many bytes that is.
pub write-read :
    (g : GuestMemoryAccess) (memory after : HostMemory) (a : ℕ) (input output bs : List ℕ) (n k : ℕ)
    → write_bytes g memory a input ≡ some (success n, after)
    → read_bytes g after a output ≡ some (success k, bs)
    → length output ≡ length input
    → (bs ≡ input) × (n ≡ length input) × (k ≡ length input)
unfolding write_bytes read_bytes
write-read g memory after a input output bs n k w r same =
    let (count, contents) = read_validated_success after a output _ r in
    elim (write_validated_cases memory a input _ w) [
      | inl (e, v, failed, kept) ↦ ground arith
      | inr (m, v, done, stored) ↦
          (contents ∙ (rw same (rw stored (load-store memory a input))), ground arith, count ∙ same)
    ]

module _ {g : GuestMemoryAccess} {image : GuestImage} {plan : ExecutionMemoryPlan}
    (ready : IsPrepared g image plan) (memory after : HostMemory) (a x : ℕ) (input : List ℕ)
    (r : Result ℕ GuestMemoryError) where
  validated_range :
      (k : ℕ)
      → a ≤ u64_max
      → length input ≤ u64_max
      → validate g a (length input) write ≡ some (success k)
      → first_error image plan write a (length input) ≡ none
  validated_range k small size v = elim (Bool-cases (ltb (u64_max + 1) (a + length input))) [
    | inl over ↦
        ground (arith, validate_overflow a (length input) write ready (ltb→lt _ _ over) small size)
    | inr fits ↦
        none_of_success (first_error image plan write a (length input))
          (sym (validate-first_error a (length input) write ready (ground arith)) ∙ v)
  ]
    where
      none_of_success :
          (e : Option GuestMemoryError)
          → ◌≡◌ {A = Option (Result ℕ GuestMemoryError)}
              (some (range_result (length input) e))
              (some (success k))
          → e ≡ none
      none_of_success none q = refl
      none_of_success (some e) q = ground arith

  in_range : after ≡ store memory a input → after x ≢ memory x → (a ≤ x) × (x < a + length input)
  in_range stored changed = elim (Bool-cases (leb a x && ltb x (a + length input))) [
    | inl inside ↦ ground arith
    | inr outside ↦
        absurd (changed (rw stored (store-outside memory a x input (outside_cases outside))))
  ]
    where
      outside_cases :
          (leb a x && ltb x (a + length input)) ≡ false → (x < a) ⊎ (a + length input ≤ x)
      outside_cases q = ground arith

  -- On a prepared image, a byte that a write changes is one that the guest may write and that a
  -- writable prepared page holds, and the write has succeeded: a refused write changes nothing.
  pub write_bytes_confined :
      a ≤ u64_max
      → length input ≤ u64_max
      → write_bytes g memory a input ≡ some (r, after)
      → after x ≢ memory x
      → (guest_allows image write x ≡ true)
        × (prepared_allows plan write x ≡ true)
        × (r ≡ success (length input))
  unfolding write_bytes
  write_bytes_confined small size w changed = elim (write_validated_cases memory a input _ w) [
    | inl (e, v, failed, kept) ↦ absurd (changed (rw kept refl))
    | inr (k, v, done, stored) ↦
        (let (lo, hi) = in_range stored changed in
          let fine =
            first_error-none image plan write a (length input) (x - a)
              (validated_range k small size v) (omega arith) in
          let (gu, pr) = allowed_of_none image plan write x (rw (shift lo) at fine) in
          (gu, pr, done))
  ]
    where
      shift : a ≤ x → a + (x - a) ≡ x
      shift lo = omega arith
