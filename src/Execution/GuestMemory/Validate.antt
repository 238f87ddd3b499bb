-- ===== src/Execution/GuestMemory/Validate.antt =====
-- GuestMemoryAccess::validate is a check of every byte, though it runs over stretches.
use Prim.Native.Nat.add
use native.Mathlib.Nat.{zero-add, add-zero}
use astraea.Memory.Permissions.{GuestPermission}
use astraea.Execution.MemoryPlan.{ExecutionMemoryPlan}
use astraea.Execution.GuestMemory.{
  guest_memory_range_overflow, memory_error_at, GuestImage, GuestMemoryError, GuestMemoryAccess,
  chunk_at, validate_loop, validate_available, validate,
}
use astraea.Execution.GuestMemory.Coverage.{byte_error, chunk_at_fails, chunk_at_covers}
use astraea.Prelude.{
  ℕ, zero, suc, ◌+◌, ◌-◌, ◌≤◌, ◌<◌, min, ◌≡◌, refl, sym, ap, ◌∙◌, inl, inr, true, Option, none,
  some, arith, ◌==◌, if◌then◌else◌, u64_max, Option-cases, Result, success, failure,
}

-- The reference: look at one byte after the other, and report the first that may not be accessed.
unfoldable pub first_error :
    GuestImage → ExecutionMemoryPlan → GuestPermission → ℕ → ℕ → Option GuestMemoryError
first_error image plan p a zero = none
first_error image plan p a (suc n) =
    let rest = first_error image plan p (a + 1) n in
    elim (byte_error image plan p a) [ some e ↦ some e | none ↦ rest ]

abbrev as_result : Option GuestMemoryError → Option (Result (Unit {0}) GuestMemoryError)
as_result none = some (success tt)
as_result (some e) = some (failure e)

module _ (image : GuestImage) (plan : ExecutionMemoryPlan) (p : GuestPermission) where
  first_error_ok :
      (a n : ℕ)
      → byte_error image plan p a ≡ none
      → first_error image plan p a (suc n) ≡ first_error image plan p (a + 1) n
  unfolding first_error
  first_error_ok a n h = rw (h, first_error)

  first_error-some :
      (a n : ℕ) (e : GuestMemoryError)
      → byte_error image plan p a ≡ some e
      → first_error image plan p a (suc n) ≡ some e
  unfolding first_error
  first_error-some a n e h = rw (h, first_error)

  first_error_skip :
      (c a n : ℕ)
      → ((j : ℕ) → j < c → byte_error image plan p (a + j) ≡ none)
      → first_error image plan p a (c + n) ≡ first_error image plan p (a + c) n
  first_error_skip zero a n h = rw (zero-add n, add-zero a)
  first_error_skip (suc c) a n h = rw (add.suc c n) (
      first_error_ok a (c + n) (rw (add-zero a) at (h 0 (omega arith)))
      ∙ first_error_skip c (a + 1) n (λ j lt. rw (shift j) at (h (suc j) (omega arith)))
      ∙ ap (λ (b : ℕ). first_error image plan p b n) (omega arith))
    where
      shift : (j : ℕ) → a + suc j ≡ a + 1 + j
      shift j = omega arith

  loop_step :
      (fuel a n c : ℕ)
      → chunk_at image plan a p ≡ success c
      → a + suc n ≤ u64_max + 1
      → 0 < c
      → validate_loop image plan p (suc fuel) a (suc n) ≡ (
          if suc n - min (suc n) c == 0
          then some (success tt)
          else validate_loop image plan p fuel (a + min (suc n) c) (suc n - min (suc n) c))
  unfolding validate_loop
  loop_step fuel a n c e fits pos = ground arith

  loop_fails :
      (fuel a n : ℕ) (e : GuestMemoryError)
      → chunk_at image plan a p ≡ failure e
      → validate_loop image plan p (suc fuel) a (suc n) ≡ some (failure e)
  unfolding validate_loop
  loop_fails fuel a n e h = ground arith

  first_error_chunk :
      (a n c : ℕ)
      → ((j : ℕ) → j < c → byte_error image plan p (a + j) ≡ none)
      → first_error image plan p a n ≡ first_error image plan p (a + min n c) (n - min n c)
  first_error_chunk a n c reach =
      ap (first_error image plan p a) (split n c)
      ∙ first_error_skip (min n c) a (n - min n c) (λ j lt. reach j (omega arith))
    where
      split : (n c : ℕ) → n ≡ min n c + (n - min n c)
      split n c = omega arith

  -- A round that passes over `c` bytes leaves the same question about the rest.
  loop_round :
      (fuel a n c : ℕ)
      → suc n ≤ suc fuel
      → a + suc n ≤ u64_max + 1
      → chunk_at image plan a p ≡ success c
      → 0 < c
      → ((j : ℕ) → j < c → byte_error image plan p (a + j) ≡ none)
      → validate_loop image plan p fuel (a + min (suc n) c) (suc n - min (suc n) c)
        ≡ as_result (first_error image plan p (a + min (suc n) c) (suc n - min (suc n) c))
      → validate_loop image plan p (suc fuel) a (suc n)
        ≡ as_result (first_error image plan p a (suc n))
  loop_round fuel a n c h fits q pos reach rest =
      loop_step fuel a n c q fits pos
      ∙ last (suc n - min (suc n) c) rest
      ∙ ap as_result (sym (first_error_chunk a (suc n) c reach))
    where
      last :
          (m : ℕ)
          → validate_loop image plan p fuel (a + min (suc n) c) m
            ≡ as_result (first_error image plan p (a + min (suc n) c) m)
          → (if m == 0
              then some (success tt)
              else validate_loop image plan p fuel (a + min (suc n) c) m)
            ≡ as_result (first_error image plan p (a + min (suc n) c) m)
      last zero r = unfold first_error in refl
      last (suc m) r = ground arith

  validate_loop_lem :
      (fuel a n : ℕ)
      → n ≤ fuel
      → a + n ≤ u64_max + 1
      → validate_loop image plan p fuel a n ≡ as_result (first_error image plan p a n)
  validate_loop_lem zero a zero h fits = unfold validate_loop first_error in refl
  validate_loop_lem zero a (suc n) h fits = absurd (omega arith)
  validate_loop_lem (suc fuel) a zero h fits = unfold validate_loop first_error in refl
  validate_loop_lem (suc fuel) a (suc n) h fits = elim (Option-cases (byte_error image plan p a)) [
    | inr (e, bad) ↦
        rw (first_error-some a n e bad)
          (loop_fails fuel a n e (chunk_at_fails image plan p a e bad))
    | inl fine ↦
        (let (c, q, pos, reach) = chunk_at_covers image plan p a fine in
          loop_round fuel a n c h fits q pos reach (
            validate_loop_lem fuel (a + min (suc n) c) (suc n - min (suc n) c) (omega arith)
              (omega arith)))
  ]

-- The outcome of an access of `n` bytes, from the outcome of the bytes.
abbrev pub range_result : ℕ → Option GuestMemoryError → Result ℕ GuestMemoryError
range_result n none = success n
range_result n (some e) = failure e

validate_available_lem :
    (image : GuestImage) (plan : ExecutionMemoryPlan) (p : GuestPermission) (a n : ℕ)
    → a + n ≤ u64_max + 1
    → validate_available image plan a n p ≡ some (range_result n (first_error image plan p a n))
unfolding validate_available
validate_available_lem image plan p a zero fits = unfold first_error in refl
validate_available_lem image plan p a (suc n) fits =
    ground (arith, validate_loop_lem image plan p (suc n) a (suc n))

-- The access object has its image and a plan whose memory is there.
pub record IsPrepared (g : GuestMemoryAccess) (image : GuestImage) (plan : ExecutionMemoryPlan)
    : Type 0 where
  pub image_is : g.image ≡ some image
  pub plan_is : g.prepared_plan ≡ some plan
  pub available : g.prepared_memory_available ≡ true

module _ {g : GuestMemoryAccess} {image : GuestImage} {plan : ExecutionMemoryPlan} (a n : ℕ)
    (p : GuestPermission) (ready : IsPrepared g image plan) where
  validate_ready : validate g a n p ≡ validate_available image plan a n p
  unfolding validate
  validate_ready = rw (ready.image_is, validate) (rw (ready.plan_is, validate) (rw ready.available))

  -- On a prepared image, a range whose last byte has a 64-bit address is accessible exactly when
  -- every byte of it is, both in the guest's ranges and in the prepared pages. Otherwise the answer
  -- is the error of the first byte that is not. The loop over stretches always ends.
  pub validate-first_error :
      a + n ≤ u64_max + 1 → validate g a n p ≡ some (range_result n (first_error image plan p a n))
  validate-first_error fits = validate_ready ∙ validate_available_lem image plan p a n fits

  -- A range whose last byte has no 64-bit address is refused, with its first address.
  pub validate_overflow :
      u64_max + 1 < a + n
      → a ≤ u64_max
      → n ≤ u64_max
      → validate g a n p ≡ some (failure (memory_error_at guest_memory_range_overflow a))
  unfolding validate_available
  validate_overflow h small size = validate_ready ∙ ground arith

-- No first error: every byte of the range may be accessed.
pub first_error-none :
    (image : GuestImage) (plan : ExecutionMemoryPlan) (p : GuestPermission) (a n j : ℕ)
    → first_error image plan p a n ≡ none
    → j < n
    → byte_error image plan p (a + j) ≡ none
first_error-none image plan p a zero j h lt = absurd (omega arith)
first_error-none image plan p a (suc n) zero h lt =
    rw (add-zero a) (unfold first_error in ground arith)
first_error-none image plan p a (suc n) (suc j) h lt =
    rw (← shift)
      (first_error-none image plan p (a + 1) n j (unfold first_error in ground arith) (omega arith))
  where
    shift : a + 1 + j ≡ a + suc j
    shift = omega arith

-- A range whose bytes may all be accessed has no first error.
pub first_error-clear :
    (image : GuestImage) (plan : ExecutionMemoryPlan) (p : GuestPermission) (a n : ℕ)
    → ((j : ℕ) → j < n → byte_error image plan p (a + j) ≡ none)
    → first_error image plan p a n ≡ none
first_error-clear image plan p a zero h = unfold first_error in refl
first_error-clear image plan p a (suc n) h =
    first_error_ok image plan p a n (rw (add-zero a) at (h 0 (omega arith)))
    ∙ first_error-clear image plan p (a + 1) n
        (λ j inside. rw (shift j) (h (suc j) (omega (arith, inside))))
  where
    shift : (j : ℕ) → a + 1 + j ≡ a + suc j
    shift j = omega arith
