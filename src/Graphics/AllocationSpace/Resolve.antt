-- ===== src/Graphics/AllocationSpace/Resolve.antt =====
-- resolve_range answers with the one allocation that holds the whole request.
use astraea.Graphics.AllocationSpace.{
  GuestGpuAllocation, GuestGpuAllocationResolution, AddressSpace, checked_end, resolve_loop,
  resolve_range, contains_request, meets_request, resolution_error, unmapped_range,
  register_allocation,
}
use astraea.Graphics.AllocationSpace.Register.{
  register_allocation-IsSpace, Fits, Apart, AllApart, IsSpace, register_allocation_iff,
}
use astraea.Prelude.{
  ℕ, ◌+◌, ◌-◌, ◌≤◌, ◌<◌, ◌≡◌, refl, sym, ◌∙◌, ◌↔◌, inl, inr, true, false, Option, none, some, [],
  ◌∷◌, ◌++◌, arith, if◌then◌else◌, u64_max, Bool-cases, All, Any, success, failure,
}

-- The allocation holds [a, a + n), and the answer says where in it the request lies.
abbrev pub Holds : ℕ → ℕ → GuestGpuAllocationResolution → GuestGpuAllocation → Type 0
Holds a n r x =
    (x.base ≤ a)
    × (a + n ≤ x.base + x.byte_size)
    × (r.allocation_id ≡ x.id)
    × (r.byte_offset ≡ a - x.base)
    × (r.byte_count ≡ n)

contains_request_iff :
    (a n : ℕ) (x : GuestGpuAllocation)
    → Fits x
    → (contains_request a (a + n) x ≡ true) ↔ ((x.base ≤ a) × (a + n ≤ x.base + x.byte_size))
unfolding contains_request
contains_request_iff a n x f = ground arith

resolve_loop_hit :
    (a n : ℕ) (x : GuestGpuAllocation) (xs : AddressSpace) (met : Option ℕ)
    → contains_request a (a + n) x ≡ true
    → resolve_loop a n (a + n) (x ∷ xs) met
      ≡ success (record { allocation_id = x.id; byte_offset = a - x.base; byte_count = n })
unfolding resolve_loop
resolve_loop_hit a n x xs met h = rw h

resolve_loop_miss :
    (a n : ℕ) (x : GuestGpuAllocation) (xs : AddressSpace) (met : Option ℕ)
    → contains_request a (a + n) x ≡ false
    → resolve_loop a n (a + n) (x ∷ xs) met
      ≡ resolve_loop a n (a + n) xs (if meets_request a (a + n) x then some x.id else met)
unfolding resolve_loop
resolve_loop_miss a n x xs met h = rw h

resolve_loop_sound :
    (a n : ℕ) (xs : AddressSpace) (met : Option ℕ) (r : GuestGpuAllocationResolution)
    → All Fits xs
    → resolve_loop a n (a + n) xs met ≡ success r
    → Any (Holds a n r) xs
resolve_loop_sound a n [] none r f h = unfold resolve_loop in ground arith
resolve_loop_sound a n [] (some i) r f h = unfold resolve_loop in ground arith
resolve_loop_sound a n (x ∷ xs) met r f h = elim (Bool-cases (contains_request a (a + n) x)) [
  | inl c ↦ inl (ground (arith, resolve_loop_hit a n x xs met c, contains_request_iff a n x f.0))
  | inr c ↦ inr (resolve_loop_sound a n xs _ r f.1 (sym (resolve_loop_miss a n x xs met c) ∙ h))
]

-- Below an allocation that is apart from all of these, none of them holds what it holds.
not_held :
    (a n : ℕ) (x : GuestGpuAllocation) (xs : AddressSpace) (r : GuestGpuAllocationResolution)
    → 0 < n
    → x.base ≤ a
    → a + n ≤ x.base + x.byte_size
    → All (Apart x.base x.byte_size) xs
    → Any (Holds a n r) xs
    → ⊥
not_held a n x [] r p lo hi h k = elim k [ ]
not_held a n x (y ∷ ys) r p lo hi h (inl k) = ground arith
not_held a n x (y ∷ ys) r p lo hi h (inr k) = not_held a n x ys r p lo hi h.1 k

resolve_loop_complete :
    (a n : ℕ) (xs : AddressSpace) (met : Option ℕ) (r : GuestGpuAllocationResolution)
    → 0 < n
    → All Fits xs
    → AllApart xs
    → Any (Holds a n r) xs
    → resolve_loop a n (a + n) xs met ≡ success r
resolve_loop_complete a n [] met r p f d k = elim k [ ]
resolve_loop_complete a n (x ∷ xs) met r p f d (inl k) =
    ground (arith, contains_request_iff a n x f.0, resolve_loop_hit a n x xs met)
resolve_loop_complete a n (x ∷ xs) met r p f d (inr k) =
    elim (Bool-cases (contains_request a (a + n) x)) [
      | inl c ↦
          (let (lo, hi) = (contains_request_iff a n x f.0).0 c in
            absurd (not_held a n x xs r p lo hi d.0 k))
      | inr c ↦ resolve_loop_miss a n x xs met c ∙ resolve_loop_complete a n xs _ r p f.1 d.1 k
    ]

-- The request is not empty, and its end has a 64-bit address.
abbrev IsRequest : ℕ → ℕ → Type 0
IsRequest a n = (0 < n) × (a + n ≤ u64_max)

resolve_range_loop :
    (xs : AddressSpace) (a n : ℕ)
    → IsRequest a n
    → resolve_range xs a n ≡ resolve_loop a n (a + n) xs none
unfolding resolve_range checked_end
resolve_range_loop xs a n q = ground arith

resolve_range_refused :
    (xs : AddressSpace) (a n : ℕ) (r : GuestGpuAllocationResolution)
    → n ≤ u64_max
    → resolve_range xs a n ≡ success r
    → IsRequest a n
unfolding resolve_range checked_end
resolve_range_refused xs a n r size h = ground arith

held-Fits :
    (a n : ℕ) (xs : AddressSpace) (r : GuestGpuAllocationResolution)
    → All Fits xs
    → Any (Holds a n r) xs
    → a + n ≤ u64_max
held-Fits a n [] r f k = elim k [ ]
held-Fits a n (x ∷ xs) r f (inl k) = omega (arith, f.0.below)
held-Fits a n (x ∷ xs) r f (inr k) = held-Fits a n xs r f.1 k

-- In a space of allocations that are apart, a request of a 64-bit size is resolved to an allocation
-- exactly when it is not empty and that allocation holds the whole of it; the answer names the
-- allocation, the place of the request in it, and its length.
pub resolve_range_iff :
    (xs : AddressSpace) (a n : ℕ) (r : GuestGpuAllocationResolution)
    → IsSpace xs
    → n ≤ u64_max
    → (resolve_range xs a n ≡ success r) ↔ ((0 < n) × Any (Holds a n r) xs)
resolve_range_iff xs a n r v size = (there, back)
  where
    there : resolve_range xs a n ≡ success r → (0 < n) × Any (Holds a n r) xs
    there h =
        let q = resolve_range_refused xs a n r size h in
        (q.0, resolve_loop_sound a n xs none r v.fit (sym (resolve_range_loop xs a n q) ∙ h))

    back : (0 < n) × Any (Holds a n r) xs → resolve_range xs a n ≡ success r
    back (p, k) =
        resolve_range_loop xs a n (p, held-Fits a n xs r v.fit k)
        ∙ resolve_loop_complete a n xs none r p v.fit v.apart k

meets_request_iff :
    (a n : ℕ) (x : GuestGpuAllocation)
    → Fits x
    → 0 < n
    → (meets_request a (a + n) x ≡ false) ↔ Apart a n x
unfolding meets_request
meets_request_iff a n x f p = ground arith

held_meets :
    (a n : ℕ) (x : GuestGpuAllocation)
    → Fits x
    → 0 < n
    → contains_request a (a + n) x ≡ true
    → meets_request a (a + n) x ≡ true
unfolding contains_request meets_request
held_meets a n x f p h = ground arith

resolve_loop_unmapped :
    (a n : ℕ) (xs : AddressSpace) (met : Option ℕ)
    → 0 < n
    → All Fits xs
    → (resolve_loop a n (a + n) xs met ≡ failure (resolution_error unmapped_range a n none))
      ↔ ((met ≡ none) × All (Apart a n) xs)
unfolding resolve_loop
resolve_loop_unmapped a n [] none p f = ground arith
resolve_loop_unmapped a n [] (some i) p f = ground arith
resolve_loop_unmapped a n (x ∷ xs) met p f = ground (
  arith,
  meets_request_iff a n x f.0 p,
  held_meets a n x f.0 p,
  resolve_loop_unmapped a n xs (if meets_request a (a + n) x then some x.id else met) p f.1,
)

-- In a space of allocations that are apart, a request that is not empty and does not overflow is
-- called unmapped exactly when none of its addresses lies in an allocation.
pub resolve_range_unmapped :
    (xs : AddressSpace) (a n : ℕ)
    → IsSpace xs
    → 0 < n
    → a + n ≤ u64_max
    → (resolve_range xs a n ≡ failure (resolution_error unmapped_range a n none))
      ↔ All (Apart a n) xs
resolve_range_unmapped xs a n v p q =
    let (there, back) = resolve_loop_unmapped a n xs none p v.fit in
    rw (resolve_range_loop xs a n (p, q)) (λ h. (there h).1, λ k. back (refl, k))

Any-append : (P : GuestGpuAllocation → Type 0) (xs ys : AddressSpace) → Any P xs → Any P (xs ++ ys)
Any-append P [] ys h = elim h [ ]
Any-append P (x ∷ xs) ys (inl h) = inl h
Any-append P (x ∷ xs) ys (inr h) = inr (Any-append P xs ys h)

-- In a space of allocations that are apart, what has been resolved stays so: a later registration,
-- whatever it is asked, changes no answer.
pub resolve_range-register_allocation :
    (xs : AddressSpace) (a n b s : ℕ) (r : GuestGpuAllocationResolution)
    → IsSpace xs
    → n ≤ u64_max
    → s ≤ u64_max
    → resolve_range xs a n ≡ success r
    → resolve_range (register_allocation xs b s).1 a n ≡ success r
resolve_range-register_allocation xs a n b s r v size size' h =
    let (p, held) = (resolve_range_iff xs a n r v size).0 h in
    let after = register_allocation-IsSpace xs b s v size' in
    elim (register_allocation_iff xs b s v size') [
      | inr (e, q, refused) ↦ rw q h
      | inl (q, pos, fits, apart) ↦
          (resolve_range_iff (register_allocation xs b s).1 a n r after size).1
            (p, rw q (Any-append (Holds a n r) xs _ held))
    ]
