-- ===== src/Graphics/AllocationSpace/Register.antt =====
-- register_allocation keeps the allocations apart and numbered.
use astraea.Graphics.AllocationSpace.{
  registration_overflow, zero_sized_allocation, registration_error, GuestGpuAllocation,
  RegistrationError, AddressSpace, checked_end, conflict_with, find_conflict, register_allocation,
}
use astraea.Prelude.{
  ℕ, suc, ◌+◌, ◌-◌, ◌≤◌, ◌<◌, ◌≡◌, refl, ◌↔◌, ◌⊎◌, inl, inr, none, [], ◌∷◌, ◌++◌, arith, ltb, ◌==◌,
  u64_max, Bool-cases, Option-cases, length, All, All-append, success, failure,
}

-- Not empty, and its end has a 64-bit address.
pub record Fits (x : GuestGpuAllocation) : Type 0 where
  pub positive : 0 < x.byte_size
  pub below : x.base + x.byte_size ≤ u64_max

-- The allocation shares no address with [base, base + size).
abbrev pub Apart : ℕ → ℕ → GuestGpuAllocation → Type 0
Apart base size x = (x.base + x.byte_size ≤ base) ⊎ (base + size ≤ x.base)

abbrev pub AllApart : AddressSpace → Type 0
AllApart [] = Unit
AllApart (x ∷ xs) = All (Apart x.base x.byte_size) xs × AllApart xs

abbrev pub Numbered : ℕ → AddressSpace → Type 0
Numbered k [] = Unit
Numbered k (x ∷ xs) = (x.id ≡ k) × Numbered (suc k) xs

pub record IsSpace (xs : AddressSpace) : Type 0 where
  pub fit : All Fits xs
  pub apart : AllApart xs
  pub numbered : Numbered 0 xs

Apart-swap : (x y : GuestGpuAllocation) → Apart x.base x.byte_size y → Apart y.base y.byte_size x
Apart-swap x y h = ground arith

AllApart-append :
    (xs : AddressSpace) (y : GuestGpuAllocation)
    → AllApart xs
    → All (Apart y.base y.byte_size) xs
    → AllApart (xs ++ (y ∷ []))
AllApart-append [] y h k = (tt, tt)
AllApart-append (x ∷ xs) y h k = (
  All-append (Apart x.base x.byte_size) xs (y ∷ []) h.0 (Apart-swap y x k.0, tt),
  AllApart-append xs y h.1 k.1,
)

Numbered-append :
    (k : ℕ) (xs : AddressSpace) (y : GuestGpuAllocation)
    → Numbered k xs
    → y.id ≡ k + length xs
    → Numbered k (xs ++ (y ∷ []))
Numbered-append k [] y h e = (omega arith, tt)
Numbered-append k (x ∷ xs) y h e = (h.0, Numbered-append (suc k) xs y h.1 (omega arith))

conflict_with-none :
    (b s : ℕ) (x : GuestGpuAllocation)
    → Fits x
    → 0 < s
    → (conflict_with b s (b + s) x ≡ none) ↔ Apart b s x
unfolding conflict_with
conflict_with-none b s x f p = ground arith

find_conflict_iff :
    (b s : ℕ) (xs : AddressSpace)
    → All Fits xs
    → 0 < s
    → (find_conflict b s (b + s) xs ≡ none) ↔ All (Apart b s) xs
unfolding find_conflict
find_conflict_iff b s [] f p = (λ h. tt, λ h. refl)
find_conflict_iff b s (x ∷ xs) f p =
    ground (arith, conflict_with-none b s x f.0 p, find_conflict_iff b s xs f.1 p)

-- The allocation that the call would add.
abbrev pub candidate : AddressSpace → ℕ → ℕ → GuestGpuAllocation
candidate xs b s = record { id = length xs; base = b; byte_size = s }

register_outcome :
    (xs : AddressSpace) (b s : ℕ)
    → All Fits xs
    → s ≤ u64_max
    → ((e : RegistrationError) × (register_allocation xs b s ≡ (failure e, xs))
        × (0 < s → b + s ≤ u64_max → All (Apart b s) xs → ⊥))
      ⊎ ((register_allocation xs b s ≡ (success (length xs), xs ++ (candidate xs b s ∷ [])))
          × (0 < s)
          × (b + s ≤ u64_max)
          × All (Apart b s) xs)
unfolding register_allocation checked_end
register_outcome xs b s f size = elim (Bool-cases (s == 0)) [
  | inl z ↦ inl (registration_error zero_sized_allocation b s none, rw z, λ p q r. ground arith)
  | inr pos ↦ elim (Bool-cases (ltb (u64_max - s) b)) [
    | inl over ↦
        inl (
          registration_error registration_overflow b s none,
          rw pos (rw over),
          λ p q r. ground arith,
        )
    | inr fits ↦ elim (Option-cases (find_conflict b s (b + s) xs)) [
      | inr (e, h) ↦
          inl (
            e,
            rw pos (rw fits (rw h)),
            λ p q r. ground (arith, (find_conflict_iff b s xs f p).1 r),
          )
      | inl h ↦ inr (
        rw pos (rw fits (rw h)),
        ground arith,
        ground arith,
        (find_conflict_iff b s xs f (ground arith)).0 h,
      )
    ]
  ]
]

-- The allocations stay apart, not empty and numbered in the order of registration, whatever base
-- and 64-bit size the call is asked for and whether or not it succeeds.
pub register_allocation-IsSpace :
    (xs : AddressSpace) (b s : ℕ)
    → IsSpace xs
    → s ≤ u64_max
    → IsSpace (register_allocation xs b s).1
register_allocation-IsSpace xs b s v size = elim (register_outcome xs b s v.fit size) [
  | inl (e, h, refused) ↦ rw h v
  | inr (h, p, q, apart) ↦ rw h (record {
    fit = All-append Fits xs (candidate xs b s ∷ []) v.fit (record { positive = p; below = q }, tt);
    apart = AllApart-append xs (candidate xs b s) v.apart apart;
    numbered = Numbered-append 0 xs (candidate xs b s) v.numbered (omega arith);
  })
]

-- In a space of allocations that are apart, a registration with a 64-bit size succeeds exactly when
-- the range is not empty, has a 64-bit end and is apart from every allocation that is there. It
-- then appends one allocation with the number of those before as its id; otherwise it fails and
-- leaves the space as it was.
pub register_allocation_iff :
    (xs : AddressSpace) (b s : ℕ)
    → IsSpace xs
    → s ≤ u64_max
    → ((register_allocation xs b s ≡ (success (length xs), xs ++ (candidate xs b s ∷ [])))
        × (0 < s)
        × (b + s ≤ u64_max)
        × All (Apart b s) xs)
      ⊎ ((e : RegistrationError) × (register_allocation xs b s ≡ (failure e, xs))
          × ¬ ((0 < s) × (b + s ≤ u64_max) × All (Apart b s) xs))
register_allocation_iff xs b s v size = elim (register_outcome xs b s v.fit size) [
  | inl (e, h, refused) ↦ inr (e, h, λ (p, q, r). refused p q r)
  | inr done ↦ inl done
]
