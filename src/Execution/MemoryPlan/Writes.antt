-- ===== src/Execution/MemoryPlan/Writes.antt =====
-- guest_write_owned_by_plan: what a write needs to be authorised.
use astraea.Prelude.{
  ℕ, ◌+◌, ◌≤◌, ◌<◌, ◌≡◌, ◌≢◌, ◌↔◌, ◌⊎◌, inl, inr, Bool, true, false, not, ◌&&◌, ◌||◌, some, List,
  [], ◌∷◌, arith, u64_max, All, Any,
}
use astraea.Memory.Address.{GuestRange}
use astraea.Memory.Permissions.{write, execute, has}
use astraea.Memory.Mapping.{MappingIntent}
use astraea.Execution.MemoryPlan.{
  ExecutionMemoryRegion, ExecutionMemoryPlan, fully_within, intersects, owned_by_mappings,
  backed_by_regions, guest_write_owned_by_plan,
}

-- The write of `n` bytes at `a` stays in the range.
abbrev pub Inside : ℕ → ℕ → GuestRange → Type 0
Inside a n r = (r.base ≤ a) × (a + n ≤ r.base + r.size)

-- Where the write and the mapping share an address, the mapping is writable.
abbrev pub Unobstructed : ℕ → ℕ → MappingIntent → Type 0
Unobstructed a n m =
    (has m.permissions write ≡ true)
    ⊎ (m.range.size ≡ 0)
    ⊎ (m.range.base + m.range.size ≤ a)
    ⊎ (a + n ≤ m.range.base)

-- The mapping is writable and holds the whole write.
abbrev pub Owns : ℕ → ℕ → MappingIntent → Type 0
Owns a n m = (has m.permissions write ≡ true) × Inside a n m.range

-- The first region that holds the whole write is writable and not executable.
abbrev pub Backed : ℕ → ℕ → List ExecutionMemoryRegion → Type 0
Backed a n [] = ⊥
Backed a n (r ∷ rs) =
    (Inside a n r.range × (has r.permissions write ≡ true) × (has r.permissions execute ≡ false))
    ⊎ ((¬ Inside a n r.range) × Backed a n rs)

-- The conditions for the write.
abbrev pub Authorised : ExecutionMemoryPlan → List MappingIntent → GuestRange → ℕ → ℕ → Type 0
Authorised plan ms stack a n =
    (0 < n)
    × (plan.host_page_size ≢ 0)
    × (a + n ≤ u64_max)
    × (Inside a n stack ⊎ Any (Owns a n) ms)
    × All (Unobstructed a n) ms
    × Backed a n plan.regions

fully_within_iff : (a n : ℕ) (r : GuestRange) → (fully_within a n r ≡ true) ↔ Inside a n r
unfolding fully_within
fully_within_iff a n r = ground arith

intersects_iff :
    (a n : ℕ) (m : MappingIntent)
    → 0 < n
    → ((intersects a (a + n) m.range && not (has m.permissions write)) ≡ false) ↔ Unobstructed a n m
unfolding intersects
intersects_iff a n m h = ground arith

backed_by_regions_iff :
    (a n : ℕ) (rs : List ExecutionMemoryRegion) → (backed_by_regions a n rs ≡ true) ↔ Backed a n rs
unfolding backed_by_regions
backed_by_regions_iff a n [] = ground arith
backed_by_regions_iff a n (r ∷ rs) =
    ground (arith, fully_within_iff a n r.range, backed_by_regions_iff a n rs)

-- One mapping more: its test, and the flag that it passes on.
step_iff :
    (a n : ℕ) (m : MappingIntent) (ms : List MappingIntent) (owned : Bool)
    → (owned_by_mappings a n (m ∷ ms) owned ≡ some true) ↔ (
        ((intersects a (a + n) m.range && not (has m.permissions write)) ≡ false)
        × (owned_by_mappings a n ms (fully_within a n m.range && has m.permissions write || owned)
            ≡ some true))
unfolding owned_by_mappings
step_iff a n m ms owned = ground arith

flag_iff :
    (a n : ℕ) (m : MappingIntent) (owned : Bool)
    → ((fully_within a n m.range && has m.permissions write || owned) ≡ true)
      ↔ ((owned ≡ true) ⊎ Owns a n m)
flag_iff a n m owned = ground (arith, fully_within_iff a n m.range)

owned_by_mappings_iff :
    (a n : ℕ) (ms : List MappingIntent) (owned : Bool)
    → 0 < n
    → (owned_by_mappings a n ms owned ≡ some true)
      ↔ (((owned ≡ true) ⊎ Any (Owns a n) ms) × All (Unobstructed a n) ms)
unfolding owned_by_mappings
owned_by_mappings_iff a n [] owned h = ground arith
owned_by_mappings_iff a n (m ∷ ms) owned h =
    let flag = fully_within a n m.range && has m.permissions write || owned in
    let later = owned_by_mappings_iff a n ms flag h in
    (
      λ e.
          let (test, rest) = (step_iff a n m ms owned).0 e in
          let (who, all) = later.0 rest in (owner who, ((intersects_iff a n m h).0 test, all)),
      λ (who, (apart, all)).
          (step_iff a n m ms owned).1
            ((intersects_iff a n m h).1 apart, later.1 (owner_of_rest who, all)),
    )
  where
    owner :
        ((fully_within a n m.range && has m.permissions write || owned) ≡ true) ⊎ Any (Owns a n) ms
        → (owned ≡ true) ⊎ Any (Owns a n) (m ∷ ms)
    owner (inl e) = elim ((flag_iff a n m owned).0 e) [ inl o ↦ inl o | inr o ↦ inr (inl o) ]
    owner (inr o) = inr (inr o)

    owner_of_rest :
        (owned ≡ true) ⊎ Any (Owns a n) (m ∷ ms)
        → ((fully_within a n m.range && has m.permissions write || owned) ≡ true)
          ⊎ Any (Owns a n) ms
    owner_of_rest (inl e) = inl ((flag_iff a n m owned).1 (inl e))
    owner_of_rest (inr (inl o)) = inl ((flag_iff a n m owned).1 (inr o))
    owner_of_rest (inr (inr o)) = inr o

-- The call authorises a write exactly when the stack or one writable mapping holds it whole, no
-- mapping that is not writable shares an address with it, and the first region of the plan that
-- holds it whole is writable and not executable; the write must be of at least one byte, end within
-- 64 bits, and the plan have a page size.
pub guest_write_owned_by_plan_iff :
    (plan : ExecutionMemoryPlan) (ms : List MappingIntent) (stack : GuestRange) (a n : ℕ)
    → a ≤ u64_max
    → (guest_write_owned_by_plan plan ms stack a n ≡ true) ↔ Authorised plan ms stack a n
unfolding guest_write_owned_by_plan
guest_write_owned_by_plan_iff plan ms stack a n h = ground (
  arith,
  fully_within_iff a n stack,
  backed_by_regions_iff a n plan.regions,
  owned_by_mappings_iff a n ms (fully_within a n stack),
)
