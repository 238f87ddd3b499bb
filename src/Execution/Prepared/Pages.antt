-- ===== src/Execution/Prepared/Pages.antt =====
-- The pages of a plan that build_execution_memory_plan makes: writable or executable, never both.
use astraea.Prelude.{
  ℕ, ◌+◌, ◌-◌, ◌*◌, ◌/◌, ◌^◌, ◌≤◌, ◌<◌, ◌≡◌, refl, ◌≢◌, inl, inr, Bool, true, false, ◌&&◌, bit_and,
  ==_iff, List, [], ◌∷◌, arith, u64_max, Bool-cases, any, All, Any, success,
}
use mathlib.Core.Path.{subst}
use astraea.Prelude.Powers.{bit_and-power}
use astraea.Memory.Address.{contains}
use astraea.Memory.Address.Ranges.{contains_iff}
use astraea.Memory.Permissions.{GuestPermission, read, write, execute, has, IsKnown}
use astraea.Execution.MemoryPlan.{ExecutionMemoryPlan, ExecutionMemoryRegion}
use astraea.Execution.MemoryPlan.Build.{
  ExecutionMemoryPlanRequest, build_execution_memory_plan, is_power_of_two,
}
use astraea.Execution.MemoryPlan.Cover.{HoldsPage, Exclusive, regions_of-Exclusive}
use astraea.Execution.MemoryPlan.Order.{Placed}
use astraea.Execution.MemoryPlan.Spans.{spans_of-SpanAt, SpanAt-left}
use astraea.Execution.GuestMemory.Scan.{allows}
use astraea.Execution.GuestMemory.Coverage.{guest_allows, prepared_allows}
use astraea.Execution.Prepared.{
  image_of, build_lem, page_size_lem, span_at, page_allows, SpanAt-HoldsPage,
  build_execution_memory_plan-Placed, build_execution_memory_plan-prepared_allows,
}

-- The guest's mappings allow the byte to be executed.
abbrev pub can_execute : ExecutionMemoryPlanRequest → ℕ → Bool
can_execute request a = any (λ m. contains m.range a && has m.permissions execute) request.mappings

is_power_of_two-power : (a : ℕ) → is_power_of_two a ≡ true → (k : ℕ) × (a ≡ 2 ^ k)
unfolding is_power_of_two
is_power_of_two-power a h =
    bit_and-power a (λ z. ground arith) (ground (arith, ==_iff (bit_and a (a - 1)) 0))

page_above :
    (page_size page low : ℕ) (q : GuestPermission) (rs : List ExecutionMemoryRegion)
    → Placed low rs
    → Any (HoldsPage page_size page q) rs
    → low ≤ page * page_size
page_above page_size page low q [] placed h = absurd h
page_above page_size page low q (r ∷ rs) (above, placed) (inl (start, end, allowed)) =
    omega (arith, above, start)
page_above page_size page low q (r ∷ rs) (above, placed) (inr h) =
    omega (arith, above, page_above page_size page (r.range.base + r.range.size) q rs placed h)

-- One page is not held once to be written and once to be executed.
page-Exclusive :
    (page_size page low : ℕ) (rs : List ExecutionMemoryRegion)
    → 0 < page_size
    → Placed low rs
    → All Exclusive rs
    → Any (HoldsPage page_size page write) rs
    → Any (HoldsPage page_size page execute) rs
    → ⊥
page-Exclusive page_size page low [] pos placed apart w x = absurd w
page-Exclusive page_size page low (r ∷ rs) pos (above, placed) (apart, later) (inl w) (inl x) =
    ground (arith, w.2, x.2)
page-Exclusive page_size page low (r ∷ rs) pos (above, placed) (apart, later) (inl w) (inr x) =
    let next = page_above page_size page (r.range.base + r.range.size) execute rs placed x in
    omega (arith, w.1, next, pos)
page-Exclusive page_size page low (r ∷ rs) pos (above, placed) (apart, later) (inr w) (inl x) =
    let next = page_above page_size page (r.range.base + r.range.size) write rs placed w in
    omega (arith, x.1, next, pos)
page-Exclusive page_size page low (r ∷ rs) pos (above, placed) (apart, later) (inr w) (inr x) =
    page-Exclusive page_size page (r.range.base + r.range.size) rs pos placed later w x

abbrev region_allows : GuestPermission → List ExecutionMemoryRegion → ℕ → Bool
region_allows q rs a = allows (λ r. r.range) (λ r. r.permissions) q rs a

address_above :
    (a low : ℕ) (q : GuestPermission) (rs : List ExecutionMemoryRegion)
    → Placed low rs
    → region_allows q rs a ≡ true
    → low ≤ a
address_above a low q [] placed h = cc
address_above a low q (r ∷ rs) (above, placed) h = elim (Bool-cases (contains r.range a)) [
  | inl c ↦ omega (arith, above, ((contains_iff r.range a).0 c).0)
  | inr c ↦
      omega (arith, above, address_above a (r.range.base + r.range.size) q rs placed (rw c at h))
]

nothing_after :
    (a : ℕ) (q : GuestPermission) (r : ExecutionMemoryRegion) (rs : List ExecutionMemoryRegion)
    → Placed (r.range.base + r.range.size) rs
    → contains r.range a ≡ true
    → region_allows q rs a ≡ false
nothing_after a q r rs placed c = elim (Bool-cases (region_allows q rs a)) [
  | inl h ↦ absurd (
      omega (
        arith,
        address_above a (r.range.base + r.range.size) q rs placed h,
        ((contains_iff r.range a).0 c).1,
      ))
  | inr h ↦ h
]

address-Exclusive :
    (a low : ℕ) (rs : List ExecutionMemoryRegion)
    → Placed low rs
    → All Exclusive rs
    → (region_allows write rs a && region_allows execute rs a) ≡ false
address-Exclusive a low [] placed apart = refl
address-Exclusive a low (r ∷ rs) (above, placed) (apart, later) =
    elim (Bool-cases (contains r.range a)) [
      | inl c ↦
          rw (c, nothing_after a write r rs placed c, nothing_after a execute r rs placed c)
            (ground arith)
      | inr c ↦ rw c (address-Exclusive a (r.range.base + r.range.size) rs placed later)
    ]

-- What a plan that is made for the request promises of its pages.
pub record IsExclusive (request : ExecutionMemoryPlanRequest) (plan : ExecutionMemoryPlan)
    : Type 0 where
  pub page_size : plan.host_page_size ≡ request.host_page_size
  pub power : (k : ℕ) × (plan.host_page_size ≡ 2 ^ k)
  pub prepared : (a : ℕ) → (prepared_allows plan write a && prepared_allows plan execute a) ≡ false
  pub pages :
      (a b : ℕ)
      → a ≤ u64_max
      → b ≤ u64_max
      → guest_allows (image_of request) write a ≡ true
      → can_execute request b ≡ true
      → a / plan.host_page_size ≢ b / plan.host_page_size
  pub entry : prepared_allows plan execute request.entry_point ≡ true
  pub stack :
      (prepared_allows plan read request.stack_pointer ≡ true)
      × (prepared_allows plan write request.stack_pointer ≡ true)

-- A byte that may be executed stands in a page that is held to be executed.
execute_page :
    (request : ExecutionMemoryPlanRequest) (plan : ExecutionMemoryPlan) (b : ℕ)
    → All (λ m. IsKnown m.permissions) request.mappings
    → b ≤ u64_max
    → build_execution_memory_plan request ≡ success plan
    → can_execute request b ≡ true
    → Any (HoldsPage request.host_page_size (b / request.host_page_size) execute) plan.regions
execute_page request plan b known small h may =
    SpanAt-HoldsPage request plan execute b known small h (
      SpanAt-left request.host_page_size b execute _ _ (
        spans_of-SpanAt request.mappings request.host_page_size b execute
          (build_lem request plan h).0 may))

-- Where the mappings' permissions have known bits alone, and the entry point and the stack pointer
-- are 64-bit addresses, a plan that is made has the page size of the request, which is a power of
-- two. It prepares no byte both to be written and to be executed, and it is made only where no
-- page holds a byte that the guest may write and a byte that a mapping lets it execute. The entry
-- point is prepared to be executed, and the stack pointer to be read and written.
pub build_execution_memory_plan-IsExclusive :
    (request : ExecutionMemoryPlanRequest) (plan : ExecutionMemoryPlan)
    → All (λ m. IsKnown m.permissions) request.mappings
    → request.entry_point ≤ u64_max
    → request.stack_pointer ≤ u64_max
    → build_execution_memory_plan request ≡ success plan
    → IsExclusive request plan
build_execution_memory_plan-IsExclusive request plan known entry_small pointer_small h =
    let (pos, made, entry, pointer) = build_lem request plan h in
    let (power, same) = page_size_lem request plan h in
    let placed = build_execution_memory_plan-Placed request plan h in
    let apart = regions_of-Exclusive _ request.host_page_size plan.regions made in
    let on_stack : (q : GuestPermission)
        → guest_allows (image_of request) q request.stack_pointer ≡ true =
      λ q. ground (arith, pointer) in
    let n = request.host_page_size in
    let pages : (a b : ℕ)
        → a ≤ u64_max
        → b ≤ u64_max
        → guest_allows (image_of request) write a ≡ true
        → can_execute request b ≡ true
        → a / n ≢ b / n =
      λ a b sa sb w x one.
        page-Exclusive n (b / n) 0 plan.regions pos placed apart
          (subst (λ page. Any (HoldsPage n page write) plan.regions) one
            (SpanAt-HoldsPage request plan write a known sa h
              (span_at request write a pos (λ k. cc) w)))
          (execute_page request plan b known sb h x) in
    record {
      page_size = same;
      power = is_power_of_two-power plan.host_page_size power;
      prepared = λ a. address-Exclusive a 0 plan.regions placed apart;
      pages = λ a b sa sb w x. rw same (pages a b sa sb w x);
      entry =
          page_allows n request.entry_point execute plan.regions pos
            (execute_page request plan request.entry_point known entry_small h entry);
      stack = (
        build_execution_memory_plan-prepared_allows request plan read request.stack_pointer known
            pointer_small (λ k. cc) h (on_stack read),
        build_execution_memory_plan-prepared_allows request plan write request.stack_pointer known
            pointer_small (λ k. cc) h (on_stack write),
      );
    }
