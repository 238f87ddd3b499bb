-- ===== src/Execution/Prepared.antt =====
-- A plan that build_execution_memory_plan makes serves the guest memory that it is made for.
pub mod Pages
use astraea.Prelude.{
  ℕ, ◌+◌, ◌/◌, ◌≤◌, ◌<◌, ◌≡◌, refl, sym, ap, ◌∙◌, ◌≢◌, ◌↔◌, inl, inr, true, ◌&&◌, Option, none,
  some, List, [], ◌∷◌, ◌++◌, arith, u64_max, Bool-cases, any, All, All-append, Any, Result, success,
}
use astraea.Memory.Address.{contains}
use astraea.Memory.Address.Ranges.{contains_iff}
use astraea.Memory.Permissions.{GuestPermission, execute, has, IsKnown}
use astraea.Execution.MemoryPlan.{ExecutionMemoryPlan, ExecutionMemoryRegion}
use astraea.Execution.MemoryPlan.Build.{
  ExecutionMemoryPlanRequest, regions_of, build_execution_memory_plan, is_power_of_two,
}
use astraea.Execution.MemoryPlan.Cover.{
  HoldsPage, regions_of-HoldsPage, Exclusive, regions_of-Exclusive,
}
use astraea.Execution.MemoryPlan.Order.{Placed, regions_of-Placed}
use astraea.Execution.MemoryPlan.Regions.{permissions_of}
use astraea.Execution.GuestMemory.{GuestImage, GuestMemoryError, GuestMemoryAccess, validate}
use astraea.Execution.GuestMemory.Validate.{
  IsPrepared, first_error, first_error-none, first_error-clear, range_result, validate-first_error,
}
use astraea.Execution.GuestMemory.Scan.{allows}
use astraea.Execution.GuestMemory.Coverage.{
  guest_allows, prepared_allows, allowed_of_none, none_of_allowed,
}
use astraea.Execution.MemoryPlan.Spans.{
  SpanAt, spans_of, stack_span, div_low, div_high, div_mono, mapping_spans_lem, stack_spans_lem,
  spans_of-AllKnown, stack_span-AllKnown, spans_of-SpanAt, stack_span-SpanAt, SpanAt-left,
  SpanAt-right,
}

-- What a plan that is made says of the request.
pub build_lem :
    (request : ExecutionMemoryPlanRequest) (plan : ExecutionMemoryPlan)
    → build_execution_memory_plan request ≡ success plan
    → (0 < request.host_page_size)
      × (regions_of
            (spans_of request.mappings request.host_page_size
              ++ stack_span request.stack_storage request.host_page_size)
            request.host_page_size
          ≡ success plan.regions)
      × (any
            (λ m. contains m.range request.entry_point && has m.permissions execute)
            request.mappings
          ≡ true)
      × (contains request.stack_storage request.stack_pointer ≡ true)
unfolding build_execution_memory_plan is_power_of_two
build_lem request plan h = ground (
  arith,
  mapping_spans_lem request.mappings request.host_page_size,
  stack_spans_lem request.stack_storage request.host_page_size,
)

pub page_size_lem :
    (request : ExecutionMemoryPlanRequest) (plan : ExecutionMemoryPlan)
    → build_execution_memory_plan request ≡ success plan
    → (is_power_of_two plan.host_page_size ≡ true) × (plan.host_page_size ≡ request.host_page_size)
unfolding build_execution_memory_plan
page_size_lem request plan h = ground (
  arith,
  mapping_spans_lem request.mappings request.host_page_size,
  stack_spans_lem request.stack_storage request.host_page_size,
)

abbrev pub image_of : ExecutionMemoryPlanRequest → GuestImage
image_of request = record { mappings = request.mappings; stack_storage = request.stack_storage }

-- What the guest's ranges allow stands in a span.
pub span_at :
    (request : ExecutionMemoryPlanRequest) (q : GuestPermission) (a : ℕ)
    → 0 < request.host_page_size
    → q ≢ execute
    → guest_allows (image_of request) q a ≡ true
    → SpanAt request.host_page_size q a (
        spans_of request.mappings request.host_page_size
        ++ stack_span request.stack_storage request.host_page_size)
span_at request q a pos other allowed =
    elim (Bool-cases (any (λ m. contains m.range a && has m.permissions q) request.mappings)) [
      | inl mapped ↦
          SpanAt-left request.host_page_size a q _ _
            (spans_of-SpanAt request.mappings request.host_page_size a q pos mapped)
      | inr unmapped ↦ SpanAt-right request.host_page_size a q _ _ (
          stack_span-SpanAt request.stack_storage request.host_page_size a q pos other
            (rw unmapped at allowed))
    ]

-- A region that holds the page of an address allows the address.
pub page_allows :
    (page_size a : ℕ) (q : GuestPermission) (rs : List ExecutionMemoryRegion)
    → 0 < page_size
    → Any (HoldsPage page_size (a / page_size) q) rs
    → allows (λ r. r.range) (λ r. r.permissions) q rs a ≡ true
page_allows page_size a q [] pos h = elim h [ ]
page_allows page_size a q (r ∷ rs) pos (inl (low, high, allowed)) =
    let inside : contains r.range a ≡ true = (contains_iff r.range a).1 (
      omega (arith, low, div_low a page_size pos),
      omega (arith, high, div_high a page_size pos),
    ) in
    rw (inside, allowed) refl
page_allows page_size a q (r ∷ rs) pos (inr h) = ground (arith, page_allows page_size a q rs pos h)

-- A plan that is made holds the page of an address that stands in a span.
pub SpanAt-HoldsPage :
    (request : ExecutionMemoryPlanRequest) (plan : ExecutionMemoryPlan) (q : GuestPermission)
    (a : ℕ)
    → All (λ m. IsKnown m.permissions) request.mappings
    → a ≤ u64_max
    → build_execution_memory_plan request ≡ success plan
    → SpanAt request.host_page_size q a (
        spans_of request.mappings request.host_page_size
        ++ stack_span request.stack_storage request.host_page_size)
    → Any (HoldsPage request.host_page_size (a / request.host_page_size) q) plan.regions
SpanAt-HoldsPage request plan q a known small h (s, one, permitted, low, high) =
    let (pos, made, entry, pointer) = build_lem request plan h in
    let ms = spans_of request.mappings request.host_page_size in
    let stack = stack_span request.stack_storage request.host_page_size in
    regions_of-HoldsPage (ms ++ stack) request.host_page_size (a / request.host_page_size) q s
      plan.regions
      (All-append (λ t. IsKnown (permissions_of t)) ms stack
        (spans_of-AllKnown request.mappings request.host_page_size known)
        (stack_span-AllKnown request.stack_storage request.host_page_size))
      one permitted low high (div_mono a u64_max request.host_page_size pos small) made

-- Where the mappings' permissions have known bits alone, a plan that is made prepares every byte,
-- at a 64-bit address, that the guest's mappings and stack allow to be read or written, with that
-- permission: an access that the guest's ranges allow is never refused for want of a page.
pub build_execution_memory_plan-prepared_allows :
    (request : ExecutionMemoryPlanRequest) (plan : ExecutionMemoryPlan) (q : GuestPermission)
    (a : ℕ)
    → All (λ m. IsKnown m.permissions) request.mappings
    → a ≤ u64_max
    → q ≢ execute
    → build_execution_memory_plan request ≡ success plan
    → guest_allows (image_of request) q a ≡ true
    → prepared_allows plan q a ≡ true
build_execution_memory_plan-prepared_allows request plan q a known small other h allowed =
    let (pos, made, entry, pointer) = build_lem request plan h in
    page_allows request.host_page_size a q plan.regions pos
      (SpanAt-HoldsPage request plan q a known small h (span_at request q a pos other allowed))

-- The regions of a plan that is made stand in the order of their addresses and share none: each
-- starts at or after the end of the one before.
pub build_execution_memory_plan-Placed :
    (request : ExecutionMemoryPlanRequest) (plan : ExecutionMemoryPlan)
    → build_execution_memory_plan request ≡ success plan
    → Placed 0 plan.regions
build_execution_memory_plan-Placed request plan h =
    regions_of-Placed
      (spans_of request.mappings request.host_page_size
        ++ stack_span request.stack_storage request.host_page_size)
      request.host_page_size plan.regions (build_lem request plan h).1

-- The guest's mappings and stack allow every byte of the range.
abbrev pub AllowedRange : GuestImage → GuestPermission → ℕ → ℕ → Type 0
AllowedRange image q a n = (j : ℕ) → j < n → guest_allows image q (a + j) ≡ true

success_of_none :
    (n : ℕ) (e : Option GuestMemoryError)
    → ◌≡◌ {A = Option (Result ℕ GuestMemoryError)} (some (range_result n e)) (some (success n))
    → e ≡ none
success_of_none n none h = refl
success_of_none n (some e) h = ground arith

-- On memory prepared by a plan that is made for the image, whose mappings' permissions have known
-- bits alone, an access to read or write a range of 64-bit addresses is granted exactly when the
-- guest's mappings and stack allow every byte of it.
pub validate-AllowedRange :
    (g : GuestMemoryAccess) (request : ExecutionMemoryPlanRequest) (plan : ExecutionMemoryPlan)
    (q : GuestPermission) (a n : ℕ)
    → IsPrepared g (image_of request) plan
    → build_execution_memory_plan request ≡ success plan
    → All (λ m. IsKnown m.permissions) request.mappings
    → q ≢ execute
    → a + n ≤ u64_max + 1
    → (validate g a n q ≡ some (success n)) ↔ AllowedRange (image_of request) q a n
validate-AllowedRange g request plan q a n ready made known other fits = (granted, grant)
  where
    granted : validate g a n q ≡ some (success n) → AllowedRange (image_of request) q a n
    granted h j inside =
        (allowed_of_none (image_of request) plan q (a + j) (
          first_error-none (image_of request) plan q a n j
            (success_of_none n (first_error (image_of request) plan q a n)
              (sym (validate-first_error a n q ready fits) ∙ h))
            inside)).0

    grant : AllowedRange (image_of request) q a n → validate g a n q ≡ some (success n)
    grant h =
        validate-first_error a n q ready fits
        ∙ ap (λ e. some (range_result n e))
            (first_error-clear (image_of request) plan q a n (λ j inside.
              none_of_allowed (image_of request) plan q (a + j) (h j inside) (
                build_execution_memory_plan-prepared_allows request plan q (a + j) known
                  (omega arith) other made (h j inside))))
