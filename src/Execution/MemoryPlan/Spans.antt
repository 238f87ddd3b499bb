-- ===== src/Execution/MemoryPlan/Spans.antt =====
-- The page spans of build_execution_memory_plan hold every byte that the guest may access.
use astraea.Prelude.{
  ne→==, ℕ, ◌+◌, ◌-◌, ◌*◌, ◌/◌, ◌≤◌, ◌<◌, ◌≡◌, refl, ◌≢◌, inl, inr, true, false, ◌&&◌, List, [],
  ◌∷◌, ◌++◌, arith, if◌then◌else◌, Bool-cases, any, All, success,
}
use astraea.Memory.Address.{GuestRange, contains, is_empty}
use astraea.Memory.Address.Ranges.{contains_iff}
use astraea.Memory.Permissions.{
  GuestPermission, read, write, execute, has, IsKnown, checked_from_bits,
}
use astraea.Memory.Mapping.{MappingIntent}
use astraea.Execution.MemoryPlan.{mapping, initial_stack, ExecutionMemorySource}
use astraea.Execution.MemoryPlan.Build.{PageSpan, to_page_span, mapping_spans, stack_spans}
use astraea.Execution.MemoryPlan.Boundaries.{OneOf}
use astraea.Execution.MemoryPlan.Regions.{permissions_of}

pub div_low : (a n : ℕ) → 0 < n → a / n * n ≤ a
div_low a n h = grind arith

pub div_high : (a n : ℕ) → 0 < n → a < (a / n + 1) * n
div_high a n h = grind arith

pub div_mono : (a b n : ℕ) → 0 < n → a ≤ b → a / n ≤ b / n
div_mono a b n h k = grind arith

-- Some span of the list has the permission and holds the page of the address.
abbrev pub SpanAt : ℕ → GuestPermission → ℕ → List PageSpan → Type 0
SpanAt page_size q a ss =
    (s : PageSpan) × OneOf s ss
    × (has (permissions_of s) q ≡ true)
    × (s.first_page ≤ a / page_size)
    × (a / page_size ≤ s.last_page)

abbrev pub AllKnown : List PageSpan → Type 0
AllKnown ss = All (λ s. IsKnown (permissions_of s)) ss

span_of : GuestRange → ℕ → ExecutionMemorySource → ℕ → PageSpan
span_of r bits source page_size = record {
  first_page = r.base / page_size;
  last_page = (r.base + (r.size - 1)) / page_size;
  permission_bits = bits;
  source = source;
}

mapping_span : MappingIntent → ℕ → PageSpan
mapping_span m page_size =
    span_of m.range m.permissions.bits (record { kind = mapping; source_index = m.source_index })
      page_size

-- The spans of the mappings that are not empty, and of the stack.
pub spans_of : List MappingIntent → ℕ → List PageSpan
spans_of [] page_size = []
spans_of (m ∷ ms) page_size =
    let rest = spans_of ms page_size in
    if is_empty m.range then rest else mapping_span m page_size ∷ rest

pub stack_span : GuestRange → ℕ → List PageSpan
stack_span stack page_size =
    if is_empty stack
    then []
    else span_of stack 3 (record { kind = initial_stack; source_index = 0 }) page_size ∷ []

pub mapping_spans_lem :
    (ms : List MappingIntent) (page_size : ℕ)
    → mapping_spans ms page_size ≡ success (spans_of ms page_size)
unfolding mapping_spans to_page_span spans_of mapping_span span_of
mapping_spans_lem [] page_size = refl
mapping_spans_lem (m ∷ ms) page_size = ground (arith, mapping_spans_lem ms page_size)

pub stack_spans_lem :
    (stack : GuestRange) (page_size : ℕ)
    → stack_spans stack page_size ≡ success (stack_span stack page_size)
unfolding stack_spans to_page_span checked_from_bits stack_span span_of
stack_spans_lem stack page_size = ground arith

pub spans_of-AllKnown :
    (ms : List MappingIntent) (page_size : ℕ)
    → All (λ m. IsKnown m.permissions) ms
    → AllKnown (spans_of ms page_size)
unfolding spans_of mapping_span span_of
spans_of-AllKnown [] page_size k = tt
spans_of-AllKnown (m ∷ ms) page_size k = elim (Bool-cases (is_empty m.range)) [
  | inl e ↦ rw e (spans_of-AllKnown ms page_size k.1)
  | inr e ↦ rw e (k.0, spans_of-AllKnown ms page_size k.1)
]

pub stack_span-AllKnown :
    (stack : GuestRange) (page_size : ℕ) → AllKnown (stack_span stack page_size)
unfolding stack_span span_of
stack_span-AllKnown stack page_size = elim (Bool-cases (is_empty stack)) [
  | inl e ↦ rw e tt
  | inr e ↦ rw e (omega arith, tt)
]

pages_of :
    (r : GuestRange) (page_size a : ℕ)
    → 0 < page_size
    → contains r a ≡ true
    → (r.base / page_size ≤ a / page_size)
      × (a / page_size ≤ (r.base + (r.size - 1)) / page_size)
      × (is_empty r ≡ false)
pages_of r page_size a pos h =
    let (low, high) = (contains_iff r a).0 h in
    (
      div_mono r.base a page_size pos low,
      div_mono a (r.base + (r.size - 1)) page_size pos (omega (arith, low, high)),
      ne→== r.size 0 (omega (arith, low, high)),
    )

pub spans_of-SpanAt :
    (ms : List MappingIntent) (page_size a : ℕ) (q : GuestPermission)
    → 0 < page_size
    → any (λ m. contains m.range a && has m.permissions q) ms ≡ true
    → SpanAt page_size q a (spans_of ms page_size)
unfolding spans_of mapping_span span_of
spans_of-SpanAt [] page_size a q pos h = cc
spans_of-SpanAt (m ∷ ms) page_size a q pos h =
    elim (Bool-cases (contains m.range a && has m.permissions q)) [
      | inl here ↦
          let inside : contains m.range a ≡ true = ground (arith, here) in
          let allowed : has m.permissions q ≡ true = ground (arith, here) in
          let (low, high, there) = pages_of m.range page_size a pos inside in
          rw there (mapping_span m page_size, inl refl, allowed, low, high)
      | inr elsewhere ↦
          let (s, one, allowed, low, high) =
            spans_of-SpanAt ms page_size a q pos (rw elsewhere at h) in
          elim (Bool-cases (is_empty m.range)) [
            | inl e ↦ rw e (s, one, allowed, low, high)
            | inr e ↦ rw e (s, inr one, allowed, low, high)
          ]
    ]

stack_has : (q : GuestPermission) → q ≢ execute → has (record { bits = 3 }) q ≡ true
unfolding has
stack_has read other = refl
stack_has write other = refl
stack_has execute other = absurd (other refl)

pub stack_span-SpanAt :
    (stack : GuestRange) (page_size a : ℕ) (q : GuestPermission)
    → 0 < page_size
    → q ≢ execute
    → contains stack a ≡ true
    → SpanAt page_size q a (stack_span stack page_size)
unfolding stack_span span_of
stack_span-SpanAt stack page_size a q pos other h =
    let (low, high, there) = pages_of stack page_size a pos h in
    rw there (
      span_of stack 3 (record { kind = initial_stack; source_index = 0 }) page_size,
      inl refl,
      stack_has q other,
      low,
      high,
    )

pub SpanAt-left :
    (page_size a : ℕ) (q : GuestPermission) (ss ts : List PageSpan)
    → SpanAt page_size q a ss
    → SpanAt page_size q a (ss ++ ts)
SpanAt-left page_size a q ss ts (s, one, allowed, low, high) = (s, left ss one, allowed, low, high)
  where
    left : (ss : List PageSpan) → OneOf s ss → OneOf s (ss ++ ts)
    left [] o = elim o [ ]
    left (t ∷ ss) (inl e) = inl e
    left (t ∷ ss) (inr o) = inr (left ss o)

pub SpanAt-right :
    (page_size a : ℕ) (q : GuestPermission) (ss ts : List PageSpan)
    → SpanAt page_size q a ts
    → SpanAt page_size q a (ss ++ ts)
SpanAt-right page_size a q ss ts (s, one, allowed, low, high) = (s, right ss, allowed, low, high)
  where
    right : (ss : List PageSpan) → OneOf s (ss ++ ts)
    right [] = one
    right (t ∷ ss) = inr (right ss)
