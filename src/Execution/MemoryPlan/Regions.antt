-- ===== src/Execution/MemoryPlan/Regions.antt =====
-- One region of build_execution_memory_plan: its sources, its permissions and its range.
use astraea.Prelude.{
  ℕ, ◌+◌, ◌-◌, ◌*◌, ◌<◌, bit_or, ◌≡◌, refl, ap, ◌∙◌, ◌≢◌, inl, inr, Bool, true, false, ◌&&◌, ◌||◌,
  List, [], ◌∷◌, arith, Bool-cases, length, All, success,
}
use astraea.Memory.Address.{create}
use astraea.Memory.Permissions.{
  GuestPermission, GuestPermissions, write, execute, has, IsKnown, has-union, union-IsKnown,
  checked_from_bits,
}
use astraea.Execution.MemoryPlan.{ExecutionMemorySource, ExecutionMemoryRegion}
use astraea.Execution.MemoryPlan.Boundaries.{OneOf}
use astraea.Execution.MemoryPlan.Build.{PageSpan, span_covers, bits_at, sources_at, region_of}

-- The permissions of a span.
abbrev pub permissions_of : PageSpan → GuestPermissions
permissions_of s = record { bits = s.permission_bits }

bits_at-kept :
    (q : GuestPermission) (ss : List PageSpan) (page acc : ℕ)
    → All (λ s. IsKnown (permissions_of s)) ss
    → acc < 8
    → has (record { bits = acc }) q ≡ true
    → has (record { bits = bits_at ss page acc }) q ≡ true
unfolding bits_at
bits_at-kept q [] page acc k small h = h
bits_at-kept q (s ∷ ss) page acc k small h = elim (Bool-cases (span_covers s page)) [
  | inl c ↦ rw c (
      bits_at-kept q ss page (bit_or acc s.permission_bits) k.1
        (union-IsKnown (record { bits = acc }) (permissions_of s) small k.0)
        (has-union (record { bits = acc }) (permissions_of s) q small k.0 ∙ rw h refl))
  | inr c ↦ rw c (bits_at-kept q ss page acc k.1 small h)
]

pub bits_at-has :
    (q : GuestPermission) (s : PageSpan) (ss : List PageSpan) (page acc : ℕ)
    → All (λ t. IsKnown (permissions_of t)) ss
    → acc < 8
    → OneOf s ss
    → span_covers s page ≡ true
    → has (permissions_of s) q ≡ true
    → has (record { bits = bits_at ss page acc }) q ≡ true
unfolding bits_at
bits_at-has q s [] page acc k small o c h = elim o [ ]
bits_at-has q s (t ∷ ss) page acc k small (inl e) c h = rw (ap (λ u. span_covers u page) e ∙ c) (
    bits_at-kept q ss page (bit_or acc t.permission_bits) k.1
      (union-IsKnown (record { bits = acc }) (permissions_of t) small k.0)
      (has-union (record { bits = acc }) (permissions_of t) q small k.0
        ∙ ap (λ b. has (record { bits = acc }) q || b) (ap (λ u. has (permissions_of u) q) e ∙ h)
        ∙ or_true (has (record { bits = acc }) q)))
  where
    or_true : (b : Bool) → (b || true) ≡ true
    or_true true = refl
    or_true false = refl
bits_at-has q s (t ∷ ss) page acc k small (inr o) c h = elim (Bool-cases (span_covers t page)) [
  | inl d ↦ rw d (
      bits_at-has q s ss page (bit_or acc t.permission_bits) k.1
        (union-IsKnown (record { bits = acc }) (permissions_of t) small k.0) o c h)
  | inr d ↦ rw d (bits_at-has q s ss page acc k.1 small o c h)
]

pub sources_at-some :
    (s : PageSpan) (ss : List PageSpan) (page : ℕ)
    → OneOf s ss
    → span_covers s page ≡ true
    → length (sources_at ss page) ≢ 0
unfolding sources_at
sources_at-some s [] page o c = elim o [ ]
sources_at-some s (t ∷ ss) page (inl e) c =
    rw (ap (λ u. span_covers u page) e ∙ c) (λ h. omega (arith, h))
sources_at-some s (t ∷ ss) page (inr o) c = elim (Bool-cases (span_covers t page)) [
  | inl d ↦ rw d (λ h. omega (arith, h))
  | inr d ↦ rw d (sources_at-some s ss page o c)
]

pub region_of_lem :
    (page_size b last bits : ℕ) (sources : List ExecutionMemorySource) (r : ExecutionMemoryRegion)
    → region_of page_size b last bits sources ≡ success r
    → (r.range.base ≡ b * page_size)
      × (r.range.size ≡ (last - b + 1) * page_size)
      × (r.permissions.bits ≡ bits)
      × ((has r.permissions write && has r.permissions execute) ≡ false)
unfolding region_of create checked_from_bits has
region_of_lem page_size b last bits sources r h = ground arith
