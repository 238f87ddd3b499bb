-- ===== src/Memory/ImageView/Read.antt =====
-- InitializedImageView::read_byte on a view: it stays inside the file, stops early only where
-- nothing is missed, and answers what the intents that hold the address agree on.
use astraea.Memory.Address.Ranges.{contains_iff}
use astraea.Prelude.{
  get_elem?-lt, length, ltb→lt, inl, inr, ◌>>=◌, inl, Bool-cases, lt→ltb, ℕ, ◌≤◌, ◌<◌, ◌≡◌, refl,
  Bool, true, false, Option, none, some, List, [], ◌∷◌, Result, success, failure, All,
  if◌then◌else◌, u64_max, arith,
}
use astraea.Memory.Address.{contains}
use astraea.Memory.Mapping.{MappingIntent}
use astraea.Memory.Mapping.Segments.{file_byte, zero_byte, backing_source, sources_at}
use astraea.Memory.Mapping.Overlaps.{InOrder}
use astraea.Memory.ImageView.{
  source_byte, InitializedImageView, read_byte, conflict_error, join_sources, ltb, resolve,
  InitializedImageError, ResolvedSource, source_at, mapping_overlap_conflict,
}
use astraea.Memory.ImageView.Create.{IsView, IsBacked}
use astraea.Memory.ImageView.Sources.{
  no_source, agreed, disagreed, disagreed, agreed, Agreement, same_source, agree_with, agreement,
  view_source, Answers, InFile, source_at_backed, sources_at-above, sources_match_iff,
}

-- What the loop makes of the sources, from a first source on.
abbrev Resolves : ℕ → ℕ → Agreement → Result (Option ResolvedSource) InitializedImageError → Type 0
Resolves n a no_source r = r ≡ success none
Resolves n a (agreed s) r =
    (x : ResolvedSource) × (r ≡ success (some x)) × (view_source x ≡ s) × InFile n s
Resolves n a disagreed r =
    (e : InitializedImageError) × (r ≡ failure e)
    × (e.code ≡ mapping_overlap_conflict)
    × (e.guest_address ≡ some a)

-- One round of the loop, case by case.
module _ (m : MappingIntent) (ms : List MappingIntent) (a : ℕ) (r : Option ResolvedSource) where
  resolve_stop : a < m.range.base → resolve (m ∷ ms) a r ≡ success r
  unfolding resolve
  resolve_stop h = rw (lt→ltb _ _ h)

  resolve_skip :
      ltb a m.range.base ≡ false
      → contains m.range a ≡ false
      → resolve (m ∷ ms) a r ≡ resolve ms a r
  unfolding resolve
  resolve_skip h c = rw h (rw c)

  resolve_join :
      (s : ResolvedSource)
      → contains m.range a ≡ true
      → source_at m a ≡ success s
      → resolve (m ∷ ms) a r ≡ (join_sources a r s >>= λ x. resolve ms a (some x))
  unfolding resolve
  resolve_join s c e = ground (arith, (contains_iff m.range a).0 c)

pub sources_at-stop :
    (m : MappingIntent) (ms : List MappingIntent) (a : ℕ)
    → a < m.range.base
    → InOrder (m ∷ ms)
    → sources_at (m ∷ ms) a ≡ []
sources_at-stop m ms a h o = ground (arith, contains_iff m.range a, sources_at-above ms m a h o.0)

-- The first source stays where the next one is the same, and the loop ends where it is not.
resolve_next :
    (n a : ℕ) (m : MappingIntent) (ms : List MappingIntent) (x s : ResolvedSource)
    → contains m.range a ≡ true
    → source_at m a ≡ success s
    → view_source s ≡ backing_source m a
    → Resolves n a (agree_with (view_source x) (sources_at ms a)) (resolve ms a (some x))
    → Resolves n a
        (agree_with (view_source x) (sources_at (m ∷ ms) a))
        (resolve (m ∷ ms) a (some x))
unfolding join_sources
resolve_next n a m ms x s c e v rest =
    rw (resolve_join m ms a (some x) s c e)
      (rw c (rw (← v) (step (same_source (view_source x) (view_source s)) refl)))
  where
    step :
        (t : Bool)
        → same_source (view_source x) (view_source s) ≡ t
        → Resolves n a
            (if same_source (view_source x) (view_source s)
              then agree_with (view_source x) (sources_at ms a)
              else disagreed)
            (join_sources a (some x) s >>= λ y. resolve ms a (some y))
    step true q = rw q (rw (join_sources, sources_match_iff x s, q) rest)
    step false q =
        rw q (conflict_error a x s, rw (join_sources, sources_match_iff x s, q), refl, refl)

resolve_from :
    (n a : ℕ) (ms : List MappingIntent) (x : ResolvedSource)
    → n ≤ u64_max
    → All (IsBacked n) ms
    → InOrder ms
    → InFile n (view_source x)
    → Resolves n a (agree_with (view_source x) (sources_at ms a)) (resolve ms a (some x))
resolve_from n a [] x fits b o i = (x, unfold resolve in refl, refl, i)
resolve_from n a (m ∷ ms) x fits b o i =
    let rest = resolve_from n a ms x fits b.1 o.1 i in
    elim (Bool-cases (ltb a m.range.base)) [
      | inl below ↦
          rw (sources_at-stop m ms a (ltb→lt _ _ below) o)
            (x, resolve_stop m ms a (some x) (ltb→lt _ _ below), refl, i)
      | inr reached ↦ elim (Bool-cases (contains m.range a)) [
        | inl c ↦
            (let (s, e, v, j) = source_at_backed n a m fits b.0 c in
              resolve_next n a m ms x s c e v rest)
        | inr c ↦ rw (resolve_skip m ms a (some x) reached c) (rw c rest)
      ]
    ]

resolve_first :
    (n a : ℕ) (m : MappingIntent) (ms : List MappingIntent) (s : ResolvedSource)
    → contains m.range a ≡ true
    → source_at m a ≡ success s
    → view_source s ≡ backing_source m a
    → Resolves n a (agree_with (view_source s) (sources_at ms a)) (resolve ms a (some s))
    → Resolves n a (agreement (sources_at (m ∷ ms) a)) (resolve (m ∷ ms) a none)
unfolding join_sources
resolve_first n a m ms s c e v rest = rw (resolve_join m ms a none s c e) (rw c (rw (← v) rest))

resolve_start :
    (n a : ℕ) (ms : List MappingIntent)
    → n ≤ u64_max
    → All (IsBacked n) ms
    → InOrder ms
    → Resolves n a (agreement (sources_at ms a)) (resolve ms a none)
resolve_start n a [] fits b o = unfold resolve in refl
resolve_start n a (m ∷ ms) fits b o = elim (Bool-cases (ltb a m.range.base)) [
  | inl below ↦
      rw (sources_at-stop m ms a (ltb→lt _ _ below) o) (resolve_stop m ms a none (ltb→lt _ _ below))
  | inr reached ↦ elim (Bool-cases (contains m.range a)) [
    | inl c ↦
        (let (s, e, v, j) = source_at_backed n a m fits b.0 c in
          resolve_first n a m ms s c e v (resolve_from n a ms s fits b.1 o.1 j))
    | inr c ↦ rw (resolve_skip m ms a none reached c) (rw c (resolve_start n a ms fits b.1 o.1))
  ]
]

answer :
    (v : InitializedImageView) (a : ℕ) (g : Agreement)
    → Resolves (length v.image_bytes) a g (resolve v.intents a none)
    → Answers v.image_bytes a g (read_byte v a)
unfolding read_byte source_byte
answer v a no_source h = rw (h, read_byte)
answer v a (agreed (file_byte i)) (x, e, q, k) =
    let (b, found) = get_elem?-lt v.image_bytes i k in (b, ground (arith, found), found)
answer v a (agreed zero_byte) (x, e, q, k) = (0, ground arith, refl)
answer v a disagreed (e, h, c, d) = (e, rw (h, read_byte), c, d)

-- On a view, reading a byte answers what the intents that hold the address say: the file's byte or
-- zero if they agree, a conflict at that address if they do not, an unmapped address if there is
-- none. It never leaves the file, and stopping at the first intent above the address loses nothing.
pub read_byte-Answers :
    (v : InitializedImageView) (a : ℕ)
    → IsView v
    → Answers v.image_bytes a (agreement (sources_at v.intents a)) (read_byte v a)
read_byte-Answers v a h =
    answer v a (agreement (sources_at v.intents a))
      (resolve_start (length v.image_bytes) a v.intents h.fits h.backed h.ordered)
