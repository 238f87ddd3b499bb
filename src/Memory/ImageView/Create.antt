-- ===== src/Memory/ImageView/Create.antt =====
-- InitializedImageView::create: the invariant that every view has.
use mathlib.Core.List.{Perm}
use astraea.Prelude.{
  >>=-eq-success, ◌↔◌, ℕ, ◌+◌, ◌≤◌, ◌≡◌, refl, List, [], ◌∷◌, success, length, All, u64_max, arith,
}
use astraea.Prelude.Sorting.{sort, sort-All, sort-perm}
use astraea.Memory.Mapping.{
  MappingIntent, MappingBackingKind, file, zero_fill, anonymous, mapping_intent_less,
}
use astraea.Memory.Mapping.Overlaps.{InOrder, sort-InOrder}
use astraea.Memory.ImageView.{
  InitializedImageView, file_range_is_valid, validate_intent, validate_intents, create,
}

-- What one kind of backing owes the file.
abbrev pub KindBacked : ℕ → MappingIntent → MappingBackingKind → Type 0
KindBacked n m file = m.backing.file_offset + m.range.size ≤ n
KindBacked n m zero_fill = Unit
KindBacked n m anonymous = ⊥

-- An intent is backed over its whole range, by `n` bytes of a file or by zeros.
pub record IsBacked (n : ℕ) (m : MappingIntent) : Type 0 where
  pub whole : m.backing.byte_count ≡ m.range.size
  pub bytes : KindBacked n m m.backing.kind

pub record IsView (v : InitializedImageView) : Type 0 where
  pub fits : length v.image_bytes ≤ u64_max
  pub backed : All (IsBacked (length v.image_bytes)) v.intents
  pub ordered : InOrder v.intents

valid_of_kind :
    (m : MappingIntent) (n : ℕ) (k : MappingBackingKind)
    → m.backing.kind ≡ k
    → n ≤ u64_max
    → (validate_intent m n ≡ success tt)
      ↔ ((m.backing.byte_count ≡ m.range.size) × KindBacked n m k)
unfolding validate_intent file_range_is_valid
valid_of_kind m n file e hn = rw (e, validate_intent) (ground arith)
valid_of_kind m n zero_fill e hn = rw (e, validate_intent) (ground arith)
valid_of_kind m n anonymous e hn = rw (e, validate_intent) (ground arith)

-- The check of one intent passes exactly when the intent is backed by the file or by zeros.
pub validate_intent_iff :
    (m : MappingIntent) (n : ℕ) → n ≤ u64_max → (validate_intent m n ≡ success tt) ↔ IsBacked n m
validate_intent_iff m n hn =
    let e = valid_of_kind m n m.backing.kind refl hn in
    (λ h. record { whole = (e.0 h).0; bytes = (e.0 h).1 }, λ b. e.1 (b.whole, b.bytes))

validate_intents-success :
    (ms : List MappingIntent) (n : ℕ) {out : List MappingIntent}
    → n ≤ u64_max
    → validate_intents ms n ≡ success out
    → (out ≡ ms) × All (IsBacked n) ms
unfolding validate_intents
validate_intents-success [] n hn h = (ground arith, tt)
validate_intents-success (m ∷ ms) n hn h =
    let (u, e, h') = >>=-eq-success (validate_intent m n) _ h in
    let (rest, e', h'') = >>=-eq-success (validate_intents ms n) _ h' in
    let (same, backed) = validate_intents-success ms n hn e' in
    (cc, ((validate_intent_iff m n hn).0 e, backed))

validate_intents-All :
    (ms : List MappingIntent) (n : ℕ)
    → n ≤ u64_max
    → All (IsBacked n) ms
    → validate_intents ms n ≡ success ms
unfolding validate_intents
validate_intents-All [] n hn h = refl
validate_intents-All (m ∷ ms) n hn h =
    rw ((validate_intent_iff m n hn).1 h.0) (rw (validate_intents-All ms n hn h.1))

-- The view of intents that are all backed.
pub create_lem :
    (bytes : List ℕ) (ms : List MappingIntent)
    → length bytes ≤ u64_max
    → All (IsBacked (length bytes)) ms
    → create bytes ms
      ≡ success (record { image_bytes = bytes; intents = sort mapping_intent_less ms })
unfolding create
create_lem bytes ms hn h = rw (validate_intents-All ms (length bytes) hn h)

-- Over a file whose size fits 64 bits, a view is made exactly of intents that are all backed; it
-- keeps the file, and its intents are those that are given, rearranged into their order.
pub create_iff :
    (bytes : List ℕ) (ms : List MappingIntent)
    → length bytes ≤ u64_max
    → ((v : InitializedImageView) × (create bytes ms ≡ success v)
        × (v.image_bytes ≡ bytes)
        × Perm v.intents ms
        × InOrder v.intents
        × IsView v)
      ↔ All (IsBacked (length bytes)) ms
unfolding create
create_iff bytes ms hn = (λ (v, e, same, kept, ordered, valid). made v e, λ h. make h)
  where
    made :
        (v : InitializedImageView) → create bytes ms ≡ success v → All (IsBacked (length bytes)) ms
    made v e =
        let (out, e', h) = >>=-eq-success (validate_intents ms (length bytes)) _ e in
        (validate_intents-success ms (length bytes) hn e').1

    make :
        All (IsBacked (length bytes)) ms
        → (v : InitializedImageView) × (create bytes ms ≡ success v)
          × (v.image_bytes ≡ bytes)
          × Perm v.intents ms
          × InOrder v.intents
          × IsView v
    make h = (
      record { image_bytes = bytes; intents = sort mapping_intent_less ms },
      create_lem bytes ms hn h,
      refl,
      sort-perm mapping_intent_less ms,
      sort-InOrder ms,
      record {
        fits = hn;
        backed = sort-All mapping_intent_less (IsBacked (length bytes)) ms h;
        ordered = sort-InOrder ms;
      },
    )
