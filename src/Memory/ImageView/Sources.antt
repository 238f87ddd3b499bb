-- ===== src/Memory/ImageView/Sources.antt =====
-- The sources that an image view finds for an address, and what they come to.
use astraea.Memory.Address.Ranges.{contains_iff}
use astraea.Prelude.{
  ℕ, ◌+◌, ◌-◌, ◌≤◌, ◌<◌, ◌≡◌, refl, Bool, true, false, Option, some, List, [], ◌∷◌, Result, success,
  failure, get_elem?, All, ◌==◌, if◌then◌else◌, u64_max, arith,
}
use astraea.Memory.Address.{contains}
use astraea.Memory.Mapping.{
  MappingIntent, MappingBackingKind, file, zero_fill, anonymous, mapping_intent_less,
}
use astraea.Memory.Mapping.Segments.{ByteSource, file_byte, zero_byte, backing_source, sources_at}
use astraea.Memory.Mapping.Overlaps.{base_le}
use astraea.Memory.ImageView.{
  InitializedImageError, ResolvedSource, from_file, from_zero_fill, source_at, sources_match,
  make_error, unmapped_guest_address, mapping_overlap_conflict,
}
use astraea.Memory.ImageView.Create.{IsBacked, KindBacked}

-- What a list of sources comes to.
pub data Agreement : Type 0 where
  no_source : Agreement
  agreed : ByteSource → Agreement
  disagreed : Agreement

abbrev pub same_source : ByteSource → ByteSource → Bool
same_source (file_byte i) (file_byte j) = i == j
same_source (file_byte i) zero_byte = false
same_source zero_byte (file_byte j) = false
same_source zero_byte zero_byte = true

abbrev pub agree_with : ByteSource → List ByteSource → Agreement
agree_with s [] = agreed s
agree_with s (t ∷ ts) = let rest = agree_with s ts in if same_source s t then rest else disagreed

abbrev pub agreement : List ByteSource → Agreement
agreement [] = no_source
agreement (s ∷ ss) = agree_with s ss

-- The byte that a source stands for: a byte of the file, if the file has it, or zero.
abbrev pub byte_of : List ℕ → ByteSource → Option ℕ
byte_of bytes (file_byte i) = get_elem? bytes i
byte_of bytes zero_byte = some 0

abbrev pub view_source : ResolvedSource → ByteSource
view_source r = elim r.kind [ from_file ↦ file_byte r.file_offset | from_zero_fill ↦ zero_byte ]

-- The answer that an agreement calls for.
abbrev pub Answers : List ℕ → ℕ → Agreement → Option (Result ℕ InitializedImageError) → Type 0
Answers bytes a no_source r = r ≡ some (failure (make_error unmapped_guest_address a))
Answers bytes a (agreed s) r = (b : ℕ) × (r ≡ some (success b)) × (byte_of bytes s ≡ some b)
Answers bytes a disagreed r =
    (e : InitializedImageError) × (r ≡ some (failure e))
    × (e.code ≡ mapping_overlap_conflict)
    × (e.guest_address ≡ some a)

-- The source of a backed intent, with no overflow, and inside the file.
abbrev pub InFile : ℕ → ByteSource → Type 0
InFile n (file_byte i) = i < n
InFile n zero_byte = Unit

source_at_kind :
    (n a : ℕ) (m : MappingIntent) (k : MappingBackingKind)
    → m.backing.kind ≡ k
    → n ≤ u64_max
    → KindBacked n m k
    → contains m.range a ≡ true
    → (r : ResolvedSource) × (source_at m a ≡ success r)
      × (view_source r ≡ backing_source m a)
      × InFile n (view_source r)
unfolding source_at contains
source_at_kind n a m file e fits b c = (
  record {
    kind = from_file;
    file_offset = m.backing.file_offset + (a - m.range.base);
    source_index = m.source_index;
  },
  ground arith,
  rw e,
  ground arith,
)
source_at_kind n a m zero_fill e fits b c = (
  record { kind = from_zero_fill; file_offset = 0; source_index = m.source_index },
  rw (e, source_at),
  rw e,
  tt,
)
source_at_kind n a m anonymous e fits b c = absurd b

pub source_at_backed :
    (n a : ℕ) (m : MappingIntent)
    → n ≤ u64_max
    → IsBacked n m
    → contains m.range a ≡ true
    → (r : ResolvedSource) × (source_at m a ≡ success r)
      × (view_source r ≡ backing_source m a)
      × InFile n (view_source r)
source_at_backed n a m fits b c = source_at_kind n a m m.backing.kind refl fits b.bytes c

-- Above the address there is nothing to find.
pub sources_at-above :
    (ms : List MappingIntent) (x : MappingIntent) (a : ℕ)
    → a < x.range.base
    → All (λ y. mapping_intent_less y x ≡ false) ms
    → sources_at ms a ≡ []
sources_at-above [] x a h k = refl
sources_at-above (m ∷ ms) x a h k =
    ground (arith, base_le x m k.0, contains_iff m.range a, sources_at-above ms x a h k.1)

pub sources_match_iff :
    (r c : ResolvedSource) → sources_match r c ≡ same_source (view_source r) (view_source c)
unfolding sources_match
sources_match_iff r c = ground arith
