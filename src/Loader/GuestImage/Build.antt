-- ===== src/Loader/GuestImage/Build.antt =====
-- build_guest_image_impl up to the view: the mapped image of a file is what its segments say.
use mathlib.Core.Path.{subst}
use astraea.Prelude.{
  eq→==, ne→==, ℕ, ◌≤◌, ◌≡◌, refl, inl, inr, false, Option, none, some, List, [], ◌∷◌, arith,
  u64_max, length, All, All-append, success,
}
use astraea.Prelude.Attempts.{Ensures-failure, Ensures, Ensures->>=}
use astraea.Prelude.LittleEndian.{AllBytes}
use astraea.Prelude.Sorting.{sort, sort-All, sort_lem}
use astraea.Loader.Headers.{ProgramHeader, ElfImage}
use astraea.Loader.Elf64.{ElfParseProfile, parse_elf64}
use astraea.Loader.Elf64.Checks.{IsSegment}
use astraea.Loader.Elf64.Parse.{IfLoad, IsElf}
use astraea.Memory.Address.{GuestRange, overlaps}
use astraea.Memory.Mapping.{MappingIntent, mapping_intent_less}
use astraea.Memory.Mapping.Segments.{sources_at, ByteSource, IsLoad, load_intents}
use astraea.Memory.Mapping.Overlaps.{sort-InOrder, InOrder}
use astraea.Memory.ImageView.{InitializedImageView, read_byte, create}
use astraea.Memory.ImageView.Create.{create_lem, IsBacked, IsView}
use astraea.Memory.ImageView.Sources.{Answers, agreement}
use astraea.Memory.ImageView.Read.{read_byte-Answers}
use astraea.Loader.GuestImage.Errors.{
  IsUnparsed, IsConflict, IsStackOverlap, IsFileError, check_conflict-Ensures, check_stack-Ensures,
  parse_image-Ensures,
}
use astraea.Loader.GuestImage.{
  GuestImageError, MappedImage, create_view, build_mapped_image, first_mapping_conflict,
}
use astraea.Loader.GuestImage.Conflicts.{first_mapping_conflict-agreement}
use astraea.Loader.GuestImage.Expected.{
  segment_at, all_intents, load_mappings_lem, all_intents-Meets, sort-Meets, agreement-Meets,
  agreement_of,
}

pub record IsMapped (bytes : List ℕ) (profile : ElfParseProfile) (storage : GuestRange)
    (r : MappedImage) : Type 0 where
  pub elf : IsElf bytes profile r.elf
  pub view : IsView r.view
  pub view_bytes : r.view.image_bytes ≡ bytes
  pub view_intents : r.view.intents ≡ r.mappings
  pub mappings : r.mappings ≡ sort mapping_intent_less (all_intents r.elf.program_headers)
  pub apart : All (λ m. overlaps storage m.range ≡ false) r.mappings
  pub answers :
      (a : ℕ)
      → Answers bytes a (agreement_of (segment_at r.elf.program_headers a)) (read_byte r.view a)

segments-IsLoad :
    (n : ℕ) (hs : List ProgramHeader) → All (IfLoad (IsSegment n)) hs → All (IfLoad IsLoad) hs
segments-IsLoad n [] s = tt
segments-IsLoad n (h ∷ hs) (inl other, ss) = (inl other, segments-IsLoad n hs ss)
segments-IsLoad n (h ∷ hs) (inr s, ss) = (inr s.load, segments-IsLoad n hs ss)

load_intents-IsBacked :
    (n : ℕ) (h : ProgramHeader) → IsSegment n h → All (IsBacked n) (load_intents h)
load_intents-IsBacked n h s = ground arith

all_intents-IsBacked :
    (n : ℕ) (hs : List ProgramHeader)
    → All (IfLoad (IsSegment n)) hs
    → All (IsBacked n) (all_intents hs)
all_intents-IsBacked n [] s = tt
all_intents-IsBacked n (h ∷ hs) (inl other, ss) =
    rw (ne→== h.type 1 other) (all_intents-IsBacked n hs ss)
all_intents-IsBacked n (h ∷ hs) (inr s, ss) = rw (eq→== h.type 1 s.load.load) (
    All-append (IsBacked n) (load_intents h) (all_intents hs) (load_intents-IsBacked n h s)
      (all_intents-IsBacked n hs ss))

abbrev ViewOf : List ℕ → List MappingIntent → InitializedImageView → Type 0
ViewOf bytes ms v = IsView v × (v.image_bytes ≡ bytes) × (v.intents ≡ ms)

create_view-Ensures :
    (Q : GuestImageError → Type 0) (bytes : List ℕ) (ms : List MappingIntent)
    → length bytes ≤ u64_max
    → All (IsBacked (length bytes)) ms
    → InOrder ms
    → Ensures (ViewOf bytes ms) Q (create_view bytes ms)
unfolding create_view
create_view-Ensures Q bytes ms small backed order =
    let same : create bytes ms ≡ success (record { image_bytes = bytes; intents = ms }) =
      subst (λ l. create bytes ms ≡ success (record { image_bytes = bytes; intents = l }))
        (sort_lem mapping_intent_less ms order) (create_lem bytes ms small backed) in
    rw (create_view, same) (record { fits = small; backed = backed; ordered = order }, refl, refl)

ViewOf-Answers :
    (bytes : List ℕ) (ms : List MappingIntent) (v : InitializedImageView) (a : ℕ)
    (o : Option ByteSource)
    → ViewOf bytes ms v
    → agreement (sources_at ms a) ≡ agreement_of o
    → Answers bytes a (agreement_of o) (read_byte v a)
ViewOf-Answers bytes ms v a o (valid, same_bytes, same_intents) e =
    let found =
      subst (λ l. Answers v.image_bytes a (agreement (sources_at l a)) (read_byte v a)) same_intents
        (read_byte-Answers v a valid) in
    let here =
      subst (λ bs. Answers bs a (agreement (sources_at ms a)) (read_byte v a)) same_bytes found in
    subst (λ g. Answers bytes a g (read_byte v a)) e here

-- Over a list of bytes with a 64-bit length, building a guest image up to its view stays inside the
-- file. When it fails, either parse_elf64 does and the error holds its error, or the file parses
-- and the error names two mappings that give one address different sources, or a mapping that
-- shares an address with the stack's storage. When it succeeds, the view over the file has the
-- sorted mappings, which are apart from the stack's storage; and reading any address gives the
-- byte that the first PT_LOAD segment around it says, of the file or zero, and says unmapped where
-- there is no such segment, with no conflict anywhere.
pub build_mapped_image_lem :
    (bytes : List ℕ) (profile : ElfParseProfile) (storage : GuestRange)
    → AllBytes bytes
    → length bytes ≤ u64_max
    → Ensures
        (IsMapped bytes profile storage)
        (IsFileError bytes profile storage)
        (build_mapped_image bytes profile storage)
unfolding build_mapped_image
build_mapped_image_lem bytes profile storage ab small =
    let R = IsMapped bytes profile storage in
    let Q = IsFileError bytes profile storage in
    let Parsed = λ (elf : ElfImage).
      IsElf bytes profile elf × (parse_elf64 bytes profile ≡ some (success elf)) in
    Ensures->>= Parsed Q R _ _
      (Ensures-failure Parsed (IsUnparsed bytes profile) Q _
        (parse_image-Ensures bytes profile ab small) (λ x u. inl u))
      (λ elf e0 (is_elf, parsed).
        let hs = elf.program_headers in
        let loads = segments-IsLoad (length bytes) hs is_elf.table.segments in
        let ms = sort mapping_intent_less (all_intents hs) in
        let order = sort-InOrder (all_intents hs) in
        let intents_backed = all_intents-IsBacked (length bytes) hs is_elf.table.segments in
        let backed =
          sort-All mapping_intent_less (IsBacked (length bytes)) (all_intents hs) intents_backed in
        let Free = λ (_ : Unit {0}). first_mapping_conflict ms ≡ none in
        let Apart = λ (_ : Unit {0}). All (λ m. overlaps storage m.range ≡ false) ms in
        rw (load_mappings_lem hs loads) (
          Ensures->>= Free Q R _ _
            (Ensures-failure Free (IsConflict (all_intents hs)) Q _
              (check_conflict-Ensures (length bytes) (all_intents hs) small intents_backed)
              (λ x c. inr (elf, parsed, inl c)))
            (λ u e1 free.
              Ensures->>= Apart Q R _ _
                (Ensures-failure Apart (IsStackOverlap storage (all_intents hs)) Q _
                  (check_stack-Ensures storage (all_intents hs)) (λ x o. inr (elf, parsed, inr o)))
                (λ u' e2 apart.
                  Ensures->>= (ViewOf bytes ms) Q R _ _
                    (create_view-Ensures Q bytes ms small backed order)
                    (λ v e3 view. record {
                      elf = is_elf;
                      view = view.0;
                      view_bytes = view.1;
                      view_intents = view.2;
                      mappings = refl;
                      apart = apart;
                      answers = λ a. ViewOf-Answers bytes ms v a (segment_at hs a) view (
                          agreement-Meets ms a (segment_at hs a)
                            (sort-Meets a (segment_at hs a) (all_intents hs)
                              (all_intents-Meets hs a loads))
                            (first_mapping_conflict-agreement ms a free order));
                    })))))
