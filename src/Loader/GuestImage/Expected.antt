-- ===== src/Loader/GuestImage/Expected.antt =====
-- What the segments of an image say of an address, and what sorted mappings make of it.
use astraea.Prelude.{
  eq→==, ne→==, ℕ, ◌≡◌, refl, ap, ◌≢◌, inl, inr, true, false, Option, none, some, List, [], ◌∷◌,
  ◌++◌, arith, ◌==◌, if◌then◌else◌, ==_iff, Bool-cases, All, All-append, Any, success,
}
use astraea.Prelude.Sorting.{sort, sort-All, sort-Any}
use astraea.Loader.Headers.{ProgramHeader}
use astraea.Loader.Elf64.Parse.{IfLoad}
use astraea.Memory.Address.{contains}
use astraea.Memory.Mapping.{MappingIntent, mapping_intent_less}
use astraea.Memory.Mapping.Segments.{
  IsLoad, ByteSource, file_byte, zero_byte, backing_source, sources_at, segment_sources,
  load_intents, from_load, sources_at-load_intents,
}
use astraea.Memory.ImageView.Sources.{
  Agreement, no_source, agreed, disagreed, same_source, agree_with, agreement,
}
use astraea.Loader.GuestImage.{load_mappings}

abbrev first_of : List ByteSource → Option ByteSource → Option ByteSource
first_of [] rest = rest
first_of (s ∷ ss) rest = some s

-- The source of an address in the first segment to load that holds it.
abbrev pub segment_at : List ProgramHeader → ℕ → Option ByteSource
segment_at [] a = none
segment_at (h ∷ hs) a =
    let rest = segment_at hs a in if h.type == 1 then first_of (segment_sources h a) rest else rest

-- The intents of all the segments to load.
abbrev pub all_intents : List ProgramHeader → List MappingIntent
all_intents [] = []
all_intents (h ∷ hs) =
    let rest = all_intents hs in if h.type == 1 then load_intents h ++ rest else rest

pub load_mappings_lem :
    (hs : List ProgramHeader)
    → All (IfLoad IsLoad) hs
    → load_mappings hs ≡ some (success (all_intents hs))
unfolding load_mappings
load_mappings_lem [] l = refl
load_mappings_lem (h ∷ hs) (inl other, ls) =
    rw (load_mappings, ne→== h.type 1 other) (load_mappings_lem hs ls)
load_mappings_lem (h ∷ hs) (inr l, ls) =
    rw (load_mappings, eq→== h.type 1 l.load, from_load h l, load_mappings_lem hs ls) refl

-- A mapping that gives the address this source.
abbrev pub Gives : ℕ → ByteSource → MappingIntent → Type 0
Gives a s m = (contains m.range a ≡ true) × (backing_source m a ≡ s)

abbrev pub Elsewhere : ℕ → MappingIntent → Type 0
Elsewhere a m = contains m.range a ≡ false

-- What a list of mappings makes of an address is what is expected.
abbrev pub Meets : ℕ → Option ByteSource → List MappingIntent → Type 0
Meets a none ms = All (Elsewhere a) ms
Meets a (some s) ms = Any (Gives a s) ms

sources-Gives :
    (ms : List MappingIntent) (a : ℕ) (s : ByteSource) (ss : List ByteSource)
    → sources_at ms a ≡ s ∷ ss
    → Any (Gives a s) ms
sources-Gives [] a s ss e = cc
sources-Gives (m ∷ ms) a s ss e = elim (Bool-cases (contains m.range a)) [
  | inl c ↦ inl (c, ground arith)
  | inr c ↦ inr (sources-Gives ms a s ss (ground arith))
]

sources-Elsewhere : (ms : List MappingIntent) (a : ℕ) → sources_at ms a ≡ [] → All (Elsewhere a) ms
sources-Elsewhere [] a e = tt
sources-Elsewhere (m ∷ ms) a e = elim (Bool-cases (contains m.range a)) [
  | inl c ↦ ground arith
  | inr c ↦ (c, sources-Elsewhere ms a (ground arith))
]

Any-append-left :
    (P : MappingIntent → Type 0) (xs ys : List MappingIntent) → Any P xs → Any P (xs ++ ys)
Any-append-left P [] ys h = absurd h
Any-append-left P (x ∷ xs) ys (inl p) = inl p
Any-append-left P (x ∷ xs) ys (inr h) = inr (Any-append-left P xs ys h)

Any-append-right :
    (P : MappingIntent → Type 0) (xs ys : List MappingIntent) → Any P ys → Any P (xs ++ ys)
Any-append-right P [] ys h = h
Any-append-right P (x ∷ xs) ys h = inr (Any-append-right P xs ys h)

add_sources :
    (xs ms : List MappingIntent) (a : ℕ) (rest : Option ByteSource) (ss : List ByteSource)
    → sources_at xs a ≡ ss
    → Meets a rest ms
    → Meets a (first_of ss rest) (xs ++ ms)
add_sources xs ms a none [] e k = All-append (Elsewhere a) xs ms (sources-Elsewhere xs a e) k
add_sources xs ms a (some s) [] e k = Any-append-right (Gives a s) xs ms k
add_sources xs ms a rest (s ∷ ss) e k =
    Any-append-left (Gives a s) xs ms (sources-Gives xs a s ss e)

-- The intents of the segments say of every address what the segments do.
pub all_intents-Meets :
    (hs : List ProgramHeader) (a : ℕ)
    → All (IfLoad IsLoad) hs
    → Meets a (segment_at hs a) (all_intents hs)
all_intents-Meets [] a l = tt
all_intents-Meets (h ∷ hs) a (inl other, ls) = rw (ne→== h.type 1 other) (all_intents-Meets hs a ls)
all_intents-Meets (h ∷ hs) a (inr l, ls) = rw (eq→== h.type 1 l.load) (
    add_sources (load_intents h) (all_intents hs) a (segment_at hs a) (segment_sources h a)
      (sources_at-load_intents h a l) (all_intents-Meets hs a ls))

pub sort-Meets :
    (a : ℕ) (o : Option ByteSource) (ms : List MappingIntent)
    → Meets a o ms
    → Meets a o (sort mapping_intent_less ms)
sort-Meets a none ms h = sort-All mapping_intent_less (Elsewhere a) ms h
sort-Meets a (some s) ms h = sort-Any mapping_intent_less (Gives a s) ms h

abbrev pub agreement_of : Option ByteSource → Agreement
agreement_of none = no_source
agreement_of (some s) = agreed s

same_source-eq : (s t : ByteSource) → same_source s t ≡ true → s ≡ t
same_source-eq (file_byte i) (file_byte j) e = ap file_byte ((==_iff i j).0 e)
same_source-eq (file_byte i) zero_byte e = cc
same_source-eq zero_byte (file_byte j) e = cc
same_source-eq zero_byte zero_byte e = refl

agree_with-eq :
    (t : ByteSource) (ss : List ByteSource)
    → agree_with t ss ≢ disagreed
    → agree_with t ss ≡ agreed t
agree_with-eq t [] h = refl
agree_with-eq t (s ∷ ss) h = elim (Bool-cases (same_source t s)) [
  | inl e ↦ rw e (agree_with-eq t ss (rw e at h))
  | inr e ↦ absurd (h (rw e refl))
]

agree_with-Gives :
    (t s : ByteSource) (ms : List MappingIntent) (a : ℕ)
    → Any (Gives a s) ms
    → agree_with t (sources_at ms a) ≢ disagreed
    → t ≡ s
agree_with-Gives t s [] a g h = absurd g
agree_with-Gives t s (m ∷ ms) a (inl (c, e)) h = elim (Bool-cases (same_source t s)) [
  | inl q ↦ same_source-eq t s q
  | inr q ↦ absurd (h (rw c (rw e (rw q refl))))
]
agree_with-Gives t s (m ∷ ms) a (inr g) h = elim (Bool-cases (contains m.range a)) [
  | inl c ↦ elim (Bool-cases (same_source t (backing_source m a))) [
    | inl q ↦ agree_with-Gives t s ms a g (rw (c, q) at h)
    | inr q ↦ absurd (h (rw c (rw q refl)))
  ]
  | inr c ↦ agree_with-Gives t s ms a g (rw c at h)
]

-- Where the sources agree, they agree on what is expected.
pub agreement-Meets :
    (ms : List MappingIntent) (a : ℕ) (o : Option ByteSource)
    → Meets a o ms
    → agreement (sources_at ms a) ≢ disagreed
    → agreement (sources_at ms a) ≡ agreement_of o
agreement-Meets [] a none h agree = refl
agreement-Meets [] a (some s) h agree = absurd h
agreement-Meets (m ∷ ms) a none h agree = rw h.0 (agreement-Meets ms a none h.1 (rw h.0 at agree))
agreement-Meets (m ∷ ms) a (some s) (inl (c, e)) agree =
    rw (c, e) (agree_with-eq s (sources_at ms a) (rw (c, e) at agree))
agreement-Meets (m ∷ ms) a (some s) (inr g) agree = elim (Bool-cases (contains m.range a)) [
  | inl c ↦
      let h = rw c at agree in
      rw c (
        rw (agree_with-eq (backing_source m a) (sources_at ms a) h)
          (ap agreed (agree_with-Gives (backing_source m a) s ms a g h)))
  | inr c ↦ rw c (agreement-Meets ms a (some s) g (rw c at agree))
]
