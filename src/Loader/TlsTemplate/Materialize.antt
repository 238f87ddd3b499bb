-- ===== src/Loader/TlsTemplate/Materialize.antt =====
-- The TLS template of an image: from the program headers to the bytes.
use mathlib.Core.Path.{subst}
use astraea.Prelude.{
  ==→ne, drop_step, ℕ, zero, suc, ◌+◌, ◌-◌, ◌≤◌, ◌≡◌, refl, sym, ap, ◌∙◌, ◌≢◌, ◌⊎◌, inl, inr,
  Option, none, some, List, [], ◌∷◌, ◌++◌, arith, ltb, ◌==◌, u64_max, ==_iff, Bool-cases, length,
  take, drop, get_elem?-lt, All, Any, success,
}
use astraea.Prelude.Attempts.{
  Ensures-failure, bind_assoc, Ensures-both, ◌>>=◌, Ensures, Ensures->>=, Ensures-check,
}
use astraea.Prelude.Stores.{zeros, zeros-add, store_lem, snoc, length-snoc}
use astraea.Loader.Headers.{ProgramHeader}
use astraea.Loader.TlsTemplate.{
  TlsTemplateError, check_file_range, next_tls, find_tls, descriptor_of, check_tls, describe,
  build_tls_template_descriptor, copy_image, materialize_tls_template, materialize_tls,
}

-- The loop leaves the bytes of the image in place of the zeros.
copy_image_lem :
    (image : List ℕ) (source rounds : ℕ) (pre post : List ℕ)
    → source + length pre + rounds ≤ length image
    → copy_image image source (pre ++ (zeros rounds ++ post)) (length pre) rounds
      ≡ some (success (pre ++ (take rounds (drop (source + length pre) image) ++ post)))
unfolding copy_image
copy_image_lem image source zero pre post fits = refl
copy_image_lem image source (suc rounds) pre post fits =
    let at = source + length pre in
    let (b, here) = get_elem?-lt image at (omega (arith, fits)) in
    let size = length-snoc pre b in
    let next : source + (length pre + 1) ≡ suc at = omega arith in
    let ih =
      copy_image_lem image source rounds (pre ++ (b ∷ [])) post (omega (arith, size, fits)) in
    let rest = take rounds (drop (suc at) image) ++ post in
    let ih' = rw (size, next, snoc pre (zeros rounds ++ post) b, snoc pre rest b) at ih in
    rw (copy_image, here, store_lem pre (zeros rounds ++ post) 0 b, drop_step image at here) ih'

abbrev Other : ProgramHeader → Type 0
Other h = h.type ≢ 7

-- The header is the only one of type PT_TLS.
abbrev pub OnlyTls : ProgramHeader → List ProgramHeader → Type 0
OnlyTls tls [] = ⊥
OnlyTls tls (h ∷ hs) = ((h ≡ tls) × (h.type ≡ 7) × All Other hs) ⊎ (Other h × OnlyTls tls hs)

-- The error names a header of type PT_TLS.
abbrev pub NamesTls : List ProgramHeader → TlsTemplateError → Type 0
NamesTls hs e = Any (λ h. (h.type ≡ 7) × (e.source_program_header_index ≡ some h.index)) hs

abbrev Kept : ProgramHeader → List ProgramHeader → Option ProgramHeader → Type 0
Kept tls hs o = (o ≡ some tls) × All Other hs

abbrev FoundTls : List ProgramHeader → Option ProgramHeader → Type 0
FoundTls hs none = All Other hs
FoundTls hs (some tls) = OnlyTls tls hs

find_tls-some :
    (tls : ProgramHeader) (hs : List ProgramHeader)
    → Ensures (Kept tls hs) (NamesTls hs) (find_tls hs (some tls))
unfolding find_tls next_tls
find_tls-some tls [] = (refl, tt)
find_tls-some tls (h ∷ hs) = elim (Bool-cases (h.type == 7)) [
  | inl e ↦ rw e (inl ((==_iff h.type 7).0 e, refl))
  | inr e ↦ rw e (
      Ensures-both (Kept tls hs) (Kept tls (h ∷ hs)) (NamesTls hs) (NamesTls (h ∷ hs)) _
        (find_tls-some tls hs) (λ o k. (k.0, (==→ne h.type 7 e, k.1))) (λ x n. inr n))
]

find_tls-none : (hs : List ProgramHeader) → Ensures (FoundTls hs) (NamesTls hs) (find_tls hs none)
unfolding find_tls next_tls
find_tls-none [] = tt
find_tls-none (h ∷ hs) = elim (Bool-cases (h.type == 7)) [
  | inl e ↦ rw e (
      Ensures-both (Kept h hs) (FoundTls (h ∷ hs)) (NamesTls hs) (NamesTls (h ∷ hs)) _
        (find_tls-some h hs)
        (λ o k. subst (FoundTls (h ∷ hs)) (sym k.0) (inl (refl, (==_iff h.type 7).0 e, k.1)))
        (λ x n. inr n))
  | inr e ↦ rw e (
      Ensures-both (FoundTls hs) (FoundTls (h ∷ hs)) (NamesTls hs) (NamesTls (h ∷ hs)) _
        (find_tls-none hs) (λ o f. skip o f (==→ne h.type 7 e)) (λ x n. inr n))
]
  where
    skip : (o : Option ProgramHeader) → FoundTls hs o → Other h → FoundTls (h ∷ hs) o
    skip none f other = (other, f)
    skip (some tls) f other = inr (other, f)

OnlyTls-Any :
    (tls : ProgramHeader) (hs : List ProgramHeader)
    → OnlyTls tls hs
    → Any (λ h. (h.type ≡ 7) × (h.index ≡ tls.index)) hs
OnlyTls-Any tls [] o = absurd o
OnlyTls-Any tls (h ∷ hs) (inl (same, type, others)) = inl (type, ap (λ k. k.index) same)
OnlyTls-Any tls (h ∷ hs) (inr (other, o)) = inr (OnlyTls-Any tls hs o)

Any-NamesTls :
    (tls : ProgramHeader) (hs : List ProgramHeader) (e : TlsTemplateError)
    → e.source_program_header_index ≡ some tls.index
    → Any (λ h. (h.type ≡ 7) × (h.index ≡ tls.index)) hs
    → NamesTls hs e
Any-NamesTls tls [] e s h = absurd h
Any-NamesTls tls (h ∷ hs) e s (inl (type, index)) = inl (type, s ∙ ap some (sym index))
Any-NamesTls tls (h ∷ hs) e s (inr a) = inr (Any-NamesTls tls hs e s a)

-- The template's file part is inside the file, and not larger than the template.
pub record FitsFile (image : List ℕ) (tls : ProgramHeader) : Type 0 where
  pub flags : tls.flags ≡ 4
  pub sizes : tls.file_size ≤ tls.memory_size
  pub file : (tls.file_size ≡ 0) ⊎ (tls.offset + tls.file_size ≤ length image)

abbrev Named : ProgramHeader → TlsTemplateError → Type 0
Named tls e = e.source_program_header_index ≡ some tls.index

check_tls-Ensures :
    (tls : ProgramHeader) (image : List ℕ)
    → length image ≤ u64_max
    → Ensures (λ _. FitsFile image tls) (Named tls) (check_tls tls (length image))
unfolding check_tls check_file_range
check_tls-Ensures tls image small = ground arith

-- The bytes of a template: its part of the file, then zeros.
abbrev pub template_bytes : List ℕ → ProgramHeader → List ℕ
template_bytes image tls =
    take tls.file_size (drop tls.offset image) ++ zeros (tls.memory_size - tls.file_size)

copied :
    (image : List ℕ) (source total size : ℕ)
    → size ≤ total
    → (size ≡ 0) ⊎ (source + size ≤ length image)
    → copy_image image source (zeros total) 0 size
      ≡ some (success (take size (drop source image) ++ zeros (total - size)))
unfolding copy_image
copied image source total size fits (inl none_left) =
    let all : total - 0 ≡ total = omega arith in rw none_left (rw all refl)
copied image source total size fits (inr inside) =
    let split : zeros total ≡ zeros size ++ zeros (total - size) =
      ap zeros (omega (arith, fits)) ∙ zeros-add size (total - size) in
    let start : source + 0 ≡ source = omega arith in
    rw split (
      rw start at
        (copy_image_lem image source size [] (zeros (total - size)) (omega (arith, inside))))

check_file_range-Ensures :
    (tls : ProgramHeader) (image : List ℕ)
    → Ensures
        (λ _. Unit {0})
        (Named tls)
        (check_file_range tls.offset tls.file_size (length image) tls.index)
unfolding check_file_range
check_file_range-Ensures tls image = ground arith

materialize-Ensures :
    (max_size : ℕ) (tls : ProgramHeader) (image : List ℕ)
    → length image ≤ u64_max
    → FitsFile image tls
    → Ensures
        (λ bytes. bytes ≡ template_bytes image tls)
        (Named tls)
        (materialize_tls_template max_size (descriptor_of tls) image)
unfolding materialize_tls_template check_file_range
materialize-Ensures max_size tls image small f =
    let P = λ (bytes : List ℕ). bytes ≡ template_bytes image tls in
    let Q = Named tls in
    Ensures-check P Q (ltb tls.memory_size tls.file_size) _ _ refl (λ sizes.
      Ensures->>= (λ _. Unit {0}) Q P
        (check_file_range tls.offset tls.file_size (length image) tls.index) _
        (check_file_range-Ensures tls image)
        (λ u e u'.
          Ensures-check P Q (ltb max_size tls.memory_size) _ _ refl (λ room.
            rw (copied image tls.offset tls.memory_size tls.file_size f.sizes f.file) refl)))

-- What the two calls make of an image: nothing where no header is PT_TLS, and otherwise the bytes of
-- the only one.
abbrev pub IsTls : List ProgramHeader → List ℕ → Option (List ℕ) → Type 0
IsTls hs image none = All Other hs
IsTls hs image (some bytes) =
    (tls : ProgramHeader) × OnlyTls tls hs × FitsFile image tls × (bytes ≡ template_bytes image tls)

described :
    (max_size : ℕ) (hs : List ProgramHeader) (image : List ℕ) (o : Option ProgramHeader)
    → length image ≤ u64_max
    → FoundTls hs o
    → Ensures
        (IsTls hs image)
        (NamesTls hs)
        (describe o (length image) >>= λ d. materialize_tls max_size d image)
unfolding materialize_tls
described max_size hs image none small f = f
described max_size hs image (some tls) small f =
    let P = IsTls hs image in
    let Q = NamesTls hs in
    let names =
      λ (e : TlsTemplateError) (n : Named tls e). Any-NamesTls tls hs e n (OnlyTls-Any tls hs f) in
    let bytes =
      Ensures-both (λ bs. bs ≡ template_bytes image tls) (λ bs. bs ≡ template_bytes image tls)
        (Named tls) Q (materialize_tls_template max_size (descriptor_of tls) image) in
    rw
      (bind_assoc (check_tls tls (length image)) (λ _. some (success (some (descriptor_of tls))))
        (λ d. materialize_tls max_size d image))
      (Ensures->>= (λ _. FitsFile image tls) Q P _ _
        (Ensures-failure (λ _. FitsFile image tls) (Named tls) Q _
          (check_tls-Ensures tls image small) names)
        (λ u e fits.
          Ensures->>= (λ bs. bs ≡ template_bytes image tls) Q P _ _
            (bytes (materialize-Ensures max_size tls image small fits) (λ bs b. b) names)
            (λ bs e' same. (tls, f, fits, same))))

-- Over an image with a 64-bit length, describing the TLS template and materializing it stay inside
-- the image and the template. Where no program header is PT_TLS there is no template. Otherwise a
-- success means that there is one such header, readable only, whose file part lies in the image and
-- is not larger than its memory size, and gives that part followed by zeros up to the memory size.
-- Every error names a header of type PT_TLS.
pub materialize_tls_lem :
    (max_size : ℕ) (program_headers : List ProgramHeader) (image : List ℕ)
    → length image ≤ u64_max
    → Ensures (IsTls program_headers image) (NamesTls program_headers) (
        build_tls_template_descriptor program_headers image >>= λ d.
        materialize_tls max_size d image)
unfolding build_tls_template_descriptor
materialize_tls_lem max_size hs image small =
    rw
      (bind_assoc (find_tls hs none) (λ o. describe o (length image))
        (λ d. materialize_tls max_size d image))
      (Ensures->>= (FoundTls hs) (NamesTls hs) (IsTls hs image) _ _ (find_tls-none hs)
        (λ o e f. described max_size hs image o small f))
