-- ===== src/Loader/DynamicMetadata/Scan.antt =====
-- The loop over the dynamic table that build_dynamic_string_metadata starts with.
use mathlib.Core.Path.{subst}
use mathlib.Core.List.{append-nil, append_assoc}
use astraea.Prelude.{
  ==→ne, ℕ, ◌≡◌, refl, sym, ap, ◌∙◌, ◌≢◌, ◌⊎◌, inl, inr, Option, none, some, List, [], ◌∷◌, ◌++◌,
  arith, ◌==◌, if◌then◌else◌, ==_iff, Bool-cases, All,
}
use astraea.Prelude.Attempts.{Ensures-both, Ensures-failure, Ensures, Ensures->>=}
use astraea.Loader.Dynamic.{DynamicEntry}
use astraea.Loader.DynamicString.{DynamicStringRef}
use astraea.Loader.DynamicMetadata.First.{AgreesWith, HasIndex, IsFirst}
use astraea.Loader.DynamicMetadata.{
  SingletonValue, DynamicMetadataError, StringTags, singleton_of, merge_singleton, scan_entry,
  scan_entries,
}

-- The slot holds the entries with this tag: none of them, or the first one, with which all agree.
abbrev pub Holds : ℕ → List DynamicEntry → Option SingletonValue → Type 0
Holds tag es none = All (λ e. e.tag ≢ tag) es
Holds tag es (some s) = IsFirst tag s es × All (AgreesWith tag s.value) es

-- The slot after these entries, when it was `slot` before.
abbrev pub Becomes : ℕ → List DynamicEntry → Option SingletonValue → Option SingletonValue → Type 0
Becomes tag es none next = Holds tag es next
Becomes tag es (some s) next = (next ≡ some s) × All (AgreesWith tag s.value) es

abbrev Merged : DynamicEntry → Option SingletonValue → Option SingletonValue → Type 0
Merged e none next = next ≡ some (singleton_of e)
Merged e (some s) next = (s.value ≡ e.value) × (next ≡ some s)

-- The same for one entry.
abbrev Step : ℕ → DynamicEntry → Option SingletonValue → Option SingletonValue → Type 0
Step tag e slot next = ((e.tag ≢ tag) × (next ≡ slot)) ⊎ ((e.tag ≡ tag) × Merged e slot next)

Holds-skip :
    (tag : ℕ) (e : DynamicEntry) (es : List DynamicEntry) (next : Option SingletonValue)
    → e.tag ≢ tag
    → Holds tag es next
    → Holds tag (e ∷ es) next
Holds-skip tag e es none other h = (other, h)
Holds-skip tag e es (some s) other h = (inr (other, h.0), (inl other, h.1))

Step-Becomes :
    (tag : ℕ) (e : DynamicEntry) (es : List DynamicEntry) (slot mid next : Option SingletonValue)
    → Step tag e slot mid
    → Becomes tag es mid next
    → Becomes tag (e ∷ es) slot next
Step-Becomes tag e es none mid next (inl (other, same)) b =
    Holds-skip tag e es next other (subst (λ k. Becomes tag es k next) same b)
Step-Becomes tag e es (some s) mid next (inl (other, same)) b =
    let b' = subst (λ k. Becomes tag es k next) same b in (b'.0, (inl other, b'.1))
Step-Becomes tag e es none mid next (inr (is, m)) b =
    let b' = subst (λ k. Becomes tag es k next) m b in
    subst (Holds tag (e ∷ es)) (sym b'.0) (inl (is, refl), (inr refl, b'.1))
Step-Becomes tag e es (some s) mid next (inr (is, m)) b =
    let b' = subst (λ k. Becomes tag es k next) m.1 b in (b'.0, (inr (sym m.0), b'.1))

-- The references of the entries with the tag DT_NEEDED, in order.
abbrev pub needed_refs : List DynamicEntry → List DynamicStringRef
needed_refs [] = []
needed_refs (e ∷ es) =
    let rest = needed_refs es in
    if e.tag == 1 then record { offset = e.value; source_entry_index = e.index } ∷ rest else rest

-- The error names an entry of the table.
abbrev pub NamesEntry : List DynamicEntry → DynamicMetadataError → Type 0
NamesEntry es x = HasIndex es x.source_entry_index

record NextTags (tags : StringTags) (e : DynamicEntry) (next : StringTags) : Type 0 where
  strtab : Step 5 e tags.strtab next.strtab
  strsz : Step 10 e tags.strsz next.strsz
  soname : Step 14 e tags.soname next.soname
  needed : next.needed ≡ tags.needed ++ needed_refs (e ∷ [])

merge_singleton-Ensures :
    (slot : Option SingletonValue) (e : DynamicEntry)
    → Ensures (Merged e slot) (λ x. x.source_entry_index ≡ some e.index) (merge_singleton slot e)
unfolding merge_singleton
merge_singleton-Ensures none e = refl
merge_singleton-Ensures (some s) e = ground arith

scan_entry-Ensures :
    (tags : StringTags) (e : DynamicEntry)
    → Ensures (NextTags tags e) (λ x. x.source_entry_index ≡ some e.index) (scan_entry tags e)
unfolding scan_entry
scan_entry-Ensures tags e =
    let Q = λ (x : DynamicMetadataError). x.source_entry_index ≡ some e.index in
    elim (Bool-cases (e.tag == 1)) [
      | inl one ↦
          (let t = (==_iff e.tag 1).0 one in
            rw one (record {
              strtab = inl (omega (arith, t), refl);
              strsz = inl (omega (arith, t), refl);
              soname = inl (omega (arith, t), refl);
              needed = rw one refl;
            }))
      | inr n1 ↦ elim (Bool-cases (e.tag == 5)) [
        | inl five ↦
            (let t = (==_iff e.tag 5).0 five in
              rw (n1, five)
                (Ensures->>= (Merged e tags.strtab) Q (NextTags tags e) _ _
                  (merge_singleton-Ensures tags.strtab e)
                  (λ slot eq m. record {
                    strtab = inr (t, m);
                    strsz = inl (omega (arith, t), refl);
                    soname = inl (omega (arith, t), refl);
                    needed = rw n1 (sym (append-nil tags.needed));
                  })))
        | inr n5 ↦ elim (Bool-cases (e.tag == 10)) [
          | inl ten ↦
              (let t = (==_iff e.tag 10).0 ten in
                rw (n1, n5, ten)
                  (Ensures->>= (Merged e tags.strsz) Q (NextTags tags e) _ _
                    (merge_singleton-Ensures tags.strsz e)
                    (λ slot eq m. record {
                      strtab = inl (omega (arith, t), refl);
                      strsz = inr (t, m);
                      soname = inl (omega (arith, t), refl);
                      needed = rw n1 (sym (append-nil tags.needed));
                    })))
          | inr n10 ↦ elim (Bool-cases (e.tag == 14)) [
            | inl fourteen ↦
                (let t = (==_iff e.tag 14).0 fourteen in
                  rw (n1, n5, n10, fourteen)
                    (Ensures->>= (Merged e tags.soname) Q (NextTags tags e) _ _
                      (merge_singleton-Ensures tags.soname e)
                      (λ slot eq m. record {
                        strtab = inl (omega (arith, t), refl);
                        strsz = inl (omega (arith, t), refl);
                        soname = inr (t, m);
                        needed = rw n1 (sym (append-nil tags.needed));
                      })))
            | inr n14 ↦
                rw (n1, n5, n10, n14)
                  (record {
                    strtab = inl (==→ne e.tag 5 n5, refl);
                    strsz = inl (==→ne e.tag 10 n10, refl);
                    soname = inl (==→ne e.tag 14 n14, refl);
                    needed = rw n1 (sym (append-nil tags.needed));
                  })
          ]
        ]
      ]
    ]

-- What the loop makes of the entries.
pub record Scanned (tags : StringTags) (es : List DynamicEntry) (next : StringTags) : Type 0 where
  pub strtab : Becomes 5 es tags.strtab next.strtab
  pub strsz : Becomes 10 es tags.strsz next.strsz
  pub soname : Becomes 14 es tags.soname next.soname
  pub needed : next.needed ≡ tags.needed ++ needed_refs es

Becomes-nil : (tag : ℕ) (slot : Option SingletonValue) → Becomes tag [] slot slot
Becomes-nil tag none = tt
Becomes-nil tag (some s) = (refl, tt)

needed_refs-cons :
    (e : DynamicEntry) (es : List DynamicEntry)
    → needed_refs (e ∷ es) ≡ needed_refs (e ∷ []) ++ needed_refs es
needed_refs-cons e es = ground arith

pub scan_entries-Ensures :
    (tags : StringTags) (es : List DynamicEntry)
    → Ensures (Scanned tags es) (NamesEntry es) (scan_entries tags es)
unfolding scan_entries
scan_entries-Ensures tags [] = record {
  strtab = Becomes-nil 5 tags.strtab;
  strsz = Becomes-nil 10 tags.strsz;
  soname = Becomes-nil 14 tags.soname;
  needed = sym (append-nil tags.needed);
}
scan_entries-Ensures tags (e ∷ es) =
    let Q = NamesEntry (e ∷ es) in
    Ensures->>= (NextTags tags e) Q (Scanned tags (e ∷ es)) _ _
      (Ensures-failure (NextTags tags e) _ Q _ (scan_entry-Ensures tags e) (λ x n. inl n))
      (λ mid eq step.
        Ensures-both (Scanned mid es) (Scanned tags (e ∷ es)) (NamesEntry es) Q _
          (scan_entries-Ensures mid es)
          (λ next s. record {
            strtab = Step-Becomes 5 e es tags.strtab mid.strtab next.strtab step.strtab s.strtab;
            strsz = Step-Becomes 10 e es tags.strsz mid.strsz next.strsz step.strsz s.strsz;
            soname = Step-Becomes 14 e es tags.soname mid.soname next.soname step.soname s.soname;
            needed =
                s.needed
                ∙ (ap (λ l. l ++ needed_refs es) step.needed
                    ∙ (append_assoc tags.needed (needed_refs (e ∷ [])) (needed_refs es)
                        ∙ ap (λ l. tags.needed ++ l) (sym (needed_refs-cons e es))));
          })
          (λ x n. inr n))
