-- ===== src/Loader/SysvHash/Locate.antt =====
-- The search for the tag DT_HASH.
use mathlib.Core.Path.{subst}
use astraea.Prelude.{
  ==→ne, ◌≡◌, refl, sym, ◌≢◌, inl, inr, Option, none, some, List, [], ◌∷◌, ◌==◌, ==_iff, Bool-cases,
  All,
}
use astraea.Prelude.Attempts.{Ensures-both, Ensures}
use astraea.Loader.Dynamic.{DynamicEntry}
use astraea.Loader.DynamicMetadata.{SingletonValue}
use astraea.Loader.DynamicMetadata.First.{HasIndex, AgreesWith, IsFirst}
use astraea.Loader.SysvHash.{HashLocation, SysvHashError, next_hash, find_hash}

abbrev pub singleton : HashLocation → SingletonValue
singleton h = record { value = h.address; source_entry_index = h.source_entry_index }

-- The location is that of the first entry with the tag, with which all agree.
abbrev pub IsLocation : HashLocation → List DynamicEntry → Type 0
IsLocation h es = IsFirst 4 (singleton h) es × All (AgreesWith 4 h.address) es

abbrev pub FoundHash : List DynamicEntry → Option HashLocation → Type 0
FoundHash es none = All (λ e. e.tag ≢ 4) es
FoundHash es (some h) = IsLocation h es

abbrev KeptHash : HashLocation → List DynamicEntry → Option HashLocation → Type 0
KeptHash h es o = (o ≡ some h) × All (AgreesWith 4 h.address) es

-- The error names an entry of the table.
abbrev pub NamesIndex : List DynamicEntry → SysvHashError → Type 0
NamesIndex es x = HasIndex es x.source_entry_index

find_hash-some :
    (h : HashLocation) (es : List DynamicEntry)
    → Ensures (KeptHash h es) (NamesIndex es) (find_hash (some h) es)
unfolding find_hash next_hash
find_hash-some h [] = (refl, tt)
find_hash-some h (e ∷ es) =
    let both = λ (a : AgreesWith 4 h.address e).
      Ensures-both (KeptHash h es) (KeptHash h (e ∷ es)) (NamesIndex es) (NamesIndex (e ∷ es)) _
        (find_hash-some h es) (λ o k. (k.0, (a, k.1))) (λ x n. inr n) in
    elim (Bool-cases (e.tag == 4)) [
      | inl is ↦ elim (Bool-cases (h.address == e.value)) [
        | inl same ↦ rw (is, same) (both (inr (sym ((==_iff h.address e.value).0 same))))
        | inr differ ↦ rw (is, differ) (inl refl)
      ]
      | inr other ↦ rw other (both (inl (==→ne e.tag 4 other)))
    ]

pub find_hash-none :
    (es : List DynamicEntry) → Ensures (FoundHash es) (NamesIndex es) (find_hash none es)
unfolding find_hash next_hash
find_hash-none [] = tt
find_hash-none (e ∷ es) =
    let first : HashLocation = record { address = e.value; source_entry_index = e.index } in
    elim (Bool-cases (e.tag == 4)) [
      | inl is ↦ rw is (
          Ensures-both (KeptHash first es) (FoundHash (e ∷ es)) (NamesIndex es)
            (NamesIndex (e ∷ es)) _ (find_hash-some first es)
            (λ o k.
              subst (FoundHash (e ∷ es)) (sym k.0)
                (inl ((==_iff e.tag 4).0 is, refl), (inr refl, k.1)))
            (λ x n. inr n))
      | inr other ↦ rw other (
          Ensures-both (FoundHash es) (FoundHash (e ∷ es)) (NamesIndex es) (NamesIndex (e ∷ es)) _
            (find_hash-none es) (λ o f. skip o f (==→ne e.tag 4 other)) (λ x n. inr n))
    ]
  where
    skip : (o : Option HashLocation) → FoundHash es o → e.tag ≢ 4 → FoundHash (e ∷ es) o
    skip none f other = (other, f)
    skip (some h) f other = (inr (other, f.0), (inl other, f.1))
