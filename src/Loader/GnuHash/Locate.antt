-- ===== src/Loader/GnuHash/Locate.antt =====
-- The search for the tag DT_GNU_HASH.
use mathlib.Core.Path.{subst}
use astraea.Prelude.{
  ==→ne, ◌≡◌, refl, sym, ◌≢◌, inl, inr, Option, none, some, List, [], ◌∷◌, ◌==◌, ==_iff, Bool-cases,
  All,
}
use astraea.Prelude.Attempts.{Ensures-both, Ensures}
use astraea.Loader.Dynamic.{DynamicEntry}
use astraea.Loader.DynamicMetadata.{SingletonValue}
use astraea.Loader.DynamicMetadata.First.{HasIndex, AgreesWith, IsFirst}
use astraea.Loader.GnuHash.{HashLocation, GnuHashError, next_location, find_location}

abbrev pub singleton : HashLocation → SingletonValue
singleton h = record { value = h.address; source_entry_index = h.source_entry_index }

-- The location is that of the first entry with the tag, with which all agree.
abbrev pub IsLocation : HashLocation → List DynamicEntry → Type 0
IsLocation h es = IsFirst 1879047925 (singleton h) es × All (AgreesWith 1879047925 h.address) es

abbrev pub FoundTable : List DynamicEntry → Option HashLocation → Type 0
FoundTable es none = All (λ e. e.tag ≢ 1879047925) es
FoundTable es (some h) = IsLocation h es

abbrev KeptTable : HashLocation → List DynamicEntry → Option HashLocation → Type 0
KeptTable h es o = (o ≡ some h) × All (AgreesWith 1879047925 h.address) es

-- The error names an entry of the table.
abbrev pub NamesIndex : List DynamicEntry → GnuHashError → Type 0
NamesIndex es x = HasIndex es x.source_entry_index

find_location-some :
    (h : HashLocation) (es : List DynamicEntry)
    → Ensures (KeptTable h es) (NamesIndex es) (find_location (some h) es)
unfolding find_location next_location
find_location-some h [] = (refl, tt)
find_location-some h (e ∷ es) =
    let both = λ (a : AgreesWith 1879047925 h.address e).
      Ensures-both (KeptTable h es) (KeptTable h (e ∷ es)) (NamesIndex es) (NamesIndex (e ∷ es)) _
        (find_location-some h es) (λ o k. (k.0, (a, k.1))) (λ x n. inr n) in
    elim (Bool-cases (e.tag == 1879047925)) [
      | inl is ↦ elim (Bool-cases (h.address == e.value)) [
        | inl same ↦ rw (is, same) (both (inr (sym ((==_iff h.address e.value).0 same))))
        | inr differ ↦ rw (is, differ) (inl refl)
      ]
      | inr other ↦ rw other (both (inl (==→ne e.tag 1879047925 other)))
    ]

pub find_location-none :
    (es : List DynamicEntry) → Ensures (FoundTable es) (NamesIndex es) (find_location none es)
unfolding find_location next_location
find_location-none [] = tt
find_location-none (e ∷ es) =
    let first : HashLocation = record { address = e.value; source_entry_index = e.index } in
    elim (Bool-cases (e.tag == 1879047925)) [
      | inl is ↦ rw is (
          Ensures-both (KeptTable first es) (FoundTable (e ∷ es)) (NamesIndex es)
            (NamesIndex (e ∷ es)) _ (find_location-some first es)
            (λ o k.
              subst (FoundTable (e ∷ es)) (sym k.0)
                (inl ((==_iff e.tag 1879047925).0 is, refl), (inr refl, k.1)))
            (λ x n. inr n))
      | inr other ↦ rw other (
          Ensures-both (FoundTable es) (FoundTable (e ∷ es)) (NamesIndex es) (NamesIndex (e ∷ es)) _
            (find_location-none es) (λ o f. skip o f (==→ne e.tag 1879047925 other)) (λ x n. inr n))
    ]
  where
    skip : (o : Option HashLocation) → FoundTable es o → e.tag ≢ 1879047925 → FoundTable (e ∷ es) o
    skip none f other = (other, f)
    skip (some h) f other = (inr (other, f.0), (inl other, f.1))
