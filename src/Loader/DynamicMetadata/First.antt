-- ===== src/Loader/DynamicMetadata/First.antt =====
-- The entries of the dynamic table with one tag, and the first of them.
use mathlib.Core.Path.{subst}
use astraea.Prelude.{
  ℕ, ◌≤◌, ◌≡◌, ◌≢◌, ◌⊎◌, inl, inr, sym, ap, Option, some, List, [], ◌∷◌, u64_max, All, Any,
}
use astraea.Loader.Dynamic.{DynamicEntry}
use astraea.Loader.DynamicMetadata.{SingletonValue, singleton_of}

-- An entry with this tag has this value.
abbrev pub AgreesWith : ℕ → ℕ → DynamicEntry → Type 0
AgreesWith tag value e = (e.tag ≢ tag) ⊎ (e.value ≡ value)

-- The index is that of an entry of the table.
abbrev pub HasIndex : List DynamicEntry → Option ℕ → Type 0
HasIndex es i = Any (λ e. i ≡ some e.index) es

-- The value and the index are those of the first entry with the tag.
abbrev pub IsFirst : ℕ → SingletonValue → List DynamicEntry → Type 0
IsFirst tag s [] = ⊥
IsFirst tag s (e ∷ es) = ((e.tag ≡ tag) × (singleton_of e ≡ s)) ⊎ ((e.tag ≢ tag) × IsFirst tag s es)

pub IsFirst-HasIndex :
    (tag : ℕ) (s : SingletonValue) (es : List DynamicEntry)
    → IsFirst tag s es
    → HasIndex es (some s.source_entry_index)
IsFirst-HasIndex tag s [] a = absurd a
IsFirst-HasIndex tag s (e ∷ es) (inl (t, same)) =
    inl (ap (λ v. some (v.source_entry_index)) (sym same))
IsFirst-HasIndex tag s (e ∷ es) (inr (other, a)) = inr (IsFirst-HasIndex tag s es a)

pub IsFirst-le :
    (tag : ℕ) (s : SingletonValue) (es : List DynamicEntry)
    → All (λ e. e.value ≤ u64_max) es
    → IsFirst tag s es
    → s.value ≤ u64_max
IsFirst-le tag s [] small a = absurd a
IsFirst-le tag s (e ∷ es) small (inl (t, same)) = subst (λ v. v.value ≤ u64_max) same small.0
IsFirst-le tag s (e ∷ es) small (inr (other, a)) = IsFirst-le tag s es small.1 a
