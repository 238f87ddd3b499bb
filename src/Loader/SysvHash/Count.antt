-- ===== src/Loader/SysvHash/Count.antt =====
-- What the header of DT_HASH says.
use mathlib.Core.Path.{subst}
use astraea.Prelude.{
  ==→ne, ℕ, ◌≤◌, ◌≡◌, refl, sym, ◌∙◌, ◌≢◌, inl, inr, Option, none, some, List, [], ◌∷◌, arith, ◌==◌,
  u64_max, length, All,
}
use astraea.Prelude.Attempts.{Ensures-failure, Ensures, Ensures->>=, Ensures-check}
use astraea.Prelude.LittleEndian.{read_little_endian, read_little_endian-some}
use astraea.Memory.Address.{GuestRange, IsRange}
use astraea.Memory.Address.Ranges.{create_total}
use astraea.Memory.ImageView.{InitializedImageView, copy_bytes}
use astraea.Memory.ImageView.Create.{IsView}
use astraea.Memory.ImageView.Totality.{copy_bytes_total}
use astraea.Memory.ImageView.Copy.{Reads}
use astraea.Loader.Dynamic.{DynamicEntry, DynamicTable}
use astraea.Loader.DynamicMetadata.First.{HasIndex, IsFirst-HasIndex, IsFirst-le}
use astraea.Loader.SysvHash.{
  HashLocation, SysvHashError, SysvHashCountEvidence, hash_range, or_unreadable, read_counts,
  counts_of, build_sysv_hash_count_evidence,
}
use astraea.Loader.SysvHash.Locate.{singleton, IsLocation, FoundHash, NamesIndex, find_hash-none}

-- The eight bytes of the header are in the image, and give these counts.
abbrev pub HasCounts : InitializedImageView → SysvHashCountEvidence → Type 0
HasCounts view x =
    (header : List ℕ) × (length header ≡ 8)
    × Reads view x.hash_address header
    × (read_little_endian header 0 4 ≡ some x.bucket_count)
    × (read_little_endian header 4 4 ≡ some x.symbol_count)
    × (x.symbol_count ≢ 0)

abbrev location_of : SysvHashCountEvidence → HashLocation
location_of x = record { address = x.hash_address; source_entry_index = x.source_entry_index }

abbrev IsEvidence : InitializedImageView → HashLocation → SysvHashCountEvidence → Type 0
IsEvidence view h x = (location_of x ≡ h) × HasCounts view x

abbrev OfHash : HashLocation → SysvHashError → Type 0
OfHash h x = x.source_entry_index ≡ some h.source_entry_index

abbrev HeaderRange : HashLocation → GuestRange → Type 0
HeaderRange h range = (range.base ≡ h.address) × (range.size ≡ 8) × IsRange range

abbrev IsHeader : InitializedImageView → HashLocation → List ℕ → Type 0
IsHeader view h header = (length header ≡ 8) × Reads view h.address header

hash_range-Ensures :
    (h : HashLocation) → h.address ≤ u64_max → Ensures (HeaderRange h) (OfHash h) (hash_range h)
hash_range-Ensures h small = elim (create_total h.address 8 small (omega arith)) [
  | inl (range, made, valid, base, size) ↦ rw (Ensures, made) (base, size, valid)
  | inr (refused, over) ↦ rw (Ensures, refused) refl
]

or_unreadable-Ensures :
    (view : InitializedImageView) (h : HashLocation) (range : GuestRange)
    → IsView view
    → HeaderRange h range
    → Ensures
        (IsHeader view h)
        (OfHash h)
        (or_unreadable h (copy_bytes view range (0 ∷ 0 ∷ 0 ∷ 0 ∷ 0 ∷ 0 ∷ 0 ∷ 0 ∷ [])))
or_unreadable-Ensures view h range v (base, size, valid) =
    elim (copy_bytes_total view v range (0 ∷ 0 ∷ 0 ∷ 0 ∷ 0 ∷ 0 ∷ 0 ∷ 0 ∷ []) valid (sym size)) [
      | inl (header, copied, length8, reads) ↦
          rw (Ensures, copied) (length8 ∙ size, subst (λ a. Reads view a header) base reads)
      | inr (e, bs, failed) ↦ rw (Ensures, failed) refl
    ]

read_counts-Ensures :
    (view : InitializedImageView) (h : HashLocation)
    → IsView view
    → h.address ≤ u64_max
    → Ensures (IsEvidence view h) (OfHash h) (read_counts view h)
unfolding read_counts
read_counts-Ensures view h v small =
    let P = IsEvidence view h in
    let Q = OfHash h in
    Ensures->>= (HeaderRange h) Q P _ _ (hash_range-Ensures h small) (λ range made r.
      Ensures->>= (IsHeader view h) Q P _ _ (or_unreadable-Ensures view h range v r)
        (λ header copied at.
          let (nbucket, first) = read_little_endian-some header 0 4 (omega (arith, at.0)) in
          let (nchain, second) = read_little_endian-some header 4 4 (omega (arith, at.0)) in
          rw (first, second)
            (Ensures-check P Q (nchain == 0) _ _ refl (λ some_symbols.
              (refl, (header, at.0, at.1, first, second, ==→ne nchain 0 some_symbols))))))

-- The table has no hash, or its counts are those of the evidence.
abbrev pub IsCount :
    List DynamicEntry → InitializedImageView → Option SysvHashCountEvidence → Type 0
IsCount es view none = All (λ e. e.tag ≢ 4) es
IsCount es view (some x) = IsLocation (location_of x) es × HasCounts view x

counts_of-Ensures :
    (es : List DynamicEntry) (view : InitializedImageView) (o : Option HashLocation)
    → IsView view
    → All (λ e. e.value ≤ u64_max) es
    → FoundHash es o
    → Ensures (IsCount es view) (NamesIndex es) (counts_of view o)
counts_of-Ensures es view none v small f = f
counts_of-Ensures es view (some h) v small f =
    let Q = NamesIndex es in
    Ensures->>= (IsEvidence view h) Q (IsCount es view) _ _
      (Ensures-failure (IsEvidence view h) (OfHash h) Q _
        (read_counts-Ensures view h v (IsFirst-le 4 (singleton h) es small f.0))
        (λ x n. subst (HasIndex es) (sym n) (IsFirst-HasIndex 4 (singleton h) es f.0)))
      (λ x made is. (subst (λ k. IsLocation k es) (sym is.0) f, is.1))

-- On a view and a table with 64-bit values, the count of DT_HASH is a result or an error that names
-- an entry of the table. There is no evidence exactly where no entry has the tag. Otherwise all
-- entries with the tag agree on the address, and the evidence names the first of them and has the
-- two numbers of the eight bytes there, the second of which is not zero.
pub build_sysv_hash_count_evidence_lem :
    (table : DynamicTable) (view : InitializedImageView)
    → IsView view
    → All (λ e. e.value ≤ u64_max) table.entries
    → Ensures
        (IsCount table.entries view)
        (NamesIndex table.entries)
        (build_sysv_hash_count_evidence table view)
unfolding build_sysv_hash_count_evidence
build_sysv_hash_count_evidence_lem table view v small =
    let es = table.entries in
    Ensures->>= (FoundHash es) (NamesIndex es) (IsCount es view) _ _ (find_hash-none es)
      (λ o e f. counts_of-Ensures es view o v small f)
