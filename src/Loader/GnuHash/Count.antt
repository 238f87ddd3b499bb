-- ===== src/Loader/GnuHash/Count.antt =====
-- What the table of DT_GNU_HASH says.
use astraea.Prelude.{◌*◌, ◌+◌, ℕ, ◌≤◌, ◌≡◌, ◌≢◌, Option, none, some, List, All}
use astraea.Memory.ImageView.{InitializedImageView}
use astraea.Memory.ImageView.Create.{IsView}
use astraea.Loader.Dynamic.{DynamicEntry}
use astraea.Loader.GnuHash.{HashLocation, GnuHashCountEvidence}
use astraea.Loader.GnuHash.Locate.{IsLocation}
use astraea.Loader.GnuHash.Walk.{Buckets, Counts}
use astraea.Loader.GnuHash.Words.{HasWord}

-- The header, the buckets and the chain give this count.
pub record HasCount (view : InitializedImageView) (v : IsView view) (h : HashLocation)
    (x : GnuHashCountEvidence) : Type 0 where
  pub bucket_count : HasWord view h 0 x.bucket_count
  pub first_hashed : HasWord view h 4 x.first_hashed_symbol
  pub some_buckets : (x.bucket_count ≢ 0) × (x.bucket_count ≤ 65536)
  pub bloom :
      (words : ℕ) × HasWord view h 8 words
      × (words ≤ 65536)
      × ((highest : ℕ) × Buckets view h v
            (16 + 8 * words)
            x.first_hashed_symbol
            0
            x.bucket_count
            0
            highest
          × Counts view h v
              (16 + 8 * words + 4 * x.bucket_count)
              x.first_hashed_symbol
              highest
              x.symbol_count)

abbrev pub location_of : GnuHashCountEvidence → HashLocation
location_of x = record { address = x.hash_address; source_entry_index = x.source_entry_index }

abbrev pub IsEvidence :
    (view : InitializedImageView) → IsView view → HashLocation → GnuHashCountEvidence → Type 0
IsEvidence view v h x = (location_of x ≡ h) × HasCount view v h x

-- The table has no hash, or its count is that of the evidence.
abbrev pub IsCount :
    (view : InitializedImageView)
    → IsView view
    → List DynamicEntry
    → Option GnuHashCountEvidence
    → Type 0
IsCount view v es none = All (λ e. e.tag ≢ 1879047925) es
IsCount view v es (some x) = (h : HashLocation) × IsEvidence view v h x × IsLocation h es
