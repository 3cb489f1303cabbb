-- ===== src/Partition/Key.antt =====
-- umem_hash_partition.c: every key has a claimant, from the sizes on.
use libumem.Base.{
  ℕ, ◌+◌, ◌-◌, ◌≤◌, ◌<◌, ◌≡◌, true, Option, none, some, List, [], ◌∷◌, length, get_elem?, ◌⊎◌,
  arith,
}
use libumem.Word.{word}
use libumem.Partition.{
  Part, ClaimantSize, uint64_max, max_claimants, fnv_round, fnv_loop, simple_hash, create,
  create_with_sizes, get_claimant_by_key,
}
use libumem.Partition.Tiles.{Divides, Asks, Named, create-Divides, create_with_sizes-Divides}
use libumem.Partition.Claim.{get_claimant_lem}

fnv_loop-lt : (hash : ℕ) (bytes : List ℕ) → hash < word → fnv_loop hash bytes < word
fnv_loop-lt hash [] h = h
fnv_loop-lt hash (byte ∷ bytes) h = fnv_loop-lt (fnv_round hash byte) bytes (omega arith)

simple_hash-le : (bytes : List ℕ) → simple_hash bytes ≤ uint64_max
unfolding simple_hash
simple_hash-le bytes = omega (arith, fnv_loop-lt 14695981039346656037 bytes (omega arith))

-- The key has one claimant, whose interval holds its hash.
abbrev pub Serves : List ℕ → Option (List Part) → Type 0
Serves key none = ⊥
Serves key (some ps) =
    (k : ℕ) × (p : Part) × (get_elem? ps k ≡ some p)
    × (get_claimant_by_key (length ps) ps key ≡ some (some p.name))
    × (p.lower ≤ simple_hash key)
    × ((simple_hash key < p.lower + p.interval)
        ⊎ ((simple_hash key ≡ uint64_max) × (k ≡ length ps - 1)))

Divides-Serves : (key : List ℕ) (made : Option (List Part)) → Divides made → Serves key made
unfolding get_claimant_by_key
Divides-Serves key none d = absurd d
Divides-Serves key (some ps) d =
    get_claimant_lem ps (simple_hash key) (d.0) (d.1) (simple_hash-le key)

-- If there is memory and at most 1024 claimants are given, of which for sizes one is not 0 and for
-- equal shares one has a name, then every key is given the claimant whose interval holds its hash, and
-- the search ends within as many rounds as there are claimants.
pub created-Serves :
    (sizes : List ClaimantSize) (names : List (List ℕ)) (key : List ℕ)
    → length sizes ≤ max_claimants
    → Asks sizes
    → length names ≤ max_claimants
    → Named names
    → Serves key (create_with_sizes true sizes) × Serves key (create true names)
created-Serves sizes names key h a k n = (
  Divides-Serves key (create_with_sizes true sizes) (create_with_sizes-Divides sizes h a),
  Divides-Serves key (create true names) (create-Divides names k n),
)
