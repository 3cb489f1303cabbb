-- ===== src/Partition/Tests.antt =====
-- The theorems on hash partitions, at two claimants of which the first asks for a quarter.
use libumem.Base.{
  ℕ, ◌+◌, ◌-◌, ◌≤◌, ◌<◌, ◌≡◌, refl, true, some, List, [], ◌∷◌, get_elem?, ◌⊎◌, inl, inr, arith,
}
use libumem.Partition.{Part, ClaimantSize, uint64_max, create, create_with_sizes, get_claimant}
use libumem.Partition.Claim.{get_claimant_lem}
use libumem.Partition.Key.{Serves, created-Serves}

abbrev two_sizes : List ClaimantSize
two_sizes =
    record { name = b'a' ∷ []; size = 0 }
    ∷ record { name = b'b' ∷ []; size = 4 }
    ∷ record { name = b'c' ∷ []; size = 1 }
    ∷ []

abbrev two_parts : List Part
two_parts =
    record { lower = 0; interval = 4; name = b'b' ∷ [] }
    ∷ record { lower = 4; interval = uint64_max - 4; name = b'c' ∷ [] }
    ∷ []

made : create_with_sizes true two_sizes ≡ some two_parts
unfolding create_with_sizes
made = refl

created-Serves_example :
    Serves (b'k' ∷ []) (create_with_sizes true two_sizes)
    × Serves (b'k' ∷ []) (create true ((b'a' ∷ []) ∷ [] ∷ (b'b' ∷ []) ∷ []))
created-Serves_example =
    created-Serves two_sizes ((b'a' ∷ []) ∷ [] ∷ (b'b' ∷ []) ∷ []) (b'k' ∷ []) (omega arith)
      (inr (inl (omega arith))) (omega arith) tt

get_claimant_lem_example :
    (k : ℕ) × (p : Part) × (get_elem? two_parts k ≡ some p)
    × (get_claimant 2 two_parts 3 ≡ some (some p.name))
    × (p.lower ≤ 3)
    × ((3 < p.lower + p.interval) ⊎ ((◌≡◌ {A = ℕ} 3 uint64_max) × (k ≡ 2 - 1)))
get_claimant_lem_example =
    get_claimant_lem two_parts 3 tt (refl, omega arith, (refl, omega arith, refl)) (omega arith)
