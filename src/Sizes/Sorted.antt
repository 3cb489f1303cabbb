-- ===== src/Sizes/Sorted.antt =====
-- umem.c: what holds of the table of sizes: they are multiples of 8 and rise to the greatest, and the
-- rest of the table is 0.
use libumem.Base.{ℕ, zero, suc, ◌%◌, ◌<◌, ◌≡◌, refl, List, [], ◌∷◌, length, All, ◌⊎◌, inl, arith}
use libumem.Sizes.{maxbuf, umem_align, zeros, sizes_clear}

abbrev pub IsTable : ℕ → List ℕ → Type 0
IsTable lo [] = ⊥
IsTable lo (x ∷ xs) =
    (lo < x)
    × (x % umem_align ≡ 0)
    × (((x ≡ maxbuf) × All (λ y. y ≡ 0) xs) ⊎ ((x < maxbuf) × IsTable x xs))

zeros-All : (n : ℕ) → All (λ y. y ≡ 0) (zeros n)
zeros-All zero = tt
zeros-All (suc n) = (refl, zeros-All n)

pub sizes_clear-IsTable : (lo : ℕ) (xs : List ℕ) → IsTable lo xs → IsTable 0 (sizes_clear xs)
unfolding sizes_clear
sizes_clear-IsTable lo [] t = t
sizes_clear-IsTable lo (x ∷ xs) t = (omega arith, refl, inl (refl, zeros-All (length xs)))
