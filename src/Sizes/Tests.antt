-- ===== src/Sizes/Tests.antt =====
-- umem.c: runs of the changes of the table of sizes, and the theorems at concrete tables.
use libumem.Word.{p2phase, p2roundup}
use libumem.Base.{
  ℕ, ◌<◌, ◌≡◌, ◌==◌, if◌then◌else◌, refl, none, some, List, [], ◌∷◌, inl, inr, arith,
}
use libumem.Sizes.{maxbuf, last_or, alloc_sizes, sizes_add, sizes_remove}
use libumem.Sizes.Sorted.{IsTable}
use libumem.Sizes.Adding.{AddOutcome, sizes_add_lem}
use libumem.Sizes.Removing.{Removed, sizes_remove_lem}

abbrev free_place : List ℕ
free_place = 8 ∷ 16 ∷ 32 ∷ maxbuf ∷ 0 ∷ []

free_place-IsTable : IsTable 0 free_place
free_place-IsTable =
    let last : IsTable 32 (maxbuf ∷ 0 ∷ []) = (omega arith, refl, inl (refl, (refl, tt))) in
    let third : IsTable 16 (32 ∷ maxbuf ∷ 0 ∷ []) = (omega arith, refl, inr (omega arith, last)) in
    let second : IsTable 8 (16 ∷ 32 ∷ maxbuf ∷ 0 ∷ []) =
      (omega arith, refl, inr (omega arith, third)) in
    (omega arith, refl, inr (omega arith, second))

abbrev full : List ℕ
full = 8 ∷ 16 ∷ maxbuf ∷ []

full-IsTable : IsTable 0 full
full-IsTable =
    let last : IsTable 16 (maxbuf ∷ []) = (omega arith, refl, inl (refl, tt)) in
    let second : IsTable 8 (16 ∷ maxbuf ∷ []) = (omega arith, refl, inr (omega arith, last)) in
    (omega arith, refl, inr (omega arith, second))

-- 20 is put in as 24, at its place.
adds_24 : sizes_add 20 free_place ≡ some (8 ∷ 16 ∷ 24 ∷ 32 ∷ maxbuf ∷ [])
unfolding sizes_add p2phase p2roundup
adds_24 = refl

removes_16 : sizes_remove 16 free_place ≡ some (8 ∷ 32 ∷ maxbuf ∷ 0 ∷ 0 ∷ [])
unfolding sizes_remove
removes_16 = refl

-- Of a full table a size above the greatest is removed by a write behind its end.
removes_past : sizes_remove 200000 full ≡ none
unfolding sizes_remove
removes_past = refl

-- The table as it is compiled has 16 free places.
unchanged : sizes_remove 200000 alloc_sizes ≡ some alloc_sizes
unfolding sizes_remove
unchanged = refl

sizes_add_lem_example : AddOutcome 20 free_place (sizes_add 20 free_place)
sizes_add_lem_example = sizes_add_lem 20 free_place free_place-IsTable

sizes_remove_lem_example :
    (200000 < maxbuf
      → (removed : List ℕ) × (sizes_remove 200000 full ≡ some removed)
        × Removed 0 200000 full removed)
    × (200000 ≡ maxbuf → sizes_remove 200000 full ≡ some full)
    × (maxbuf < 200000
        → sizes_remove 200000 full ≡ (if last_or 0 full == 0 then some full else none))
sizes_remove_lem_example = sizes_remove_lem 200000 full full-IsTable
