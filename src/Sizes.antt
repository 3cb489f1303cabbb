-- ===== src/Sizes.antt =====
-- umem.c: the table of sizes that the caches of `umem_alloc` have, and its changes by the options
-- size_add, size_remove and size_clear. The table is an array that is sorted and filled up with 0; a
-- write behind its end is `none`. The types are `int` in the table and `size_t` in the arguments, and
-- the sizes in it are below 2^31.
pub mod Sorted
pub mod Adding
pub mod Removing
mod Tests
use libumem.Base.{
  ℕ, zero, suc, ◌+◌, ◌-◌, Bool, true, false, not, ◌&&◌, ◌||◌, Option, none, some, List, [], ◌∷◌,
  length, ltb, ◌==◌, if◌then◌else◌,
}
pub use libumem.Malloc.{maxbuf, umem_align}
use libumem.Word.{p2phase, p2roundup}

abbrev pub zeros : ℕ → List ℕ
zeros zero = []
zeros (suc n) = 0 ∷ zeros n

-- `umem_alloc_sizes`, as it is compiled for 64 bits.
abbrev pub alloc_sizes : List ℕ
alloc_sizes =
    8
    ∷ 16
    ∷ 32
    ∷ 48
    ∷ 64
    ∷ 80
    ∷ 96
    ∷ 112
    ∷ 128
    ∷ 160
    ∷ 192
    ∷ 224
    ∷ 256
    ∷ 320
    ∷ 384
    ∷ 448
    ∷ 512
    ∷ 640
    ∷ 768
    ∷ 896
    ∷ 1024
    ∷ 1280
    ∷ 1536
    ∷ 1792
    ∷ 2048
    ∷ 2560
    ∷ 3072
    ∷ 3584
    ∷ 4096
    ∷ 5120
    ∷ 6144
    ∷ 7168
    ∷ 8192
    ∷ 10240
    ∷ 12288
    ∷ 14336
    ∷ 16384
    ∷ 20480
    ∷ 24576
    ∷ 32768
    ∷ 40960
    ∷ 49152
    ∷ 57344
    ∷ 65536
    ∷ 73728
    ∷ 81920
    ∷ 98304
    ∷ 114688
    ∷ maxbuf
    ∷ zeros 16

-- `umem_alloc_sizes_clear`
pub sizes_clear : List ℕ → List ℕ
sizes_clear [] = []
sizes_clear (x ∷ xs) = maxbuf ∷ zeros (length xs)

abbrev pub last_or : ℕ → List ℕ → ℕ
last_or d [] = d
last_or d (x ∷ xs) = last_or x xs

abbrev pub without_last : List ℕ → List ℕ
without_last [] = []
without_last (x ∷ []) = []
without_last (x ∷ y ∷ xs) = x ∷ without_last (y ∷ xs)

-- The first place of the table whose size is not below the one looked for, and what it has.
abbrev pub insert_sorted : ℕ → List ℕ → Option (List ℕ)
insert_sorted size [] = none
insert_sorted size (cur ∷ xs) =
    let rest = insert_sorted size xs in
    if cur == size
    then some (cur ∷ xs)
    else if ltb size cur
    then some (size ∷ without_last (cur ∷ xs))
    else elim rest [ none ↦ none | some ys ↦ some (cur ∷ ys) ]

-- `umem_alloc_sizes_add`
pub sizes_add : ℕ → List ℕ → Option (List ℕ)
sizes_add size_arg table =
    let size =
      if p2phase size_arg umem_align == 0 then size_arg else p2roundup size_arg umem_align in
    if size_arg == 0 || ltb maxbuf size_arg || not (last_or 0 table == 0)
    then some table
    else insert_sorted size table

abbrev pub shifted : List ℕ → List ℕ
shifted [] = 0 ∷ []
shifted (x ∷ xs) = x ∷ shifted xs

-- The two loops of `umem_alloc_sizes_remove`: the place is looked for, and what stands behind moves up.
abbrev pub remove_sorted : ℕ → List ℕ → Option (List ℕ)
remove_sorted size [] = none
remove_sorted size (cur ∷ xs) =
    let rest = remove_sorted size xs in
    if cur == size
    then some (shifted xs)
    else if ltb size cur || cur == 0
    then some (cur ∷ xs)
    else elim rest [ none ↦ none | some ys ↦ some (cur ∷ ys) ]

-- `umem_alloc_sizes_remove`
pub sizes_remove : ℕ → List ℕ → Option (List ℕ)
sizes_remove size table = if size == maxbuf then some table else remove_sorted size table
