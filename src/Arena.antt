-- ===== src/Arena.antt =====
-- umem_arena.c: bump allocation from one mapping. A pointer is its address, NULL is `none`.
pub mod Bump
mod Tests
use Prim.Native.Nat.{bit_and}
use libumem.Base.{
  ℕ, suc, ◌+◌, ◌-◌, Bool, Option, none, some, List, [], ◌∷◌, ltb, ◌==◌, if◌then◌else◌,
}
use libumem.Word.{word, add64, sub64, not64}

-- `struct umem_arena`
pub record Arena : Type 0 where
  pub base : ℕ
  pub capacity : ℕ
  pub offset : ℕ

-- ARENA_ALIGN
abbrev pub arena_align : ℕ
arena_align = 16

-- `(size + align - 1) & ~(align - 1)`
pub round_up : ℕ → ℕ → ℕ
round_up size align = bit_and (sub64 (add64 size align) 1) (not64 (align - 1))

-- `arena_page_round`, where a page size of 0 stands for a `sysconf` result that is not positive.
pub arena_page_round : ℕ → ℕ → ℕ
unfolding round_up
arena_page_round page_size size =
    let p = if page_size == 0 then 4096 else page_size in
    if ltb (word - 1 - (p - 1)) size then 0 else round_up size p

-- What `umem_arena_create` comes to: NULL, `exit(1)`, or an arena.
pub data Created : Type 0 where
  null : Created
  exits : Created
  created : Arena → Created

-- `umem_arena_create`, from the header that `umem_alloc` returned and from what `mmap` answers to a
-- size. The header goes back to `umem_free` on the failures behind it.
pub create : Option ℕ → (ℕ → Option ℕ) → ℕ → Bool → ℕ → Created
unfolding arena_page_round
create header mmap page_size nofail capacity =
    let map_size = arena_page_round page_size capacity in
    let failure = if nofail then exits else null in
    if capacity == 0 then null else elim header [
      | none ↦ null
      | some h ↦ if map_size == 0 then failure else elim (mmap map_size) [
        | none ↦ failure
        | some base ↦ created (record { base = base; capacity = map_size; offset = 0 })
      ]
    ]

-- `umem_arena_alloc` from an arena that is not NULL: the pointer, and the arena behind it.
pub alloc : Arena → ℕ → Option (ℕ × Arena)
unfolding round_up
alloc a size =
    let aligned_size = round_up size arena_align in
    let new_offset = add64 a.offset aligned_size in
    if size == 0
    then none
    else if ltb (word - 1 - (arena_align - 1)) size
    then none
    else if ltb (sub64 a.capacity a.offset) aligned_size
    then none
    else if ltb a.capacity new_offset
    then none
    else some (add64 a.base a.offset, record a { offset = new_offset })

-- `umem_arena_reset`, `umem_arena_available` and `umem_arena_capacity`
pub reset : Arena → Arena
reset a = record a { offset = 0 }

pub available : Option Arena → ℕ
available none = 0
available (some a) = sub64 a.capacity a.offset

pub capacity : Option Arena → ℕ
capacity none = 0
capacity (some a) = a.capacity

-- Requests one after the other: the ranges given out, and the arena behind them. A request that
-- fails leaves the arena as it was.
pub alloc_all : Arena → List ℕ → List (ℕ × ℕ) × Arena
unfolding alloc
alloc_all a [] = ([], a)
alloc_all a (size ∷ sizes) = elim (alloc a size) [
  | none ↦ alloc_all a sizes
  | some r ↦ let rest = alloc_all (r.1) sizes in ((r.0, size) ∷ rest.0, rest.1)
]
