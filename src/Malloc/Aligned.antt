-- ===== src/Malloc/Aligned.antt =====
-- malloc.c: `umem_memalign` whole, where it calls `umem_malloc` and where it does not.
use libumem.Base.{
  ℕ, zero, suc, ◌+◌, ◌-◌, ◌%◌, ◌^◌, ◌≤◌, ◌<◌, ◌≡◌, refl, Bool, true, false, ◌&&◌, ◌||◌, Option,
  some, leb, if◌then◌else◌, arith, ne→not-==,
}
use libumem.Bits.Mask.{mod_unique, bit_and-low, two-pow-pos, two-pow-add}
use libumem.Word.{word}
use libumem.Word.Align.{fits}
use libumem.Malloc.{Memory, malloc_size, umem_malloc, memalign_block, umem_memalign, Heap}
use libumem.Malloc.Layout.{IsGranted, Served, malloc_roundtrip, memalign_roundtrip}

-- Whether `umem_malloc` has the alignment that is asked for.
abbrev pub malloc_aligns : ℕ → ℕ → Bool
malloc_aligns align size_arg = leb align 8 || (leb align 16 && leb 16 size_arg)

self-mod : (k : ℕ) → 2 ^ k % 2 ^ k ≡ 0
self-mod k = mod_unique (2 ^ k) (2 ^ k) 1 0 (two-pow-pos k) (omega arith)

-- A power of two passes the test, and a size that is not 0.
accepted :
    (umem_alloc : ℕ → Option ℕ) (xalloc : ℕ → ℕ → ℕ → Option ℕ) (mem : Memory) (k size_arg : ℕ)
    → 0 < size_arg
    → umem_memalign umem_alloc xalloc mem (2 ^ k) size_arg ≡ (
        if malloc_aligns (2 ^ k) size_arg
        then umem_malloc umem_alloc mem size_arg
        else memalign_block xalloc mem (2 ^ k) size_arg)
unfolding umem_memalign
accepted umem_alloc xalloc mem k n p =
    rw
      (
        ne→not-== n 0 (omega (arith, p)),
        ne→not-== (2 ^ k) 0 (omega (arith, two-pow-pos k)),
        bit_and-low k (2 ^ k),
        self-mod k,
      )
      refl

-- The pointer that `umem_malloc` answers has the alignment.
malloc_aligned :
    (k size_arg base : ℕ)
    → size_arg + 16 < word
    → malloc_aligns (2 ^ k) size_arg ≡ true
    → base % 8 ≡ 0
    → (16 < malloc_size size_arg → base % 16 ≡ 0)
    → (base + (malloc_size size_arg - size_arg)) % 2 ^ k ≡ 0
unfolding malloc_size
malloc_aligned zero n base w a b c = omega arith
malloc_aligned (suc zero) n base w a b c = ground (arith, b)
malloc_aligned (suc (suc zero)) n base w a b c = ground (arith, b)
malloc_aligned (suc (suc (suc zero))) n base w a b c = ground (arith, b)
malloc_aligned (suc (suc (suc (suc zero)))) n base w a b c = ground (arith, a, c)
malloc_aligned (suc (suc (suc (suc (suc k))))) n base w a b c =
    let large : 32 ≤ 2 ^ suc (suc (suc (suc (suc k)))) =
      omega (arith, two-pow-add 5 k, two-pow-pos k) in
    absurd (ground (arith, a, large))

-- If a size from 1 to 2^64 - 17 and an alignment that is a power of two are asked for which `umem_malloc`
-- provides, at most 8, or at most 16 for a size of at least 16, and `_umem_alloc` answers a block inside
-- the heap's bounds and owned by it, that is a multiple of 8, and of 16 for more than 16 bytes, then
-- `umem_memalign` answers a pointer that is a multiple of the alignment, and `process_free_umem` reports the
-- size asked for, or gives the whole block back to `_umem_free`.
pub memalign_malloc_lem :
    (h : Heap) (umem_alloc : ℕ → Option ℕ) (xalloc : ℕ → ℕ → ℕ → Option ℕ) (mem : Memory)
    (k size_arg base : ℕ)
    → 0 < size_arg
    → size_arg + 16 < word
    → malloc_aligns (2 ^ k) size_arg ≡ true
    → umem_alloc (malloc_size size_arg) ≡ some base
    → base % 8 ≡ 0
    → (16 < malloc_size size_arg → base % 16 ≡ 0)
    → IsGranted h base (malloc_size size_arg)
    → Served h
        (umem_memalign umem_alloc xalloc mem (2 ^ k) size_arg)
        base
        (malloc_size size_arg)
        size_arg
        false
      × ((base + (malloc_size size_arg - size_arg)) % 2 ^ k ≡ 0)
memalign_malloc_lem h umem_alloc xalloc mem k n base p w a e b c g = (
  rw (accepted umem_alloc xalloc mem k n p, a) (malloc_roundtrip h umem_alloc mem n base w e g),
  malloc_aligned k n base w a b c,
)

at_least : (k size_arg : ℕ) → malloc_aligns (2 ^ k) size_arg ≡ false → 16 ≤ 2 ^ k
at_least zero n a = ground (arith, a)
at_least (suc zero) n a = ground (arith, a)
at_least (suc (suc zero)) n a = ground (arith, a)
at_least (suc (suc (suc zero))) n a = ground (arith, a)
at_least (suc (suc (suc (suc k)))) n a = omega (arith, two-pow-add 4 k, two-pow-pos k)

-- If a size from 1 to 2^64 - 17 and an alignment of 2^k with k < 64 are asked for which `umem_malloc` does
-- not provide, and `vmem_xalloc` answers a block with the phase it is asked for, inside the heap's
-- bounds and owned by it, then `umem_memalign` answers a pointer that is a multiple of the alignment,
-- with the size asked for up to the block's end, and `process_free_umem` reports that size, or gives the
-- whole block back to `vmem_xfree`.
pub memalign_lem :
    (h : Heap) (umem_alloc : ℕ → Option ℕ) (xalloc : ℕ → ℕ → ℕ → Option ℕ) (mem : Memory)
    (k size_arg base : ℕ)
    → k < 64
    → 0 < size_arg
    → size_arg + 16 < word
    → malloc_aligns (2 ^ k) size_arg ≡ false
    → xalloc (size_arg + 16) (2 ^ k) (2 ^ k - 16) ≡ some base
    → base % 2 ^ k ≡ 2 ^ k - 16
    → IsGranted h base (size_arg + 16)
    → Served h
        (umem_memalign umem_alloc xalloc mem (2 ^ k) size_arg)
        base
        (size_arg + 16)
        size_arg
        true
      × ((base + 16) % 2 ^ k ≡ 0)
memalign_lem h umem_alloc xalloc mem k n base small p w a e m g =
    rw (accepted umem_alloc xalloc mem k n p, a)
      (memalign_roundtrip h xalloc mem (2 ^ k) n base w (at_least k n a) (fits k small) e m g)
