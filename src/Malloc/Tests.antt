-- ===== src/Malloc/Tests.antt =====
-- The theorems on the tags, in a heap of one page that owns all of it.
use libumem.Base.{ℕ, ◌-◌, ◌+◌, ◌%◌, ◌≡◌, refl, true, false, Option, some, arith}
use libumem.Word.{sub64}
use libumem.Malloc.{
  Memory, write, free_pattern, malloc_size, umem_malloc, umem_memalign, Heap, hull_contains,
  may_read, may_own, layout_of, decode, decode_tags, poison, validate, process_free,
  umem_malloc_free, umem_free, rejected, double_free,
}
use libumem.Malloc.Layout.{IsGranted, Served, malloc_roundtrip}
use libumem.Malloc.Aligned.{memalign_malloc_lem, memalign_lem}
use libumem.Malloc.Fast.{umem_malloc_free_lem}
use libumem.Malloc.Decision.{IsOwned, process_free-IsOwned, double_free_lem}

abbrev heap : Heap
heap = record {
  seen = record { low = 4096; high = 8192 };
  fresh = record { low = 4096; high = 8192 };
  owns = λ base size. true;
}

abbrev blank : Memory
blank a = record { size = 0; stat = 0 }

abbrev at_page : ℕ → Option ℕ
at_page size = some 4096

granted : IsGranted heap 4096 (malloc_size 100)
unfolding malloc_size
granted = record {
  positive = omega arith;
  some_size = omega arith;
  no_wrap = omega arith;
  low = omega arith;
  high = omega arith;
  owned = refl;
}

malloc_roundtrip_example :
    Served heap (umem_malloc at_page blank 100) 4096 (malloc_size 100) 100 false
malloc_roundtrip_example = malloc_roundtrip heap at_page blank 100 4096 (omega arith) refl granted

abbrev phased : ℕ → ℕ → ℕ → Option ℕ
phased size align phase = some 4144

aligned : IsGranted heap 4144 116
aligned = record {
  positive = omega arith;
  some_size = omega arith;
  no_wrap = omega arith;
  low = omega arith;
  high = omega arith;
  owned = refl;
}

memalign_lem_example :
    Served heap (umem_memalign at_page phased blank 64 100) 4144 116 100 true
    × ((4144 + 16) % 64 ≡ 0)
memalign_lem_example =
    memalign_lem heap at_page phased blank 6 100 4144 (omega arith) (omega arith) (omega arith) refl
      refl refl aligned

memalign_malloc_lem_example :
    Served heap (umem_memalign at_page phased blank 16 100) 4096 (malloc_size 100) 100 false
    × ((4096 + (malloc_size 100 - 100)) % 16 ≡ 0)
memalign_malloc_lem_example =
    memalign_malloc_lem heap at_page phased blank 4 100 4096 (omega arith) (omega arith) refl refl
      refl (λ h. refl) granted

-- 940355857 and the pattern of freed memory add up to a magic number: a second free of such a block is
-- not refused as a double free, and gives the block back again if the heap still owns it.
abbrev wide_heap : Heap
wide_heap = record {
  seen = record { low = 4096; high = 1000000000 };
  fresh = record { low = 4096; high = 1000000000 };
  owns = λ base size. true;
}

abbrev freed_once : Memory
freed_once = write blank 4104 (record { size = 940355857; stat = free_pattern })

freed_twice :
    process_free wide_heap freed_once 4112 true
    ≡ umem_free 4096 940355857
        (write freed_once 4104 (record { size = 940355857; stat = free_pattern }))
unfolding process_free validate decode_tags layout_of decode may_own may_read hull_contains poison
freed_twice = refl

-- A block of 8 bytes at 4096, and the memory after it is freed.
abbrev tagged : Memory
tagged = write blank 4096 (record { size = 16; stat = 974176240 })

abbrev cleared : Memory
cleared = write tagged 4096 (record { size = 16; stat = free_pattern })

freed : process_free heap tagged 4104 true ≡ umem_free 4096 16 cleared
unfolding process_free validate decode_tags layout_of decode may_own may_read hull_contains poison
freed = refl

umem_malloc_free_lem_example :
    umem_malloc_free heap tagged 4104 ≡ process_free heap tagged 4104 true
umem_malloc_free_lem_example = umem_malloc_free_lem heap tagged 4104

process_free-IsOwned_example : IsOwned heap true 4104 (process_free heap tagged 4104 true)
process_free-IsOwned_example = process_free-IsOwned heap tagged 4104 true (omega arith)

readable : may_read heap (sub64 4104 8) 8 ≡ true
unfolding may_read hull_contains
readable = refl

double_free_lem_example : process_free heap cleared 4104 true ≡ rejected double_free
double_free_lem_example =
    double_free_lem heap heap tagged cleared 4104 4096 16 true freed readable (omega arith)
