-- ===== src/Malloc/Layout.antt =====
-- malloc.c: the tags that `umem_malloc` and `umem_memalign` write, as `process_free_umem` reads them.
use libumem.Base.{
  ℕ, ◌+◌, ◌-◌, ◌*◌, ◌/◌, ◌%◌, ◌^◌, ◌≤◌, ◌<◌, ◌≡◌, refl, ◌∙◌, Bool, true, false, Option, some, ltb,
  ◌==◌, if◌then◌else◌, arith,
}
use native.Mathlib.Nat.{mod-add-div', mul-mod_left}
use native.Mathlib.Decide.{dec_lt}
use libumem.Word.{word, add64, sub64}
use libumem.Malloc.{
  Memory, tag, encode, decode, write, u32, malloc_magic, malloc_second_magic, malloc_oversize_magic,
  memalign_magic, malloc_size, high_size_of, Answer, store_tags, store_memalign, umem_malloc,
  memalign_block, allocated, hull_contains, Heap, may_read, may_own, Block, block, two_tags,
  layout_of, decode_tags, poison, validate, process_free, sized, umem_free, vmem_xfree,
}

decode-tag :
    (magic size : ℕ)
    → magic < 2 ^ 32
    → size < word
    → decode (tag magic size).stat (tag magic size).size ≡ magic
unfolding decode tag encode
decode-tag magic size h w = omega arith

-- The range of a block is in the heap, and owned.
pub record IsGranted (h : Heap) (base size : ℕ) : Type 0 where
  pub positive : 0 < base
  pub some_size : 0 < size
  pub no_wrap : base + size < word
  pub low : h.seen.low ≤ base
  pub high : base + size ≤ h.seen.high
  pub owned : h.owns base size ≡ true

within :
    (h : Heap) (base size p n : ℕ)
    → IsGranted h base size
    → base ≤ p
    → 0 < n
    → p + n ≤ base + size
    → hull_contains h.seen p n ≡ true
unfolding hull_contains
within h base size p n g a b c = ground (arith, g.positive, g.some_size, g.no_wrap, g.low, g.high)

readable :
    (h : Heap) (base size p : ℕ)
    → IsGranted h base size
    → base ≤ p
    → p + 8 ≤ base + size
    → may_read h p 8 ≡ true
unfolding may_read
readable h base size p g a c = ground (arith, within h base size p 8 g a (omega arith) c)

ownable : (h : Heap) (base size : ℕ) → IsGranted h base size → may_own h base size ≡ true
unfolding may_own
ownable h base size g =
    ground (arith, within h base size base size g (omega arith) g.some_size (omega arith), g.owned)

-- A tag that may be read decodes to its state and its size.
read_tag :
    (h : Heap) (mem : Memory) (buf magic size : ℕ)
    → may_read h buf 8 ≡ true
    → mem buf ≡ tag magic size
    → magic < 2 ^ 32
    → size < 2 ^ 32
    → decode_tags h mem buf ≡ layout_of h mem buf magic size
unfolding decode_tags
read_tag h mem buf magic size r e m s =
    let d = decode-tag magic size m (omega arith) in
    let z : (tag magic size).size ≡ size = unfold tag in omega arith in rw (r, e, d, z) refl

-- Two tags that may be read: the sizes are put together.
read_two :
    (h : Heap) (mem : Memory) (low size magic : ℕ) (memalign : Bool)
    → low + 8 < word
    → may_read h low 8 ≡ true
    → mem low ≡ tag magic (size / 2 ^ 32)
    → magic < 2 ^ 32
    → size < word
    → two_tags h mem (low + 8) (size % 2 ^ 32) magic memalign
      ≡ block (record {
        base = low;
        size = size;
        overhead = 16;
        poison_low = low;
        two_words = true;
        memalign = memalign;
      })
unfolding two_tags
read_two h mem low size magic memalign w r e m s =
    let p : sub64 (low + 8) 8 ≡ low = omega arith in
    let d = decode-tag magic (size / 2 ^ 32) m (omega arith) in
    let z : (tag magic (size / 2 ^ 32)).size ≡ size / 2 ^ 32 = unfold tag in omega arith in
    let t : add64 (size % 2 ^ 32) (size / 2 ^ 32 * 2 ^ 32 % word) ≡ size = omega arith in
    let o : (magic == magic) ≡ true = ground arith in rw (p, r, e, d, z, o, t) refl

-- What `free` does of a block: it tells the caller's size, and gives the block back whole.
pub record IsFreeable (h : Heap) (mem : Memory) (ptr base size data_size : ℕ) (aligned : Bool)
    : Type 0 where
  pub poisoned : Memory
  pub asked : process_free h mem ptr false ≡ sized data_size
  pub given_back :
      process_free h mem ptr true
      ≡ (if aligned then vmem_xfree base size poisoned else umem_free base size poisoned)

accept :
    (h : Heap) (mem : Memory) (ptr buf : ℕ) (b : Block)
    → sub64 ptr 8 ≡ buf
    → decode_tags h mem buf ≡ block b
    → b.overhead ≤ b.size
    → b.size < word
    → may_own h b.base b.size ≡ true
    → IsFreeable h mem ptr b.base b.size (b.size - b.overhead) b.memalign
unfolding process_free validate
accept h mem ptr buf b p d o w own =
    let l : ltb b.size b.overhead ≡ false = ground arith in
    let s : sub64 b.size b.overhead ≡ b.size - b.overhead = omega arith in
    record {
      poisoned = poison mem b;
      asked = rw (p, d, l, own, s) refl;
      given_back = rw (p, d, l, own) refl;
    }

-- What an allocation hands out, for a block that is freed whole.
abbrev pub Served : Heap → Answer → ℕ → ℕ → ℕ → Bool → Type 0
Served h answer base size data_size aligned =
    (ptr : ℕ) × (mem : Memory) × (answer ≡ allocated ptr mem)
    × (base + 8 ≤ ptr)
    × (ptr + data_size ≡ base + size)
    × IsFreeable h mem ptr base size data_size aligned

served :
    (h : Heap) (answer : Answer) (mem : Memory) (ptr buf n : ℕ) (b : Block)
    → answer ≡ allocated ptr mem
    → IsGranted h b.base b.size
    → sub64 ptr 8 ≡ buf
    → decode_tags h mem buf ≡ block b
    → b.size ≡ n + b.overhead
    → ptr ≡ b.base + b.overhead
    → 8 ≤ b.overhead
    → Served h answer b.base b.size n b.memalign
served h answer mem ptr buf n b e g p d z q o =
    let own = ownable h b.base b.size g in
    let f = accept h mem ptr buf b p d (omega arith) (omega (arith, g.no_wrap)) own in
    let s : b.size - b.overhead ≡ n = omega arith in
    (ptr, mem, e, omega arith, omega arith, rw s at f)

abbrev one_tagged : ℕ → ℕ → ℕ → ℕ → Block
one_tagged base size overhead low = record {
  base = base;
  size = size;
  overhead = overhead;
  poison_low = low;
  two_words = false;
  memalign = false;
}

abbrev two_tagged : ℕ → ℕ → Bool → Block
two_tagged base size memalign = record {
  base = base;
  size = size;
  overhead = 16;
  poison_low = base;
  two_words = true;
  memalign = memalign;
}

module _ (h : Heap) (mem : Memory) (n base : ℕ) where
  small :
      n ≤ 8
      → IsGranted h base (n + 8)
      → Served h (store_tags mem base (n + 8) 0) base (n + 8) n false
  unfolding store_tags
  small le g =
      let mem' = write mem base (tag malloc_magic (n + 8)) in
      let r = readable h base (n + 8) base g (omega arith) (omega arith) in
      let d =
        read_tag h mem' base malloc_magic (n + 8) r (ground arith) (omega arith) (omega arith) in
      served h _ mem' (base + 8) base n (one_tagged base (n + 8) 8 base) (ground arith) g
        (omega (arith, g.no_wrap)) (d ∙ unfold layout_of in refl) refl refl (omega arith)

  middle :
      9 ≤ n
      → n + 16 < 2 ^ 32
      → IsGranted h base (n + 16)
      → Served h (store_tags mem base (n + 16) 0) base (n + 16) n false
  unfolding store_tags
  middle ge lt g =
      let mem' = write mem (base + 8) (tag malloc_second_magic (u32 (n + 16))) in
      let r = readable h base (n + 16) (base + 8) g (omega arith) (omega arith) in
      let u : u32 (n + 16) ≡ n + 16 = omega arith in
      let d =
        read_tag h mem' (base + 8) malloc_second_magic (n + 16) r (ground arith) (omega arith)
          (omega arith) in
      let p : sub64 (base + 8) 8 ≡ base = omega (arith, g.no_wrap) in
      served h _ mem' (base + 16) (base + 8) n (one_tagged base (n + 16) 16 (base + 8))
        (ground arith) g (omega (arith, g.no_wrap)) (d ∙ unfold layout_of in rw p refl) refl refl
        (omega arith)

  large :
      2 ^ 32 ≤ n + 16
      → IsGranted h base (n + 16)
      → Served h (store_tags mem base (n + 16) ((n + 16) / 2 ^ 32)) base (n + 16) n false
  unfolding store_tags
  large ge g =
      let size = n + 16 in
      let high = size / 2 ^ 32 in
      let mem' =
        write (write mem base (tag malloc_magic high)) (base + 8)
          (tag malloc_oversize_magic (u32 size)) in
      let r = readable h base size (base + 8) g (omega arith) (omega arith) in
      let r' = readable h base size base g (omega arith) (omega arith) in
      let d =
        read_tag h mem' (base + 8) malloc_oversize_magic (u32 size) r (ground arith) (omega arith)
          (omega arith) in
      let t =
        read_two h mem' base size malloc_magic false (omega (arith, g.no_wrap)) r' (ground arith)
          (omega arith) (omega (arith, g.no_wrap)) in
      served h _ mem' (base + 16) (base + 8) n (two_tagged base size false) (ground arith) g
        (omega (arith, g.no_wrap)) (d ∙ unfold layout_of in t) refl refl (omega arith)

stored :
    (umem_alloc : ℕ → Option ℕ) (mem : Memory) (n base size high : ℕ)
    → malloc_size n ≡ size
    → umem_alloc size ≡ some base
    → n ≤ size
    → high_size_of size ≡ high
    → umem_malloc umem_alloc mem n ≡ store_tags mem base size high
unfolding umem_malloc
stored umem_alloc mem n base size high z e le q =
    let l : ltb size n ≡ false = ground arith in rw (z, l, e, z, q) refl

-- If a size of at most 2^64 - 17 is asked for and `_umem_alloc` answers a block inside the bounds
-- that the heap's readers have and owned by the heap, then `umem_malloc` answers a pointer at least
-- 8 bytes into that block, with the size asked for up to its end, and `process_free_umem` of that
-- pointer reports the size asked for, or gives the block back to `_umem_free` at its base and with
-- its whole size.
pub malloc_roundtrip :
    (h : Heap) (umem_alloc : ℕ → Option ℕ) (mem : Memory) (size_arg base : ℕ)
    → size_arg + 16 < word
    → umem_alloc (malloc_size size_arg) ≡ some base
    → IsGranted h base (malloc_size size_arg)
    → Served h (umem_malloc umem_alloc mem size_arg) base (malloc_size size_arg) size_arg false
malloc_roundtrip h umem_alloc mem n base w e g = elim (dec_lt n 9) [
  | yes lt ↦
      let z : malloc_size n ≡ n + 8 = unfold malloc_size in ground arith in
      let u =
        stored umem_alloc mem n base (n + 8) 0 z (rw z at e) (omega arith)
          (unfold high_size_of in ground arith) in
      rw (u, z) (small h mem n base (omega arith) (rw z at g))
  | no ge ↦
      let z : malloc_size n ≡ n + 16 = unfold malloc_size in ground arith in
      elim (dec_lt (n + 16) (2 ^ 32)) [
        | yes lt ↦
            let u =
              stored umem_alloc mem n base (n + 16) 0 z (rw z at e) (omega arith)
                (unfold high_size_of in ground arith) in
            rw (u, z) (middle h mem n base (omega arith) lt (rw z at g))
        | no big ↦
            let u =
              stored umem_alloc mem n base (n + 16) ((n + 16) / 2 ^ 32) z (rw z at e) (omega arith)
                (unfold high_size_of in ground arith) in
            rw (u, z) (large h mem n base (omega arith) (rw z at g))
      ]
]

-- If a size of at most 2^64 - 17 and an alignment of at least 16 are asked for, and `vmem_xalloc`
-- answers a block with the phase it is asked for, inside the heap's bounds and owned by it, then
-- the pointer that `memalign_block` answers is a multiple of the alignment,
-- with the size asked for up to the block's end, and `process_free_umem` reports that size, or
-- gives the whole block back to `vmem_xfree`.
pub memalign_roundtrip :
    (h : Heap) (xalloc : ℕ → ℕ → ℕ → Option ℕ) (mem : Memory) (align size_arg base : ℕ)
    → size_arg + 16 < word
    → 16 ≤ align
    → align < word
    → xalloc (size_arg + 16) align (align - 16) ≡ some base
    → base % align ≡ align - 16
    → IsGranted h base (size_arg + 16)
    → Served h (memalign_block xalloc mem align size_arg) base (size_arg + 16) size_arg true
      × ((base + 16) % align ≡ 0)
unfolding memalign_block store_memalign
memalign_roundtrip h xalloc mem align n base w a b e m g =
    let size = n + 16 in
    let mem' =
      write (write mem base (tag memalign_magic (size / 2 ^ 32))) (base + 8)
        (tag memalign_magic (u32 size)) in
    let r = readable h base size (base + 8) g (omega arith) (omega arith) in
    let r' = readable h base size base g (omega arith) (omega arith) in
    let d =
      read_tag h mem' (base + 8) memalign_magic (u32 size) r (ground arith) (omega arith)
        (omega arith) in
    let t =
      read_two h mem' base size memalign_magic true (omega (arith, g.no_wrap)) r' (ground arith)
        (omega arith) (omega (arith, g.no_wrap)) in
    let s : add64 n 16 ≡ n + 16 = omega arith in
    let p : sub64 align 16 ≡ align - 16 = omega arith in
    let l : ltb (n + 16) n ≡ false = ground arith in
    let tags =
      served h _ mem' (base + 16) (base + 8) n (two_tagged base size true) refl g
        (omega (arith, g.no_wrap)) (d ∙ unfold layout_of in t) refl refl (omega arith) in
    let q : base + 16 ≡ (base / align + 1) * align = grind (arith, mod-add-div' base align) in
    (rw (s, p, l, e, s) tags, rw q (mul-mod_left (base / align + 1) align))
