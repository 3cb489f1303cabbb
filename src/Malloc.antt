-- ===== src/Malloc.antt =====
-- malloc.c: the tags in front of the blocks of `umem_malloc` and `umem_memalign`, and how `free`
-- reads them. Memory is read at the addresses of the tags. The 64-bit layout is modelled.
pub mod Layout
pub mod Decision
pub mod Fast
pub mod Aligned
mod Tests
use Prim.Native.Nat.{bit_and}
use libumem.Base.{
  ℕ, zero, suc, ◌+◌, ◌-◌, ◌*◌, ◌/◌, ◌%◌, ◌^◌, Bool, true, false, not, ◌&&◌, ◌||◌, Option, none,
  some, ltb, leb, ◌==◌, if◌then◌else◌,
}
use libumem.Word.{word, add64, sub64}

-- `malloc_data_t`: two words of 32 bits.
pub record Tag : Type 0 where
  pub size : ℕ
  pub stat : ℕ

abbrev pub Memory : Type 0
Memory = ℕ → Tag

-- sizeof (malloc_data_t)
abbrev pub tag_size : ℕ
tag_size = 8

abbrev pub u32 : ℕ → ℕ
u32 n = n % 2 ^ 32

abbrev pub malloc_magic : ℕ
malloc_magic = 0x3a10c000

abbrev pub memalign_magic : ℕ
memalign_magic = 0x3e3a1000

abbrev pub malloc_second_magic : ℕ
malloc_second_magic = 0x16ba7000

abbrev pub malloc_oversize_magic : ℕ
malloc_oversize_magic = 0x06e47000

abbrev pub free_pattern : ℕ
free_pattern = 0xdeadbeef

abbrev pub second_align : ℕ
second_align = 16

abbrev pub maxbuf : ℕ
maxbuf = 131072

-- UMEM_MALLOC_ENCODE and UMEM_MALLOC_DECODE
pub encode : ℕ → ℕ → ℕ
encode type size = u32 (sub64 type size)

pub decode : ℕ → ℕ → ℕ
decode stat size = u32 (add64 stat size)

-- The tag for a size, which is cut to 32 bits where it is stored.
pub tag : ℕ → ℕ → Tag
unfolding encode
tag magic size = record { size = u32 size; stat = encode magic size }

abbrev pub write : Memory → ℕ → Tag → Memory
write mem a t b = if a == b then t else mem b

pub data Errno : Type 0 where
  eagain : Errno
  enomem : Errno
  einval : Errno

pub data Answer : Type 0 where
  failed : Errno → Answer
  allocated : ℕ → Memory → Answer

-- The size that `umem_malloc` asks for, modulo 2^64.
pub malloc_size : ℕ → ℕ
malloc_size size_arg =
    let size = add64 size_arg tag_size in
    if ltb second_align size then add64 size tag_size else size

-- The three layouts: two tags for a size of more than 32 bits, one tag behind 8 bytes that are left
-- alone, or one tag.
pub store_tags : Memory → ℕ → ℕ → ℕ → Answer
unfolding tag
store_tags mem base size high_size =
    if ltb 0 high_size
    then allocated (base + 16) (
        write (write mem base (tag malloc_magic high_size)) (base + 8)
          (tag malloc_oversize_magic (u32 size)))
    else if ltb second_align size
    then allocated (base + 16) (write mem (base + 8) (tag malloc_second_magic (u32 size)))
    else allocated (base + 8) (write mem base (tag malloc_magic size))

-- The upper half of the size, where there are two tags.
pub high_size_of : ℕ → ℕ
high_size_of size = if ltb second_align size then u32 (size / 2 ^ 32) else 0

-- `umem_malloc` once the library is ready, from what `_umem_alloc` answers to a size.
pub umem_malloc : (ℕ → Option ℕ) → Memory → ℕ → Answer
unfolding malloc_size store_tags high_size_of
umem_malloc umem_alloc mem size_arg =
    let size = malloc_size size_arg in
    if ltb size size_arg then failed enomem else elim (umem_alloc size) [
      | none ↦ failed (if leb size maxbuf then eagain else enomem)
      | some base ↦ store_tags mem base size (high_size_of size)
    ]

-- The two tags of a block with an alignment.
pub store_memalign : Memory → ℕ → ℕ → Answer
unfolding tag
store_memalign mem buf size = allocated (buf + 16) (
    write (write mem buf (tag memalign_magic (size / 2 ^ 32))) (buf + 8)
      (tag memalign_magic (u32 size)))

-- `umem_memalign` where it does not call `umem_malloc`, from what `vmem_xalloc` answers to a size,
-- an alignment and a phase. The overhead is two tags.
pub memalign_block : (ℕ → ℕ → ℕ → Option ℕ) → Memory → ℕ → ℕ → Answer
unfolding store_memalign
memalign_block xalloc mem align size_arg =
    let size = add64 size_arg 16 in
    if ltb size size_arg then failed enomem else elim (xalloc size align (sub64 align 16)) [
      | none ↦ failed (if leb (add64 size_arg align) maxbuf then eagain else enomem)
      | some buf ↦ store_memalign mem buf size
    ]

-- UMEM_ALIGN
abbrev pub umem_align : ℕ
umem_align = 8

-- `umem_memalign`, once its arena is there.
pub umem_memalign : (ℕ → Option ℕ) → (ℕ → ℕ → ℕ → Option ℕ) → Memory → ℕ → ℕ → Answer
unfolding umem_malloc memalign_block
umem_memalign umem_alloc xalloc mem align size_arg =
    if (size_arg == 0) || (align == 0) || not (bit_and align (align - 1) == 0)
    then failed einval
    else if leb align umem_align || (leb align second_align && leb second_align size_arg)
    then umem_malloc umem_alloc mem size_arg
    else memalign_block xalloc mem align size_arg

-- `hull_contains` of the bounds of the heap
pub record Hull : Type 0 where
  pub low : ℕ
  pub high : ℕ

pub hull_contains : Hull → ℕ → ℕ → Bool
hull_contains h addr len =
    let end = add64 addr len in
    if (addr == 0) || (len == 0) || ltb end addr then false else leb h.low addr && leb end h.high

-- What a call of `free` knows of the heap: the bounds it has read, those it reads when they are too
-- narrow, and `span_owns_cached`.
pub record Heap : Type 0 where
  pub seen : Hull
  pub fresh : Hull
  pub owns : ℕ → ℕ → Bool

-- MAY_READ and MAY_OWN
pub may_read : Heap → ℕ → ℕ → Bool
unfolding hull_contains
may_read h p n = hull_contains h.seen p n || hull_contains h.fresh p n

pub may_own : Heap → ℕ → ℕ → Bool
unfolding hull_contains
may_own h p n =
    (hull_contains h.seen p n && h.owns p n) || (hull_contains h.fresh p n && h.owns p n)

pub data Message : Type 0 where
  outside_heap : Message
  double_free : Message
  corrupted : Message
  not_an_allocation : Message

-- What the tags say: the block, the least size that they allow, the first of the state words to be
-- cleared, whether there are two, and whether the block is from `umem_memalign`.
pub record Block : Type 0 where
  pub base : ℕ
  pub size : ℕ
  pub overhead : ℕ
  pub poison_low : ℕ
  pub two_words : Bool
  pub memalign : Bool

pub data Decoded : Type 0 where
  refused : Message → Decoded
  block : Block → Decoded

-- The layouts with a tag for the upper half of the size in front.
pub two_tags : Heap → Memory → ℕ → ℕ → ℕ → Bool → Decoded
unfolding may_read decode
two_tags h mem buf size magic memalign =
    let low = sub64 buf tag_size in
    let high_size = (mem low).size in
    if not (may_read h low tag_size)
    then refused corrupted
    else if not (decode (mem low).stat high_size == magic)
    then refused corrupted
    else block (record {
      base = low;
      size = add64 size (high_size * 2 ^ 32 % word);
      overhead = 16;
      poison_low = low;
      two_words = true;
      memalign = memalign;
    })

-- The switch of `process_free_umem`, on the decoded state and the size of the tag at `buf`.
pub layout_of : Heap → Memory → ℕ → ℕ → ℕ → Decoded
unfolding two_tags
layout_of h mem buf magic size =
    if magic == malloc_magic
    then block (record {
      base = buf;
      size = size;
      overhead = 8;
      poison_low = buf;
      two_words = false;
      memalign = false;
    })
    else if magic == malloc_second_magic
    then block (record {
      base = sub64 buf tag_size;
      size = size;
      overhead = 16;
      poison_low = buf;
      two_words = false;
      memalign = false;
    })
    else if magic == malloc_oversize_magic
    then two_tags h mem buf size malloc_magic false
    else if magic == memalign_magic
    then two_tags h mem buf size memalign_magic true
    else refused (if (mem buf).stat == free_pattern then double_free else corrupted)

pub decode_tags : Heap → Memory → ℕ → Decoded
unfolding layout_of may_read decode
decode_tags h mem buf =
    if not (may_read h buf tag_size)
    then refused outside_heap
    else layout_of h mem buf (decode (mem buf).stat (mem buf).size) (mem buf).size

-- Overwrites the state words of a block.
pub poison : Memory → Block → Memory
poison mem b =
    let clear = λ (m : Memory) (a : ℕ). write m a (record (m a) { stat = free_pattern }) in
    if b.two_words
    then clear (clear mem b.poison_low) (b.poison_low + 8)
    else clear mem b.poison_low

-- What `process_free_umem` comes to. A refusal has changed nothing; a size was asked for; or memory
-- is poisoned and the block goes to `_umem_free` or to `vmem_xfree`.
pub data Freed : Type 0 where
  rejected : Message → Freed
  sized : ℕ → Freed
  umem_free : ℕ → ℕ → Memory → Freed
  vmem_xfree : ℕ → ℕ → Memory → Freed

pub validate : Heap → Memory → Bool → Decoded → Freed
unfolding may_own poison
validate h mem do_free (refused m) = rejected m
validate h mem do_free (block b) =
    if ltb b.size b.overhead || not (may_own h b.base b.size)
    then rejected not_an_allocation
    else if not do_free
    then sized (sub64 b.size b.overhead)
    else if b.memalign
    then vmem_xfree b.base b.size (poison mem b)
    else umem_free b.base b.size (poison mem b)

-- `process_free_umem`
pub process_free : Heap → Memory → ℕ → Bool → Freed
unfolding decode_tags validate
process_free h mem ptr do_free = validate h mem do_free (decode_tags h mem (sub64 ptr tag_size))

-- `umem_malloc_free` of a pointer that is neither NULL nor a bootstrap pointer.
pub umem_malloc_free : Heap → Memory → ℕ → Freed
umem_malloc_free h mem ptr =
    let hdr = sub64 ptr tag_size in
    let size = (mem hdr).size in
    let magic = decode (mem hdr).stat size in
    let second = magic == malloc_second_magic in
    let base = if second then sub64 hdr tag_size else hdr in
    let overhead = if second then 16 else 8 in
    let slow = process_free h mem ptr true in
    if not (hull_contains h.seen hdr tag_size)
    then slow
    else if not (second || (magic == malloc_magic))
    then slow
    else if ltb size overhead || not (hull_contains h.seen base size) || not (h.owns base size)
    then slow
    else umem_free base size (write mem hdr (record (mem hdr) { stat = free_pattern }))
