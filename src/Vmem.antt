-- ===== src/Vmem.antt =====
-- vmem.c: one arena, under its lock. `none` stands for `umem_panic`.
pub mod Bucket
pub mod Valid
pub mod SegAlloc
pub mod Free
pub mod Size
pub mod Panic
mod Tests
use Prim.Native.Nat.{bit_and}
use libumem.Base.{
  ℕ, zero, suc, ◌+◌, ◌-◌, ◌*◌, ◌/◌, ◌%◌, ◌^◌, Bool, true, false, not, ◌&&◌, Option, none, some,
  List, [], ◌∷◌, ◌++◌, inl, inr, ◌⊎◌, ltb, leb, ◌||◌, ◌==◌, if◌then◌else◌,
}
use libumem.Word.{word, add64, sub64, p2roundup, p2samehighbit, highbit}
use libumem.Chains.{Table, push, delete, rename, is_single}
use libumem.Segs.{
  Seg, span, alloc, free, rotor, Place, rev_append, locate_free, locate_alloc, next_is_span,
}

-- `vmem_t`. The bits of `vm_freemap` are a function; the statistics are those that the code below
-- updates. `freelist` and `hash` are indexed as `vm_freelist` and `vm_hash_table` are.
pub record Vmem : Type 0 where
  pub quantum : ℕ
  pub qshift : ℕ
  pub has_source_free : Bool
  pub segs : List Seg
  pub nsegfree : ℕ
  pub freelist : Table
  pub freemap : ℕ → Bool
  pub hash : Table
  pub hash_shift : ℕ
  pub hash_mask : ℕ
  pub mem_inuse : ℕ
  pub mem_import : ℕ
  pub mem_total : ℕ
  pub nalloc : ℕ
  pub nfree : ℕ
  pub nlookup : ℕ

-- VS_SIZE
abbrev pub vs_size : ℕ → ℕ → ℕ
vs_size start end = sub64 end start

-- VMEM_HASH_INDEX
pub hash_index : ℕ → ℕ → ℕ → ℕ → ℕ
hash_index a shift q mask = bit_and ((a + a / 2 ^ shift + a / 2 ^ (shift * 2)) % word / 2 ^ q) mask

abbrev pub hash_of : Vmem → ℕ → ℕ
hash_of v a = hash_index a v.hash_shift v.qshift v.hash_mask

-- The index of the freelist for a size.
pub bucket : ℕ → ℕ
bucket size = highbit size - 1

abbrev pub set_bit : (ℕ → Bool) → ℕ → Bool → ℕ → Bool
set_bit m i b j = if i == j then b else m j

-- `vmem_getseg` and `vmem_putseg`
abbrev pub getseg : Vmem → Vmem
getseg v = record v { nsegfree = v.nsegfree - 1 }

abbrev pub putseg : Vmem → Vmem
putseg v = record v { nsegfree = v.nsegfree + 1 }

pub freelist_insert : Vmem → ℕ → ℕ → Vmem
freelist_insert v start end =
    let i = bucket (vs_size start end) in
    record v { freelist = push v.freelist i start; freemap = set_bit v.freemap i true }

-- The bit is flipped when the segment was alone in its list.
pub freelist_delete : Vmem → ℕ → ℕ → Vmem
freelist_delete v start end =
    let i = bucket (vs_size start end) in
    record v {
      freelist = delete v.freelist i start;
      freemap =
          if is_single (v.freelist i) start
          then set_bit v.freemap i (not (v.freemap i))
          else v.freemap;
    }

pub hash_insert : Vmem → ℕ → ℕ → Vmem
hash_insert v start end = record v {
  hash = push v.hash (hash_of v start) start;
  nalloc = add64 v.nalloc 1;
  mem_inuse = add64 v.mem_inuse (vs_size start end);
}

-- How many entries of a bucket the lookup passes before it finds the address.
pub depth : ℕ → List ℕ → Option ℕ
depth x [] = none
depth x (y ∷ ys) =
    if y == x then some 0 else elim (depth x ys) [ none ↦ none | some n ↦ some (suc n) ]

-- The bucket's pointer is the segment itself: the allocated one at that address. An entry that no segment
-- has would be a stale pointer, and is `none` too.
pub hash_delete : Vmem → ℕ → ℕ → Option (Vmem × Place)
unfolding depth
hash_delete v addr size = elim (depth addr (v.hash (hash_of v addr))) [
  | none ↦ none
  | some passed ↦ elim (locate_alloc [] v.segs addr) [
    | none ↦ none
    | some p ↦ if vs_size p.start p.end == size then some (unlinked passed, p) else none
  ]
]
  where
    unlinked : ℕ → Vmem
    unlinked passed = record v {
      hash = delete v.hash (hash_of v addr) addr;
      nlookup = add64 v.nlookup passed;
      nfree = add64 v.nfree 1;
      mem_inuse = sub64 v.mem_inuse size;
    }

-- A leftover goes back to the freelists as a segment of its own, unless it is empty.
pub give_back : Bool → Vmem → ℕ → ℕ → Vmem
unfolding freelist_insert
give_back empty v start end = if empty then v else freelist_insert (getseg v) start end

abbrev pub left_over : Bool → ℕ → ℕ → Bool → List Seg
left_over empty start end import = if empty then [] else free start end import ∷ []

-- The fast path: the segment keeps its place on its freelist, and only its start moves.
pub shrink : Vmem → Place → ℕ → ℕ → ℕ → Vmem
unfolding hash_insert
shrink v p addr stop addr_end =
    hash_insert
      (record (getseg v) {
        freelist = rename v.freelist (bucket (vs_size p.start p.end)) p.start addr_end;
        segs = rev_append p.before (alloc addr stop false ∷ free addr_end p.end p.import ∷ p.after);
      })
      addr stop

-- The general path: the segment leaves its freelist, and becomes the allocated one.
pub carve : Vmem → Place → ℕ → ℕ → ℕ → Bool → Bool → Vmem
unfolding freelist_delete hash_insert give_back
carve v p addr stop addr_end at_start at_end =
    let cut = freelist_delete v p.start p.end in
    let right = give_back at_end cut addr_end p.end in
    let left = give_back at_start right p.start addr in
    hash_insert
      (record left {
        segs = rev_append p.before (
            left_over at_start p.start addr false
            ++ (alloc addr stop p.import ∷ (left_over at_end addr_end p.end false ++ p.after)));
      })
      addr stop

-- `vmem_seg_alloc`: takes [addr, addr + size) out of the free segment at `p`. What is left over on
-- either side goes back to the freelists; a new segment has no import mark.
pub seg_alloc : Vmem → Place → ℕ → ℕ → Vmem
unfolding shrink carve
seg_alloc v p addr size =
    let realsize = p2roundup size v.quantum in
    let whole = vs_size p.start p.end in
    let addr_end = add64 addr realsize in
    if p2samehighbit whole (sub64 whole realsize) && (addr == p.start)
    then shrink v p addr (add64 addr size) addr_end
    else carve v p addr (add64 addr size) addr_end (p.start == addr) (p.end == addr_end)

-- `vmem_xfree` up to its test for a whole span: the segment at `p` takes in a free neighbour.
pub merge_next : Vmem → Place → Vmem × Place
unfolding freelist_delete
merge_next v p = elim (p.after) [
  | [] ↦ (v, p)
  | span s e ∷ ss ↦ (v, p)
  | alloc s e i ∷ ss ↦ (v, p)
  | free s e i ∷ ss ↦ (putseg (freelist_delete v s e), record p { end = e; after = ss })
  | rotor ∷ ss ↦ (v, p)
]

-- The previous segment is the one that stays, with its import mark.
pub merge_prev : Vmem → Place → Vmem × Place
unfolding freelist_delete
merge_prev v p = elim (p.before) [
  | [] ↦ (v, p)
  | span s e ∷ ss ↦ (v, p)
  | alloc s e i ∷ ss ↦ (v, p)
  | free s e i ∷ ss ↦
      (putseg (freelist_delete v s e), record p { before = ss; start = s; import = i })
  | rotor ∷ ss ↦ (v, p)
]

-- `vmem_span_destroy` of the span whose only segment is at `p`, where `before` precedes the span.
pub span_destroy : Vmem → Place → List Seg → Vmem
span_destroy v p before =
    let size = vs_size p.start p.end in
    record (putseg (putseg v)) {
      segs = rev_append before p.after;
      mem_import = if p.import then sub64 v.mem_import size else v.mem_import;
      mem_total = sub64 v.mem_total size;
    }

-- The range that `vm_source_free` is called with, where it is called.
abbrev pub Returned : Type 0
Returned = Option (ℕ × ℕ)

-- Is the segment at `p` a whole span that the source takes back?
pub is_returned : Vmem → Place → Bool
is_returned v p = p.import && v.has_source_free && next_is_span p.before && next_is_span p.after

abbrev pub behind : List Seg → List Seg
behind [] = []
behind (s ∷ ss) = ss

-- The end of `vmem_xfree`.
pub retire : Bool → Vmem → Place → Vmem × Returned
unfolding freelist_insert span_destroy
retire returned v p =
    if returned
    then (span_destroy v p (behind p.before), some (p.start, vs_size p.start p.end))
    else (
      record (freelist_insert v p.start p.end) {
        segs = rev_append p.before (free p.start p.end p.import ∷ p.after);
      },
      none,
    )

pub merge : Vmem → Place → Vmem × Place
unfolding merge_next merge_prev
merge v p = let next = merge_next v p in merge_prev next.0 next.1

-- `vmem_xfree`
pub xfree : Vmem → ℕ → ℕ → Option (Vmem × Returned)
unfolding hash_delete merge retire is_returned
xfree v addr size = elim (hash_delete v addr size) [
  | none ↦ none
  | some found ↦
      let merged = merge found.0 (record (found.1) { end = p2roundup found.1.end v.quantum }) in
      some (retire (is_returned merged.0 merged.1) merged.0 merged.1)
]

-- `vmem_contains`: is the range inside one span? The counts of calls and steps are left out.
pub contains : List Seg → ℕ → ℕ → Bool
contains [] start size = false
contains (span s e ∷ ss) start size =
    let last = sub64 (add64 start size) 1 in
    (leb s start && leb last (sub64 e 1)) || contains ss start size
contains (other ∷ ss) start size = contains ss start size

-- `vmem_size`, with the two bits of its mask
pub vmem_size : Vmem → Bool → Bool → ℕ
vmem_size v allocated available =
    let size = if allocated then v.mem_inuse else 0 in
    if available then add64 size (sub64 v.mem_total v.mem_inuse) else size

-- `vmem_free`: a small size goes to the quantum cache with the index that is returned, any other to
-- `vmem_xfree`.
pub vmem_free : Vmem → ℕ → ℕ → ℕ → ℕ ⊎ Option (Vmem × Returned)
unfolding xfree
vmem_free v qcache_max addr size =
    if ltb (sub64 size 1) qcache_max
    then inl (sub64 size 1 / 2 ^ v.qshift)
    else inr (xfree v addr size)
