-- ===== src/Slabs.antt =====
-- umem.c: the slab layer of one object cache, under `cache_lock`. A chain of free bufctls is the list
-- of their buffers, head first; the links' mangling is not modelled. The circular list of slabs from
-- `cache_nullslab` is two lists: what stands before `cache_freelist`, and what stands from it on.
pub mod Counts
pub mod Buffers
mod Tests
use libumem.Base.{
  ℕ, zero, suc, ◌+◌, ◌-◌, ◌*◌, ◌/◌, ◌%◌, ◌^◌, Bool, true, false, not, ◌&&◌, ◌||◌, Option, none,
  some, List, [], ◌∷◌, ◌++◌, ltb, ◌==◌, if◌then◌else◌,
}
use libumem.Word.{word, add64, sub64, p2phase}

-- `slab_state`
pub data SlabState : Type 0 where
  active : SlabState
  dirty : SlabState
  clean : SlabState
  reclaiming : SlabState

-- `umem_slab_t`, with the chain at `slab_head`
pub record Slab : Type 0 where
  pub base : ℕ
  pub chunks : ℕ
  pub refcnt : ℕ
  pub head : List ℕ
  pub state : SlabState
  pub idle_time : ℕ

-- `umem_cache_t`, as far as the slab layer uses it
pub record Cache : Type 0 where
  pub chunksize : ℕ
  pub slabsize : ℕ
  pub align : ℕ
  pub color : ℕ
  pub mincolor : ℕ
  pub maxcolor : ℕ
  pub is_hash : Bool
  pub header_size : ℕ
  pub full : List Slab
  pub freelist : List Slab
  pub slab_alloc_count : ℕ
  pub slab_free_count : ℕ
  pub slab_create_count : ℕ
  pub slab_destroy_count : ℕ
  pub buftotal : ℕ
  pub bufmax : ℕ
  pub alloc_fail : ℕ

-- UMEM_SLAB_MEMBER and UMEM_SLAB_CHUNK
pub slab_member : Cache → Slab → ℕ → Bool
slab_member c sp buf = ltb (sub64 buf sp.base) (sp.chunks * c.chunksize % word)

pub slab_chunk : Cache → Slab → ℕ → Bool
unfolding slab_member
slab_chunk c sp buf = slab_member c sp buf && (sub64 buf sp.base % c.chunksize == 0)

-- The loop of `umem_slab_create`: the buffers from `buf` on are put in front of the chain.
pub thread_chunks : ℕ → ℕ → ℕ → List ℕ → List ℕ
thread_chunks zero chunksize buf head = head
thread_chunks (suc n) chunksize buf head =
    thread_chunks n chunksize (add64 buf chunksize) (buf ∷ head)

-- The next colour.
pub next_color : Cache → ℕ
next_color c =
    let color = add64 c.color c.align in if ltb c.maxcolor color then c.mincolor else color

-- How many buffers a new slab has room for.
pub new_chunks : Cache → ℕ
unfolding next_color
new_chunks c =
    let whole = if c.is_hash then c.slabsize else sub64 c.slabsize c.header_size in
    sub64 whole (next_color c) / c.chunksize

-- `umem_slab_create`, from the address that the arena returned. Its allocations from the caches of
-- slabs and bufctls succeed here, and the debugging patterns are left out.
pub slab_create : Cache → Option ℕ → Cache × Option Slab
unfolding thread_chunks next_color new_chunks
slab_create c none = (record c { color = next_color c; alloc_fail = add64 c.alloc_fail 1 }, none)
slab_create c (some slab) =
    let color = next_color c in
    let chunks = new_chunks c in
    (
      record c { color = color },
      some (record {
        base = add64 slab color;
        chunks = chunks;
        refcnt = 0;
        head = thread_chunks chunks c.chunksize (add64 slab color) [];
        state = active;
        idle_time = 0;
      }),
    )

-- A new slab is counted, and put at `cache_freelist`.
pub add_slab : Cache → Slab → Cache
add_slab c sp =
    let total = add64 c.buftotal sp.chunks in
    record c {
      slab_create_count = add64 c.slab_create_count 1;
      buftotal = total;
      bufmax = if ltb c.bufmax total then total else c.bufmax;
      freelist = sp ∷ c.freelist;
    }

-- What a walk along the slabs skips, the slab where it stops, and what follows.
pub record Found : Type 0 where
  pub skipped : List Slab
  pub slab : Slab
  pub behind : List Slab

abbrev pub is_reclaiming : Slab → Bool
is_reclaiming sp = elim (sp.state) [ reclaiming ↦ true | _ ↦ false ]

abbrev pub is_empty : List ℕ → Bool
is_empty [] = true
is_empty (x ∷ xs) = false

abbrev pub no_buffers : Slab → Bool
no_buffers sp = is_empty sp.head

-- The walk past slabs that are being reclaimed.
pub usable : List Slab → List Slab → Option Found
usable skipped [] = none
usable skipped (sp ∷ sps) =
    let rest = usable (skipped ++ (sp ∷ [])) sps in
    if is_reclaiming sp || no_buffers sp
    then rest
    else some (record { skipped = skipped; slab = sp; behind = sps })

-- The slab to allocate from: the first, unless it has no buffer or is being reclaimed.
pub choose : List Slab → Option Found
unfolding usable
choose [] = none
choose (sp ∷ sps) =
    if no_buffers sp
    then none
    else if is_reclaiming sp
    then usable (sp ∷ []) sps
    else some (record { skipped = []; slab = sp; behind = sps })

-- The slab once a buffer is out, with the rest of its chain.
pub taken : Slab → List ℕ → Slab
taken sp head = record sp {
  head = head;
  refcnt = sp.refcnt + 1;
  state = active;
  idle_time = elim (sp.state) [ active ↦ sp.idle_time | _ ↦ 0 ];
}

-- Takes the first buffer of a chain, the slab's. The last one moves `cache_freelist` behind the slab.
pub take : Cache → Found → List ℕ → Cache × Option ℕ
unfolding taken
take c f [] = (c, none)
take c f (buf ∷ []) = (
  record c { full = c.full ++ (f.skipped ++ (taken f.slab [] ∷ [])); freelist = f.behind },
  some buf,
)
take c f (buf ∷ next ∷ rest) =
    (record c { freelist = f.skipped ++ (taken f.slab (next ∷ rest) ∷ f.behind) }, some buf)

-- `umem_slab_alloc`, where every link is valid. The arena's answer is used if a slab is wanted.
pub slab_alloc : Cache → Option ℕ → Cache × Option ℕ
unfolding slab_create add_slab choose take
slab_alloc c answer =
    let counted = record c { slab_alloc_count = add64 c.slab_alloc_count 1 } in
    elim (choose c.freelist) [
      | some f ↦ take counted f f.slab.head
      | none ↦
          let made = slab_create counted answer in
          elim (made.1) [
            | none ↦ (made.0, none)
            | some sp ↦
                take (add_slab made.0 sp) (record { skipped = []; slab = sp; behind = c.freelist })
                  sp.head
          ]
    ]

-- The slab of a buffer, in either list.
pub slab_of : Cache → ℕ → List Slab → List Slab → Option Found
unfolding slab_chunk
slab_of c buf skipped [] = none
slab_of c buf skipped (sp ∷ sps) =
    let rest = slab_of c buf (skipped ++ (sp ∷ [])) sps in
    if slab_chunk c sp buf
    then some (record { skipped = skipped; slab = sp; behind = sps })
    else rest

-- Puts the buffer back on its slab, which stands between the two lists. A slab without references
-- stays as a dirty one where pages are reclaimed, and is destroyed otherwise.
pub put : Bool → ℕ → Slab → Slab
put reclaim_enabled buf sp =
    let refs = sp.refcnt - 1 in
    let back = record sp { head = buf ∷ sp.head; refcnt = refs } in
    if (refs == 0) && reclaim_enabled then record back { state = dirty; idle_time = 0 } else back

-- What `umem_slab_free` comes to: a bad address, or the cache and the slab that it destroys.
pub data Freed : Type 0 where
  bad_address : Cache → Freed
  freed : Cache → Option Slab → Freed

pub forget_slab : Cache → Slab → Cache
forget_slab c sp = record c {
  slab_destroy_count = add64 c.slab_destroy_count 1;
  buftotal = sub64 c.buftotal sp.chunks;
}

-- The end of `umem_slab_free`, from the cache with the slab in its place, and the cache without it.
pub settle : Bool → Slab → ℕ → (Slab → Cache) → Cache → Freed
unfolding put forget_slab
settle reclaim_enabled sp buf keep gone =
    let back = put reclaim_enabled buf sp in
    if (back.refcnt == 0) && not reclaim_enabled
    then freed (forget_slab gone sp) (some back)
    else freed (keep back) none

-- `umem_slab_free`: a slab whose chain was empty is put at `cache_freelist`.
pub slab_free : Bool → Cache → ℕ → Freed
unfolding slab_of settle
slab_free reclaim_enabled c buf =
    let counted = record c { slab_free_count = add64 c.slab_free_count 1 } in
    elim (slab_of c buf [] c.full) [
      | some f ↦
          let gone = record counted { full = f.skipped ++ f.behind } in
          let keep = λ (sp : Slab).
            if no_buffers f.slab
            then record gone { freelist = sp ∷ c.freelist }
            else record counted { full = f.skipped ++ (sp ∷ f.behind) } in
          settle reclaim_enabled f.slab buf keep gone
      | none ↦ elim (slab_of c buf [] c.freelist) [
        | some f ↦
            let gone = record counted { freelist = f.skipped ++ f.behind } in
            let keep = λ (sp : Slab).
              if no_buffers f.slab
              then record counted { freelist = sp ∷ (f.skipped ++ f.behind) }
              else record counted { freelist = f.skipped ++ (sp ∷ f.behind) } in
            settle reclaim_enabled f.slab buf keep gone
        | none ↦ bad_address counted
      ]
    ]
