-- ===== src/Slabs/Buffers.antt =====
-- umem.c: which buffers are on the chains of a cache, through an allocation and a free.
use libumem.Base.{
  ℕ, zero, suc, ◌+◌, ◌-◌, ◌<◌, ◌≡◌, refl, ap, Bool, true, false, Option, none, some, List, [], ◌∷◌,
  ◌++◌, ◌==◌, if◌then◌else◌, arith, All, length, Bool-cases, Option-cases, inl, inr,
}
use mathlib.Core.Path.{subst}
use mathlib.Core.Option.{some-injective}
use libumem.Word.{add64}
use libumem.Chains.Count.{indicator, count}
use libumem.Slabs.{
  active, Slab, Cache, Found, Freed, bad_address, freed, is_reclaiming, no_buffers, is_empty, taken,
  thread_chunks, new_chunks, next_color, slab_create, add_slab, choose, take, slab_alloc,
  slab_chunk, slab_of, put, settle, forget_slab, slab_free,
}
use libumem.Slabs.Counts.{
  IsValid, IsOpen, Settled, choose-first, nonempty, length-thread_chunks, slab_alloc-IsValid,
  slab_free-IsValid,
}

-- How often an address is on the chains of slabs, and on those of a cache.
abbrev pub in_slabs : ℕ → List Slab → ℕ
in_slabs b [] = 0
in_slabs b (sp ∷ sps) = count b sp.head + in_slabs b sps

abbrev pub free_count : ℕ → Cache → ℕ
free_count b c = in_slabs b c.full + in_slabs b c.freelist

abbrev pub out : ℕ → Option ℕ → ℕ
out b none = 0
out b (some x) = indicator (x == b)

-- The buffers of a new slab, from its first to its last.
abbrev pub chunk_list : ℕ → ℕ → ℕ → List ℕ
chunk_list zero chunksize buf = []
chunk_list (suc n) chunksize buf = buf ∷ chunk_list n chunksize (add64 buf chunksize)

-- What an allocation adds: the buffers of a new slab, if no slab is at `cache_freelist` and the arena
-- has one.
abbrev pub new_buffers : Cache → Option ℕ → List Slab → List ℕ
new_buffers c answer (sp ∷ sps) = []
new_buffers c none [] = []
new_buffers c (some slab) [] = chunk_list (new_chunks c) c.chunksize (add64 slab (next_color c))

in_slabs-append :
    (b : ℕ) (xs ys : List Slab) → in_slabs b (xs ++ ys) ≡ in_slabs b xs + in_slabs b ys
in_slabs-append b [] ys = omega arith
in_slabs-append b (x ∷ xs) ys = omega (arith, in_slabs-append b xs ys)

count-thread_chunks :
    (b n chunksize buf : ℕ) (head : List ℕ)
    → count b (thread_chunks n chunksize buf head)
      ≡ count b (chunk_list n chunksize buf) + count b head
unfolding thread_chunks count
count-thread_chunks b zero chunksize buf head = omega arith
count-thread_chunks b (suc n) chunksize buf head =
    omega (arith, count-thread_chunks b n chunksize (add64 buf chunksize) (buf ∷ head))

-- A buffer that is taken leaves its chain, and the others stay.
take-count :
    (b : ℕ) (c : Cache) (sp : Slab) (sps : List Slab) (head : List ℕ)
    → is_empty head ≡ false
    → let r = take c (record { skipped = []; slab = sp; behind = sps }) head in
      free_count b r.0 + out b r.1 ≡ in_slabs b c.full + count b head + in_slabs b sps
unfolding take taken count
take-count b c sp sps [] h = absurd (ground (arith, h))
take-count b c sp sps (buf ∷ []) h = omega (arith, in_slabs-append b c.full (taken sp [] ∷ []))
take-count b c sp sps (buf ∷ next ∷ rest) h = omega arith

made-count :
    (b : ℕ) (c : Cache) (answer : Option ℕ)
    → choose c.freelist ≡ none
    → 0 < new_chunks c
    → let r = slab_alloc c answer in
      free_count b r.0 + out b r.1 ≡ free_count b c + count b (new_buffers c answer [])
unfolding slab_alloc slab_create add_slab count new_chunks next_color
made-count b c none e roomy = rw (slab_alloc, e) (omega arith)
made-count b c (some slab) e roomy =
    let d : Cache = record c { slab_alloc_count = add64 c.slab_alloc_count 1 } in
    let n = new_chunks d in
    let head = thread_chunks n c.chunksize (add64 slab (next_color d)) [] in
    let l : length head ≡ n =
      omega (arith, length-thread_chunks n c.chunksize (add64 slab (next_color d)) []) in
    let t =
      take-count b
        (add_slab (slab_create d (some slab)).0 (record {
          base = add64 slab (next_color d);
          chunks = n;
          refcnt = 0;
          head = head;
          state = active;
          idle_time = 0;
        }))
        (record {
          base = add64 slab (next_color d);
          chunks = n;
          refcnt = 0;
          head = head;
          state = active;
          idle_time = 0;
        })
        c.freelist head (nonempty head (omega (arith, l, roomy))) in
    let m = count-thread_chunks b n c.chunksize (add64 slab (next_color d)) [] in
    rw (slab_alloc, e) (omega (arith, t, m))

-- In a cache whose slabs account for their numbers of buffers, with the full ones before
-- `cache_freelist` and behind it only slabs that have a free buffer and are not being reclaimed, an
-- allocation keeps this so, with whatever answer from the arena, if a new slab has room for a buffer.
-- Every address is afterwards as often on a chain, or handed over, as it was on a chain or is a buffer of
-- the new slab, which is made if no slab is at `cache_freelist` and the arena has one.
pub slab_alloc-Kept :
    (c : Cache) (answer : Option ℕ)
    → IsValid c
    → 0 < new_chunks c
    → let r = slab_alloc c answer in
      IsValid r.0
      × ((b : ℕ)
          → free_count b r.0 + out b r.1
            ≡ free_count b c + count b (new_buffers c answer c.freelist))
slab_alloc-Kept c answer v roomy =
    (slab_alloc-IsValid c answer v roomy, λ b. from b c.freelist refl v.open_slabs)
  where
    from :
        (b : ℕ) (sps : List Slab)
        → c.freelist ≡ sps
        → All IsOpen sps
        → let r = slab_alloc c answer in
          free_count b r.0 + out b r.1 ≡ free_count b c + count b (new_buffers c answer sps)
    from b [] e a = made-count b c answer (rw e (unfold choose in refl)) roomy
    from b (sp ∷ sps) e a =
        let first : choose c.freelist ≡ some (record { skipped = []; slab = sp; behind = sps }) =
          rw e (choose-first sp sps a.0) in
        let all : in_slabs b c.freelist ≡ count b sp.head + in_slabs b sps = ap (in_slabs b) e in
        let t =
          take-count b (record c { slab_alloc_count = add64 c.slab_alloc_count 1 }) sp sps sp.head
            a.0.1 in
        unfold slab_alloc in unfold count in rw (slab_alloc, first) (omega (arith, t, all))

slab_of-count :
    (b : ℕ) (c : Cache) (buf : ℕ) (skipped sps : List Slab) (f : Found)
    → slab_of c buf skipped sps ≡ some f
    → in_slabs b f.skipped + count b f.slab.head + in_slabs b f.behind
      ≡ in_slabs b skipped + in_slabs b sps
unfolding slab_of
slab_of-count b c buf skipped [] f e = cc
slab_of-count b c buf skipped (sp ∷ sps) f e = elim (Bool-cases (slab_chunk c sp buf)) [
  | inl q ↦
      subst
        (λ g.
          in_slabs b g.skipped + count b g.slab.head + in_slabs b g.behind
          ≡ in_slabs b skipped + in_slabs b (sp ∷ sps))
        (some-injective (record { skipped = skipped; slab = sp; behind = sps }) f
          (rw (slab_of, q) at e))
        (omega arith)
  | inr q ↦ omega (
    arith,
    slab_of-count b c buf (skipped ++ (sp ∷ [])) sps f (rw (slab_of, q) at e),
    in_slabs-append b skipped (sp ∷ []),
  )
]

-- The chains of the slab that a free destroys.
abbrev pub destroyed : ℕ → Option Slab → ℕ
destroyed b none = 0
destroyed b (some sp) = count b sp.head

-- What a free does to how often an address is on a chain: one time more for the buffer that is freed, with
-- the chain of a slab that is destroyed, and nothing for a bad address.
abbrev pub Given : ℕ → Cache → ℕ → Freed → Type 0
Given b c buf (bad_address made) = free_count b made ≡ free_count b c
Given b c buf (freed made gone) =
    free_count b made + destroyed b gone ≡ free_count b c + indicator (buf == b)

settle-Given :
    (b others : ℕ) (r : Bool) (c : Cache) (sp : Slab) (buf : ℕ) (keep : Slab → Cache) (gone : Cache)
    → free_count b c ≡ others + count b sp.head
    → ((back : Slab) → free_count b (keep back) ≡ others + count b back.head)
    → free_count b gone ≡ others
    → Given b c buf (settle r sp buf keep gone)
unfolding settle put forget_slab count
settle-Given b others true c sp buf keep gone e k g = elim (Bool-cases (sp.refcnt - 1 == 0)) [
  | inl z ↦ rw (settle, put, z) (rw z (omega (arith, e, k _)))
  | inr z ↦ rw (settle, put, z) (rw z (omega (arith, e, k _)))
]
settle-Given b others false c sp buf keep gone e k g = elim (Bool-cases (sp.refcnt - 1 == 0)) [
  | inl z ↦ rw (settle, put, z) (rw z (omega (arith, e, g)))
  | inr z ↦ rw (settle, put, z) (rw z (omega (arith, e, k _)))
]

if-free_count :
    (b n : ℕ) (t : Bool) (x y : Cache)
    → free_count b x ≡ n
    → free_count b y ≡ n
    → free_count b (if t then x else y) ≡ n
if-free_count b n true x y h k = h
if-free_count b n false x y h k = k

slab_free-Given : (b : ℕ) (r : Bool) (c : Cache) (buf : ℕ) → Given b c buf (slab_free r c buf)
unfolding slab_free
slab_free-Given b r c buf =
    let counted : Cache = record c { slab_free_count = add64 c.slab_free_count 1 } in
    elim (Option-cases (slab_of c buf [] c.full)) [
      | inr (f, e) ↦
          let q = slab_of-count b c buf [] c.full f e in
          let n = in_slabs b f.skipped + in_slabs b f.behind + in_slabs b c.freelist in
          let without = in_slabs-append b f.skipped f.behind in
          let gone : Cache = record counted { full = f.skipped ++ f.behind } in
          let first : Slab → Cache = λ sp. record gone { freelist = sp ∷ c.freelist } in
          let kept : Slab → Cache = λ sp. record counted { full = f.skipped ++ (sp ∷ f.behind) } in
          rw (slab_free, e)
            (settle-Given b n r c f.slab buf (λ sp. if no_buffers f.slab then first sp else kept sp)
              gone (omega (arith, q))
              (λ sp.
                if-free_count b (n + count b sp.head) (no_buffers f.slab) (first sp) (kept sp)
                  (omega (arith, without))
                  (omega (arith, in_slabs-append b f.skipped (sp ∷ f.behind))))
              (omega (arith, without)))
      | inl none_full ↦ elim (Option-cases (slab_of c buf [] c.freelist)) [
        | inr (f, e) ↦
            let q = slab_of-count b c buf [] c.freelist f e in
            let n = in_slabs b f.skipped + in_slabs b f.behind + in_slabs b c.full in
            let without = in_slabs-append b f.skipped f.behind in
            let gone : Cache = record counted { freelist = f.skipped ++ f.behind } in
            let first : Slab → Cache =
              λ sp. record counted { freelist = sp ∷ (f.skipped ++ f.behind) } in
            let kept : Slab → Cache =
              λ sp. record counted { freelist = f.skipped ++ (sp ∷ f.behind) } in
            rw (slab_free, none_full, e)
              (settle-Given b n r c f.slab buf
                (λ sp. if no_buffers f.slab then first sp else kept sp) gone (omega (arith, q))
                (λ sp.
                  if-free_count b (n + count b sp.head) (no_buffers f.slab) (first sp) (kept sp)
                    (omega (arith, without))
                    (omega (arith, in_slabs-append b f.skipped (sp ∷ f.behind))))
                (omega (arith, without)))
        | inl none_open ↦ rw (slab_free, none_full, none_open) refl
      ]
    ]

-- In a cache with slabs like those `slab_alloc-Kept` asks for, a free keeps this so, if the slab of
-- the buffer has a reference and no full slab is being reclaimed. Whatever the cache, the buffer that is freed is once more on a chain, or on the
-- chain of a slab that is destroyed with all that is on it; every other address is as often on a chain
-- as before; and nothing changes on the chains if the address is refused.
pub slab_free-Kept :
    (r : Bool) (c : Cache) (buf : ℕ)
    → IsValid c
    → ((f : Found) → slab_of c buf [] c.full ≡ some f → 0 < f.slab.refcnt)
    → ((f : Found) → slab_of c buf [] c.freelist ≡ some f → 0 < f.slab.refcnt)
    → All (λ sp. is_reclaiming sp ≡ false) c.full
    → Settled (slab_free r c buf) × ((b : ℕ) → Given b c buf (slab_free r c buf))
slab_free-Kept r c buf v out_full out_open quiet =
    (slab_free-IsValid r c buf v out_full out_open quiet, λ b. slab_free-Given b r c buf)
