-- ===== src/Slabs/Counts.antt =====
-- The slabs of a cache account for how many buffers are out and free, and which slabs
-- `cache_freelist` has before and behind it.
use mathlib.Core.Path.{subst}
use mathlib.Core.Option.{some-injective}
use libumem.Base.{
  ℕ, zero, suc, ◌+◌, ◌-◌, ◌<◌, ◌≡◌, refl, sym, ◌∙◌, Bool, true, false, Option, none, some, List, [],
  ◌∷◌, ◌++◌, ◌==◌, if◌then◌else◌, arith, All, length, Bool-cases, Option-cases, inl, inr,
}
use libumem.Word.{add64}
use libumem.Slabs.{
  active, Slab, Cache, Found, Freed, bad_address, freed, is_reclaiming, no_buffers, is_empty, taken,
  thread_chunks, new_chunks, next_color, slab_create, add_slab, choose, take, slab_alloc,
  slab_chunk, slab_of, put, settle, forget_slab, slab_free,
}

-- Every buffer of the slab is either out or on its chain.
abbrev pub Accounted : Slab → Type 0
Accounted sp = sp.refcnt + length sp.head ≡ sp.chunks

-- A slab all of whose buffers are out, and one with a free buffer that is not being reclaimed.
abbrev pub IsFull : Slab → Type 0
IsFull sp = Accounted sp × (no_buffers sp ≡ true)

abbrev pub IsOpen : Slab → Type 0
IsOpen sp = Accounted sp × (no_buffers sp ≡ false) × (is_reclaiming sp ≡ false)

pub record IsValid (c : Cache) : Type 0 where
  pub full_slabs : All IsFull c.full
  pub open_slabs : All IsOpen c.freelist

pub length-thread_chunks :
    (n chunksize buf : ℕ) (head : List ℕ)
    → length (thread_chunks n chunksize buf head) ≡ n + length head
unfolding thread_chunks
length-thread_chunks zero chunksize buf head = omega arith
length-thread_chunks (suc n) chunksize buf head =
    omega (arith, length-thread_chunks n chunksize (add64 buf chunksize) (buf ∷ head))

All-append : (P : Slab → Type 0) (xs ys : List Slab) → All P xs → All P ys → All P (xs ++ ys)
All-append P [] ys a b = b
All-append P (x ∷ xs) ys a b = (a.0, All-append P xs ys a.1 b)

-- Taking a buffer from a slab at `cache_freelist`.
take-IsValid :
    (c : Cache) (sp : Slab) (sps : List Slab) (head : List ℕ)
    → All IsFull c.full
    → All IsOpen sps
    → sp.refcnt + length head ≡ sp.chunks
    → is_empty head ≡ false
    → IsValid ((take c (record { skipped = []; slab = sp; behind = sps }) head).0)
unfolding take taken
take-IsValid c sp sps [] a b o h = absurd (ground (arith, h))
take-IsValid c sp sps (buf ∷ []) a b o h = record {
  full_slabs = All-append IsFull c.full _ a ((omega (arith, o), refl), tt);
  open_slabs = b;
}
take-IsValid c sp sps (buf ∷ next ∷ rest) a b o h = record {
  full_slabs = a;
  open_slabs = ((omega (arith, o), refl, refl), b);
}

pub nonempty : (head : List ℕ) → 0 < length head → is_empty head ≡ false
nonempty [] h = absurd (omega arith)
nonempty (x ∷ xs) h = refl

-- An allocation from a new slab.
made-IsValid :
    (c : Cache) (answer : Option ℕ)
    → IsValid c
    → 0 < new_chunks c
    → choose c.freelist ≡ none
    → IsValid ((slab_alloc c answer).0)
unfolding slab_alloc slab_create add_slab
made-IsValid c none v roomy e =
    rw (slab_alloc, e) (record { full_slabs = v.full_slabs; open_slabs = v.open_slabs })
made-IsValid c (some slab) v roomy e =
    let d : Cache = record c { slab_alloc_count = add64 c.slab_alloc_count 1 } in
    let n = new_chunks d in
    let head = thread_chunks n c.chunksize (add64 slab (next_color d)) [] in
    let l : length head ≡ n =
      omega (arith, length-thread_chunks n c.chunksize (add64 slab (next_color d)) []) in
    rw (slab_alloc, e)
      (take-IsValid _
        (record {
          base = add64 slab (next_color d);
          chunks = n;
          refcnt = 0;
          head = head;
          state = active;
          idle_time = 0;
        })
        c.freelist head v.full_slabs v.open_slabs (omega (arith, l))
        (nonempty head (omega (arith, l, enough))))
  where
    enough : 0 < new_chunks (record c { slab_alloc_count = add64 c.slab_alloc_count 1 })
    enough = unfold new_chunks in unfold next_color in roomy

pub choose-first :
    (sp : Slab) (sps : List Slab)
    → IsOpen sp
    → choose (sp ∷ sps) ≡ some (record { skipped = []; slab = sp; behind = sps })
unfolding choose
choose-first sp sps o = ground (arith, o.1, o.2)

-- In a cache whose slabs account for their numbers of buffers, with the full ones before `cache_freelist` and
-- behind it only slabs that have a free buffer and are not being reclaimed, an allocation keeps
-- this so, with whatever answer from the arena, if a new slab has room for a buffer.
pub slab_alloc-IsValid :
    (c : Cache) (answer : Option ℕ)
    → IsValid c
    → 0 < new_chunks c
    → IsValid ((slab_alloc c answer).0)
unfolding slab_alloc
slab_alloc-IsValid c answer v roomy = from (c.freelist) refl v.open_slabs
  where
    from : (sps : List Slab) → c.freelist ≡ sps → All IsOpen sps → IsValid ((slab_alloc c answer).0)
    from [] e a = made-IsValid c answer v roomy (rw e (unfold choose in refl))
    from (sp ∷ sps) e a =
        let first : choose c.freelist ≡ some (record { skipped = []; slab = sp; behind = sps }) =
          rw e (choose-first sp sps a.0) in
        rw (slab_alloc, first) (take-IsValid _ sp sps sp.head v.full_slabs a.1 a.0.0 a.0.1)

-- The slab that is found, and the ones around it, have what all slabs have.
slab_of-All :
    (P : Slab → Type 0) (c : Cache) (buf : ℕ) (skipped sps : List Slab) (f : Found)
    → All P skipped
    → All P sps
    → slab_of c buf skipped sps ≡ some f
    → All P f.skipped × P f.slab × All P f.behind
unfolding slab_of
slab_of-All P c buf skipped [] f a b e = absurd (none-some e)
  where
    none-some : Path (Option Found) none (some f) → ⊥
    none-some q = cc
slab_of-All P c buf skipped (sp ∷ sps) f a b e =
    go (slab_chunk c sp buf) refl (slab_of-All P c buf (skipped ++ (sp ∷ [])) sps f later b.1)
  where
    later : All P (skipped ++ (sp ∷ []))
    later = All-append P skipped (sp ∷ []) a (b.0, tt)

    go :
        (t : Bool)
        → slab_chunk c sp buf ≡ t
        → (slab_of c buf (skipped ++ (sp ∷ [])) sps ≡ some f
            → All P f.skipped × P f.slab × All P f.behind)
        → All P f.skipped × P f.slab × All P f.behind
    go true q r =
        let here : slab_of c buf skipped (sp ∷ sps)
            ≡ some (record { skipped = skipped; slab = sp; behind = sps }) =
          rw (slab_of, q) refl in
        subst (λ g. All P g.skipped × P g.slab × All P g.behind)
          (some-injective (record { skipped = skipped; slab = sp; behind = sps }) f (sym here ∙ e))
          (a, b.0, b.1)
    go false q r =
        let on : slab_of c buf skipped (sp ∷ sps) ≡ slab_of c buf (skipped ++ (sp ∷ [])) sps =
          rw (slab_of, q) refl in
        r (sym on ∙ e)

-- What is left of the cache after a free that found its buffer.
abbrev pub Settled : Freed → Type 0
Settled (bad_address c) = IsValid c
Settled (freed c destroyed) = IsValid c

settle-IsValid :
    (r : Bool) (sp : Slab) (buf : ℕ) (keep : Slab → Cache) (gone : Cache)
    → Accounted sp
    → is_reclaiming sp ≡ false
    → 0 < sp.refcnt
    → ((back : Slab) → IsOpen back → IsValid (keep back))
    → IsValid gone
    → Settled (settle r sp buf keep gone)
unfolding settle put forget_slab
settle-IsValid true sp buf keep gone a q h k g = elim (Bool-cases (sp.refcnt - 1 == 0)) [
  | inl e ↦ rw (settle, put, e) (rw e (k _ (omega (arith, a), refl, refl)))
  | inr e ↦ rw (settle, put, e) (rw e (k _ (omega (arith, a), refl, q)))
]
settle-IsValid false sp buf keep gone a q h k g = elim (Bool-cases (sp.refcnt - 1 == 0)) [
  | inl e ↦
      rw (settle, put, e) (rw e (record { full_slabs = g.full_slabs; open_slabs = g.open_slabs }))
  | inr e ↦ rw (settle, put, e) (rw e (k _ (omega (arith, a), refl, q)))
]

-- In such a cache a free keeps this so, if the slab of the buffer has a reference and no full slab
-- is being reclaimed, whether empty slabs are kept or destroyed.
pub slab_free-IsValid :
    (r : Bool) (c : Cache) (buf : ℕ)
    → IsValid c
    → ((f : Found) → slab_of c buf [] c.full ≡ some f → 0 < f.slab.refcnt)
    → ((f : Found) → slab_of c buf [] c.freelist ≡ some f → 0 < f.slab.refcnt)
    → All (λ sp. is_reclaiming sp ≡ false) c.full
    → Settled (slab_free r c buf)
unfolding slab_free
slab_free-IsValid r c buf v out_full out_open quiet =
    elim (Option-cases (slab_of c buf [] c.full)) [
      | inr (f, e) ↦
          let (a, b, d) = slab_of-All IsFull c buf [] c.full f tt v.full_slabs e in
          let (x, y, z) =
            slab_of-All (λ sp. is_reclaiming sp ≡ false) c buf [] c.full f tt quiet e in
          let gone : Cache = record c {
            full = f.skipped ++ f.behind;
            slab_free_count = add64 c.slab_free_count 1;
          } in
          let keep : Slab → Cache = λ sp.
            if no_buffers f.slab then record gone { freelist = sp ∷ c.freelist } else record c {
              full = f.skipped ++ (sp ∷ f.behind);
              slab_free_count = add64 c.slab_free_count 1;
            } in
          rw (slab_free, e)
            (settle-IsValid r f.slab buf keep gone b.0 y (out_full f e)
              (λ sp o. rw (b.1) (record {
                full_slabs = All-append IsFull f.skipped f.behind a d;
                open_slabs = (o, v.open_slabs);
              }))
              (record {
                full_slabs = All-append IsFull f.skipped f.behind a d;
                open_slabs = v.open_slabs;
              }))
      | inl none_full ↦ elim (Option-cases (slab_of c buf [] c.freelist)) [
        | inr (f, e) ↦
            let (a, b, d) = slab_of-All IsOpen c buf [] c.freelist f tt v.open_slabs e in
            let gone : Cache = record c {
              freelist = f.skipped ++ f.behind;
              slab_free_count = add64 c.slab_free_count 1;
            } in
            let keep : Slab → Cache = λ sp.
              if no_buffers f.slab
              then record gone { freelist = sp ∷ (f.skipped ++ f.behind) }
              else record c {
                freelist = f.skipped ++ (sp ∷ f.behind);
                slab_free_count = add64 c.slab_free_count 1;
              } in
            rw (slab_free, none_full, e)
              (settle-IsValid r f.slab buf keep gone b.0 b.2 (out_open f e)
                (λ sp o. rw (b.1) (record {
                  full_slabs = v.full_slabs;
                  open_slabs = All-append IsOpen f.skipped (sp ∷ f.behind) a (o, d);
                }))
                (record {
                  full_slabs = v.full_slabs;
                  open_slabs = All-append IsOpen f.skipped f.behind a d;
                }))
        | inl none_open ↦
            rw (slab_free, none_full, none_open)
              (record { full_slabs = v.full_slabs; open_slabs = v.open_slabs })
      ]
    ]
