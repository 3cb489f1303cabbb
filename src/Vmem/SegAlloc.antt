-- ===== src/Vmem/SegAlloc.antt =====
-- `vmem_seg_alloc` keeps the arena valid on every one of its branches.
use libumem.Base.{
  ℕ, ◌+◌, ◌-◌, ◌%◌, ◌≤◌, ◌<◌, ◌≡◌, refl, ap, ◌∙◌, Bool, true, false, ◌&&◌, List, [], ◌∷◌, ◌++◌,
  ◌==◌, if◌then◌else◌, arith, Bool-cases, inl, inr,
}
use libumem.Word.{word, add64, sub64, p2roundup, p2samehighbit}
use libumem.Word.Multiple.{round_within}
use libumem.Chains.{Table, push, rename}
use libumem.Chains.Count.{count, count-push, count-rename, move-nonempty}
use libumem.Segs.{Seg, alloc, free, Place, rev_append}
use libumem.Segs.Tiled.{After, Context, Context-IsTiled, After-freed, limit-lt-word, limit}
use libumem.Segs.Sums.{sum_by, sum_by-rev_append, covers, inuse_of, total_of}
use libumem.Vmem.{
  Vmem, bucket, vs_size, hash_of, getseg, freelist_insert, freelist_delete, hash_insert, give_back,
  shrink, carve, seg_alloc,
}
use libumem.Vmem.Bucket.{bucket-samehighbit}
use libumem.Vmem.Valid.{
  IsValid, Lists, recount, on_list, free_at, alloc_at, freelist_insert-Lists, freelist_delete-Lists,
}

-- The free segment at `p`, and a request that it can hold.
pub record Fits (v : Vmem) (p : Place) (addr size : ℕ) : Type 0 where
  pub same : v.segs ≡ rev_append p.before (free p.start p.end p.import ∷ p.after)
  pub context : Context v.quantum p.before (free p.start p.end p.import ∷ p.after)
  pub from : p.start ≤ addr
  pub aligned : addr % v.quantum ≡ 0
  pub some_size : 0 < size
  pub within : addr + size ≤ p.end

-- The list of segments afterwards.
abbrev left_part : Place → ℕ → List Seg
left_part p addr = if p.start == addr then [] else free p.start addr false ∷ []

abbrev right_part : Place → ℕ → List Seg
right_part p addr_end = if p.end == addr_end then [] else free addr_end p.end false ∷ []

-- A measure of a piece that may be empty.
abbrev opt : Bool → ℕ → ℕ
opt b n = if b then 0 else n

module _ (v : Vmem) (p : Place) (addr size : ℕ) (valid : IsValid v) (f : Fits v p addr size) where
  real : ℕ
  real = p2roundup size v.quantum

  -- The numbers of the allocation: nothing wraps, and the rounded request fits.
  record Numbers : Type 0 where
    end_word : p.end < word
    real_ge : size ≤ real
    real_fits : addr + real ≤ p.end
    real_aligned : (addr + real) % v.quantum ≡ 0
    rounded : p2roundup (addr + size) v.quantum ≡ addr + real

  numbers : Numbers
  unfolding real
  numbers =
      let c = f.context.1 in
      let lt : p.end < word = omega (arith, limit-lt-word v.quantum p.before f.context.0, c.4) in
      let r =
        round_within v.qshift v.quantum valid.quantum_small valid.quantum_pow addr size p.end
          f.aligned f.within lt c.3 in
      record { end_word = lt; real_ge = r.1; real_fits = r.2; real_aligned = r.3; rounded = r.0 }

  -- What stands in the place of the free segment and behind it.
  abbrev pieces : Bool → Bool → Bool → List Seg
  pieces i j k =
      (if p.start == addr then [] else free p.start addr i ∷ [])
      ++ (alloc addr (addr + size) j
          ∷ ((if p.end == addr + real then [] else free (addr + real) p.end k ∷ []) ++ p.after))

  -- The pieces tile what the free segment tiled, whatever their import marks.
  tiled_pieces : (i j k : Bool) → Context v.quantum p.before (pieces i j k)
  tiled_pieces i j k = elim (Bool-cases (p.start == addr)) [
    | inl s ↦ elim (Bool-cases (p.end == addr + real)) [
      | inl e ↦ rw (s, e) (c.0, ground (arith, numbers, exact (ground arith)))
      | inr e ↦ rw (s, e) (c.0, ground (arith, numbers))
    ]
    | inr s ↦ elim (Bool-cases (p.end == addr + real)) [
      | inl e ↦ rw (s, e) (c.0, ground (arith, numbers, exact (ground arith)))
      | inr e ↦ rw (s, e) (c.0, ground (arith, numbers))
    ]
  ]
    where
      c : Context v.quantum p.before (free p.start p.end p.import ∷ p.after)
      c = f.context

      l : ℕ
      l = limit p.before

      exact :
          p.end ≡ addr + real → After v.quantum (p2roundup (addr + size) v.quantum) l false p.after
      exact e =
          let up : p2roundup (addr + size) v.quantum ≡ p.end = omega (arith, numbers) in
          rw up (After-freed v.quantum p.end l true p.after c.1.6)

  -- A measure of the pieces, from its value on each.
  sum_pieces :
      (w : Seg → ℕ) (i j k : Bool)
      → sum_by w (rev_append p.before (pieces i j k)) + w (free p.start p.end p.import)
        ≡ sum_by w v.segs
          + opt (p.start == addr) (w (free p.start addr i))
          + w (alloc addr (addr + size) j)
          + opt (p.end == addr + real) (w (free (addr + real) p.end k))
  unfolding sum_by
  sum_pieces w i j k = ground (
    arith,
    sum_by-rev_append w p.before (pieces i j k),
    sum_by-rev_append w p.before (free p.start p.end p.import ∷ p.after),
    ap (sum_by w) f.same,
  )

  taken :
      (w : Seg → ℕ)
      → sum_by w (rev_append p.before p.after) + w (free p.start p.end p.import) ≡ sum_by w v.segs
  unfolding sum_by
  taken w = ground (
    arith,
    sum_by-rev_append w p.before p.after,
    sum_by-rev_append w p.before (free p.start p.end p.import ∷ p.after),
    ap (sum_by w) f.same,
  )

  -- The arena with the pieces in it is valid, if its freelists are.
  assemble :
      (segs : List Seg) (i j k : Bool) (freelist : Table) (freemap : ℕ → Bool) (nsegfree nalloc : ℕ)
      → segs ≡ rev_append p.before (pieces i j k)
      → Lists freelist freemap (λ a x. sum_by (free_at a x) segs)
      → IsValid (record v {
        segs = segs;
        freelist = freelist;
        freemap = freemap;
        nsegfree = nsegfree;
        hash = push v.hash (hash_of v addr) addr;
        nalloc = nalloc;
        mem_inuse = add64 v.mem_inuse (vs_size addr (addr + size));
      })
  assemble segs i j k freelist freemap nsegfree nalloc e lists = record {
    quantum_pow = valid.quantum_pow;
    quantum_small = valid.quantum_small;
    tiled = rw e (Context-IsTiled v.quantum p.before (pieces i j k) (tiled_pieces i j k));
    apart = λ x. ground (arith, valid.apart x, sum (covers x));
    lists = lists;
    hashed = λ a x. ground (
      arith,
      valid.hashed a x,
      sum (alloc_at (hash_of v) a x),
      count-push v.hash (hash_of v addr) a addr x,
    );
    inuse = ground (arith, valid.inuse, sum inuse_of, numbers);
    total = ground (arith, valid.total, sum total_of);
  }
    where
      sum :
          (w : Seg → ℕ)
          → sum_by w segs + w (free p.start p.end p.import)
            ≡ sum_by w v.segs
              + opt (p.start == addr) (w (free p.start addr i))
              + w (alloc addr (addr + size) j)
              + opt (p.end == addr + real) (w (free (addr + real) p.end k))
      sum w = rw e (sum_pieces w i j k)

  -- The freelists once a leftover is back on them.
  give_back-Lists :
      (b : Bool) (w : Vmem) (m : ℕ → ℕ → ℕ) (s e : ℕ)
      → Lists w.freelist w.freemap m
      → (let u = give_back b w s e in
          Lists u.freelist u.freemap (λ i x. opt b (on_list s e i x) + m i x))
  unfolding give_back
  give_back-Lists true w m s e l = recount m _ w.freelist w.freemap (λ i x. omega arith) l
  give_back-Lists false w m s e l = freelist_insert-Lists (getseg w) m s e l

  carve-Lists :
      (i j : Bool) (segs : List Seg)
      → (p.start == addr) ≡ i
      → (p.end == addr + real) ≡ j
      → segs ≡ rev_append p.before (pieces false p.import false)
      → (let w =
            give_back i
              (give_back j (freelist_delete v p.start p.end) (addr + real) p.end)
              p.start
              addr in
          Lists w.freelist w.freemap (λ a x. sum_by (free_at a x) segs))
  carve-Lists i j segs s e q =
      let cut = freelist_delete v p.start p.end in
      let l1 =
        freelist_delete-Lists v _ rest p.start p.end valid.lists
          (λ a x. ground (arith, taken (free_at a x))) in
      let l2 = give_back-Lists j cut rest (addr + real) p.end l1 in
      let l3 = give_back-Lists i (give_back j cut (addr + real) p.end) _ p.start addr l2 in
      recount _ _ _ _
        (λ a x. ground (
          arith,
          taken (free_at a x),
          sum_pieces (free_at a x) false p.import false,
          s,
          e,
          ap (sum_by (free_at a x)) q,
        ))
        l3
    where
      rest : ℕ → ℕ → ℕ
      rest a x = sum_by (free_at a x) (rev_append p.before p.after)

  carve-IsValid :
      (i j : Bool)
      → (p.start == addr) ≡ i
      → (p.end == addr + real) ≡ j
      → IsValid (carve v p addr (addr + size) (addr + real) i j)
  unfolding carve give_back freelist_delete freelist_insert hash_insert
  carve-IsValid true true s e =
      assemble _ false p.import false _ _ _ _ (rw (s, e) refl)
        (carve-Lists true true _ s e (rw (s, e) refl))
  carve-IsValid true false s e =
      assemble _ false p.import false _ _ _ _ (rw (s, e) refl)
        (carve-Lists true false _ s e (rw (s, e) refl))
  carve-IsValid false true s e =
      assemble _ false p.import false _ _ _ _ (rw (s, e) refl)
        (carve-Lists false true _ s e (rw (s, e) refl))
  carve-IsValid false false s e =
      assemble _ false p.import false _ _ _ _ (rw (s, e) refl)
        (carve-Lists false false _ s e (rw (s, e) refl))

  rest_word : vs_size p.start p.end ≡ p.end - p.start
  rest_word = omega (arith, numbers, f.from, f.within)

  -- On the fast path the rest has the freelist of the whole, and is not empty.
  same_list :
      p2samehighbit (vs_size p.start p.end) (sub64 (vs_size p.start p.end) real) ≡ true
      → p.start ≡ addr
      → (bucket (vs_size p.start p.end) ≡ bucket (vs_size (addr + real) p.end))
        × (addr + real < p.end)
  same_list t s =
      let w : vs_size p.start p.end < word = ground (arith, numbers) in
      let d : sub64 (vs_size p.start p.end) real ≡ vs_size (addr + real) p.end =
        omega (arith, numbers, f.from, f.within) in
      let (b, pos) =
        bucket-samehighbit (vs_size p.start p.end) (sub64 (vs_size p.start p.end) real) w
          (omega (arith, numbers)) t in
      (b ∙ ap bucket d, omega (arith, numbers, f.from, f.within))

  rename-Lists :
      (segs : List Seg) (b : ℕ)
      → b ≡ bucket (vs_size p.start p.end)
      → b ≡ bucket (vs_size (addr + real) p.end)
      → (p.start == addr) ≡ true
      → (p.end == addr + real) ≡ false
      → segs ≡ rev_append p.before (pieces false false p.import)
      → Lists
          (rename v.freelist b p.start (addr + real))
          v.freemap
          (λ a x. sum_by (free_at a x) segs)
  rename-Lists segs b u w s e q = record {
    listed = λ a x. ground (
      arith,
      u,
      w,
      valid.lists.listed a x,
      valid.lists.listed b p.start,
      s,
      e,
      sum_pieces (free_at a x) false false p.import,
      ap (sum_by (free_at a x)) q,
      count-rename v.freelist b a p.start (addr + real) x there,
    );
    mapped = λ a.
        unfold rename in
        ground (arith, valid.lists.mapped a, move-nonempty p.start (addr + real) (v.freelist b));
  }
    where
      there : 0 < count p.start (v.freelist b)
      there = ground (arith, u, valid.lists.listed b p.start, taken (free_at b p.start))

  shrink-IsValid :
      p2samehighbit (vs_size p.start p.end) (sub64 (vs_size p.start p.end) real) ≡ true
      → (p.start == addr) ≡ true
      → IsValid (shrink v p addr (addr + size) (addr + real))
  unfolding shrink hash_insert
  shrink-IsValid t s =
      let (b, more) = same_list t (ground (arith, s)) in
      let e : (p.end == addr + real) ≡ false = ground arith in
      assemble _ false false p.import _ _ _ _ (rw (s, e) refl)
        (rename-Lists _ _ refl b s e (rw (s, e) refl))

  choose :
      (t : Bool)
      → (p2samehighbit (vs_size p.start p.end) (sub64 (vs_size p.start p.end) real)
          && (addr == p.start))
        ≡ t
      → IsValid (
          if t
          then shrink v p addr (addr + size) (addr + real)
          else carve v p addr (addr + size) (addr + real) (p.start == addr) (p.end == addr + real))
  choose true t = shrink-IsValid (ground (arith, t)) (ground (arith, t))
  choose false t = carve-IsValid _ _ refl refl

  -- In a valid arena, taking an aligned request that fits out of a free segment keeps the arena
  -- valid, on the fast path and on every branch of the general one.
  pub seg_alloc-IsValid : IsValid (seg_alloc v p addr size)
  unfolding seg_alloc real
  seg_alloc-IsValid =
      let a : add64 addr size ≡ addr + size = omega (arith, numbers, f.within) in
      let b : add64 addr real ≡ addr + real = omega (arith, numbers) in rw (a, b) (choose _ refl)
