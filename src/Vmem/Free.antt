-- ===== src/Vmem/Free.antt =====
-- `vmem_xfree` keeps the arena valid: what is taken off the lists, what is put back, and the span
-- that goes back to its source.
use libumem.Base.{
  ℕ, suc, ◌+◌, ◌-◌, ◌%◌, ◌^◌, ◌≤◌, ◌<◌, ◌≡◌, ◌≢◌, refl, ap, Bool, true, false, List, [], ◌∷◌, some,
  none, ◌==◌, arith, Bool-cases, Option-cases, eq→==, ne→not-==, inl, inr,
}
use libumem.Word.{word, add64, sub64, p2roundup}
use libumem.Segs.{Seg, span, alloc, free, rotor, Place, rev_append, locate_alloc, next_is_span}
use libumem.Segs.Tiled.{
  After, Before, Context, Context-IsTiled, After-freed, limit-lt-word, limit-aligned, cursor, limit,
  freed, locate_alloc_lem,
}
use libumem.Segs.Sums.{sum_by, sum_by-rev_append, covers, inuse_of, total_of}
use native.Mathlib.Nat.{zero-mod}
use libumem.Word.Multiple.{round_within}
use libumem.Chains.{delete}
use libumem.Chains.Count.{count, count-delete}
use libumem.Vmem.{
  Vmem, Returned, vs_size, hash_of, putseg, depth, hash_delete, freelist_insert, freelist_delete,
  merge_next, merge_prev, merge, span_destroy, behind, is_returned, retire, xfree,
}
use libumem.Vmem.Valid.{
  IsValid, Lists, recount, on_list, free_at, alloc_at, freelist_insert-Lists, freelist_delete-Lists,
}

-- A measure of what stands on the two sides of a place.
abbrev sides : (Seg → ℕ) → Place → ℕ
sides w p = sum_by w p.before + sum_by w p.after

-- The segment at `p` is on no list and counted nowhere.
record Loose (v : Vmem) (p : Place) : Type 0 where
  pub quantum_pow : v.quantum ≡ 2 ^ v.qshift
  pub quantum_small : v.qshift < 64
  pub before : Before v.quantum p.before
  pub starts : p.start ≡ cursor v.quantum p.before
  pub some_size : p.start < p.end
  pub start_aligned : p.start % v.quantum ≡ 0
  pub end_aligned : p.end % v.quantum ≡ 0
  pub in_span : p.end ≤ limit p.before
  pub after : After v.quantum p.end (limit p.before) false p.after
  pub apart : (x : ℕ) → sides (covers x) p ≤ 1
  pub lists : Lists v.freelist v.freemap (λ i x. sides (free_at i x) p)
  pub hashed : (i x : ℕ) → count x (v.hash i) ≡ sides (alloc_at (hash_of v) i x) p
  pub inuse : v.mem_inuse ≡ sides inuse_of p % word
  pub total : v.mem_total ≡ sides total_of p % word

-- What a merge leaves alone.
abbrev NextDone : Vmem → Place → Type 0
NextDone v p = After v.quantum p.end (limit p.before) true p.after

abbrev at : List Seg → ℕ → ℕ → Bool → List Seg → Place
at b s e i a = record { before = b; start = s; end = e; import = i; after = a }

unlist :
    (v : Vmem) (m m' : ℕ → ℕ → ℕ) (s e : ℕ)
    → Lists v.freelist v.freemap m
    → ((i x : ℕ) → m' i x + on_list s e i x ≡ m i x)
    → (let w = putseg (freelist_delete v s e) in Lists w.freelist w.freemap m')
unfolding freelist_delete
unlist v m m' s e l h = freelist_delete-Lists v m m' s e l h

merge_next-at :
    (v : Vmem) (b : List Seg) (s e : ℕ) (i : Bool) (a : List Seg)
    → Loose v (at b s e i a)
    → (let r = merge_next v (at b s e i a) in Loose r.0 r.1 × NextDone r.0 r.1)
unfolding merge_next sum_by freelist_delete
merge_next-at v b s e i [] l = (l, l.after)
merge_next-at v b s e i (span s' e' ∷ ss) l = (l, l.after)
merge_next-at v b s e i (alloc s' e' i' ∷ ss) l = (l, l.after)
merge_next-at v b s e i (rotor ∷ ss) l = (l, l.after)
merge_next-at v b s e i (free s' e' i' ∷ ss) l = (
  record {
    quantum_pow = l.quantum_pow;
    quantum_small = l.quantum_small;
    before = l.before;
    starts = l.starts;
    some_size = omega (arith, l.some_size, l.after.0, l.after.1);
    start_aligned = l.start_aligned;
    end_aligned = l.after.3;
    in_span = l.after.4;
    after = After-freed v.quantum e' (limit b) true ss l.after.6;
    apart = λ x. omega (arith, l.apart x);
    lists =
        unlist v _ (λ j x. sides (free_at j x) (at b s e' i ss)) s' e' l.lists (λ j x. omega arith);
    hashed = λ j x. omega (arith, l.hashed j x);
    inuse = omega (arith, l.inuse);
    total = omega (arith, l.total);
  },
  l.after.6,
)

merge_prev-at :
    (v : Vmem) (b : List Seg) (s e : ℕ) (i : Bool) (a : List Seg)
    → Loose v (at b s e i a)
    → NextDone v (at b s e i a)
    → (let r = merge_prev v (at b s e i a) in
        Loose r.0 r.1 × NextDone r.0 r.1 × (freed r.1.before ≡ false))
unfolding merge_prev sum_by freelist_delete
merge_prev-at v [] s e i a l n = (l, n, refl)
merge_prev-at v (span s' e' ∷ ss) s e i a l n = (l, n, refl)
merge_prev-at v (alloc s' e' i' ∷ ss) s e i a l n = (l, n, refl)
merge_prev-at v (rotor ∷ ss) s e i a l n = (l, n, refl)
merge_prev-at v (free s' e' i' ∷ ss) s e i a l n = (
  record {
    quantum_pow = l.quantum_pow;
    quantum_small = l.quantum_small;
    before = l.before.6;
    starts = l.before.0;
    some_size = omega (arith, l.some_size, l.starts, l.before.1);
    start_aligned = l.before.2;
    end_aligned = l.end_aligned;
    in_span = l.in_span;
    after = l.after;
    apart = λ x. omega (arith, l.apart x);
    lists =
        unlist v _ (λ j x. sides (free_at j x) (at ss s' e i' a)) s' e' l.lists
          (λ j x. omega arith);
    hashed = λ j x. omega (arith, l.hashed j x);
    inuse = omega (arith, l.inuse);
    total = omega (arith, l.total);
  },
  n,
  l.before.5,
)

abbrev Joined : Vmem → Place → Type 0
Joined v p = Loose v p × NextDone v p × (freed p.before ≡ false)

merge-Joined : (v : Vmem) (p : Place) → Loose v p → (let r = merge v p in Joined r.0 r.1)
unfolding merge
merge-Joined v p l =
    let n = merge_next-at v p.before p.start p.end p.import p.after l in
    let r = merge_next v p in
    merge_prev-at r.0 r.1.before r.1.start r.1.end r.1.import r.1.after n.0 n.1

is_hashed :
    (v : Vmem) (p : Place) (addr : ℕ)
    → IsValid v
    → v.segs ≡ rev_append p.before (alloc p.start p.end p.import ∷ p.after)
    → p.start ≡ addr
    → 0 < count addr (v.hash (hash_of v addr))
unfolding sum_by
is_hashed v p addr valid q here =
    let m = alloc_at (hash_of v) (hash_of v addr) addr in
    ground (
      arith,
      valid.hashed (hash_of v addr) addr,
      here,
      ap (sum_by m) q,
      sum_by-rev_append m p.before (alloc p.start p.end p.import ∷ p.after),
    )

-- The segment that `vmem_xfree` takes off the hash table.
detached :
    (v : Vmem) (p : Place) (addr size nlookup nfree : ℕ)
    → IsValid v
    → Context v.quantum p.before (alloc p.start p.end p.import ∷ p.after)
    → v.segs ≡ rev_append p.before (alloc p.start p.end p.import ∷ p.after)
    → p.start ≡ addr
    → vs_size p.start p.end ≡ size
    → Loose
        (record v {
          hash = delete v.hash (hash_of v addr) addr;
          nlookup = nlookup;
          nfree = nfree;
          mem_inuse = sub64 v.mem_inuse size;
        })
        (record p { end = p2roundup p.end v.quantum })
detached v p addr size nlookup nfree valid c q here sized = record {
  quantum_pow = valid.quantum_pow;
  quantum_small = valid.quantum_small;
  before = c.0;
  starts = c.1.0;
  some_size = omega (arith, c.1.1, c.1.3);
  start_aligned = c.1.2;
  end_aligned = ground (
    arith,
    round_within v.qshift v.quantum valid.quantum_small valid.quantum_pow p.start (p.end - p.start)
        (limit p.before) c.1.2 top (limit-lt-word v.quantum p.before c.0)
        (limit-aligned v.quantum p.before c.0 (omega (arith, zero-mod v.quantum))),
    c.1.1,
  );
  in_span = c.1.4;
  after = c.1.5;
  apart = λ x. omega (arith, valid.apart x, taken (covers x));
  lists = recount _ _ _ _ (λ i x. ground (arith, taken (free_at i x))) valid.lists;
  hashed = λ i x. ground (
    arith,
    count-delete v.hash (hash_of v addr) i addr x there,
    valid.hashed i x,
    taken (alloc_at (hash_of v) i x),
  );
  inuse = ground (arith, valid.inuse, taken inuse_of);
  total = ground (arith, valid.total, taken total_of);
}
  where
    top : p.start + (p.end - p.start) ≤ limit p.before
    top = omega (arith, c.1.1, c.1.3, c.1.4)

    taken : (m : Seg → ℕ) → sides m p + m (alloc p.start p.end p.import) ≡ sum_by m v.segs
    taken m =
        unfold sum_by in
        omega (
          arith,
          ap (sum_by m) q,
          sum_by-rev_append m p.before (alloc p.start p.end p.import ∷ p.after),
        )

    there : 0 < count addr (v.hash (hash_of v addr))
    there = is_hashed v p addr valid q here

-- The segment goes back on its freelist.
keep-IsValid :
    (v : Vmem) (p : Place)
    → Joined v p
    → IsValid (record (freelist_insert v p.start p.end) {
      segs = rev_append p.before (free p.start p.end p.import ∷ p.after);
    })
unfolding freelist_insert
keep-IsValid v p (l, n, f) = record {
  quantum_pow = l.quantum_pow;
  quantum_small = l.quantum_small;
  tiled =
      Context-IsTiled v.quantum p.before (free p.start p.end p.import ∷ p.after)
        (l.before, (l.starts, l.some_size, l.start_aligned, l.end_aligned, l.in_span, f, n));
  apart = λ x. omega (arith, l.apart x, put (covers x));
  lists =
      recount _ _ _ _ (λ i x. omega (arith, put (free_at i x)))
        (freelist_insert-Lists v _ p.start p.end l.lists);
  hashed = λ i x. omega (arith, l.hashed i x, put (alloc_at (hash_of v) i x));
  inuse = ground (arith, l.inuse, put inuse_of);
  total = ground (arith, l.total, put total_of);
}
  where
    put :
        (m : Seg → ℕ)
        → sum_by m (rev_append p.before (free p.start p.end p.import ∷ p.after))
          ≡ sides m p + m (free p.start p.end p.import)
    put m =
        unfold sum_by in
        omega (arith, sum_by-rev_append m p.before (free p.start p.end p.import ∷ p.after))

-- The span whose only segment it is leaves the arena.
destroy-IsValid :
    (v : Vmem) (b : List Seg) (s' e' s e : ℕ) (i : Bool) (a : List Seg)
    → Joined v (at (span s' e' ∷ b) s e i a)
    → next_is_span a ≡ true
    → IsValid (span_destroy v (at (span s' e' ∷ b) s e i a) b)
unfolding span_destroy
destroy-IsValid v b s' e' s e i a (l, n, f) h = record {
  quantum_pow = l.quantum_pow;
  quantum_small = l.quantum_small;
  tiled = Context-IsTiled v.quantum b a (l.before.5, follows a n h);
  apart = λ x. unfold sum_by in ground (arith, l.apart x, put (covers x));
  lists =
      recount (λ j x. sides (free_at j x) (at (span s' e' ∷ b) s e i a)) _ _ _
        (λ j x. unfold sum_by in omega (arith, put (free_at j x))) l.lists;
  hashed = λ j x. unfold sum_by in omega (arith, l.hashed j x, put (alloc_at (hash_of v) j x));
  inuse = unfold sum_by in ground (arith, l.inuse, put inuse_of);
  total = unfold sum_by in ground (arith, l.total, put total_of, whole a n h, l.starts);
}
  where
    put : (m : Seg → ℕ) → sum_by m (rev_append b a) ≡ sum_by m b + sum_by m a
    put m = sum_by-rev_append m b a

    whole : (a : List Seg) → After v.quantum e e' true a → next_is_span a ≡ true → e ≡ e'
    whole [] n h = n
    whole (alloc x y z ∷ ss) n h = absurd (ground (arith, h))
    whole (free x y z ∷ ss) n h = absurd (ground (arith, h))
    whole (rotor ∷ ss) n h = absurd (ground (arith, h))
    whole (span x y ∷ ss) n h = n.0

    follows :
        (a : List Seg)
        → After v.quantum e e' true a
        → next_is_span a ≡ true
        → After v.quantum (cursor v.quantum b) (limit b) (freed b) a
    follows [] n h = l.before.0
    follows (alloc x y z ∷ ss) n h = absurd (ground (arith, h))
    follows (free x y z ∷ ss) n h = absurd (ground (arith, h))
    follows (rotor ∷ ss) n h = absurd (ground (arith, h))
    follows (span x y ∷ ss) n h = (l.before.0, n.1, n.2, n.3, n.4, n.5)

retire_at :
    (v : Vmem) (b : List Seg) (s e : ℕ) (i : Bool) (a : List Seg)
    → Joined v (at b s e i a)
    → is_returned v (at b s e i a) ≡ true
    → IsValid (span_destroy v (at b s e i a) (behind b))
unfolding is_returned
retire_at v [] s e i a (l, n, f) t = absurd (omega (arith, l.some_size, l.in_span))
retire_at v (span s' e' ∷ b) s e i a j t = destroy-IsValid v b s' e' s e i a j (ground (arith, t))
retire_at v (alloc s' e' i' ∷ b) s e i a j t = absurd (ground (arith, t))
retire_at v (free s' e' i' ∷ b) s e i a j t = absurd (ground (arith, t))
retire_at v (rotor ∷ b) s e i a j t = absurd (ground (arith, t))

retire-IsValid :
    (r : Bool) (v : Vmem) (p : Place)
    → Joined v p
    → is_returned v p ≡ r
    → IsValid ((retire r v p).0)
unfolding retire
retire-IsValid true v p j t = retire_at v p.before p.start p.end p.import p.after j t
retire-IsValid false v p j t = keep-IsValid v p j

depth-some : (x : ℕ) (c : List ℕ) → 0 < count x c → (n : ℕ) × (depth x c ≡ some n)
unfolding depth count
depth-some x [] h = elim h [ ]
depth-some x (y ∷ ys) h = elim (Bool-cases (y == x)) [
  | inl e ↦ (0, rw e refl)
  | inr e ↦ deeper e (depth-some x ys (ground (arith, e)))
]
  where
    deeper :
        (y == x) ≡ false → (n : ℕ) × (depth x ys ≡ some n) → (n : ℕ) × (depth x (y ∷ ys) ≡ some n)
    deeper e (n, r) = (suc n, rw (depth, e, r) refl)

hash_delete-some :
    (v : Vmem) (p : Place) (addr size n : ℕ)
    → depth addr (v.hash (hash_of v addr)) ≡ some n
    → locate_alloc [] v.segs addr ≡ some p
    → vs_size p.start p.end ≡ size
    → hash_delete v addr size
      ≡ some (
        record v {
          hash = delete v.hash (hash_of v addr) addr;
          nlookup = add64 v.nlookup n;
          nfree = add64 v.nfree 1;
          mem_inuse = sub64 v.mem_inuse size;
        },
        p,
      )
unfolding hash_delete
hash_delete-some v p addr size n d f z =
    rw (hash_delete, d, f, eq→== (vs_size p.start p.end) size z) refl

hash_delete-none :
    (v : Vmem) (addr size : ℕ)
    → ((p : Place) → locate_alloc [] v.segs addr ≡ some p → vs_size p.start p.end ≢ size)
    → hash_delete v addr size ≡ none
unfolding hash_delete
hash_delete-none v addr size h = elim (Option-cases (depth addr (v.hash (hash_of v addr)))) [
  | inl e ↦ rw (hash_delete, e) refl
  | inr (n, e) ↦ elim (Option-cases (locate_alloc [] v.segs addr)) [
    | inl f ↦ rw (hash_delete, e, f) refl
    | inr (p, f) ↦ rw (hash_delete, e, f, ne→not-== (vs_size p.start p.end) size (h p f)) refl
  ]
]

xfree_result :
    (v w : Vmem) (p : Place) (addr size : ℕ)
    → hash_delete v addr size ≡ some (w, p)
    → w.quantum ≡ v.quantum
    → Loose w (record p { end = p2roundup p.end w.quantum })
    → (r : Vmem × Returned) × (xfree v addr size ≡ some r) × IsValid (r.0)
unfolding xfree
xfree_result v w p addr size e q l =
    let m = merge w (record p { end = p2roundup p.end w.quantum }) in
    let r = retire (is_returned m.0 m.1) m.0 m.1 in
    (
      r,
      rw (xfree, e, q) refl,
      retire-IsValid (is_returned m.0 m.1) m.0 m.1 (merge-Joined w _ l) refl,
    )

-- In a valid arena, freeing the allocated segment that starts at the address, with its size,
-- succeeds and keeps the arena valid.
pub xfree-IsValid :
    (v : Vmem) (p : Place) (addr size : ℕ)
    → IsValid v
    → locate_alloc [] v.segs addr ≡ some p
    → vs_size p.start p.end ≡ size
    → (r : Vmem × Returned) × (xfree v addr size ≡ some r) × IsValid (r.0)
xfree-IsValid v p addr size valid found sized =
    let (here, c) = locate_alloc_lem v.quantum [] v.segs addr p (tt, valid.tiled) found in
    let d = depth-some addr (v.hash (hash_of v addr)) (is_hashed v p addr valid here.1 here.0) in
    xfree_result v _ p addr size (hash_delete-some v p addr size d.0 d.1 found sized) refl
      (detached v p addr size (add64 v.nlookup d.0) (add64 v.nfree 1) valid c here.1 here.0 sized)

-- Freeing panics if no allocated segment starts at the address or the size is not that segment's.
pub xfree-none :
    (v : Vmem) (addr size : ℕ)
    → ((p : Place) → locate_alloc [] v.segs addr ≡ some p → vs_size p.start p.end ≢ size)
    → xfree v addr size ≡ none
unfolding xfree
xfree-none v addr size h = rw (xfree, hash_delete-none v addr size h) refl
