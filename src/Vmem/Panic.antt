-- ===== src/Vmem/Panic.antt =====
-- When `vmem_xfree` panics: what its hash lookup finds is what the arena's segments say.
use libumem.Base.{
  ℕ, ◌+◌, ◌≤◌, ◌<◌, ◌≡◌, ap, ◌∙◌, Bool, true, false, ◌&&◌, List, [], ◌∷◌, some, none, leb, ltb,
  ◌==◌, arith, Option,
}
use native.Mathlib.Decide.{ℕ_discrete}
use libumem.Word.{p2roundup}
use libumem.Chains.Count.{indicator}
use libumem.Segs.{Seg, span, alloc, free, rotor, Place, rev_append}
use libumem.Segs.Tiled.{After, locate_alloc_lem}
use libumem.Segs.Sums.{
  sum_by, sum_by-rev_append, sum_by_mono, covers, starts_alloc, locate_alloc-some,
}
use libumem.Vmem.{Vmem, Returned, vs_size, xfree}
use libumem.Vmem.Valid.{IsValid}
use libumem.Vmem.Free.{xfree-IsValid, xfree-none}

-- Whether a segment is allocated, starts at the address and has the size.
abbrev pub is_allocated : ℕ → ℕ → Seg → ℕ
is_allocated addr size (alloc s e i) = indicator ((s == addr) && (vs_size s e == size))
is_allocated addr size other = 0

-- At most one allocated segment of a span starts at an address.
alloc-le-covers :
    (q x c l : ℕ) (f : Bool) (ss : List Seg)
    → After q c l f ss
    → c ≤ l
    → sum_by (starts_alloc x) ss ≤ sum_by (covers x) ss + indicator (leb c x && ltb x l)
unfolding sum_by
alloc-le-covers q x c l f [] a h = omega arith
alloc-le-covers q x c l f (span s e ∷ ss) a h = ground (arith, alloc-le-covers q x s e false ss a.5)
alloc-le-covers q x c l f (alloc s e i ∷ ss) a h =
    ground (arith, alloc-le-covers q x (p2roundup e q) l false ss a.5)
alloc-le-covers q x c l f (free s e i ∷ ss) a h =
    ground (arith, alloc-le-covers q x e l true ss a.6)
alloc-le-covers q x c l f (rotor ∷ ss) a h = ground (arith, alloc-le-covers q x c l false ss a)

allocated-le-starts : (addr size : ℕ) (s : Seg) → is_allocated addr size s ≤ starts_alloc addr s
allocated-le-starts addr size (span s e) = omega arith
allocated-le-starts addr size (alloc s e i) = ground arith
allocated-le-starts addr size (free s e i) = omega arith
allocated-le-starts addr size rotor = omega arith

one_start : (v : Vmem) (x : ℕ) → IsValid v → sum_by (starts_alloc x) v.segs ≤ 1
one_start v x h =
    ground (arith, alloc-le-covers v.quantum x 0 0 false v.segs h.tiled (omega arith), h.apart x)

-- The segment that starts at the address is the one that has the size.
sized_there :
    (v : Vmem) (addr size : ℕ) (p : Place)
    → IsValid v
    → v.segs ≡ rev_append p.before (alloc p.start p.end p.import ∷ p.after)
    → p.start ≡ addr
    → 0 < sum_by (is_allocated addr size) v.segs
    → vs_size p.start p.end ≡ size
unfolding sum_by
sized_there v addr size p h q here some_there =
    let w = is_allocated addr size in
    let u = starts_alloc addr in
    let all =
      ap (sum_by w) q ∙ sum_by-rev_append w p.before (alloc p.start p.end p.import ∷ p.after) in
    let starts =
      ap (sum_by u) q ∙ sum_by-rev_append u p.before (alloc p.start p.end p.import ∷ p.after) in
    let b = sum_by_mono w u (allocated-le-starts addr size) p.before in
    let a = sum_by_mono w u (allocated-le-starts addr size) p.after in
    ground (arith, all, starts, b, a, one_start v addr h, here, some_there)

counted_there :
    (v : Vmem) (addr size : ℕ) (p : Place)
    → v.segs ≡ rev_append p.before (alloc p.start p.end p.import ∷ p.after)
    → p.start ≡ addr
    → vs_size p.start p.end ≡ size
    → 0 < sum_by (is_allocated addr size) v.segs
unfolding sum_by
counted_there v addr size p q here sized =
    let w = is_allocated addr size in
    let all =
      ap (sum_by w) q ∙ sum_by-rev_append w p.before (alloc p.start p.end p.import ∷ p.after) in
    ground (arith, all, here, sized)

-- The answer to a free: a panic where no segment is the one that is meant, and otherwise a valid arena.
abbrev pub IsJudged : Vmem → ℕ → ℕ → Option (Vmem × Returned) → Type 0
IsJudged v addr size none = sum_by (is_allocated addr size) v.segs ≡ 0
IsJudged v addr size (some r) = (0 < sum_by (is_allocated addr size) v.segs) × IsValid (r.0)

unmeant :
    (v : Vmem) (addr size : ℕ)
    → IsValid v
    → sum_by (is_allocated addr size) v.segs ≡ 0
    → xfree v addr size ≡ none
unmeant v addr size h z = xfree-none v addr size λ p found sized.
    let (here, c) = locate_alloc_lem v.quantum [] v.segs addr p (tt, h.tiled) found in
    let there = counted_there v addr size p here.1 here.0 sized in omega (arith, z, there)

meant :
    (v : Vmem) (addr size : ℕ)
    → IsValid v
    → 0 < sum_by (is_allocated addr size) v.segs
    → (r : Vmem × Returned) × (xfree v addr size ≡ some r) × IsValid (r.0)
meant v addr size h some_there =
    let m =
      sum_by_mono (is_allocated addr size) (starts_alloc addr) (allocated-le-starts addr size)
        v.segs in
    let (p, found) = locate_alloc-some [] v.segs addr (omega (arith, m, some_there)) in
    let (here, c) = locate_alloc_lem v.quantum [] v.segs addr p (tt, h.tiled) found in
    xfree-IsValid v p addr size h found (sized_there v addr size p h here.1 here.0 some_there)

-- In a valid arena `vmem_xfree` panics exactly if no allocated segment has that address and size;
-- otherwise its lookup in the hash table finds the segment, and the arena is valid afterwards.
pub xfree_lem : (v : Vmem) (addr size : ℕ) → IsValid v → IsJudged v addr size (xfree v addr size)
xfree_lem v addr size h = elim (ℕ_discrete (sum_by (is_allocated addr size) v.segs) 0) [
  | yes z ↦ rw (unmeant v addr size h z) z
  | no p ↦
      let there : 0 < sum_by (is_allocated addr size) v.segs = omega (arith, p) in
      let (r, e, valid) = meant v addr size h there in rw e (there, valid)
]
