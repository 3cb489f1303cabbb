-- ===== src/Segs/Sums.antt =====
-- Numbers that add up along the segments of an arena, and why a free segment is found by its start.
use libumem.Base.{
  ℕ, ◌+◌, ◌≤◌, ◌<◌, ◌≡◌, refl, List, [], ◌∷◌, ◌==◌, leb, ltb, Bool, true, false, ◌&&◌, some, arith,
  Bool-cases, inl, inr,
}
use libumem.Word.{p2roundup, sub64}
use libumem.Chains.Count.{indicator}
use libumem.Segs.{Seg, span, alloc, free, rotor, Place, rev_append, locate_free, locate_alloc}
use libumem.Segs.Tiled.{After}

unfoldable pub sum_by : (Seg → ℕ) → List Seg → ℕ
sum_by w [] = 0
sum_by w (s ∷ ss) = w s + sum_by w ss

pub sum_by-rev_append :
    (w : Seg → ℕ) (before after : List Seg)
    → sum_by w (rev_append before after) ≡ sum_by w before + sum_by w after
unfolding sum_by
sum_by-rev_append w [] after = omega arith
sum_by-rev_append w (s ∷ before) after = omega (arith, sum_by-rev_append w before (s ∷ after))

pub sum_by-cons : (w : Seg → ℕ) (s : Seg) (ss : List Seg) → sum_by w (s ∷ ss) ≡ w s + sum_by w ss
unfolding sum_by
sum_by-cons w s ss = refl

-- The measures: how many bytes are allocated, free, or in spans, and which segments are where.
abbrev pub inuse_of : Seg → ℕ
inuse_of (alloc s e i) = sub64 e s
inuse_of other = 0

abbrev pub total_of : Seg → ℕ
total_of (span s e) = sub64 e s
total_of other = 0

abbrev pub starts_free : ℕ → Seg → ℕ
starts_free x (free s e i) = indicator (s == x)
starts_free x other = 0

abbrev pub starts_alloc : ℕ → Seg → ℕ
starts_alloc x (alloc s e i) = indicator (s == x)
starts_alloc x other = 0

-- How many spans hold the address.
abbrev pub covers : ℕ → Seg → ℕ
covers x (span s e) = indicator (leb s x && ltb x e)
covers x other = 0

-- At most one free segment of a span starts at an address.
pub free-le-covers :
    (q x c l : ℕ) (f : Bool) (ss : List Seg)
    → After q c l f ss
    → c ≤ l
    → sum_by (starts_free x) ss ≤ sum_by (covers x) ss + indicator (leb c x && ltb x l)
unfolding sum_by
free-le-covers q x c l f [] a h = omega arith
free-le-covers q x c l f (span s e ∷ ss) a h = ground (arith, free-le-covers q x s e false ss a.5)
free-le-covers q x c l f (alloc s e i ∷ ss) a h =
    ground (arith, free-le-covers q x (p2roundup e q) l false ss a.5)
free-le-covers q x c l f (free s e i ∷ ss) a h = ground (arith, free-le-covers q x e l true ss a.6)
free-le-covers q x c l f (rotor ∷ ss) a h = ground (arith, free-le-covers q x c l false ss a)

-- A search for a start that some free segment has succeeds, and likewise for allocated segments.
pub locate_free-some :
    (before ss : List Seg) (x : ℕ)
    → 0 < sum_by (starts_free x) ss
    → (p : Place) × (locate_free before ss x ≡ some p)
unfolding locate_free sum_by
locate_free-some before [] x h = elim h [ ]
locate_free-some before (free s e i ∷ ss) x h = elim (Bool-cases (s == x)) [
  | inl hit ↦ (record { before = before; start = s; end = e; import = i; after = ss }, rw hit)
  | inr miss ↦ rw miss (locate_free-some (free s e i ∷ before) ss x (ground arith))
]
locate_free-some before (span s e ∷ ss) x h =
    locate_free-some (span s e ∷ before) ss x (omega arith)
locate_free-some before (alloc s e i ∷ ss) x h =
    locate_free-some (alloc s e i ∷ before) ss x (omega arith)
locate_free-some before (rotor ∷ ss) x h = locate_free-some (rotor ∷ before) ss x (omega arith)

pub locate_alloc-some :
    (before ss : List Seg) (x : ℕ)
    → 0 < sum_by (starts_alloc x) ss
    → (p : Place) × (locate_alloc before ss x ≡ some p)
unfolding locate_alloc sum_by
locate_alloc-some before [] x h = elim h [ ]
locate_alloc-some before (alloc s e i ∷ ss) x h = elim (Bool-cases (s == x)) [
  | inl hit ↦ (record { before = before; start = s; end = e; import = i; after = ss }, rw hit)
  | inr miss ↦ rw miss (locate_alloc-some (alloc s e i ∷ before) ss x (ground arith))
]
locate_alloc-some before (span s e ∷ ss) x h =
    locate_alloc-some (span s e ∷ before) ss x (omega arith)
locate_alloc-some before (free s e i ∷ ss) x h =
    locate_alloc-some (free s e i ∷ before) ss x (omega arith)
locate_alloc-some before (rotor ∷ ss) x h = locate_alloc-some (rotor ∷ before) ss x (omega arith)

-- A measure that is below another one segment by segment is below it along the list.
pub sum_by_mono :
    (v w : Seg → ℕ) → ((s : Seg) → v s ≤ w s) → (ss : List Seg) → sum_by v ss ≤ sum_by w ss
unfolding sum_by
sum_by_mono v w h [] = omega arith
sum_by_mono v w h (s ∷ ss) = omega (arith, h s, sum_by_mono v w h ss)
