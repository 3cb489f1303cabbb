-- ===== src/Partition/Tiles.antt =====
-- umem_hash_partition.c: the intervals that the two constructors make divide the hash space.
use libumem.Base.{
  ℕ, zero, suc, ◌+◌, ◌-◌, ◌*◌, ◌/◌, ◌%◌, ◌≤◌, ◌<◌, ◌≡◌, refl, true, Option, none, some, List, [],
  ◌∷◌, length, All, ltb, ◌==◌, if◌then◌else◌, arith, Bool-cases, ne→not-==, lt→ltb, le→not-ltb, ◌⊎◌,
  inl, inr,
}
use mathlib.Core.Path.{subst}
use native.Mathlib.Nat.{le-div_iff_mul-le, div-mul-le_self}
use libumem.Word.{word, add64}
use libumem.Partition.{
  Part, ClaimantSize, uint64_max, max_claimants, widen_last, fill_equal, interval_sum, create,
  fill_sizes, finish_sizes, create_with_sizes,
}

-- The intervals follow one another without a gap from `lo` to `hi`, and none is empty.
abbrev pub Tiles : ℕ → ℕ → List Part → Type 0
Tiles lo hi [] = lo ≡ hi
Tiles lo hi (p ∷ ps) = (p.lower ≡ lo) × (0 < p.interval) × Tiles (lo + p.interval) hi ps

pub Tiles-le : (lo hi : ℕ) (ps : List Part) → Tiles lo hi ps → lo ≤ hi
Tiles-le lo hi [] t = omega arith
Tiles-le lo hi (p ∷ ps) t = omega (arith, Tiles-le (lo + p.interval) hi ps (t.2))

widen_last-Tiles :
    (lo hi n : ℕ) (p : Part) (ps : List Part)
    → Tiles lo hi (p ∷ ps)
    → hi + n < word
    → Tiles lo (hi + n) (widen_last n (p ∷ ps))
unfolding widen_last
widen_last-Tiles lo hi n p [] t h = omega (arith, t, h)
widen_last-Tiles lo hi n p (q ∷ ps) t h =
    (t.0, t.1, widen_last-Tiles (lo + p.interval) hi n q ps (t.2) h)

-- Sizes are words.
abbrev pub AreWords : List ClaimantSize → Type 0
AreWords cs = All (λ c. c.size < word) cs

fill_sizes-Tiles :
    (next remaining : ℕ) (cs : List ClaimantSize)
    → next + remaining ≡ uint64_max
    → (hi : ℕ) × Tiles next hi (fill_sizes next remaining cs).parts
      × (hi + (fill_sizes next remaining cs).remaining ≡ uint64_max)
unfolding fill_sizes
fill_sizes-Tiles next remaining [] e = (next, refl, e)
fill_sizes-Tiles next remaining (c ∷ cs) e = elim (Bool-cases (remaining == 0)) [
  | inl z ↦ rw z (next, refl, e)
  | inr z ↦ elim (Bool-cases (c.size == 0)) [
    | inl s ↦ rw (z, s) (fill_sizes-Tiles next remaining cs e)
    | inr s ↦
        let sz : ℕ = if ltb remaining c.size then remaining else c.size in
        let small : sz ≤ remaining = ground arith in
        let some_space : 0 < sz = ground (arith, z, s) in
        let fits : add64 next sz ≡ next + sz = omega (arith, e, small) in
        let (hi, t, r) =
          fill_sizes-Tiles (add64 next sz) (remaining - sz) cs (omega (arith, e, small, fits)) in
        rw (z, s)
          (
            hi,
            (
              refl,
              some_space,
              subst (λ n. Tiles n hi (fill_sizes (add64 next sz) (remaining - sz) cs).parts) fits t,
            ),
            r,
          )
  ]
]

-- A list that is not empty.
abbrev pub NonEmpty : List Part → Type 0
NonEmpty [] = ⊥
NonEmpty (p ∷ ps) = Unit

widen_last-NonEmpty : (n : ℕ) (ps : List Part) → NonEmpty ps → NonEmpty (widen_last n ps)
unfolding widen_last
widen_last-NonEmpty n [] h = h
widen_last-NonEmpty n (p ∷ []) h = tt
widen_last-NonEmpty n (p ∷ q ∷ ps) h = tt

-- The claimants divide the whole space.
abbrev pub Divides : Option (List Part) → Type 0
Divides none = ⊥
Divides (some ps) = NonEmpty ps × Tiles 0 uint64_max ps

widened-Divides :
    (hi n : ℕ) (ps : List Part)
    → NonEmpty ps
    → Tiles 0 hi ps
    → hi + n ≡ uint64_max
    → Divides (some (widen_last n ps))
widened-Divides hi n [] h t e = absurd h
widened-Divides hi n (p ∷ ps) h t e = (
  widen_last-NonEmpty n (p ∷ ps) tt,
  subst (λ m. Tiles 0 m (widen_last n (p ∷ ps))) e
      (widen_last-Tiles 0 hi n p ps t (omega (arith, e))),
)

finish_sizes-Divides :
    (hi remaining : ℕ) (ps : List Part)
    → NonEmpty ps
    → Tiles 0 hi ps
    → hi + remaining ≡ uint64_max
    → Divides (finish_sizes (record { parts = ps; remaining = remaining }))
finish_sizes-Divides hi remaining [] h t e = absurd h
finish_sizes-Divides hi zero (p ∷ ps) h t e =
    rw (ne→not-== (suc (length ps)) 0 (omega arith))
      (tt, subst (λ m. Tiles 0 m (p ∷ ps)) (omega (arith, e)) t)
finish_sizes-Divides hi (suc n) (p ∷ ps) h t e =
    rw (ne→not-== (suc (length ps)) 0 (omega arith), lt→ltb 0 (suc n) (omega arith))
      (widened-Divides hi (suc n) (p ∷ ps) tt t e)

-- Some claimant asks for space.
abbrev pub Asks : List ClaimantSize → Type 0
Asks [] = ⊥
Asks (c ∷ cs) = (0 < c.size) ⊎ Asks cs

later-Asks :
    (c : ClaimantSize) (cs : List ClaimantSize)
    → (c.size == 0) ≡ true
    → (0 < c.size) ⊎ Asks cs
    → Asks cs
later-Asks c cs s (inl p) = absurd (ground (arith, s, p))
later-Asks c cs s (inr q) = q

fill_sizes-NonEmpty :
    (next remaining : ℕ) (cs : List ClaimantSize)
    → 0 < remaining
    → Asks cs
    → NonEmpty (fill_sizes next remaining cs).parts
unfolding fill_sizes
fill_sizes-NonEmpty next remaining [] h a = a
fill_sizes-NonEmpty next remaining (c ∷ cs) h a = elim (Bool-cases (c.size == 0)) [
  | inl s ↦
      rw (ne→not-== remaining 0 (omega (arith, h)), s)
        (fill_sizes-NonEmpty next remaining cs h (later-Asks c cs s a))
  | inr s ↦ rw (ne→not-== remaining 0 (omega (arith, h)), s) tt
]

sizes-length : (cs : List ClaimantSize) → Asks cs → 0 < length cs
sizes-length [] a = absurd a
sizes-length (c ∷ cs) a = omega arith

-- If there is memory, at most 1024 sizes are given and one is not 0, then
-- `hash_partitions_create_with_sizes` divides the whole space into intervals that are not empty.
pub create_with_sizes-Divides :
    (cs : List ClaimantSize)
    → length cs ≤ max_claimants
    → Asks cs
    → Divides (create_with_sizes true cs)
unfolding create_with_sizes
create_with_sizes-Divides cs h a =
    let n = sizes-length cs a in
    let (hi, t, r) = fill_sizes-Tiles 0 uint64_max cs refl in
    let full = fill_sizes-NonEmpty 0 uint64_max cs (omega arith) a in
    rw (ne→not-== (length cs) 0 (omega (arith, n)), le→not-ltb max_claimants (length cs) h)
      (finish_sizes-Divides hi (fill_sizes 0 uint64_max cs).remaining
        (fill_sizes 0 uint64_max cs).parts full t r)

interval_sum_lem :
    (sum lo hi : ℕ) (ps : List Part)
    → Tiles lo hi ps
    → sum + hi < word + lo
    → interval_sum sum ps + lo ≡ sum + hi
interval_sum_lem sum lo hi [] t h = omega (arith, t)
interval_sum_lem sum lo hi (p ∷ ps) t h =
    let le = Tiles-le (lo + p.interval) hi ps (t.2) in
    let fits : add64 sum p.interval ≡ sum + p.interval = omega (arith, h, le) in
    let r =
      interval_sum_lem (add64 sum p.interval) (lo + p.interval) hi ps (t.2)
        (omega (arith, h, fits)) in
    omega (arith, r, fits)

fill_equal-Tiles :
    (interval next : ℕ) (names : List (List ℕ))
    → 0 < interval
    → next + interval * length names ≤ uint64_max
    → (hi : ℕ) × Tiles next hi (fill_equal interval next names)
      × (hi ≤ next + interval * length names)
unfolding fill_equal
fill_equal-Tiles interval next [] p h = (next, refl, omega arith)
fill_equal-Tiles interval next ([] ∷ names) p h =
    let (hi, t, le) = fill_equal-Tiles interval next names p (omega (arith, h)) in
    (hi, t, omega (arith, le))
fill_equal-Tiles interval next ((c ∷ name) ∷ names) p h =
    let fits : add64 next interval ≡ next + interval = omega (arith, h) in
    let (hi, t, le) =
      fill_equal-Tiles interval (add64 next interval) names p (omega (arith, h, fits)) in
    (
      hi,
      (refl, p, subst (λ n. Tiles n hi (fill_equal interval (add64 next interval) names)) fits t),
      omega (arith, le, fits),
    )

-- Some claimant has a name.
abbrev pub Named : List (List ℕ) → Type 0
Named [] = ⊥
Named ([] ∷ names) = Named names
Named ((c ∷ name) ∷ names) = Unit

fill_equal-NonEmpty :
    (interval next : ℕ) (names : List (List ℕ))
    → Named names
    → NonEmpty (fill_equal interval next names)
unfolding fill_equal
fill_equal-NonEmpty interval next [] h = h
fill_equal-NonEmpty interval next ([] ∷ names) h = fill_equal-NonEmpty interval next names h
fill_equal-NonEmpty interval next ((c ∷ name) ∷ names) h = tt

Named-length : (names : List (List ℕ)) → Named names → 0 < length names
Named-length [] h = absurd h
Named-length (name ∷ names) h = omega arith

equal_interval :
    (n : ℕ) → 0 < n → n ≤ max_claimants → (0 < uint64_max / n) × (uint64_max / n * n ≤ uint64_max)
equal_interval n p h = ((le-div_iff_mul-le p).1 (omega (arith, h)), div-mul-le_self uint64_max n)

-- If there is memory, at most 1024 claimants are given and one has a name, then
-- `hash_partitions_create` divides the whole space into intervals that are not empty.
pub create-Divides :
    (names : List (List ℕ))
    → length names ≤ max_claimants
    → Named names
    → Divides (create true names)
unfolding create
create-Divides names h a =
    let n = Named-length names a in
    let interval = uint64_max / length names in
    let (p, m) = equal_interval (length names) n h in
    let (hi, t, le) = fill_equal-Tiles interval 0 names p (omega (arith, m)) in
    let sum = interval_sum_lem 0 0 hi (fill_equal interval 0 names) t (omega (arith, le, m)) in
    rw (ne→not-== (length names) 0 (omega (arith, n)), le→not-ltb max_claimants (length names) h)
      (widened-Divides hi
        ((uint64_max + word - interval_sum 0 (fill_equal interval 0 names)) % word)
        (fill_equal interval 0 names) (fill_equal-NonEmpty interval 0 names a) t
        (omega (arith, sum, le, m)))
