-- ===== src/Partition/Claim.antt =====
-- umem_hash_partition.c: the binary search finds the claimant whose interval holds the hash.
use libumem.Base.{
  ℕ, zero, suc, ◌+◌, ◌-◌, ◌/◌, ◌≤◌, ◌<◌, ◌≡◌, ◌≢◌, refl, sym, ap, ◌∙◌, Option, none, some, List, [],
  ◌∷◌, length, get_elem?, arith, ◌⊎◌, inl, inr, get_elem?-some, get_elem?-lt, eq→==, ne→not-==,
  lt→ltb, le→not-ltb, le→leb, lt→not-leb,
}
use native.Mathlib.Numerals.{add-one}
use native.Mathlib.Decide.{dec_lt, dec_le, ℕ_discrete}
use mathlib.Core.Path.{subst}
use mathlib.Core.Option.{some-injective}
use libumem.Partition.{
  Part, Round, found, go, missing, fault, after_mid, at_mid, round, search, get_claimant,
  uint64_max,
}
use libumem.Partition.Tiles.{Tiles, Tiles-le, NonEmpty}

Tiles-lower :
    (lo hi j : ℕ) (ps : List Part) (p : Part)
    → Tiles lo hi ps
    → get_elem? ps j ≡ some p
    → (lo ≤ p.lower) × (0 < p.interval) × (p.lower + p.interval ≤ hi)
Tiles-lower lo hi j [] p t e = cc
Tiles-lower lo hi zero (q ∷ ps) p t e =
    subst (λ (x : Part). (lo ≤ x.lower) × (0 < x.interval) × (x.lower + x.interval ≤ hi))
      (some-injective q p e) (omega (arith, t, Tiles-le (lo + q.interval) hi ps (t.2)))
Tiles-lower lo hi (suc j) (q ∷ ps) p t e =
    let r = Tiles-lower (lo + q.interval) hi j ps p (t.2) e in omega (arith, r)

-- A later claimant begins where an earlier one has ended.
Tiles-ends :
    (lo hi i j : ℕ) (ps : List Part) (p q : Part)
    → Tiles lo hi ps
    → get_elem? ps i ≡ some p
    → get_elem? ps j ≡ some q
    → i < j
    → p.lower + p.interval ≤ q.lower
Tiles-ends lo hi i j [] p q t e f h = cc
Tiles-ends lo hi i zero (r ∷ ps) p q t e f h = elim h [ ]
Tiles-ends lo hi zero (suc j) (r ∷ ps) p q t e f h =
    ground (arith, Tiles-lower (lo + r.interval) hi j ps q (t.2) f)
Tiles-ends lo hi (suc i) (suc j) (r ∷ ps) p q t e f h =
    Tiles-ends (lo + r.interval) hi i j ps p q (t.2) e f (omega arith)

-- The place of the claimant of a hash.
record Owns (ps : List Part) (hi hash k : ℕ) (p : Part) : Type 0 where
  pub at : get_elem? ps k ≡ some p
  pub begun : p.lower ≤ hash
  pub ahead : (q : Part) → get_elem? ps (suc k) ≡ some q → hash < q.lower
  pub inside : (hash < p.lower + p.interval) ⊎ ((p.lower + p.interval ≡ hi) × (k ≡ length ps - 1))

one_later :
    (hash hi k n : ℕ) (p : Part)
    → (hash < p.lower + p.interval) ⊎ ((p.lower + p.interval ≡ hi) × (k ≡ suc n - 1))
    → (hash < p.lower + p.interval) ⊎ ((p.lower + p.interval ≡ hi) × (suc k ≡ suc (suc n) - 1))
one_later hash hi k n p (inl h) = inl h
one_later hash hi k n p (inr (e, l)) = inr (e, omega (arith, l))

owner_of :
    (lo hi hash : ℕ) (ps : List Part)
    → NonEmpty ps
    → Tiles lo hi ps
    → lo ≤ hash
    → (k : ℕ) × (p : Part) × Owns ps hi hash k p
owner_of lo hi hash [] n t h = absurd n
owner_of lo hi hash (p ∷ []) n t h = (
  0,
  p,
  record {
    at = refl;
    begun = omega (arith, t, h);
    ahead = λ q e. cc;
    inside = inr (omega (arith, t), refl);
  },
)
owner_of lo hi hash (p ∷ q ∷ ps) n t h = elim (dec_lt hash q.lower) [
  | yes lt ↦ (
    0,
    p,
    record {
      at = refl;
      begun = omega (arith, t, h);
      ahead = λ r e. subst (λ (x : Part). hash < x.lower) (some-injective q r e) lt;
      inside = inl (omega (arith, t, lt));
    },
  )
  | no ge ↦
      let (k, r, o) = owner_of (lo + p.interval) hi hash (q ∷ ps) tt (t.2) (omega (arith, t, ge)) in
      (
        suc k,
        r,
        record {
          at = o.at;
          begun = o.begun;
          ahead = o.ahead;
          inside = one_later hash hi k (length ps) r o.inside;
        },
      )
]

-- The search between bounds that hold the place of the claimant.
module _ (ps : List Part) (hi hash k : ℕ) (p : Part) (t : Tiles 0 hi ps)
    (o : Owns ps hi hash k p) where
  -- A claimant that begins at or below the hash does not stand behind the place.
  not_behind : (j : ℕ) (q : Part) → get_elem? ps j ≡ some q → q.lower ≤ hash → j ≤ k
  not_behind j q e h = elim (dec_le j k) [
    | yes le ↦ le
    | no gt ↦
        let (r, f) = get_elem?-some ps (suc k) (omega (arith, gt, get_elem?-lt ps j q e)) in
        let past = o.ahead r f in
        elim (ℕ_discrete (suc k) j) [
          | yes same ↦
              let one : r ≡ q = some-injective r q (sym f ∙ ap (get_elem? ps) same ∙ e) in
              let past' = subst (λ (x : Part). hash < x.lower) one past in
              absurd (omega (arith, past', h))
          | no other ↦ absurd (
              omega
                (arith, Tiles-ends 0 hi (suc k) j ps r q t f e (omega (arith, gt, other)), past, h))
        ]
  ]

  -- One that begins above the hash does not stand before it.
  not_before : (j : ℕ) (q : Part) → get_elem? ps j ≡ some q → hash < q.lower → k < j
  not_before j q e h = elim (dec_lt k j) [
    | yes lt ↦ lt
    | no ge ↦ elim (ℕ_discrete j k) [
      | yes same ↦
          let one : q ≡ p = some-injective q p (sym e ∙ ap (get_elem? ps) same ∙ o.at) in
          let above = subst (λ (x : Part). hash < x.lower) one h in
          absurd (omega (arith, above, o.begun))
      | no other ↦ absurd (
          omega (arith, Tiles-ends 0 hi j k ps q p t e o.at (omega (arith, ge, other)), h, o.begun))
    ]
  ]

  -- What a round may come to.
  abbrev Sound : ℕ → ℕ → Round → Type 0
  Sound left right (found name) = name ≡ p.name
  Sound left right (go l r) = (l ≤ k) × (k ≤ r) × (r < length ps) × (r - l < right - left)
  Sound left right missing = ⊥
  Sound left right fault = ⊥

  same_name : (j : ℕ) (q : Part) → get_elem? ps j ≡ some q → j ≡ k → q.name ≡ p.name
  same_name j q e same =
      ap (λ (x : Part). x.name) (some-injective q p (sym e ∙ ap (get_elem? ps) same ∙ o.at))

  last-place : (j : ℕ) → get_elem? ps (suc j) ≡ none → j < length ps → j ≡ length ps - 1
  last-place j f h = elim (dec_lt (suc j) (length ps)) [
    | yes lt ↦ let (q, g) = get_elem?-some ps (suc j) lt in absurd (cc (f, g))
    | no ge ↦ omega (arith, ge, h)
  ]

  after_mid-Sound :
      (left mid right : ℕ) (q : Part) (next : Option Part)
      → get_elem? ps mid ≡ some q
      → get_elem? ps (suc mid) ≡ next
      → q.lower ≤ hash
      → k ≤ right
      → right < length ps
      → left ≤ mid
      → mid ≤ right
      → Sound left right (after_mid ps hash mid right q next)
  after_mid-Sound left mid right q none e f h kr r lm mr =
      let last = last-place mid f (omega (arith, mr, r)) in
      rw (eq→== mid (length ps - 1) last)
        (same_name mid q e (omega (arith, not_behind mid q e h, last, kr, r)))
  after_mid-Sound left mid right q (some n) e f h kr r lm mr =
      let inner : mid ≢ length ps - 1 = omega (arith, get_elem?-lt ps (suc mid) n f) in
      elim (dec_lt hash n.lower) [
        | yes lt ↦
            rw (ne→not-== mid (length ps - 1) inner, lt→ltb hash n.lower lt)
              (same_name mid q e (omega (arith, not_behind mid q e h, not_before (suc mid) n f lt)))
        | no ge ↦
            rw (ne→not-== mid (length ps - 1) inner, le→not-ltb hash n.lower (omega (arith, ge)))
              (omega (arith, not_behind (suc mid) n f (omega (arith, ge)), kr, r, lm, mr))
      ]

  at_mid-Sound :
      (left mid right : ℕ)
      → left ≤ k
      → k ≤ right
      → right < length ps
      → left ≤ mid
      → mid ≤ right
      → Sound left right (at_mid ps hash left mid right (get_elem? ps mid))
  at_mid-Sound left mid right lk kr r lm mr =
      let (q, e) = get_elem?-some ps mid (omega (arith, mr, r)) in
      elim (dec_le q.lower hash) [
        | yes le ↦
            rw (e, le→leb q.lower hash le, add-one)
              (after_mid-Sound left mid right q (get_elem? ps (suc mid)) e refl le kr r lm mr)
        | no gt ↦
            let before = not_before mid q e (omega (arith, gt)) in
            rw
              (
                e,
                lt→not-leb q.lower hash (omega (arith, gt)),
                ne→not-== mid 0 (omega (arith, before)),
              )
              (omega (arith, before, lk, kr, r, lm, mr))
      ]

  round-Sound :
      (left right : ℕ)
      → left ≤ k
      → k ≤ right
      → right < length ps
      → Sound left right (round ps hash left right)
  unfolding round
  round-Sound left right lk kr r = rw (le→leb left right (omega (arith, lk, kr))) (
      at_mid-Sound left (left + (right - left) / 2) right lk kr r (omega (arith, lk, kr))
        (omega (arith, lk, kr)))

  abbrev Finds : ℕ → Type 0
  Finds fuel =
      (left right : ℕ)
      → left ≤ k
      → k ≤ right
      → right < length ps
      → right - left < fuel
      → search fuel ps hash left right ≡ some (some p.name)

  round-Finds :
      (fuel left right : ℕ) (a : Round)
      → Finds fuel
      → round ps hash left right ≡ a
      → Sound left right a
      → right - left < suc fuel
      → search (suc fuel) ps hash left right ≡ some (some p.name)
  unfolding search
  round-Finds fuel left right (found name) ih q s f = rw (search, q, s) refl
  round-Finds fuel left right (go l r) ih q s f =
      rw (search, q) (ih l r (s.0) (s.1) (s.2) (omega (arith, s, f)))
  round-Finds fuel left right missing ih q s f = absurd s
  round-Finds fuel left right fault ih q s f = absurd s

  search-Finds : (fuel : ℕ) → Finds fuel
  search-Finds zero left right lk kr r f = elim f [ ]
  search-Finds (suc fuel) left right lk kr r f =
      round-Finds fuel left right (round ps hash left right) (search-Finds fuel) refl
        (round-Sound left right lk kr r) f

NonEmpty-length : (ps : List Part) → NonEmpty ps → 0 < length ps
NonEmpty-length [] n = absurd n
NonEmpty-length (p ∷ ps) n = omega arith

within :
    (hash hi k n : ℕ) (p : Part)
    → hash ≤ hi
    → (hash < p.lower + p.interval) ⊎ ((p.lower + p.interval ≡ hi) × (k ≡ n))
    → (hash < p.lower + p.interval) ⊎ ((hash ≡ hi) × (k ≡ n))
within hash hi k n p h (inl lt) = inl lt
within hash hi k n p h (inr (e, l)) = elim (dec_lt hash (p.lower + p.interval)) [
  | yes lt ↦ inl lt
  | no ge ↦ inr (omega (arith, e, ge, h), l)
]

-- In a list of claimants that divides the space, every hash has a claimant whose interval holds it;
-- the last one has the greatest hash as well. The search ends within as many rounds as there are
-- claimants, reads inside the table, and answers that claimant's name.
pub get_claimant_lem :
    (ps : List Part) (hash : ℕ)
    → NonEmpty ps
    → Tiles 0 uint64_max ps
    → hash ≤ uint64_max
    → (k : ℕ) × (p : Part) × (get_elem? ps k ≡ some p)
      × (get_claimant (length ps) ps hash ≡ some (some p.name))
      × (p.lower ≤ hash)
      × ((hash < p.lower + p.interval) ⊎ ((hash ≡ uint64_max) × (k ≡ length ps - 1)))
unfolding get_claimant
get_claimant_lem ps hash n t h =
    let (k, p, o) = owner_of 0 uint64_max hash ps n t (omega arith) in
    let size = NonEmpty-length ps n in
    let (q, e) = get_elem?-some ps (length ps - 1) (omega (arith, size)) in
    let inside = within hash uint64_max k (length ps - 1) p h o.inside in
    let bound = get_elem?-lt ps k p o.at in
    elim (dec_le q.lower hash) [
      | yes le ↦
          let place = not_behind ps uint64_max hash k p t o (length ps - 1) q e le in
          let name =
            same_name ps uint64_max hash k p t o (length ps - 1) q e
              (omega (arith, place, bound)) in
          (
            k,
            p,
            o.at,
            rw (ne→not-== (length ps) 0 (omega (arith, size)), e, le→leb q.lower hash le, name)
                refl,
            o.begun,
            inside,
          )
      | no gt ↦ (
        k,
        p,
        o.at,
        rw
            (
              ne→not-== (length ps) 0 (omega (arith, size)),
              e,
              lt→not-leb q.lower hash (omega (arith, gt)),
            )
            (search-Finds ps uint64_max hash k p t o (length ps) 0 (length ps - 1) (omega arith)
              (omega (arith, bound)) (omega (arith, size)) (omega (arith, size))),
        o.begun,
        inside,
      )
    ]
