-- ===== src/SpanTable/Search.antt =====
-- The binary search returns on every sorted table, reads inside it, and finds the owner.
use libumem.Base.{
  ℕ, zero, suc, ◌+◌, ◌-◌, ◌/◌, ◌≤◌, ◌<◌, ◌≡◌, none, some, List, [], ◌∷◌, arith, length, get_elem?,
  get_elem?-some, get_elem?-lt,
}
use native.Mathlib.Decide.{dec_lt}
use libumem.SpanTable.{SpanEnt, search}
use libumem.SpanTable.Order.{IsSorted}
use libumem.SpanTable.Owner.{owner, owner-none, owner-some}

IsSorted-lower :
    (lo j : ℕ) (es : List SpanEnt) (b : SpanEnt)
    → IsSorted lo es
    → get_elem? es j ≡ some b
    → (lo ≤ b.base) × (b.base < b.end)
IsSorted-lower lo j [] b s q = cc
IsSorted-lower lo zero (e ∷ es) b s q = ground arith
IsSorted-lower lo (suc j) (e ∷ es) b s q = omega (arith, IsSorted-lower e.end j es b s.2 q)

-- In a sorted table an entry ends before any later one begins.
IsSorted-ends :
    (lo i j : ℕ) (es : List SpanEnt) (a b : SpanEnt)
    → IsSorted lo es
    → get_elem? es i ≡ some a
    → get_elem? es j ≡ some b
    → i < j
    → a.end ≤ b.base
IsSorted-ends lo i j [] a b s p q h = cc
IsSorted-ends lo i zero (e ∷ es) a b s p q h = elim h [ ]
IsSorted-ends lo zero (suc j) (e ∷ es) a b s p q h =
    ground (arith, IsSorted-lower e.end j es b s.2 q)
IsSorted-ends lo (suc i) (suc j) (e ∷ es) a b s p q h =
    IsSorted-ends e.end i j es a b s.2 p q (omega arith)

-- What the two bounds know: every entry before `lo` ends by the address, and every one from `hi`
-- on begins above it.
record Bounds (es : List SpanEnt) (addr lo hi : ℕ) : Type 0 where
  below : (j : ℕ) (e : SpanEnt) → get_elem? es j ≡ some e → j < lo → e.end ≤ addr
  above : (j : ℕ) (e : SpanEnt) → get_elem? es j ≡ some e → hi ≤ j → addr < e.base

module _ (m addr : ℕ) (es : List SpanEnt) (s : IsSorted m es) where
  Bounds-left :
      (lo hi i : ℕ) (e : SpanEnt)
      → Bounds es addr lo hi
      → get_elem? es i ≡ some e
      → addr < e.base
      → Bounds es addr lo i
  Bounds-left lo hi i e b g h = record {
    below = b.below;
    above = λ j x q k. elim (dec_lt i j) [
      | yes lt ↦ omega (arith, IsSorted-ends m i j es e x s g q lt, IsSorted-lower m i es e s g)
      | no nlt ↦ let same : i ≡ j = omega arith in ground arith
    ];
  }

  Bounds-right :
      (lo hi i : ℕ) (e : SpanEnt)
      → Bounds es addr lo hi
      → get_elem? es i ≡ some e
      → e.end ≤ addr
      → Bounds es addr (i + 1) hi
  Bounds-right lo hi i e b g h = record {
    below = λ j x q k. elim (dec_lt j i) [
      | yes lt ↦ omega (arith, IsSorted-ends m j i es x e s q g lt, IsSorted-lower m i es e s g)
      | no nlt ↦ let same : i ≡ j = omega arith in ground arith
    ];
    above = b.above;
  }

  Bounds-empty : (lo hi : ℕ) → Bounds es addr lo hi → hi ≤ lo → owner es addr ≡ none
  Bounds-empty lo hi b h = owner-none m addr es s λ j e g. elim (dec_lt j lo) [
    | yes lt ↦ let past : e.end ≤ addr = b.below j e g lt in ground arith
    | no nlt ↦ let ahead : addr < e.base = b.above j e g (omega arith) in ground arith
  ]

  search-Bounds :
      (fuel lo hi : ℕ)
      → Bounds es addr lo hi
      → hi ≤ length es
      → hi - lo < fuel
      → search fuel es addr lo hi ≡ some (owner es addr)
  unfolding search
  search-Bounds zero lo hi b h f = elim f [ ]
  search-Bounds (suc fuel) lo hi b h f = elim (dec_lt lo hi) [
    | no empty ↦ ground (arith, Bounds-empty lo hi b (omega arith))
    | yes within ↦
        let mid = lo + (hi - lo) / 2 in
        let (e, g) = get_elem?-some es mid (omega arith) in
        elim (dec_lt addr e.base) [
          | yes left ↦ ground (
            arith,
            g,
            search-Bounds fuel lo mid (Bounds-left lo hi mid e b g left) (omega arith)
                (omega arith),
          )
          | no after ↦ elim (dec_lt addr e.end) [
            | yes hit ↦ ground (arith, g, owner-some m addr mid es e s g (ground arith))
            | no past ↦
                let right = Bounds-right lo hi mid e b g (omega arith) in
                ground (arith, g, search-Bounds fuel (mid + 1) hi right (omega arith) (omega arith))
          ]
        ]
  ]

-- On a sorted table the binary search ends within as many rounds as there are entries and one more,
-- reads inside the table, and finds what the linear scan finds.
pub search-eq-owner :
    (lo addr : ℕ) (es : List SpanEnt)
    → IsSorted lo es
    → search (length es + 1) es addr 0 (length es) ≡ some (owner es addr)
search-eq-owner lo addr es s =
    search-Bounds lo addr es s (length es + 1) 0 (length es)
      (record {
        below = λ j e g k. elim k [ ];
        above = λ j e g k. absurd (omega (arith, get_elem?-lt es j e g));
      })
      (omega arith) (omega arith)
