-- ===== src/Arena/Bump.antt =====
-- What an arena gives out: aligned ranges inside its mapping, one behind the other.
use mathlib.Core.Option.{some-injective}
use native.Mathlib.Nat.{mod-lt, mod-add-div', mul-mod_left}
use native.Mathlib.Decide.{dec_lt}
use libumem.Bits.Mask.{two-pow-pos}
use libumem.Base.{
  ℕ, ◌+◌, ◌-◌, ◌*◌, ◌/◌, ◌%◌, ◌^◌, ◌≤◌, ◌<◌, ◌≡◌, refl, sym, ap, ◌∙◌, none, some, List, [], ◌∷◌,
  All, arith, Option-cases, inl, inr,
}
use libumem.Word.{word, add64, sub64}
use libumem.Word.Align.{bit_and-not64}
use libumem.Arena.{Arena, arena_page_round, round_up, alloc, alloc_all}

-- The bump pointer is in the mapping, and the mapping in the address space.
pub record IsValid (a : Arena) : Type 0 where
  pub in_mapping : a.offset ≤ a.capacity
  pub no_wrap : a.base + a.capacity < word
  pub base_aligned : a.base % 16 ≡ 0
  pub offset_aligned : a.offset % 16 ≡ 0

-- The size that a request takes up.
abbrev pub rounded : ℕ → ℕ
rounded size = (size + 15) - (size + 15) % 16

-- Rounding up by the mask, where nothing wraps: the least multiple that is not below the size.
round_up-eq :
    (k size : ℕ)
    → k < 64
    → size + 2 ^ k ≤ word
    → 0 < size
    → round_up size (2 ^ k) ≡ (size + (2 ^ k - 1)) - (size + (2 ^ k - 1)) % 2 ^ k
unfolding round_up
round_up-eq k size h w p =
    let e : sub64 (add64 size (2 ^ k)) 1 ≡ size + (2 ^ k - 1) = ground (arith, two-pow-pos k) in
    rw e (bit_and-not64 k h (size + (2 ^ k - 1)) (omega (arith, two-pow-pos k)))

-- A valid arena gives a request that fits the range at the bump pointer, which moves by the rounded
-- size.
pub alloc-eq :
    (a : Arena) (size : ℕ)
    → IsValid a
    → 0 < size
    → rounded size ≤ a.capacity - a.offset
    → alloc a size ≡ some (a.base + a.offset, record a { offset = a.offset + rounded size })
unfolding alloc
alloc-eq a size v p h =
    let r : round_up size 16 ≡ rounded size =
      round_up-eq 4 size (omega arith) (omega (arith, v.no_wrap)) p in
    ground (arith, r, v.no_wrap, v.in_mapping)

-- A valid arena refuses a size below 2^64 that does not fit once it is rounded up, also where the
-- rounding leaves 64 bits.
pub alloc-none :
    (a : Arena) (size : ℕ)
    → IsValid a
    → size < word
    → a.capacity - a.offset < rounded size
    → alloc a size ≡ none
unfolding alloc
alloc-none a size v w h = elim (dec_lt (size + 15) word) [
  | yes fits ↦ ground (arith, round_up-eq 4 size (omega arith), v.no_wrap, v.in_mapping)
  | no big ↦ ground (arith, v.no_wrap, v.in_mapping)
]

-- A pointer, with the arena behind the request.
abbrev pub Given : Arena → Arena → ℕ → ℕ → Type 0
Given a b size ptr =
    (ptr ≡ a.base + a.offset)
    × (ptr % 16 ≡ 0)
    × (ptr + size ≤ b.base + b.offset)
    × (b.base ≡ a.base)
    × (b.capacity ≡ a.capacity)
    × (0 < size)
    × IsValid b

-- A pointer that a valid arena gives out for a size below 2^64 is the old bump pointer and aligned,
-- its range ends by the new bump pointer, and the arena stays valid and keeps its mapping.
pub alloc_lem :
    (a b : Arena) (size ptr : ℕ)
    → IsValid a
    → size < word
    → alloc a size ≡ some (ptr, b)
    → Given a b size ptr
alloc_lem a b size ptr v w e = elim (dec_lt 0 size) [
  | no zero_size ↦ absurd (refused (unfold alloc in ground arith))
  | yes pos ↦ elim (dec_lt (a.capacity - a.offset) (rounded size)) [
    | yes big ↦ absurd (refused (alloc-none a size v w big))
    | no fits ↦
        given (some-injective _ _ (sym (alloc-eq a size v pos (omega arith)) ∙ e)) pos (omega arith)
  ]
]
  where
    refused : alloc a size ≡ none → ⊥
    refused n = cc

    given :
        Path (ℕ × Arena) (a.base + a.offset, record a { offset = a.offset + rounded size }) (ptr, b)
        → 0 < size
        → rounded size ≤ a.capacity - a.offset
        → Given a b size ptr
    given q pos h =
        let p : a.base + a.offset ≡ ptr = ap (λ r. r.0) q in
        let base : a.base ≡ b.base = ap (λ r. r.1.base) q in
        let capacity : a.capacity ≡ b.capacity = ap (λ r. r.1.capacity) q in
        let offset : a.offset + rounded size ≡ b.offset = ap (λ r. r.1.offset) q in
        let le : size ≤ rounded size = omega arith in
        (
          sym p,
          omega (arith, v.base_aligned, v.offset_aligned),
          omega arith,
          sym base,
          sym capacity,
          pos,
          record {
            in_mapping = omega (arith, v.in_mapping);
            no_wrap = omega (arith, v.no_wrap);
            base_aligned = omega (arith, v.base_aligned);
            offset_aligned = omega (arith, v.offset_aligned);
          },
        )

-- Ranges that follow one another from `low` to `high`, each aligned and none empty.
abbrev pub Ordered : ℕ → ℕ → List (ℕ × ℕ) → Type 0
Ordered low high [] = low ≤ high
Ordered low high ((ptr, size) ∷ rs) =
    (low ≤ ptr) × (0 < size) × (ptr % 16 ≡ 0) × Ordered (ptr + size) high rs

abbrev pub Served : Arena → List (ℕ × ℕ) × Arena → Type 0
Served a (ranges, b) =
    Ordered (a.base + a.offset) (b.base + b.offset) ranges
    × IsValid b
    × (b.base ≡ a.base)
    × (b.capacity ≡ a.capacity)

-- Raising or lowering the first bound.
weaken : (l l' h : ℕ) (rs : List (ℕ × ℕ)) → l' ≤ l → Ordered l h rs → Ordered l' h rs
weaken l l' h [] w o = omega arith
weaken l l' h ((ptr, size) ∷ rs) w o = (omega (arith, o.0), o.1, o.2, o.3)

-- Whatever sizes below 2^64 are asked of a valid arena, the ranges given out are aligned, follow
-- one another without overlap from the old bump pointer to the new one, and the arena stays valid.
pub alloc_all-Ordered :
    (a : Arena) (sizes : List ℕ)
    → IsValid a
    → All (λ n. n < word) sizes
    → Served a (alloc_all a sizes)
unfolding alloc_all
alloc_all-Ordered a [] v w = (omega arith, v, refl, refl)
alloc_all-Ordered a (size ∷ sizes) v w = elim (Option-cases (alloc a size)) [
  | inl e ↦ rw (alloc_all, e) (alloc_all-Ordered a sizes v w.1)
  | inr ((ptr, b), e) ↦
      let now = alloc_lem a b size ptr v w.0 e in
      rw (alloc_all, e) (behind b ptr now (alloc_all-Ordered b sizes now.6 w.1))
]
  where
    behind :
        (b : Arena) (ptr : ℕ)
        → Given a b size ptr
        → Served b (alloc_all b sizes)
        → Served a ((ptr, size) ∷ (alloc_all b sizes).0, (alloc_all b sizes).1)
    behind b ptr g s = (
      (omega (arith, g.0), g.5, g.1, weaken _ (ptr + size) _ _ g.2 s.0),
      s.1,
      s.2 ∙ g.3,
      s.3 ∙ g.4,
    )

-- For pages of 2^k bytes and a size that is not 0, the mapping's size is the least multiple of the
-- page that is not below it, or 0 where that would wrap.
pub arena_page_round_lem :
    (k size : ℕ)
    → k < 64
    → 0 < size
    → (let r = arena_page_round (2 ^ k) size in
        (size + (2 ^ k - 1) < word → (r % 2 ^ k ≡ 0) × (size ≤ r) × (r < size + 2 ^ k))
        × (word ≤ size + (2 ^ k - 1) → r ≡ 0))
unfolding arena_page_round
arena_page_round_lem k size h p = (
  λ w. ground (
    arith,
    two-pow-pos k,
    round_up-eq k size h (omega (arith, two-pow-pos k)) p,
    mod-lt (size + (2 ^ k - 1)) (two-pow-pos k),
    down (size + (2 ^ k - 1)),
  ),
  λ w. ground (arith, two-pow-pos k),
)
  where
    down : (x : ℕ) → (x - x % 2 ^ k) % 2 ^ k ≡ 0
    down x =
        let e : x - x % 2 ^ k ≡ x / 2 ^ k * 2 ^ k = omega (arith, mod-add-div' x (2 ^ k)) in
        rw e (mul-mod_left (x / 2 ^ k) (2 ^ k))
