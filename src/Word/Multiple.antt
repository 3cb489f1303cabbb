-- ===== src/Word/Multiple.antt =====
-- Multiples of an alignment, and what rounding up does below one.
use native.Mathlib.Decide.{dec_lt}
use native.Mathlib.Nat.{mod-add-div', mul-le-mul_right, add-mul-mod_self_right}
use libumem.Base.{ℕ, ◌+◌, ◌*◌, ◌/◌, ◌%◌, ◌^◌, ◌≤◌, ◌<◌, ◌≡◌, ◌∙◌, arith}
use libumem.Word.{word, p2roundup}
use libumem.Word.Align.{p2roundup_lem, word-multiple}

-- Two multiples are at least one step apart.
pub multiple-gap : (q a b : ℕ) → a % q ≡ 0 → b % q ≡ 0 → a < b → a + q ≤ b
multiple-gap q a b ha hb h = elim (dec_lt (a / q) (b / q)) [
  | yes lt ↦ omega (arith, mod-add-div' a q, mod-add-div' b q, mul-le-mul_right q lt)
  | no ge ↦
      let le : b / q ≤ a / q = omega arith in
      absurd (omega (arith, mod-add-div' a q, mod-add-div' b q, mul-le-mul_right q le))
]

pub multiple-add : (q a b : ℕ) → a % q ≡ 0 → b % q ≡ 0 → (a + b) % q ≡ 0
multiple-add q a b ha hb =
    let e : a + b ≡ a + b / q * q = omega (arith, mod-add-div' b q) in
    rw e (add-mul-mod_self_right a (b / q) q ∙ ha)

module _ (k : ℕ) (small : k < 64) where
  -- Rounding up stays below a multiple that is not below the number.
  pub roundup-le :
      (x m : ℕ)
      → x ≤ m
      → m < word
      → m % 2 ^ k ≡ 0
      → (x ≤ p2roundup x (2 ^ k))
        × (p2roundup x (2 ^ k) ≤ m)
        × (p2roundup x (2 ^ k) % 2 ^ k ≡ 0)
        × (p2roundup x (2 ^ k) < x + 2 ^ k)
  roundup-le x m h lt z =
      let room : m + 2 ^ k ≤ word = multiple-gap (2 ^ k) m word z (word-multiple k small) lt in
      let r = p2roundup_lem k small x (omega arith) in
      let up = p2roundup x (2 ^ k) in
      (
        r.1,
        elim (dec_lt m up) [
          | yes over ↦ absurd (omega (arith, multiple-gap (2 ^ k) m up z r.0 over, r))
          | no fine ↦ omega arith
        ],
        r.0,
        r.2,
      )

  -- An aligned offset can be added before or after.
  pub roundup-add :
      (a x m : ℕ)
      → a % 2 ^ k ≡ 0
      → a + x ≤ m
      → m < word
      → m % 2 ^ k ≡ 0
      → p2roundup (a + x) (2 ^ k) ≡ a + p2roundup x (2 ^ k)
  roundup-add a x m ha h lt z = elim (dec_lt s t) [
    | yes below ↦ absurd (omega (arith, multiple-gap q s t f.2 g below, f, r))
    | no above ↦ elim (dec_lt t s) [
      | yes above' ↦ absurd (omega (arith, multiple-gap q t s g f.2 above', f, r))
      | no same ↦ omega arith
    ]
  ]
    where
      q : ℕ
      q = 2 ^ k

      s : ℕ
      s = p2roundup (a + x) q

      t : ℕ
      t = a + p2roundup x q

      f : (a + x ≤ s) × (s ≤ m) × (s % q ≡ 0) × (s < a + x + q)
      f = roundup-le (a + x) m h lt z

      r :
          (x ≤ p2roundup x q)
          × (p2roundup x q ≤ m)
          × (p2roundup x q % q ≡ 0)
          × (p2roundup x q < x + q)
      r = roundup-le x m (omega arith) lt z

      g : t % q ≡ 0
      g = multiple-add q a (p2roundup x q) ha r.2

module _ (k q : ℕ) (small : k < 64) (pow : q ≡ 2 ^ k) where
  -- What rounding up does to an aligned address and a size below an aligned end.
  pub round_within :
      (a x m : ℕ)
      → a % q ≡ 0
      → a + x ≤ m
      → m < word
      → m % q ≡ 0
      → (p2roundup (a + x) q ≡ a + p2roundup x q)
        × (x ≤ p2roundup x q)
        × (a + p2roundup x q ≤ m)
        × ((a + p2roundup x q) % q ≡ 0)
  round_within a x m = rw pow λ ha h lt z.
      let e = roundup-add k small a x m ha h lt z in
      let (ge, le, al, _) = roundup-le k small (a + x) m h lt z in
      (e, omega (arith, e), omega (arith, e), rw e at al)
