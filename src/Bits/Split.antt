-- ===== src/Bits/Split.antt =====
-- The word test by which two sizes are on one freelist: it says that both have the same highest bit.
use Prim.Native.Nat.{bit_and, bit_xor}
use native.Mathlib.Decide.{dec_lt}
use native.Mathlib.Nat.{pow-suc}
use libumem.Base.{ℕ, zero, suc, ◌/◌, ◌^◌, ◌≤◌, ◌<◌, ◌≡◌, arith}
use libumem.Bits.Digits.{bit_and-lowest, bit_xor-lowest, zero-bit_and, zero-bit_xor}

-- h is the position of the highest bit of a.
pub record IsHigh (a h : ℕ) : Type 0 where
  pub at_least : 2 ^ h ≤ a
  pub below : a < 2 ^ suc h

-- Only two zeros have no bit where `^` and `&` disagree.
xor-eq-and : (n a b : ℕ) → a ≤ n → bit_xor a b ≡ bit_and a b → (a ≡ 0) × (b ≡ 0)
xor-eq-and n zero b l e = omega (arith, zero-bit_xor b, zero-bit_and b)
xor-eq-and zero (suc a) b l e = absurd (omega arith)
xor-eq-and (suc n) (suc a) b l e = ground (
  arith,
  bit_and-lowest (suc a) b,
  bit_xor-lowest (suc a) b,
  xor-eq-and n (suc a / 2) (b / 2) (omega arith),
)

IsHigh-double : (a h : ℕ) → IsHigh (a / 2) h → IsHigh a (suc h)
IsHigh-double a h v = record {
  at_least = omega (arith, pow-suc 2 h);
  below = omega (arith, pow-suc 2 h, pow-suc 2 (suc h));
}

-- If `^` is below `&`, the two numbers have the same highest bit.
pub same-IsHigh :
    (n a b : ℕ) → a ≤ n → bit_xor a b < bit_and a b → (h : ℕ) × IsHigh a h × IsHigh b h
same-IsHigh n zero b l c = absurd (omega (arith, zero-bit_and b))
same-IsHigh zero (suc a) b l c = absurd (omega arith)
same-IsHigh (suc n) (suc a) b l c = elim (dec_lt x y) [
  | yes lower ↦
      let (h, u, v) = same-IsHigh n (suc a / 2) (b / 2) (omega arith) lower in
      (suc h, IsHigh-double (suc a) h u, IsHigh-double b h v)
  | no top ↦ (0, omega (arith, ones), omega (arith, ones))
]
  where
    x : ℕ
    x = bit_xor (suc a / 2) (b / 2)

    y : ℕ
    y = bit_and (suc a / 2) (b / 2)

    ones : ¬ (x < y) → (suc a ≡ 1) × (b ≡ 1)
    ones h = ground (
      arith,
      bit_and-lowest (suc a) b,
      bit_xor-lowest (suc a) b,
      xor-eq-and (suc a) (suc a / 2) (b / 2) (omega arith),
    )
