-- ===== src/Bits/Mask.antt =====
-- A mask of low ones is a remainder, and a mask of high ones drops that remainder.
use Prim.Native.Nat.{bit_and}
use native.Mathlib.Nat.{
  add-zero, mul_assoc, pow-suc, one-le-pow, mod-eq_of_lt, mod-lt, mod-add-div',
  mul-add-mod_self_right,
}
use libumem.Base.{ℕ, zero, suc, ◌+◌, ◌-◌, ◌*◌, ◌/◌, ◌%◌, ◌^◌, ◌≤◌, ◌<◌, ◌≡◌, refl, ap, ◌∙◌, arith}
use libumem.Bits.Digits.{bit_and-lowest}

bit_and-zero : (n a : ℕ) → a ≤ n → bit_and a 0 ≡ 0
bit_and-zero n zero h = refl
bit_and-zero zero (suc a) h = absurd (omega arith)
bit_and-zero (suc n) (suc a) h =
    omega (arith, bit_and-lowest (suc a) 0, bit_and-zero n (suc a / 2) (omega arith))

pub two-pow-pos : (k : ℕ) → 0 < 2 ^ k
two-pow-pos k = one-le-pow k 2 (omega arith)

pub mod_unique : (a n q r : ℕ) → r < n → a ≡ q * n + r → a % n ≡ r
mod_unique a n q r h e = rw e (mul-add-mod_self_right q n r ∙ mod-eq_of_lt h)

mod-double : (t a : ℕ) → 0 < t → a % (t * 2) ≡ a / 2 % t * 2 + a % 2
mod-double t a h =
    mod_unique a (t * 2) (a / 2 / t) (a / 2 % t * 2 + a % 2) (omega (arith, mod-lt (a / 2) h))
      (omega (arith, mod-add-div' (a / 2) t))

-- a & (2^k - 1)
pub bit_and-low : (k a : ℕ) → bit_and a (2 ^ k - 1) ≡ a % 2 ^ k
bit_and-low zero a = omega (arith, bit_and-zero a a (omega arith))
bit_and-low (suc k) a = rw (pow-suc 2 k) (
    ground (
      arith,
      half-mask,
      bit_and-lowest a (2 ^ k * 2 - 1),
      mod-double (2 ^ k) a (two-pow-pos k),
      bit_and-low k (a / 2),
    ))
  where
    half-mask : ((2 ^ k * 2 - 1) / 2 ≡ 2 ^ k - 1) × ((2 ^ k * 2 - 1) % 2 ≡ 1)
    half-mask = omega (arith, two-pow-pos k)

-- a & ~(2^k - 1), in a word of k + j bits
pub bit_and-high : (k j a : ℕ) → a < 2 ^ (k + j) → bit_and a (2 ^ (k + j) - 2 ^ k) ≡ a - a % 2 ^ k
bit_and-high zero j a h =
    let e : zero + j ≡ j = omega arith in
    let h' : a < 2 ^ j = rw (← e) h in rw e (omega (arith, bit_and-low j a, mod-eq_of_lt h'))
bit_and-high (suc k) j a h =
    let e : suc k + j ≡ suc (k + j) = omega arith in
    let w : 2 ^ (suc k + j) ≡ 2 ^ (k + j) * 2 = ap (λ n. 2 ^ n) e ∙ pow-suc 2 (k + j) in
    rw (w, pow-suc 2 k)
      (ground (
        arith,
        half-mask,
        bit_and-lowest a (2 ^ (k + j) * 2 - 2 ^ k * 2),
        mod-double (2 ^ k) a (two-pow-pos k),
        bit_and-high k j (a / 2) (omega arith),
      ))
  where
    half-mask :
        ((2 ^ (k + j) * 2 - 2 ^ k * 2) / 2 ≡ 2 ^ (k + j) - 2 ^ k)
        × ((2 ^ (k + j) * 2 - 2 ^ k * 2) % 2 ≡ 0)
    half-mask = omega arith

pub two-pow-add : (k j : ℕ) → 2 ^ (k + j) ≡ 2 ^ k * 2 ^ j
two-pow-add k zero = rw add-zero (omega arith)
two-pow-add k (suc j) =
    let e : k + suc j ≡ suc (k + j) = omega arith in
    rw (e, pow-suc 2 (k + j), pow-suc 2 j, two-pow-add k j) (mul_assoc (2 ^ k) (2 ^ j) 2)
