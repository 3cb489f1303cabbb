-- ===== src/Vmem/Bucket.antt =====
-- Which freelist a size is on: the one of its highest bit, and the source's word test compares it.
use native.Mathlib.Decide.{dec_lt}
use native.Mathlib.Nat.{pow-le-pow_right}
use libumem.Base.{ℕ, suc, ◌-◌, ◌^◌, ◌≤◌, ◌<◌, ◌≡◌, true, arith}
use libumem.Bits.Mask.{two-pow-pos}
use libumem.Bits.Split.{IsHigh, same-IsHigh}
use libumem.Word.{word, p2samehighbit, highbit}
use libumem.Word.Highbit.{highbit_lem}
use libumem.Vmem.{bucket}

IsHigh-le : (a h g : ℕ) → IsHigh a h → IsHigh a g → h ≤ g
IsHigh-le a h g u v = elim (dec_lt g h) [
  | yes lt ↦
      let le : 2 ^ suc g ≤ 2 ^ h = pow-le-pow_right {n = 2} (omega arith) {i = suc g} {j = h} lt in
      absurd (omega (arith, u.at_least, v.below))
  | no ge ↦ omega arith
]

pub bucket-IsHigh : (a h : ℕ) → 0 < a → a < word → IsHigh a h → bucket a ≡ h
unfolding bucket
bucket-IsHigh a h p w u =
    let v = (highbit_lem a p w).1 in
    omega (arith, IsHigh-le a h (highbit a - 1) u v, IsHigh-le a (highbit a - 1) h v u)

-- The sizes on freelist i are those from 2^i up to 2^(i + 1).
pub bucket_bounds : (a : ℕ) → 0 < a → a < word → IsHigh a (bucket a)
unfolding bucket
bucket_bounds a p w = (highbit_lem a p w).1

-- Two words that pass the test of `vmem_seg_alloc` are sizes of one freelist, and the second is not
-- 0.
pub bucket-samehighbit :
    (a b : ℕ) → a < word → b < word → p2samehighbit a b ≡ true → (bucket a ≡ bucket b) × (0 < b)
unfolding p2samehighbit
bucket-samehighbit a b wa wb h =
    let (g, u, v) = same-IsHigh a a b (omega arith) (ground arith) in
    let pa : 0 < a = omega (arith, u.at_least, two-pow-pos g) in
    let pb : 0 < b = omega (arith, v.at_least, two-pow-pos g) in
    (omega (arith, bucket-IsHigh a g pa wa u, bucket-IsHigh b g pb wb v), pb)
