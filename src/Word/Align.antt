-- ===== src/Word/Align.antt =====
-- The alignment macros mean what their names say, for an alignment that is a power of two.
use Prim.Native.Nat.{bit_and}
use native.Mathlib.Decide.{dec_lt}
use native.Mathlib.Nat.{
  mod-lt, mod-eq_of_lt, mod-add-div', mul-mod_left, pow-le-pow_right, add-mul-mod_self_right,
  mul-sub, mul_comm, zero-mod,
}
use libumem.Base.{ℕ, zero, suc, ◌+◌, ◌-◌, ◌*◌, ◌/◌, ◌%◌, ◌^◌, ◌≤◌, ◌<◌, ◌≡◌, ◌∙◌, sym, ap, arith}
use libumem.Bits.Mask.{bit_and-low, bit_and-high, two-pow-pos, two-pow-add}
use libumem.Word.{word, neg64, sub64, not64, p2phase, p2align, p2roundup, p2end, p2phaseup}

module _ (k : ℕ) (small : k < 64) where
  word_split : word ≡ 2 ^ (64 - k) * 2 ^ k
  word_split =
      let e : (64 - k) + k ≡ 64 = omega arith in ap (λ n. 2 ^ n) (sym e) ∙ two-pow-add (64 - k) k

  pub fits : 2 ^ k < word
  fits =
      let two : 2 ^ 1 ≤ 2 ^ (64 - k) =
        pow-le-pow_right {n = 2} (omega arith) {i = 1} {j = 64 - k} (omega arith) in
      grind (arith, word_split, two-pow-pos k, two)

  high : (x : ℕ) → x < word → bit_and x (word - 2 ^ k) ≡ x - x % 2 ^ k
  high x h =
      let e : k + (64 - k) ≡ 64 = omega arith in
      let h' : x < 2 ^ (k + (64 - k)) = rw e h in
      ap (λ n. bit_and x (2 ^ n - 2 ^ k)) (sym e) ∙ bit_and-high k (64 - k) x h'

  pub bit_and-not64 : (x : ℕ) → x < word → bit_and x (not64 (2 ^ k - 1)) ≡ x - x % 2 ^ k
  bit_and-not64 x h =
      let e : not64 (2 ^ k - 1) ≡ word - 2 ^ k = omega (arith, two-pow-pos k) in rw e (high x h)

  -- For an alignment of 2^k with k < 64, aligning a word drops its remainder.
  pub p2align_lem : (x : ℕ) → x < word → p2align x (2 ^ k) ≡ x - x % 2 ^ k
  unfolding p2align
  p2align_lem x h =
      let e : neg64 (2 ^ k) ≡ word - 2 ^ k = omega (arith, two-pow-pos k) in rw e (high x h)

  pub p2phase_lem : (x : ℕ) → p2phase x (2 ^ k) ≡ x % 2 ^ k
  unfolding p2phase
  p2phase_lem x =
      let e : sub64 (2 ^ k) 1 ≡ 2 ^ k - 1 = omega (arith, two-pow-pos k, fits) in
      rw e (bit_and-low k x)

  pub word-multiple : word % 2 ^ k ≡ 0
  word-multiple = rw word_split (mul-mod_left (2 ^ (64 - k)) (2 ^ k))

  -- What is left when the remainder is dropped is a multiple, as a number and from the word's end.
  multiple : (y : ℕ) → y - y % 2 ^ k ≡ y / 2 ^ k * 2 ^ k
  multiple y = omega (arith, mod-add-div' y (2 ^ k))

  difference : (a b : ℕ) → a * 2 ^ k - b * 2 ^ k ≡ (a - b) * 2 ^ k
  difference a b =
      omega (
        arith,
        mul-sub (2 ^ k) a b,
        mul_comm (2 ^ k) (a - b),
        mul_comm a (2 ^ k),
        mul_comm b (2 ^ k),
      )

  co-multiple : (y : ℕ) → (word - (y - y % 2 ^ k)) % 2 ^ k ≡ 0
  co-multiple y =
      let e : word - (y - y % 2 ^ k) ≡ (2 ^ (64 - k) - y / 2 ^ k) * 2 ^ k =
        rw (multiple y, word_split) (difference (2 ^ (64 - k)) (y / 2 ^ k)) in
      rw e (mul-mod_left (2 ^ (64 - k) - y / 2 ^ k) (2 ^ k))

  round : (y : ℕ) → y < word → bit_and y (neg64 (2 ^ k)) ≡ y - y % 2 ^ k
  round y h = let e : neg64 (2 ^ k) ≡ word - 2 ^ k = omega (arith, two-pow-pos k) in rw e (high y h)

  -- For an alignment of 2^k with k < 64, rounding up gives the least multiple that is not below x,
  -- if x + 2^k is at most 2^64.
  pub p2roundup_lem :
      (x : ℕ)
      → x + 2 ^ k ≤ word
      → (p2roundup x (2 ^ k) % 2 ^ k ≡ 0)
        × (x ≤ p2roundup x (2 ^ k))
        × (p2roundup x (2 ^ k) < x + 2 ^ k)
  unfolding p2roundup
  p2roundup_lem zero h = rw (round 0 (omega arith)) (omega (arith, two-pow-pos k, zero-mod (2 ^ k)))
  p2roundup_lem (suc x) h =
      let y = word - suc x in
      let e : neg64 (suc x) ≡ y = omega arith in
      let lt : y % 2 ^ k < 2 ^ k = mod-lt y (two-pow-pos k) in
      let small' : neg64 (y - y % 2 ^ k) ≡ word - (y - y % 2 ^ k) = omega arith in
      rw (e, round y (omega arith), small') (co-multiple y, omega arith, omega arith)

  -- For an alignment of 2^k with k < 64, the end is the first multiple behind x, if x + 2^k is
  -- below 2^64.
  pub p2end_lem :
      (x : ℕ)
      → x + 2 ^ k < word
      → (p2end x (2 ^ k) % 2 ^ k ≡ 0) × (x < p2end x (2 ^ k)) × (p2end x (2 ^ k) ≤ x + 2 ^ k)
  unfolding p2end
  p2end_lem x h =
      let y = word - 1 - x in
      let lt : y % 2 ^ k < 2 ^ k = mod-lt y (two-pow-pos k) in
      let small' : neg64 (y - y % 2 ^ k) ≡ word - (y - y % 2 ^ k) = omega arith in
      rw (round y (omega arith), small') (co-multiple y, omega arith, omega arith)

  -- For an alignment of 2^k with k < 64, the result is the first number from x on whose remainder
  -- is the phase, if x + 2^k is at most 2^64.
  pub p2phaseup_lem :
      (x phase : ℕ)
      → x + 2 ^ k ≤ word
      → phase < 2 ^ k
      → (p2phaseup x (2 ^ k) phase % 2 ^ k ≡ phase)
        × (x ≤ p2phaseup x (2 ^ k) phase)
        × (p2phaseup x (2 ^ k) phase < x + 2 ^ k)
  unfolding p2phaseup
  p2phaseup_lem x phase h p = elim (dec_lt phase x) [
    | yes below ↦
        let y = phase + word - x in
        let q = 2 ^ (64 - k) - y / 2 ^ k in
        let lt : y % 2 ^ k < 2 ^ k = mod-lt y (two-pow-pos k) in
        let wrap : sub64 phase x ≡ y = omega arith in
        let e : sub64 phase (y - y % 2 ^ k) ≡ x + y % 2 ^ k = omega arith in
        let diff : q * 2 ^ k ≡ word - y / 2 ^ k * 2 ^ k =
          sym (difference (2 ^ (64 - k)) (y / 2 ^ k))
          ∙ ap (λ t. t - y / 2 ^ k * 2 ^ k) (sym word_split) in
        let sum : x + y % 2 ^ k ≡ phase + q * 2 ^ k = omega (arith, mod-add-div' y (2 ^ k)) in
        rw (wrap, round y (omega arith), e)
          (
            rw sum (add-mul-mod_self_right phase q (2 ^ k) ∙ mod-eq_of_lt p),
            omega arith,
            omega arith,
          )
    | no above ↦
        let y = phase - x in
        let wrap : sub64 phase x ≡ y = omega arith in
        let rest : y % 2 ^ k ≡ y = mod-eq_of_lt (omega arith) in
        let e : sub64 phase (y - y % 2 ^ k) ≡ phase = omega arith in
        rw (wrap, round y (omega arith), e) (mod-eq_of_lt p, omega arith, omega arith)
  ]
