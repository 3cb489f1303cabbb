-- ===== src/Word/Highbit.antt =====
-- `highbit` is one more than the position of the highest bit.
use Prim.Native.Nat.{bit_and}
use native.Mathlib.Decide.{dec_lt}
use native.Mathlib.Nat.{
  mod-eq_of_lt, mod-lt, mod-add-div', mul_assoc, mul-le-mul_left, le_trans, lt_of_lt_of_le,
  div-lt_iff_lt-mul, le-div_iff_mul-le, pow-suc,
}
use libumem.Base.{
  ℕ, suc, ◌+◌, ◌-◌, ◌*◌, ◌/◌, ◌%◌, ◌^◌, ◌≤◌, ◌<◌, ◌≡◌, refl, ap, arith, ◌==◌, if◌then◌else◌, false,
  eq→==, ne→not-==,
}
use libumem.Bits.Mask.{bit_and-high, two-pow-pos, two-pow-add}
use libumem.Bits.Split.{IsHigh}
use libumem.Word.{word, Scan, high_step, highbit}

-- The part of `n` that is shifted out lies below 2^(pos - 1).
record Found (n : ℕ) (s : Scan) : Type 0 where
  pos : 0 < s.pos
  some_left : 0 < s.rest
  at_least : 2 ^ (s.pos - 1) * s.rest ≤ n
  below : n < 2 ^ (s.pos - 1) * (s.rest + 1)

shift_bounds : (p w r : ℕ) → 0 < w → (p * w * (r / w) ≤ p * r) × (p * (r + 1) ≤ p * w * (r / w + 1))
shift_bounds p w r h = (
  rw (mul_assoc p w (r / w)) (mul-le-mul_left p (omega (arith, mod-add-div' r w))),
  rw (mul_assoc p w (r / w + 1)) (mul-le-mul_left p (omega (arith, mod-add-div' r w, mod-lt r h))),
)

high_step_lem :
    (n w mask : ℕ) (s : Scan)
    → mask ≡ 2 ^ (w + w) - 2 ^ w
    → s.rest < 2 ^ (w + w)
    → Found n s
    → Found n (high_step w mask s) × ((high_step w mask s).rest < 2 ^ w)
unfolding high_step
high_step_lem n w mask s e h f = elim (dec_lt s.rest w') [
  | yes low ↦ ground (arith, masked, mod-eq_of_lt low)
  | no high ↦
      let some_high : 1 ≤ s.rest / w' = (le-div_iff_mul-le pos).1 (omega arith) in
      let less : s.rest / w' < w' = (div-lt_iff_lt-mul pos).1 (rw (← two-pow-add w w) h) in
      let scaled : 2 ^ (s.pos + w - 1) ≡ 2 ^ (s.pos - 1) * w' = scale in
      let bounds = shift_bounds (2 ^ (s.pos - 1)) w' s.rest pos in
      let test : (bit_and s.rest mask == 0) ≡ false =
        ne→not-== _ _ (λ z. omega (arith, masked, mod-lt s.rest pos)) in
      rw test (
        record {
          pos = omega arith;
          some_left = some_high;
          at_least = rw scaled (le_trans bounds.0 f.at_least);
          below = rw scaled (lt_of_lt_of_le f.below bounds.1);
        },
        less,
      )
]
  where
    w' : ℕ
    w' = 2 ^ w

    pos : 0 < w'
    pos = two-pow-pos w

    masked : bit_and s.rest mask ≡ s.rest - s.rest % w'
    masked = rw e (bit_and-high w w s.rest h)

    scale : 2 ^ (s.pos + w - 1) ≡ 2 ^ (s.pos - 1) * w'
    scale =
        let p : s.pos + w - 1 ≡ (s.pos - 1) + w = omega (arith, f.pos) in
        rw p (two-pow-add (s.pos - 1) w)

-- The last test, on the two bits that are left.
last :
    (n : ℕ) (s : Scan)
    → Found n s
    → s.rest < 2 ^ 2
    → let h = if bit_and s.rest 2 == 0 then s.pos else s.pos + 1 in (0 < h) × IsHigh n (h - 1)
last n s f b = elim (dec_lt s.rest 2) [
  | yes one ↦
      let z : bit_and s.rest 2 ≡ 0 = omega (arith, masked) in
      let r : s.rest ≡ 1 = omega (arith, f.some_left) in
      let lo : 2 ^ p * s.rest ≡ 2 ^ p * 1 = ap (λ t. 2 ^ p * t) r in
      let hi : 2 ^ p * (s.rest + 1) ≡ 2 ^ p * 2 = ap (λ t. 2 ^ p * (t + 1)) r in
      let found : IsHigh n p = omega (arith, lo, hi, pow-suc 2 p, f.at_least, f.below) in
      rw (eq→== _ _ z) (f.pos, found)
  | no more ↦
      let e : s.pos + 1 - 1 ≡ suc p = omega (arith, f.pos) in
      rw (ne→not-== (bit_and s.rest 2) 0 (λ z. omega (arith, masked)), e)
        (
          omega arith,
          record {
            at_least =
                rw (pow-suc 2 p) (le_trans (mul-le-mul_left (2 ^ p) (omega arith)) f.at_least);
            below =
                rw (pow-suc 2 (suc p), pow-suc 2 p)
                  (lt_of_lt_of_le f.below
                    (rw (mul_assoc (2 ^ p) 2 2) (mul-le-mul_left (2 ^ p) (omega arith))));
          },
        )
]
  where
    p : ℕ
    p = s.pos - 1

    masked : bit_and s.rest 2 ≡ s.rest - s.rest % 2
    masked = bit_and-high 1 1 s.rest b

-- For every word but 0, the source's five shifts find the highest bit: 2^(h - 1) ≤ i < 2^h.
pub highbit_lem : (i : ℕ) → 0 < i → i < word → (0 < highbit i) × IsHigh i (highbit i - 1)
unfolding highbit
highbit_lem i h lt =
    let s0 : Scan = record { pos = 1; rest = i } in
    let f0 : Found i s0 = omega arith in
    let (f1, b1) = high_step_lem i 32 0xffffffff00000000 s0 refl lt f0 in
    let s1 = high_step 32 0xffffffff00000000 s0 in
    let (f2, b2) = high_step_lem i 16 0xffff0000 s1 refl b1 f1 in
    let s2 = high_step 16 0xffff0000 s1 in
    let (f3, b3) = high_step_lem i 8 0xff00 s2 refl b2 f2 in
    let s3 = high_step 8 0xff00 s2 in
    let (f4, b4) = high_step_lem i 4 0xf0 s3 refl b3 f3 in
    let s4 = high_step 4 0xf0 s3 in
    let (f5, b5) = high_step_lem i 2 0xc s4 refl b4 f4 in
    let s5 = high_step 2 0xc s4 in rw (ne→not-== i 0 (λ z. omega arith)) (last i s5 f5 b5)
