-- ===== src/Word/Lowbit.antt =====
-- `lowbit` is one more than the position of the lowest bit.
use Prim.Native.Nat.{bit_and}
use native.Mathlib.Decide.{ℕ_discrete}
use native.Mathlib.Nat.{mul_assoc, mul_comm, mod-eq_of_lt, mod-add-div', pow-suc, mul-mod_left}
use libumem.Base.{
  ℕ, suc, ◌+◌, ◌-◌, ◌*◌, ◌/◌, ◌%◌, ◌^◌, ◌<◌, ◌≡◌, ◌≢◌, refl, sym, ap, ◌∙◌, arith, ◌==◌,
  if◌then◌else◌, eq→==, ne→not-==,
}
use libumem.Bits.Mask.{bit_and-low, two-pow-add}
use libumem.Word.{word, Scan, low_step, lowbit}

-- `l` is the position of the lowest bit of `a`.
pub record IsLow (a l : ℕ) : Type 0 where
  pub odd_part : ℕ
  pub is_odd : odd_part % 2 ≡ 1
  pub product : 2 ^ l * odd_part ≡ a

record Found (n : ℕ) (s : Scan) : Type 0 where
  pos : 0 < s.pos
  product : 2 ^ (s.pos - 1) * s.rest ≡ n

low_step_lem :
    (n w mask : ℕ) (s : Scan)
    → mask ≡ 2 ^ w - 1
    → s.rest % 2 ^ (w + w) ≢ 0
    → Found n s
    → Found n (low_step w mask s) × ((low_step w mask s).rest % 2 ^ w ≢ 0)
unfolding low_step
low_step_lem n w mask s e h f = elim (ℕ_discrete (s.rest % w') 0) [
  | no some_low ↦ rw (ne→not-== _ _ (λ z. some_low (sym masked ∙ z))) (f, some_low)
  | yes all_zero ↦
      let exact : s.rest / w' * w' ≡ s.rest = omega (arith, mod-add-div' s.rest w') in
      let step : Found n (record { pos = s.pos + w; rest = s.rest / w' }) = record {
        pos = omega (arith, f.pos);
        product =
            rw
              (
                scale,
                mul_assoc (2 ^ (s.pos - 1)) w' (s.rest / w'),
                mul_comm w' (s.rest / w'),
                exact,
              )
              f.product;
      } in
      rw (eq→== _ _ (masked ∙ all_zero)) (step, λ z. h (whole exact z))
]
  where
    w' : ℕ
    w' = 2 ^ w

    masked : bit_and s.rest mask ≡ s.rest % w'
    masked = rw e (bit_and-low w s.rest)

    scale : 2 ^ (s.pos + w - 1) ≡ 2 ^ (s.pos - 1) * w'
    scale =
        let p : s.pos + w - 1 ≡ (s.pos - 1) + w = omega (arith, f.pos) in
        rw p (two-pow-add (s.pos - 1) w)

    whole : s.rest / w' * w' ≡ s.rest → s.rest / w' % w' ≡ 0 → s.rest % 2 ^ (w + w) ≡ 0
    whole exact z =
        let q = s.rest / w' / w' in
        let e' : s.rest / w' ≡ q * w' = omega (arith, mod-add-div' (s.rest / w') w') in
        let two : s.rest ≡ q * (w' * w') = sym exact ∙ (ap (λ t. t * w') e' ∙ mul_assoc q w' w') in
        rw (two-pow-add w w, two) (mul-mod_left q (w' * w'))

-- The last test, on the two bits that are left.
last :
    (n : ℕ) (s : Scan)
    → Found n s
    → s.rest % 2 ^ 2 ≢ 0
    → let h = if bit_and s.rest 1 == 0 then s.pos + 1 else s.pos in (0 < h) × IsLow n (h - 1)
last n s f b = elim (ℕ_discrete (s.rest % 2) 0) [
  | yes even ↦
      let e : s.pos + 1 - 1 ≡ suc (s.pos - 1) = omega (arith, f.pos) in
      let half : 2 * (s.rest / 2) ≡ s.rest = omega arith in
      rw (eq→== _ _ (bit_and-low 1 s.rest ∙ even), e)
        (
          omega arith,
          record {
            odd_part = s.rest / 2;
            is_odd = omega arith;
            product =
                rw (pow-suc 2 (s.pos - 1), mul_assoc (2 ^ (s.pos - 1)) 2 (s.rest / 2), half)
                  f.product;
          },
        )
  | no odd ↦
      rw (ne→not-== _ _ (λ z. odd (sym (bit_and-low 1 s.rest) ∙ z)))
        (f.pos, record { odd_part = s.rest; is_odd = omega arith; product = f.product })
]

-- For every word but 0, the source's five shifts find the lowest bit: 2^(l - 1) divides i, and the
-- quotient is odd.
pub lowbit_lem : (i : ℕ) → 0 < i → i < word → (0 < lowbit i) × IsLow i (lowbit i - 1)
unfolding lowbit
lowbit_lem i h lt =
    let s0 : Scan = record { pos = 1; rest = i } in
    let f0 : Found i s0 = record { pos = omega arith; product = omega arith } in
    let (f1, b1) = low_step_lem i 32 0xffffffff s0 refl (λ z. omega (arith, mod-eq_of_lt lt)) f0 in
    let s1 = low_step 32 0xffffffff s0 in
    let (f2, b2) = low_step_lem i 16 0xffff s1 refl b1 f1 in
    let s2 = low_step 16 0xffff s1 in
    let (f3, b3) = low_step_lem i 8 0xff s2 refl b2 f2 in
    let s3 = low_step 8 0xff s2 in
    let (f4, b4) = low_step_lem i 4 0xf s3 refl b3 f3 in
    let s4 = low_step 4 0xf s3 in
    let (f5, b5) = low_step_lem i 2 0x3 s4 refl b4 f4 in
    let s5 = low_step 2 0x3 s4 in rw (ne→not-== i 0 (λ z. omega arith)) (last i s5 f5 b5)
