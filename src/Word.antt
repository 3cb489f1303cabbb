-- ===== src/Word.antt =====
-- The word arithmetic of sol_compat.h and misc.c on 64-bit `size_t`, `uintptr_t` and `ulong_t`:
-- `+` and `-` wrap, and the macros are written with the masks of the source.
pub mod Align
pub mod Highbit
pub mod Lowbit
pub mod Multiple
mod Tests
use Prim.Native.Nat.{bit_and, bit_xor}
use libumem.Base.{ℕ, ◌+◌, ◌-◌, ◌/◌, ◌%◌, ◌^◌, Bool, ltb, ◌==◌, if◌then◌else◌}

abbrev pub word : ℕ
word = 2 ^ 64

abbrev pub add64 : ℕ → ℕ → ℕ
add64 a b = (a + b) % word

abbrev pub sub64 : ℕ → ℕ → ℕ
sub64 a b = (a + word - b) % word

-- `-x` and `~x`
abbrev pub neg64 : ℕ → ℕ
neg64 x = (word - x) % word

abbrev pub not64 : ℕ → ℕ
not64 x = word - 1 - x

unfoldable pub p2phase : ℕ → ℕ → ℕ
p2phase x align = bit_and x (sub64 align 1)

pub p2align : ℕ → ℕ → ℕ
p2align x align = bit_and x (neg64 align)

pub p2nphase : ℕ → ℕ → ℕ
p2nphase x align = bit_and (neg64 x) (sub64 align 1)

unfoldable pub p2roundup : ℕ → ℕ → ℕ
p2roundup x align = neg64 (bit_and (neg64 x) (neg64 align))

pub p2end : ℕ → ℕ → ℕ
p2end x align = neg64 (bit_and (not64 x) (neg64 align))

pub p2phaseup : ℕ → ℕ → ℕ → ℕ
p2phaseup x align phase = sub64 phase (bit_and (sub64 phase x) (neg64 align))

unfoldable pub p2samehighbit : ℕ → ℕ → Bool
p2samehighbit x y = ltb (bit_xor x y) (bit_and x y)

pub p2boundary : ℕ → ℕ → ℕ → Bool
p2boundary off len align = ltb (sub64 align 1) (bit_xor off (sub64 (add64 off len) 1))

-- The position that has been found, and what is left of the word.
pub record Scan : Type 0 where
  pub pos : ℕ
  pub rest : ℕ

-- `if (i & mask) { h += w; i >>= w; }`
pub high_step : ℕ → ℕ → Scan → Scan
high_step w mask s =
    if bit_and s.rest mask == 0 then s else record { pos = s.pos + w; rest = s.rest / 2 ^ w }

unfoldable pub highbit : ℕ → ℕ
unfolding high_step
highbit i =
    if i == 0
    then 0
    else let s = high_step 2 0xc (
        high_step 4 0xf0 (
          high_step 8 0xff00 (
            high_step 16 0xffff0000
              (high_step 32 0xffffffff00000000 (record { pos = 1; rest = i }))))) in
      if bit_and s.rest 2 == 0 then s.pos else s.pos + 1

-- `if (!(i & mask)) { h += w; i >>= w; }`
pub low_step : ℕ → ℕ → Scan → Scan
low_step w mask s =
    if bit_and s.rest mask == 0 then record { pos = s.pos + w; rest = s.rest / 2 ^ w } else s

unfoldable pub lowbit : ℕ → ℕ
unfolding low_step
lowbit i =
    if i == 0
    then 0
    else let s = low_step 2 0x3 (
        low_step 4 0xf (
          low_step 8 0xff
            (low_step 16 0xffff (low_step 32 0xffffffff (record { pos = 1; rest = i }))))) in
      if bit_and s.rest 1 == 0 then s.pos + 1 else s.pos
