-- ===== src/Bits/Digits.antt =====
-- The lowest binary digit of `&` and `^`, split off from the others.
use Prim.Native.Nat.{
  min, differ, digits, bitwise, bit_and, bit_xor, bit_and-bitwise, bit_xor-bitwise,
}
use libumem.Base.{ℕ, zero, suc, ◌+◌, ◌*◌, ◌/◌, ◌%◌, ◌≤◌, ◌<◌, ◌≡◌, refl, ap, arith}

module _ (rest : ℕ → ℕ) (op : ℕ → ℕ → ℕ) where
  -- More fuel than digits changes nothing.
  digits-fuel : (a b n m : ℕ) → a ≤ n → a ≤ m → digits rest op n a b ≡ digits rest op m a b
  digits-fuel zero b zero zero hn hm = refl
  digits-fuel zero b zero (suc m) hn hm = refl
  digits-fuel zero b (suc n) zero hn hm = refl
  digits-fuel zero b (suc n) (suc m) hn hm = refl
  digits-fuel (suc a) b zero m hn hm = elim hn [ ]
  digits-fuel (suc a) b (suc n) zero hn hm = elim hm [ ]
  digits-fuel (suc a) b (suc n) (suc m) hn hm =
      ap (λ high. high * 2 + op (suc a % 2) (b % 2))
        (digits-fuel (suc a / 2) (b / 2) n m (omega arith) (omega arith))

  lowest :
      (a b : ℕ)
      → bitwise rest op (suc a) b ≡ bitwise rest op (suc a / 2) (b / 2) * 2 + op (suc a % 2) (b % 2)
  lowest a b =
      ap (λ high. high * 2 + op (suc a % 2) (b % 2))
        (digits-fuel (suc a / 2) (b / 2) a (suc a / 2) (omega arith) (omega arith))

pub zero-bit_and : (b : ℕ) → bit_and 0 b ≡ 0
zero-bit_and b = bit_and-bitwise 0 b

pub zero-bit_xor : (b : ℕ) → bit_xor 0 b ≡ b
zero-bit_xor b = bit_xor-bitwise 0 b

pub bit_and-lowest : (a b : ℕ) → bit_and a b ≡ bit_and (a / 2) (b / 2) * 2 + min (a % 2) (b % 2)
bit_and-lowest zero b = omega (arith, bit_and-bitwise 0 b, bit_and-bitwise 0 (b / 2))
bit_and-lowest (suc a) b =
    rw (bit_and-bitwise (suc a) b, bit_and-bitwise (suc a / 2) (b / 2)) (lowest (λ y. 0) min a b)

-- The digit of `^`: one where the two differ.
differ-digit : (x y : ℕ) → x < 2 → y < 2 → differ x y ≡ (x + y) % 2
differ-digit zero zero h k = refl
differ-digit zero (suc zero) h k = refl
differ-digit zero (suc (suc y)) h k = absurd (omega arith)
differ-digit (suc zero) zero h k = refl
differ-digit (suc zero) (suc zero) h k = refl
differ-digit (suc zero) (suc (suc y)) h k = absurd (omega arith)
differ-digit (suc (suc x)) y h k = absurd (omega arith)

pub bit_xor-lowest : (a b : ℕ) → bit_xor a b ≡ bit_xor (a / 2) (b / 2) * 2 + (a % 2 + b % 2) % 2
bit_xor-lowest zero b = omega (arith, bit_xor-bitwise 0 b, bit_xor-bitwise 0 (b / 2))
bit_xor-lowest (suc a) b =
    rw (bit_xor-bitwise (suc a) b, bit_xor-bitwise (suc a / 2) (b / 2))
      (omega (arith, lowest (λ y. y) differ a b, differ-digit (suc a % 2) (b % 2)))
