-- ===== src/Magazines/Counted.antt =====
-- umem.c: how often a buffer is among the rounds of a CPU's magazines.
use libumem.Base.{
  ℕ, zero, suc, ◌+◌, ◌<◌, ◌≡◌, refl, Option, none, some, List, [], ◌∷◌, length, set, ◌==◌,
  if◌then◌else◌, arith,
}
use libumem.Depot.Count.{count, count_depot}
use libumem.Magazines.{Loaded, State, slot}

-- How often a buffer is among the first `n` rounds.
unfoldable pub count_first : ℕ → ℕ → List ℕ → ℕ
count_first b zero xs = 0
count_first b (suc n) [] = 0
count_first b (suc n) (x ∷ xs) = (if x == b then 1 else 0) + count_first b n xs

unfoldable pub count_loaded : ℕ → Option Loaded → ℕ
unfolding count_first
count_loaded b none = 0
count_loaded b (some l) = count_first b l.rounds l.magazine.slots

-- The buffer in the CPU's two magazines, in the depot and among those given to the slab layer.
unfoldable pub count_cache : ℕ → State → ℕ
unfolding count_loaded
count_cache b s =
    count_loaded b s.cpu.loaded + count_loaded b s.cpu.previous + count_depot b s.depot

-- Whether the buffer is the one that is handed over.
abbrev pub count_out : ℕ → Option ℕ → ℕ
count_out b none = 0
count_out b (some buf) = if buf == b then 1 else 0

pub count_first-all : (b n : ℕ) (xs : List ℕ) → length xs ≡ n → count_first b n xs ≡ count b xs
unfolding count_first count
count_first-all b zero [] e = refl
count_first-all b zero (x ∷ xs) e = absurd (omega (arith, e))
count_first-all b (suc n) [] e = refl
count_first-all b (suc n) (x ∷ xs) e = omega (arith, count_first-all b n xs (omega (arith, e)))

pub count_first-none : (b : ℕ) (xs : List ℕ) → count_first b 0 xs ≡ 0
unfolding count_first
count_first-none b xs = refl

-- The round behind the first `n`.
pub count_first-suc :
    (b n : ℕ) (xs : List ℕ)
    → n < length xs
    → count_first b (suc n) xs ≡ count_first b n xs + (if slot xs n == b then 1 else 0)
unfolding count_first
count_first-suc b n [] h = elim h [ ]
count_first-suc b zero (x ∷ xs) h = omega arith
count_first-suc b (suc n) (x ∷ xs) h = omega (arith, count_first-suc b n xs (omega arith))

-- A round that is written behind the first `n`.
pub count_first-set :
    (b n buf : ℕ) (xs : List ℕ)
    → n < length xs
    → count_first b (suc n) (set xs n buf) ≡ count_first b n xs + (if buf == b then 1 else 0)
unfolding count_first
count_first-set b n buf [] h = elim h [ ]
count_first-set b zero buf (x ∷ xs) h = omega arith
count_first-set b (suc n) buf (x ∷ xs) h = omega (arith, count_first-set b n buf xs (omega arith))
