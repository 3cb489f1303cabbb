-- ===== src/Chains/Count.antt =====
-- How often a start address stands in a chain, and what each operation does to that number.
use libumem.Base.{
  ℕ, ◌+◌, ◌<◌, ◌≡◌, refl, Bool, true, false, ◌&&◌, not, List, [], ◌∷◌, ◌==◌, arith, if◌then◌else◌,
}
use libumem.Chains.{Table, push, drop_first, delete, move_first, rename, is_single}

abbrev pub indicator : Bool → ℕ
indicator true = 1
indicator false = 0

unfoldable pub count : ℕ → List ℕ → ℕ
count x [] = 0
count x (y ∷ ys) = indicator (y == x) + count x ys

count-drop_first :
    (x z : ℕ) (c : List ℕ)
    → 0 < count x c
    → count z (drop_first x c) + indicator (x == z) ≡ count z c
unfolding count drop_first
count-drop_first x z [] h = elim h [ ]
count-drop_first x z (y ∷ ys) h = ground (arith, count-drop_first x z ys)

count-move_first :
    (x y z : ℕ) (c : List ℕ)
    → 0 < count x c
    → count z (move_first x y c) + indicator (x == z) ≡ count z c + indicator (y == z)
unfolding count move_first
count-move_first x y z [] h = elim h [ ]
count-move_first x y z (w ∷ ws) h = ground (arith, count-move_first x y z ws)

pub count-push :
    (t : Table) (i j x z : ℕ)
    → count z (push t i x j) ≡ indicator ((i == j) && (x == z)) + count z (t j)
unfolding count push
count-push t i j x z = ground arith

pub count-delete :
    (t : Table) (i j x z : ℕ)
    → 0 < count x (t i)
    → count z (delete t i x j) + indicator ((i == j) && (x == z)) ≡ count z (t j)
unfolding delete
count-delete t i j x z h = ground (arith, count-drop_first x z (t i) h)

pub count-rename :
    (t : Table) (i j x y z : ℕ)
    → 0 < count x (t i)
    → count z (rename t i x y j) + indicator ((i == j) && (x == z))
      ≡ count z (t j) + indicator ((i == j) && (y == z))
unfolding rename
count-rename t i j x y z h = ground (arith, count-move_first x y z (t i) h)

abbrev pub nonempty : List ℕ → Bool
nonempty [] = false
nonempty (x ∷ xs) = true

-- Taking a segment out empties the chain exactly if it was the only one.
pub drop-nonempty :
    (x : ℕ) (c : List ℕ)
    → 0 < count x c
    → nonempty (drop_first x c) ≡ (if is_single c x then not (nonempty c) else nonempty c)
unfolding count drop_first
drop-nonempty x [] h = elim h [ ]
drop-nonempty x (y ∷ []) h = ground arith
drop-nonempty x (y ∷ z ∷ zs) h = ground arith

pub move-nonempty : (x y : ℕ) (c : List ℕ) → nonempty (move_first x y c) ≡ nonempty c
unfolding move_first
move-nonempty x y [] = refl
move-nonempty x y (z ∷ zs) = ground arith
