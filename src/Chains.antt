-- ===== src/Chains.antt =====
-- The kin lists of vmem.c: the freelists and the buckets of the hash table. A chain is the list of
-- the start addresses of its segments, head first; a table gives the chain at each index.
pub mod Count
use libumem.Base.{ℕ, zero, suc, List, [], ◌∷◌, ◌==◌, if◌then◌else◌, Bool, true, false}

abbrev pub Table : Type 0
Table = ℕ → List ℕ

abbrev pub at_index : Table → ℕ → List ℕ → Table
at_index t i c j = if i == j then c else t j

-- VMEM_INSERT behind the head
unfoldable pub push : Table → ℕ → ℕ → Table
push t i x = at_index t i (x ∷ t i)

-- VMEM_DELETE of the segment that starts at `x`
unfoldable pub drop_first : ℕ → List ℕ → List ℕ
drop_first x [] = []
drop_first x (y ∷ ys) = if y == x then ys else y ∷ drop_first x ys

unfoldable pub delete : Table → ℕ → ℕ → Table
unfolding drop_first
delete t i x = at_index t i (drop_first x (t i))

-- The segment that starts at `x` is moved to start at `y`, and keeps its place in the chain.
unfoldable pub move_first : ℕ → ℕ → List ℕ → List ℕ
move_first x y [] = []
move_first x y (z ∷ zs) = if z == x then y ∷ zs else z ∷ move_first x y zs

unfoldable pub rename : Table → ℕ → ℕ → ℕ → Table
unfolding move_first
rename t i x y = at_index t i (move_first x y (t i))

-- Is the chain's only segment the one at `x`? The source tells a neighbour that is the head of a
-- freelist by its start, 0, which no segment has: `vmem_add` refuses a span at NULL.
abbrev pub is_single : List ℕ → ℕ → Bool
is_single [] x = false
is_single (y ∷ []) x = y == x
is_single (y ∷ z ∷ zs) x = false
