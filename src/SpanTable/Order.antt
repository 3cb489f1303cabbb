-- ===== src/SpanTable/Order.antt =====
-- The table stays sorted by base, and its spans stay disjoint.
use libumem.Base.{ℕ, zero, suc, ◌≤◌, ◌<◌, ◌⊎◌, List, [], ◌∷◌, arith, All}
use libumem.SpanTable.{SpanEnt, insert_index, insert_at, remove_at}

-- Each span is not empty, begins at `lo` or above, and ends where the next may begin.
abbrev pub IsSorted : ℕ → List SpanEnt → Type 0
IsSorted lo [] = Unit {0}
IsSorted lo (e ∷ es) = (lo ≤ e.base) × (e.base < e.end) × IsSorted e.end es

abbrev pub IsApart : ℕ → ℕ → SpanEnt → Type 0
IsApart base end e = (e.end ≤ base) ⊎ (end ≤ e.base)

abbrev pub insert_sorted : List SpanEnt → SpanEnt → List SpanEnt
insert_sorted es new = insert_at es (insert_index es new.base) new

pub IsSorted-mono : {m n : ℕ} (es : List SpanEnt) → m ≤ n → IsSorted n es → IsSorted m es
IsSorted-mono [] h s = tt
IsSorted-mono (e ∷ es) h s = (omega arith, s.1, s.2)

pub insert-IsSorted :
    (lo : ℕ) (es : List SpanEnt) (new : SpanEnt)
    → IsSorted lo es
    → lo ≤ new.base
    → new.base < new.end
    → All (IsApart new.base new.end) es
    → IsSorted lo (insert_sorted es new)
unfolding insert_index insert_at
insert-IsSorted lo [] new s h p a = (h, p, tt)
insert-IsSorted lo (e ∷ es) new s h p a = ground (arith, insert-IsSorted e.end es new s.2)

pub remove_at-IsSorted :
    (lo : ℕ) (es : List SpanEnt) (i : ℕ) → IsSorted lo es → IsSorted lo (remove_at es i)
unfolding remove_at
remove_at-IsSorted lo [] i s = tt
remove_at-IsSorted lo (e ∷ es) zero s = IsSorted-mono {m = lo} {n = e.end} es (omega arith) s.2
remove_at-IsSorted lo (e ∷ es) (suc i) s = (s.0, s.1, remove_at-IsSorted e.end es i s.2)
