-- ===== src/SpanTable/Table.antt =====
-- The operations on the whole table, and the lock-free reader `vmem_span_find` over it.
use libumem.Base.{
  ℕ, zero, suc, ◌+◌, ◌%◌, ◌^◌, ◌≤◌, ◌<◌, ◌≡◌, refl, ◌≢◌, Option, none, some, Bool, false, ◌&&◌,
  ◌||◌, not, ◌⊎◌, List, [], ◌∷◌, ◌++◌, arith, ltb, leb, ◌==◌, if◌then◌else◌, length, All,
}
use native.Mathlib.Decide.{dec_lt}
use libumem.SpanTable.{
  SpanEnt, SpanTable, span_max, insert_index, insert_at, table_insert, table_remove, remove_index,
  remove_at, Attempt, Answer, absent, hull, inside, find_loop, span_find,
}
use libumem.SpanTable.Order.{IsSorted, IsApart, insert-IsSorted, remove_at-IsSorted}
use libumem.SpanTable.Owner.{contains, owner, owner-insert, owner-remove}
use libumem.SpanTable.Search.{search-eq-owner}

-- The writer's invariant: outside a write the counter is even, and the table is sorted.
pub record IsValid (t : SpanTable) : Type 0 where
  pub sorted : IsSorted 0 t.tab
  pub even : t.seq % 2 ≡ 0
  pub word : t.seq < 2 ^ 32
  pub fits : length t.tab ≤ span_max

length-insert_at :
    (es : List SpanEnt) (i : ℕ) (new : SpanEnt) → length (insert_at es i new) ≡ length es + 1
unfolding insert_at
length-insert_at es zero new = omega arith
length-insert_at [] (suc i) new = omega arith
length-insert_at (e ∷ es) (suc i) new = omega (arith, length-insert_at es i new)

length-remove_at-le : (es : List SpanEnt) (i : ℕ) → length (remove_at es i) ≤ length es
unfolding remove_at
length-remove_at-le [] i = omega arith
length-remove_at-le (e ∷ es) zero = omega arith
length-remove_at-le (e ∷ es) (suc i) = omega (arith, length-remove_at-le es i)

remove_index-le : (es : List SpanEnt) (base end : ℕ) → remove_index es base end ≤ length es
unfolding remove_index
remove_index-le [] base end = omega arith
remove_index-le (e ∷ es) base end = ground (arith, remove_index-le es base end)

abbrev pub entry : ℕ → ℕ → SpanEnt
entry base end = record { base = base; end = end }

-- Recording a span keeps a table valid, if the span is not empty and overlaps no recorded one.
pub table_insert-IsValid :
    (t : SpanTable) (base end : ℕ)
    → IsValid t
    → base < end
    → All (IsApart base end) t.tab
    → IsValid (table_insert t base end)
unfolding table_insert
table_insert-IsValid t base end v h a = ground (
  arith,
  insert-IsSorted 0 t.tab (entry base end) v.sorted (omega arith) h a,
  length-insert_at t.tab (insert_index t.tab base) (entry base end),
)

-- In a valid table with room a recorded span that overlaps no other owns its addresses, and every
-- other address keeps its owner. A full table is left as it is, and marked as saturated.
pub owner-table_insert :
    (t : SpanTable) (base end addr : ℕ)
    → IsValid t
    → All (IsApart base end) t.tab
    → (owner (table_insert t base end).tab addr ≡ (
        if ltb (length t.tab) span_max && contains (entry base end) addr
        then some (entry base end)
        else owner t.tab addr))
      × ((table_insert t base end).saturated ≡ (leb span_max (length t.tab) || t.saturated))
unfolding table_insert
owner-table_insert t base end addr v a =
    ground (arith, owner-insert 0 addr t.tab (entry base end) v.sorted a)

-- Dropping a span keeps a table valid.
pub table_remove-IsValid :
    (t : SpanTable) (base end : ℕ) → IsValid t → IsValid (table_remove t base end)
unfolding table_remove
table_remove-IsValid t base end v = ground (
  arith,
  remove_at-IsSorted 0 t.tab (remove_index t.tab base end) v.sorted,
  length-remove_at-le t.tab (remove_index t.tab base end),
)

-- Is [base, end) itself an entry?
abbrev pub tracked : List SpanEnt → ℕ → ℕ → Bool
tracked [] base end = false
tracked (e ∷ es) base end = ((e.base == base) && (e.end == end)) || tracked es base end

remove_index-tracked :
    (es : List SpanEnt) (base end : ℕ)
    → (remove_index es base end == length es) ≡ not (tracked es base end)
unfolding remove_index
remove_index-tracked [] base end = refl
remove_index-tracked (e ∷ es) base end = ground (arith, remove_index-tracked es base end)

-- Dropping a span recorded in a valid table leaves its addresses without an owner, and every other
-- address with the owner it had; dropping one that is not recorded changes no owner.
pub owner-table_remove :
    (t : SpanTable) (base end addr : ℕ)
    → IsValid t
    → owner (table_remove t base end).tab addr ≡ (
        if tracked t.tab base end && contains (entry base end) addr then none else owner t.tab addr)
unfolding table_remove
owner-table_remove t base end addr v = ground (
  arith,
  remove_index-tracked t.tab base end,
  remove_index-le t.tab base end,
  owner-remove 0 addr base end t.tab v.sorted,
)

-- What a reader loads when no writer interferes.
abbrev pub undisturbed : SpanTable → Attempt
undisturbed t = record {
  seq_before = t.seq;
  saturated = t.saturated;
  tab = t.tab;
  seq_after = t.seq;
}

-- A round that the reader must throw away: a write was under way, or one came in between.
abbrev pub IsTorn : Attempt → Type 0
IsTorn a = (a.seq_before % 2 ≡ 1) ⊎ ((a.saturated ≡ false) × (a.seq_before ≢ a.seq_after))

-- The exact answer: the owner of the address, if it also holds the whole object.
abbrev pub exact : Option SpanEnt → ℕ → Answer
exact none end = absent
exact (some e) end = if leb end e.end then inside e else absent

find_loop-quiet :
    (t : SpanTable) (addr end : ℕ) (torn rest : List Attempt)
    → IsValid t
    → All IsTorn torn
    → find_loop addr end (torn ++ (undisturbed t ∷ rest))
      ≡ some (if t.saturated then hull else exact (owner t.tab addr) end)
unfolding find_loop
find_loop-quiet t addr end [] rest v a = ground (arith, search-eq-owner 0 addr t.tab v.sorted)
find_loop-quiet t addr end (x ∷ torn) rest v a =
    ground (arith, find_loop-quiet t addr end torn rest v a.1)

-- The reader of a valid table throws away every torn round and answers from the first quiet one:
-- with the exact span that holds the whole object, with the hull if the table is saturated, and
-- with a no for an object that wraps round the address space.
pub span_find_lem :
    (t : SpanTable) (addr len : ℕ) (torn rest : List Attempt)
    → IsValid t
    → All IsTorn torn
    → addr < 2 ^ 64
    → len < 2 ^ 64
    → span_find addr len (torn ++ (undisturbed t ∷ rest))
      ≡ some (
          if leb (2 ^ 64) (addr + len)
          then absent
          else if t.saturated
          then hull
          else exact (owner t.tab addr) (addr + len))
unfolding span_find
span_find_lem t addr len torn rest v a p q = elim (dec_lt (addr + len) (2 ^ 64)) [
  | yes small ↦
      let e : (addr + len) % 2 ^ 64 ≡ addr + len = omega arith in
      ground (arith, e, find_loop-quiet t addr (addr + len) torn rest v a)
  | no wraps ↦ ground arith
]
