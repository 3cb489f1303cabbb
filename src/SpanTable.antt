-- ===== src/SpanTable.antt =====
-- vmem.c: the exact table of the heap's spans, behind `umem_may_own`. The live prefix of
-- `vmem_span_tab` is a list, so `vmem_span_cnt` is its length.
pub mod Order
pub mod Owner
pub mod Search
pub mod Table
mod Tests
use libumem.Base.{
  ℕ, zero, suc, ◌+◌, ◌-◌, ◌/◌, ◌%◌, ◌^◌, Bool, true, false, ◌&&◌, Option, none, some, List, [], ◌∷◌,
  ltb, leb, ◌==◌, if◌then◌else◌, length, get_elem?,
}

-- `vmem_span_ent_t`: the span is [base, end).
pub record SpanEnt : Type 0 where
  pub base : ℕ
  pub end : ℕ

abbrev pub span_max : ℕ
span_max = 16384

pub record SpanTable : Type 0 where
  pub tab : List SpanEnt
  pub seq : ℕ
  pub saturated : Bool

-- `vmem_span_write_begin` and `vmem_span_write_end`: a 32-bit counter.
abbrev pub bump_seq : SpanTable → SpanTable
bump_seq t = record t { seq = (t.seq + 1) % 2 ^ 32 }

-- The first loop of the insertion: the index of the first entry with a larger base.
pub insert_index : List SpanEnt → ℕ → ℕ
insert_index [] base = 0
insert_index (e ∷ es) base = if ltb base e.base then 0 else suc (insert_index es base)

-- The second loop moves the entries from `i` on up by one, and the new one is written at `i`.
pub insert_at : List SpanEnt → ℕ → SpanEnt → List SpanEnt
insert_at es zero new = new ∷ es
insert_at [] (suc i) new = new ∷ []
insert_at (e ∷ es) (suc i) new = e ∷ insert_at es i new

pub table_insert : SpanTable → ℕ → ℕ → SpanTable
unfolding insert_index insert_at
table_insert t base end =
    if leb span_max (length t.tab)
    then record t { saturated = true }
    else bump_seq (write (bump_seq t))
  where
    write : SpanTable → SpanTable
    write t' = record t' {
      tab = insert_at t'.tab (insert_index t'.tab base) (record { base = base; end = end });
    }

-- The index of the entry that is exactly [base, end); the length if there is none.
pub remove_index : List SpanEnt → ℕ → ℕ → ℕ
remove_index [] base end = 0
remove_index (e ∷ es) base end =
    if (e.base == base) && (e.end == end) then 0 else suc (remove_index es base end)

-- The entries behind `i` move down by one.
pub remove_at : List SpanEnt → ℕ → List SpanEnt
remove_at [] i = []
remove_at (e ∷ es) zero = es
remove_at (e ∷ es) (suc i) = e ∷ remove_at es i

pub table_remove : SpanTable → ℕ → ℕ → SpanTable
unfolding remove_index remove_at
table_remove t base end =
    if remove_index t.tab base end == length t.tab then t else bump_seq (write (bump_seq t))
  where
    write : SpanTable → SpanTable
    write t' = record t' { tab = remove_at t'.tab (remove_index t'.tab base end) }

-- The binary search over [lo, hi). The outer `none` is a read out of bounds or fuel that ran out.
pub search : ℕ → List SpanEnt → ℕ → ℕ → ℕ → Option (Option SpanEnt)
search zero tab addr lo hi = none
search (suc fuel) tab addr lo hi =
    let i = lo + (hi - lo) / 2 in
    let left = search fuel tab addr lo i in
    let right = search fuel tab addr (i + 1) hi in
    if ltb lo hi
    then elim (get_elem? tab i) [
      | none ↦ none
      | some e ↦ if ltb addr e.base then left else if leb e.end addr then right else some (some e)
    ]
    else some none

-- What one round of the reader loads: the counter before, the table, and the counter after.
pub record Attempt : Type 0 where
  pub seq_before : ℕ
  pub saturated : Bool
  pub tab : List SpanEnt
  pub seq_after : ℕ

-- The reader's answer: `yes` with the span to cache, `hull` from a saturated table, or `none`.
pub data Answer : Type 0 where
  absent : Answer
  hull : Answer
  inside : SpanEnt → Answer
  fault : Answer

-- `found = (end <= fe)`
pub classify : Option (Option SpanEnt) → ℕ → Answer
classify none end = fault
classify (some none) end = absent
classify (some (some e)) end = if leb end e.end then inside e else absent

-- `vmem_span_find`: the rounds are tried in order until one is consistent; `none` when none is.
pub find_loop : ℕ → ℕ → List Attempt → Option Answer
unfolding search classify
find_loop addr end [] = none
find_loop addr end (a ∷ as') =
    let retry = find_loop addr end as' in
    if a.seq_before % 2 == 1
    then retry
    else if a.saturated
    then some hull
    else if a.seq_before == a.seq_after
    then some (classify (search (length a.tab + 1) a.tab addr 0 (length a.tab)) end)
    else retry

pub span_find : ℕ → ℕ → List Attempt → Option Answer
unfolding find_loop
span_find addr len attempts =
    let end = (addr + len) % 2 ^ 64 in
    if ltb end addr then some absent else find_loop addr end attempts

-- `vmem_span_owns`: is the answer a yes?
pub span_owns : ℕ → ℕ → List Attempt → Option Bool
unfolding span_find
span_owns addr len attempts = elim (span_find addr len attempts) [
  | none ↦ none
  | some absent ↦ some false
  | some hull ↦ some true
  | some (inside e) ↦ some true
  | some fault ↦ none
]
