-- ===== src/SpanTable/Tests.antt =====
-- The theorems on the span table, at a table of two spans.
use libumem.Base.{◌≡◌, refl, some, none, false, [], ◌∷◌, arith}
use libumem.SpanTable.{SpanTable, Attempt, search, table_insert, table_remove, span_find, inside}
use libumem.SpanTable.Owner.{owner}
use libumem.SpanTable.Search.{search-eq-owner}
use libumem.SpanTable.Table.{
  IsValid, undisturbed, entry, table_insert-IsValid, owner-table_insert, table_remove-IsValid,
  owner-table_remove, span_find_lem,
}

abbrev two_spans : SpanTable
two_spans = record { tab = entry 4096 12288 ∷ entry 16384 24576 ∷ []; seq = 4; saturated = false }

two_spans-IsValid : IsValid two_spans
two_spans-IsValid = record {
  sorted = ground arith;
  even = refl;
  word = omega arith;
  fits = omega arith;
}

abbrev torn_round : Attempt
torn_round = record { seq_before = 3; saturated = false; tab = []; seq_after = 4 }

search-eq-owner_example : search 3 two_spans.tab 20000 0 2 ≡ some (owner two_spans.tab 20000)
search-eq-owner_example = search-eq-owner 0 20000 two_spans.tab (ground arith)

table_insert-IsValid_example : IsValid (table_insert two_spans 12288 16384)
table_insert-IsValid_example =
    table_insert-IsValid two_spans 12288 16384 two_spans-IsValid (omega arith) (ground arith)

owner-table_insert_example :
    (owner (table_insert two_spans 12288 16384).tab 13000 ≡ some (entry 12288 16384))
    × ((table_insert two_spans 12288 16384).saturated ≡ false)
owner-table_insert_example =
    owner-table_insert two_spans 12288 16384 13000 two_spans-IsValid (ground arith)

table_remove-IsValid_example : IsValid (table_remove two_spans 4096 12288)
table_remove-IsValid_example = table_remove-IsValid two_spans 4096 12288 two_spans-IsValid

owner-table_remove_example : owner (table_remove two_spans 4096 12288).tab 5000 ≡ none
owner-table_remove_example = owner-table_remove two_spans 4096 12288 5000 two_spans-IsValid

span_find_lem_example :
    span_find 17000 100 (torn_round ∷ undisturbed two_spans ∷ [])
    ≡ some (inside (entry 16384 24576))
unfolding owner
span_find_lem_example =
    span_find_lem two_spans 17000 100 (torn_round ∷ []) [] two_spans-IsValid (ground arith)
      (omega arith) (omega arith)
