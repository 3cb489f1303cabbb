-- ===== src/Arena/Tests.antt =====
-- The theorems on arenas, at a mapping of one page that is partly used.
use libumem.Base.{◌-◌, ◌≡◌, refl, none, [], ◌∷◌, arith}
use libumem.Word.{word}
use libumem.Arena.{Arena, alloc, alloc_all}
use libumem.Arena.Bump.{IsValid, Given, Served, alloc-eq, alloc-none, alloc_lem, alloc_all-Ordered}

abbrev page : Arena
page = record { base = 65536; capacity = 4096; offset = 32 }

page-IsValid : IsValid page
page-IsValid = record {
  in_mapping = omega arith;
  no_wrap = omega arith;
  base_aligned = refl;
  offset_aligned = refl;
}

alloc-none_example : alloc page (word - 16) ≡ none
alloc-none_example = alloc-none page (word - 16) page-IsValid (omega arith) (omega arith)

alloc_lem_example : Given page (record { base = 65536; capacity = 4096; offset = 144 }) 100 65568
alloc_lem_example =
    alloc_lem page (record { base = 65536; capacity = 4096; offset = 144 }) 100 65568 page-IsValid
      (omega arith) (alloc-eq page 100 page-IsValid (omega arith) (omega arith))

alloc_all-Ordered_example : Served page (alloc_all page (100 ∷ 5000 ∷ 17 ∷ []))
alloc_all-Ordered_example =
    alloc_all-Ordered page (100 ∷ 5000 ∷ 17 ∷ []) page-IsValid (ground arith)
