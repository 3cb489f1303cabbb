-- ===== src/Ptc/Tests.antt =====
-- umem_ptc.c: runs of a bin, and the theorem at a concrete one.
use libumem.Base.{◌≡◌, refl, true, none, some, [], ◌∷◌, arith}
use libumem.Ptc.{Cached, bin_flush, bin_refill, ptc_alloc, ptc_free}
use libumem.Ptc.Bin.{Supplied, Taken, bin-Kept}

-- A bin of 16 slots that is full.
abbrev full : Cached
full = record {
  slots = 16 ∷ 15 ∷ 14 ∷ 13 ∷ 12 ∷ 11 ∷ 10 ∷ 9 ∷ 8 ∷ 7 ∷ 6 ∷ 5 ∷ 4 ∷ 3 ∷ 2 ∷ 1 ∷ [];
  answers = [];
  freed = [];
}

-- Half of it goes to the magazine layer.
flushes :
    ptc_free 30 true 17 full
    ≡ some (
      true,
      record {
        slots = 17 ∷ 8 ∷ 7 ∷ 6 ∷ 5 ∷ 4 ∷ 3 ∷ 2 ∷ 1 ∷ [];
        answers = [];
        freed = 9 ∷ 10 ∷ 11 ∷ 12 ∷ 13 ∷ 14 ∷ 15 ∷ 16 ∷ [];
      },
    )
unfolding ptc_free bin_flush
flushes = refl

-- A refill ends at the first NULL.
refills :
    ptc_alloc 30 true (record { slots = []; answers = some 1 ∷ some 2 ∷ none ∷ []; freed = [] })
    ≡ some (some 2, record { slots = 1 ∷ []; answers = []; freed = [] })
unfolding ptc_alloc bin_refill
refills = refl

bin-Kept_example :
    Supplied 16 full (ptc_alloc 30 true full) × Taken 16 17 full (ptc_free 30 true 17 full)
bin-Kept_example = bin-Kept 30 17 true full (omega arith)
