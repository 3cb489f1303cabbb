-- ===== src/Depot/Tests.antt =====
-- The theorems on the depot, at a depot with two stripes.
use libumem.Base.{
  ℕ, ◌+◌, ◌≡◌, refl, true, false, some, [], ◌∷◌, length, ◌==◌, if◌then◌else◌, inr, min, arith,
}
use libumem.Depot.{
  Magazine, Maglist, Depot, Env, no_magazines, depot_alloc, depot_alloc_trylock, depot_free,
  depot_free_trylock,
}
use libumem.Depot.Count.{Keeps, count_depot, count_mag}
use libumem.Depot.Giving.{depot_frees-count}
use libumem.Depot.Taking.{depot_alloc-Keeps}
use libumem.Depot.WorkingSet.{depot_reap, ws_reap, ws_update}
use libumem.Depot.WorkingSet.Whole.{depot_reap-count}
use libumem.Depot.Sized.{IsSizedDepot}
use libumem.Depot.WorkingSet.Trough.{push, pop, use_all, ws_reap_lem}

abbrev pub stocked : Magazine
stocked = record { source = 7; slots = 48 ∷ 64 ∷ [] }

-- A magazine from before the size of the cache's magazines changed.
abbrev pub stale : Magazine
stale = record { source = 5; slots = 80 ∷ 0 ∷ 96 ∷ [] }

abbrev pub one_stocked : Maglist
one_stocked = record no_magazines { list = stocked ∷ []; total = 1 }

abbrev pub one_stale : Maglist
one_stale = record no_magazines { list = stale ∷ []; total = 1 }

abbrev pub two_stripes : Depot
two_stripes = record {
  full = record { stripes = one_stale ∷ one_stocked ∷ []; global = no_magazines };
  empty = record { stripes = no_magazines ∷ no_magazines ∷ []; global = no_magazines };
  source = 7;
  magsize = 2;
  mag_total = 2;
  local = 0;
  remote = 0;
  cross_node = 0;
  contention = 0;
  slab_frees = [];
}

abbrev pub on_cpu_zero : Env
on_cpu_zero = record { cpu_hint = 0; cpu_node = λ cpu. 0; busy = λ cpu. false; global_busy = false }

-- The stale magazine of the own stripe is drained, and the neighbour's is stolen.
steals : (depot_alloc on_cpu_zero true two_stripes).1 ≡ some stocked
unfolding depot_alloc
steals = refl

drains : (depot_alloc on_cpu_zero true two_stripes).0.slab_frees ≡ 96 ∷ 80 ∷ []
unfolding depot_alloc
drains = refl

depot_alloc-Keeps_example :
    Keeps 80 true two_stripes (depot_alloc on_cpu_zero true two_stripes)
    × Keeps 80 true two_stripes (depot_alloc_trylock on_cpu_zero 8 true two_stripes)
depot_alloc-Keeps_example = depot_alloc-Keeps 80 on_cpu_zero 8 true two_stripes (omega arith)

depot_frees-count_example :
    (count_depot 48 (depot_free on_cpu_zero true two_stripes stocked)
      ≡ count_depot 48 two_stripes + count_mag 48 true stocked)
    × (count_depot 48 (depot_free_trylock on_cpu_zero true two_stripes stocked)
        ≡ count_depot 48 two_stripes + count_mag 48 true stocked)
depot_frees-count_example =
    depot_frees-count 48 on_cpu_zero true two_stripes stocked (inr (1, refl))

-- A list of three magazines, of which two are never used in the interval.
abbrev three : Maglist
three = record {
  list = stocked ∷ stocked ∷ stocked ∷ [];
  total = 3;
  low = 3;
  reaplimit = 0;
  allocs = 0;
}

ws_reap_lem_example :
    length (ws_reap (use_all (ws_update three) (pop ∷ push stocked ∷ []))).1
    ≡ min 3 (min 3 (min 2 (2 + 1)))
ws_reap_lem_example = ws_reap_lem three (pop ∷ push stocked ∷ []) refl

-- The rounds that a magazine of each kind has room for.
abbrev pub room : ℕ → ℕ
room source = if source == 7 then 2 else 3

pub two_stripes-IsSizedDepot : IsSizedDepot room two_stripes
two_stripes-IsSizedDepot = record {
  in_full = record { in_stripes = ((refl, tt), ((refl, tt), tt)); in_global = tt };
  in_empty = record { in_stripes = (tt, (tt, tt)); in_global = tt };
}

depot_reap-count_example :
    (count_depot 48 (depot_reap two_stripes) ≡ count_depot 48 two_stripes)
    × IsSizedDepot room (depot_reap two_stripes)
depot_reap-count_example =
    depot_reap-count room 48 (omega arith) two_stripes (omega arith) refl two_stripes-IsSizedDepot
