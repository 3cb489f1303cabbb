-- ===== src/Magazines/Tests.antt =====
-- The theorems on magazines, at a CPU with one loaded magazine in front of a depot with two stripes.
use libumem.Base.{ℕ, ◌≡◌, refl, true, Option, none, some, [], ◌∷◌, ◌==◌, if◌then◌else◌, inr, arith}
use libumem.Depot.Tests.{two_stripes, on_cpu_zero, room, two_stripes-IsSizedDepot}
use libumem.Magazines.{State, cache_alloc, cache_free, alloc_loop}
use libumem.Magazines.Ready.{IsReady}
use libumem.Magazines.Allocating.{Supplied, asked, cache_alloc-Supplied}
use libumem.Magazines.Freeing.{Kept, cache_free-Kept}
use libumem.Magazines.Session.{
  Session, without, alloc, free, Reach, here, next, IsExclusive, Reach-IsExclusive,
}
use libumem.Magazines.Counted.{count_cache, count_loaded, count_first}
use libumem.Depot.Count.{count, count_depot}

-- The magazine that is loaded has its first round left; the second, 32, is with a client.
abbrev one_left : State
one_left = record {
  cpu = record {
    loaded = some (record { magazine = record { source = 7; slots = 16 ∷ 32 ∷ [] }; rounds = 1 });
    previous = none;
    magsize = 2;
    allocs = 1;
    frees = 0;
  };
  depot = two_stripes;
}

one_left-IsReady : IsReady room one_left
one_left-IsReady = record {
  loaded_fits = record { room = refl; kind = refl; filled = omega arith; enabled = omega arith };
  previous_fits = tt;
  previous_whole = tt;
  depot_ready = record {
    sizes = λ h. (refl, refl);
    in_depot = two_stripes-IsSizedDepot;
    striped = record { full_striped = inr (1, refl); empty_striped = inr (1, refl) };
  };
}

cache_alloc-Supplied_example :
    (m : Option ℕ × State) × (r : Option ℕ × State) × (alloc_loop 2 on_cpu_zero one_left ≡ some m)
    × (cache_alloc 2 on_cpu_zero none true one_left ≡ some r)
    × Supplied room one_left (asked (m.0) none) r
cache_alloc-Supplied_example =
    cache_alloc-Supplied room 0 on_cpu_zero none true one_left one_left-IsReady

cache_free-Kept_example :
    (t : State) × (cache_free 3 on_cpu_zero none 32 one_left ≡ some t)
    × Kept room one_left t (λ b. if 32 == b then 1 else 0)
cache_free-Kept_example = cache_free-Kept room 0 on_cpu_zero none 32 one_left one_left-IsReady tt

abbrev with_client : Session
with_client = record { cache = one_left; held = 32 ∷ [] }

-- The client is handed the first round, and gives back the second.
abbrev after_alloc : Session
after_alloc = record {
  cache = record one_left {
    cpu = record one_left.cpu {
      loaded = some (record { magazine = record { source = 7; slots = 16 ∷ 32 ∷ [] }; rounds = 0 });
      allocs = 2;
    };
  };
  held = 16 ∷ 32 ∷ [];
}

abbrev after_free : Session
after_free = record {
  cache = record one_left {
    cpu = record one_left.cpu {
      loaded = some (record { magazine = record { source = 7; slots = 32 ∷ 32 ∷ [] }; rounds = 1 });
      allocs = 2;
      frees = 1;
    };
  };
  held = without 32 (16 ∷ 32 ∷ []);
}

two_calls : Reach room with_client after_free
unfolding cache_alloc cache_free count
two_calls =
    next (next here (alloc on_cpu_zero none (some 16) true after_alloc.cache tt refl))
      (free on_cpu_zero none 32 after_free.cache tt (omega arith) refl)

with_client-IsExclusive : IsExclusive room with_client
unfolding count_cache count_loaded count_first count_depot count
with_client-IsExclusive = record { ready = one_left-IsReady; once = λ b positive. ground arith }

Reach-IsExclusive_example : IsExclusive room after_free
Reach-IsExclusive_example = Reach-IsExclusive room two_calls with_client-IsExclusive
