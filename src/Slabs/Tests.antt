-- ===== src/Slabs/Tests.antt =====
-- The theorems on slabs, at a cache with one full slab and one open one.
use libumem.Base.{◌<◌, ◌≡◌, refl, some, none, false, [], ◌∷◌, arith}
use libumem.Slabs.{
  Slab, Cache, Found, active, new_chunks, next_color, slab_alloc, slab_free, slab_of, slab_chunk,
  slab_member,
}
use libumem.Slabs.Counts.{IsValid, Settled}
use libumem.Slabs.Buffers.{free_count, out, new_buffers, Given, slab_alloc-Kept, slab_free-Kept}
use libumem.Chains.Count.{count}
use libumem.Base.{ℕ, ◌+◌}

abbrev full_slab : Slab
full_slab = record { base = 4096; chunks = 2; refcnt = 2; head = []; state = active; idle_time = 0 }

abbrev open_slab : Slab
open_slab = record {
  base = 8192;
  chunks = 2;
  refcnt = 1;
  head = 9216 ∷ [];
  state = active;
  idle_time = 0;
}

abbrev two_slabs : Cache
two_slabs = record {
  chunksize = 1024;
  slabsize = 4096;
  align = 64;
  color = 0;
  mincolor = 0;
  maxcolor = 0;
  is_hash = false;
  header_size = 64;
  full = full_slab ∷ [];
  freelist = open_slab ∷ [];
  slab_alloc_count = 3;
  slab_free_count = 0;
  slab_create_count = 2;
  slab_destroy_count = 0;
  buftotal = 4;
  bufmax = 4;
  alloc_fail = 0;
}

two_slabs-IsValid : IsValid two_slabs
two_slabs-IsValid = record { full_slabs = ground arith; open_slabs = ground arith }

two_slabs-room : 0 < new_chunks two_slabs
unfolding new_chunks next_color
two_slabs-room = omega arith

slab_alloc-Kept_example :
    IsValid (slab_alloc two_slabs none).0
    × ((b : ℕ)
        → free_count b (slab_alloc two_slabs none).0 + out b (slab_alloc two_slabs none).1
          ≡ free_count b two_slabs + count b (new_buffers two_slabs none two_slabs.freelist))
slab_alloc-Kept_example = slab_alloc-Kept two_slabs none two_slabs-IsValid two_slabs-room

-- The buffer at 5120 is the full slab's.
owner_of : (f : Found) → slab_of two_slabs 5120 [] two_slabs.full ≡ some f → 0 < f.slab.refcnt
unfolding slab_of slab_chunk slab_member
owner_of f e = let same : f.slab.refcnt ≡ 2 = ground (arith, e) in omega arith

no_owner : (f : Found) → slab_of two_slabs 5120 [] two_slabs.freelist ≡ some f → 0 < f.slab.refcnt
unfolding slab_of slab_chunk slab_member
no_owner f e = ground (arith, e)

slab_free-Kept_example :
    Settled (slab_free false two_slabs 5120)
    × ((b : ℕ) → Given b two_slabs 5120 (slab_free false two_slabs 5120))
slab_free-Kept_example =
    slab_free-Kept false two_slabs 5120 two_slabs-IsValid owner_of no_owner (refl, tt)
