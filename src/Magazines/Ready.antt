-- ===== src/Magazines/Ready.antt =====
-- umem.c: what holds of a CPU's magazines whenever `cc_lock` is free, and how `umem_cpu_reload` with a
-- magazine of the depot keeps it.
use libumem.Base.{
  ℕ, ◌+◌, ◌^◌, ◌≤◌, ◌<◌, ◌≡◌, refl, sym, ap, ◌∙◌, Bool, true, false, Option, none, some, length,
  not, ◌⊎◌, arith,
}
use mathlib.Core.Path.{subst}
use libumem.Depot.{Magazine, Depot, Env}
use libumem.Depot.Count.{count_depot, count_mag}
use libumem.Depot.Giving.{IsStriped, depot_free-count}
use libumem.Depot.Sized.{IsSizedDepot, Serves, depot_free-Serves}
use libumem.Magazines.{Loaded, State, exchange, free_previous}
use libumem.Magazines.Counted.{count_first, count_loaded, count_cache}

abbrev pub Holds : (Loaded → Type 0) → Option Loaded → Type 0
Holds P none = Unit
Holds P (some l) = P l

-- Both kinds of list have no stripes, or a power of two of them.
pub record IsStripedDepot (d : Depot) : Type 0 where
  pub full_striped : IsStriped d.full
  pub empty_striped : IsStriped d.empty

abbrev Lengths : ℕ → Type 0
Lengths n = (n ≡ 0) ⊎ ((k : ℕ) × (n ≡ 2 ^ k))

module _ (cap : ℕ → ℕ) where
  -- A magazine has the room of the CPU's magazine size, which is not 0, and no more rounds than that.
  pub record Fits (size : ℕ) (l : Loaded) : Type 0 where
    pub room : length l.magazine.slots ≡ size
    pub kind : cap l.magazine.source ≡ size
    pub filled : l.rounds ≤ size
    pub enabled : 0 < size

  abbrev pub IsWhole : ℕ → Loaded → Type 0
  IsWhole size l = (l.rounds ≡ 0) ⊎ (l.rounds ≡ size)

  -- Unless the CPU's magazines are disabled, their size is that of the cache.
  pub record IsReadyDepot (size : ℕ) (d : Depot) : Type 0 where
    pub sizes : 0 < size → (cap d.source ≡ size) × (d.magsize ≡ size)
    pub in_depot : IsSizedDepot cap d
    pub striped : IsStripedDepot d

  -- The magazines fit, and the previous one is empty or full.
  pub record IsReady (s : State) : Type 0 where
    pub loaded_fits : Holds (Fits s.cpu.magsize) s.cpu.loaded
    pub previous_fits : Holds (Fits s.cpu.magsize) s.cpu.previous
    pub previous_whole : Holds (IsWhole s.cpu.magsize) s.cpu.previous
    pub depot_ready : IsReadyDepot s.cpu.magsize s.depot

  pub Serves-IsReadyDepot :
      (size : ℕ) (d x : Depot) (o : Option Magazine)
      → Serves cap d (x, o)
      → IsReadyDepot size d
      → IsReadyDepot size x
  Serves-IsReadyDepot size d x o k r = record {
    sizes = λ h. (ap cap k.same_source ∙ (r.sizes h).0, k.same_magsize ∙ (r.sizes h).1);
    in_depot = k.still_sized r.in_depot;
    striped = record {
      full_striped = subst Lengths (sym k.same_full) r.striped.full_striped;
      empty_striped = subst Lengths (sym k.same_empty) r.striped.empty_striped;
    };
  }

  -- What the depot holds once the previous magazine is on its lists of the kind that it is counted as.
  free_previous-count :
      (b : ℕ) (e : Env) (is_full : Bool) (previous : Option Loaded) (d : Depot)
      → IsStripedDepot d
      → Holds
          (λ l. count_first b l.rounds l.magazine.slots ≡ count_mag b is_full l.magazine)
          previous
      → count_depot b (free_previous e is_full previous d)
        ≡ count_depot b d + count_loaded b previous
  unfolding count_loaded
  free_previous-count b e is_full none d s h = omega arith
  free_previous-count b e true (some l) d s h =
      omega (arith, depot_free-count b e true d l.magazine s.full_striped, h)
  free_previous-count b e false (some l) d s h =
      omega (arith, depot_free-count b e false d l.magazine s.empty_striped, h)

  free_previous-IsReadyDepot :
      (size : ℕ) (e : Env) (is_full : Bool) (previous : Option Loaded) (d : Depot)
      → Holds (Fits size) previous
      → IsReadyDepot size d
      → IsReadyDepot size (free_previous e is_full previous d)
  free_previous-IsReadyDepot size e is_full none d f r = r
  free_previous-IsReadyDepot size e is_full (some l) d f r =
      Serves-IsReadyDepot size d (free_previous e is_full (some l) d) none
        (depot_free-Serves cap e is_full d l.magazine (f.room ∙ sym f.kind)) r

  -- A magazine that a search of the depot has found is loaded, and the previous one given back.
  pub exchange-IsReady :
      (e : Env) (to_full : Bool) (rounds : ℕ) (s : State) (d : Depot) (mp : Magazine)
      → IsReady s
      → 0 < s.cpu.magsize
      → rounds ≤ s.cpu.magsize
      → Holds (IsWhole s.cpu.magsize) s.cpu.loaded
      → Serves cap s.depot (d, some mp)
      → IsReady (exchange e to_full rounds s d mp)
  unfolding exchange
  exchange-IsReady e to_full rounds s d mp r h le w k =
      let (size, source) = k.right_size r.depot_ready.in_depot mp refl in
      let is : cap mp.source ≡ s.cpu.magsize = ap cap source ∙ (r.depot_ready.sizes h).0 in
      record {
        loaded_fits = record { room = size ∙ is; kind = is; filled = le; enabled = h };
        previous_fits = r.loaded_fits;
        previous_whole = w;
        depot_ready =
            free_previous-IsReadyDepot s.cpu.magsize e to_full s.cpu.previous d r.previous_fits
              (Serves-IsReadyDepot s.cpu.magsize s.depot d (some mp) k r.depot_ready);
      }

  -- No buffer is lost on the way, if both magazines are counted as what the depot takes them for.
  pub exchange-count :
      (b : ℕ) (e : Env) (is_full : Bool) (rounds : ℕ) (s : State) (d : Depot) (mp : Magazine)
      → IsStripedDepot d
      → Holds
          (λ l. count_first b l.rounds l.magazine.slots ≡ count_mag b (not is_full) l.magazine)
          s.cpu.previous
      → count_first b rounds mp.slots ≡ count_mag b is_full mp
      → count_depot b d + count_mag b is_full mp ≡ count_depot b s.depot
      → count_cache b (exchange e (not is_full) rounds s d mp) ≡ count_cache b s
  unfolding exchange count_cache count_loaded
  exchange-count b e is_full rounds s d mp st p m k =
      omega (arith, free_previous-count b e (not is_full) s.cpu.previous d st p, m, k)
