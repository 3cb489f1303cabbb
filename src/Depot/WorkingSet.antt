-- ===== src/Depot/WorkingSet.antt =====
-- umem.c: the working set of the depot's lists, the magazines that the reaper takes, and where they go.
pub mod Trough
pub mod Reaping
pub mod Whole
use libumem.Base.{
  ℕ, zero, suc, ◌+◌, ◌-◌, ◌≤◌, ◌<◌, ◌≡◌, refl, sym, ap, ◌∙◌, Bool, true, false, ◌||◌, List, [], ◌∷◌,
  map, length, ltb, if◌then◌else◌, min, max, arith,
}
use libumem.Word.{add64, sub64}
use libumem.Depot.{
  Magazine, Maglist, Lists, Depot, Place, stripe, everywhere, list_at, put_list, lists_of,
  with_lists, popped, pushed, destroy_stale, magazine_valid,
}

-- `umem_maglist_ws_update`
pub ws_update : Maglist → Maglist
ws_update m = record m { reaplimit = m.low; low = m.total }

-- How many magazines a reap asks for.
abbrev pub excess : Maglist → ℕ
excess m = min m.reaplimit m.low

abbrev pub any_excess : List Maglist → Bool
any_excess [] = false
any_excess (m ∷ ms) = ltb 0 (excess m) || any_excess ms

-- `umem_depot_ws_excess`
pub depot_excess : Depot → Bool
depot_excess d =
    ltb 0 (excess d.full.global)
    || ltb 0 (excess d.empty.global)
    || any_excess d.full.stripes
    || any_excess d.empty.stripes

abbrev pub update_lists : Lists → Lists
update_lists l = record { stripes = map ws_update l.stripes; global = ws_update l.global }

-- `umem_depot_ws_update`
pub depot_update : Depot → Depot
unfolding ws_update
depot_update d = record d { full = update_lists d.full; empty = update_lists d.empty }

-- `umem_depot_reap_pop` of the list's magazines, which are given. The trough stays as it is.
pub reap_pop : Maglist → List Magazine → Maglist
reap_pop m rest = record m { list = rest; total = m.total - 1; allocs = add64 m.allocs 1 }

-- The loop that takes `n` magazines, or as many as there are, to the private chain.
pub collect : ℕ → List Magazine → Maglist → List Magazine → Maglist × List Magazine
unfolding reap_pop
collect zero list m chain = (m, chain)
collect (suc n) [] m chain = (m, chain)
collect (suc n) (mp ∷ rest) m chain = collect n rest (reap_pop m rest) (mp ∷ chain)

abbrev pub free_rounds : ℕ → List ℕ → List ℕ → List ℕ
free_rounds zero bufs frees = frees
free_rounds (suc n) [] frees = frees
free_rounds (suc n) (buf ∷ bufs) frees = free_rounds n bufs (buf ∷ frees)

-- `umem_magazine_destroy`: `nrounds` buffers go to the slab layer, and the shell to its cache.
pub magazine_destroy : Depot → Magazine → ℕ → Depot
magazine_destroy d mp nrounds = record d {
  slab_frees = free_rounds nrounds mp.slots d.slab_frees;
  mag_total = sub64 d.mag_total 1;
}

-- The magazines of the private chain are destroyed, with no lock held.
pub destroy_all : Depot → ℕ → List Magazine → Depot
unfolding destroy_stale magazine_destroy
destroy_all d full_rounds [] = d
destroy_all d full_rounds (mp ∷ mps) =
    let next =
      if magazine_valid d mp
      then magazine_destroy d mp full_rounds
      else destroy_stale d (ltb 0 full_rounds) mp in
    destroy_all next full_rounds mps

-- `umem_maglist_ws_reap` of one list: what is left of it, and the chain to be destroyed.
pub ws_reap : Maglist → Maglist × List Magazine
unfolding collect
ws_reap m = collect (excess m) m.list m []

-- UMEM_DEPOT_PERCPU_MAX
abbrev pub percpu_max : ℕ
percpu_max = 8

-- `umem_maglist_mark_excess`
pub mark_excess : Maglist → Maglist
mark_excess m =
    if ltb percpu_max m.total
    then record m {
      reaplimit =
          if ltb m.reaplimit (m.total - percpu_max) then m.total - percpu_max else m.reaplimit;
    }
    else m

-- `umem_maglist_ws_reap` of the list at a place: the lock is free again when the chain is destroyed.
pub reap_place : Depot → Bool → Place → ℕ → Depot
unfolding ws_reap destroy_all list_at put_list
reap_place d is_full p full_rounds =
    let l = lists_of d is_full in
    let r = ws_reap (list_at l p) in
    destroy_all (with_lists d is_full (put_list l p (r.0))) full_rounds (r.1)

pub mark_place : Depot → Bool → Place → Depot
unfolding mark_excess list_at put_list
mark_place d is_full p =
    let l = lists_of d is_full in with_lists d is_full (put_list l p (mark_excess (list_at l p)))

-- The loop of `umem_depot_ws_reap` over `n` stripes from the `i`-th.
pub reap_stripes : ℕ → ℕ → ℕ → Depot → Depot
unfolding reap_place mark_place
reap_stripes magsize i zero d = d
reap_stripes magsize i (suc n) d =
    let full = reap_place d true (stripe i) magsize in
    let both = reap_place full false (stripe i) 0 in
    reap_stripes magsize (i + 1) n (mark_place (mark_place both true (stripe i)) false (stripe i))

-- `umem_depot_ws_reap`
pub depot_reap : Depot → Depot
unfolding reap_stripes reap_place
depot_reap d =
    let all = reap_place (reap_place d true everywhere d.magsize) false everywhere 0 in
    reap_stripes d.magsize 0 (length d.full.stripes) all
