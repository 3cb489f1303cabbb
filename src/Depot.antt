-- ===== src/Depot.antt =====
-- umem.c: the depot of an object cache, its lists of full and of empty magazines, for each CPU and for
-- all of them. A round is an address; how rounds are mangled has its own module. A call that takes a
-- list's lock finds it free or busy, and runs alone once it has the lock.
pub mod Count
pub mod Closed
pub mod Taking
pub mod Giving
pub mod Found
pub mod Sized
pub mod WorkingSet
pub mod Tests
use Prim.Native.Nat.{bit_and}
use libumem.Base.{
  ℕ, zero, suc, ◌+◌, ◌-◌, Bool, true, false, not, ◌&&◌, Option, none, some, List, [], ◌∷◌, length,
  get_elem?, set, ltb, ◌==◌, if◌then◌else◌, min,
}
use libumem.Word.{add64, sub64}

-- `umem_magazine_t`: the cache whose object it is, and its rounds, as many as it has room for.
pub record Magazine : Type 0 where
  pub source : ℕ
  pub slots : List ℕ

-- `umem_maglist_t`. The counts of magazines are `long`s that never get below 0.
pub record Maglist : Type 0 where
  pub list : List Magazine
  pub total : ℕ
  pub low : ℕ
  pub reaplimit : ℕ
  pub allocs : ℕ

-- The lists of one kind: `cache_depot_full` and `cache_full`, or `cache_depot_empty` and `cache_empty`.
pub record Lists : Type 0 where
  pub stripes : List Maglist
  pub global : Maglist

-- The part of `umem_cache_t` that the depot uses, with the cache of `cache_magtype` and its magazine
-- size, and the buffers that were given to `umem_slab_free`.
pub record Depot : Type 0 where
  pub full : Lists
  pub empty : Lists
  pub source : ℕ
  pub magsize : ℕ
  pub mag_total : ℕ
  pub local : ℕ
  pub remote : ℕ
  pub cross_node : ℕ
  pub contention : ℕ
  pub slab_frees : List ℕ

-- What a call meets: its CPU, the nodes of CPUs, and which locks are busy.
pub record Env : Type 0 where
  pub cpu_hint : ℕ
  pub cpu_node : ℕ → ℕ
  pub busy : ℕ → Bool
  pub global_busy : Bool

pub data Place : Type 0 where
  stripe : ℕ → Place
  everywhere : Place

abbrev pub no_magazines : Maglist
no_magazines = record { list = []; total = 0; low = 0; reaplimit = 0; allocs = 0 }

abbrev pub nth : List Maglist → ℕ → Maglist
nth l i = elim (get_elem? l i) [ none ↦ no_magazines | some m ↦ m ]

pub list_at : Lists → Place → Maglist
list_at l (stripe i) = nth l.stripes i
list_at l everywhere = l.global

pub put_list : Lists → Place → Maglist → Lists
put_list l (stripe i) m = record l { stripes = set l.stripes i m }
put_list l everywhere m = record l { global = m }

abbrev pub lists_of : Depot → Bool → Lists
lists_of d true = d.full
lists_of d false = d.empty

abbrev pub with_lists : Depot → Bool → Lists → Depot
with_lists d true l = record d { full = l }
with_lists d false l = record d { empty = l }

abbrev pub Got : Type 0
Got = Depot × Option Magazine

-- What is left of a list whose first magazine is taken.
pub popped : Maglist → List Magazine → Maglist
popped m rest =
    let total = m.total - 1 in
    record {
      list = rest;
      total = total;
      low = min total m.low;
      reaplimit = m.reaplimit;
      allocs = add64 m.allocs 1;
    }

-- Takes the first of the magazines at a place, which are given.
pub take_first : Depot → Bool → Place → List Magazine → Got
unfolding popped list_at put_list
take_first d is_full p [] = (d, none)
take_first d is_full p (mp ∷ rest) =
    let l = lists_of d is_full in
    (with_lists d is_full (put_list l p (popped (list_at l p) rest)), some mp)

abbrev pub is_nil : List Magazine → Bool
is_nil [] = true
is_nil (m ∷ ms) = false

-- `umem_depot_pop`: waits for a busy lock.
pub depot_pop : Bool → Depot → Bool → Place → Got
unfolding take_first list_at
depot_pop busy d is_full p =
    let list = (list_at (lists_of d is_full) p).list in
    let waited = if busy && not (is_nil list) then add64 d.contention 1 else d.contention in
    take_first (record d { contention = waited }) is_full p list

-- `umem_depot_pop_trylock`: a busy lock counts as an empty list.
pub depot_pop_trylock : Bool → Depot → Bool → Place → Got
unfolding take_first list_at
depot_pop_trylock true d is_full p = (d, none)
depot_pop_trylock false d is_full p = take_first d is_full p (list_at (lists_of d is_full) p).list

abbrev pub pushed : Maglist → Magazine → Maglist
pushed m mp = record m { list = mp ∷ m.list; total = m.total + 1 }

-- `umem_depot_push`
pub depot_push : Depot → Bool → Place → Magazine → Depot
unfolding list_at put_list
depot_push d is_full p mp =
    let l = lists_of d is_full in with_lists d is_full (put_list l p (pushed (list_at l p) mp))

-- The rounds that are not NULL go to the slab layer.
pub drain : List ℕ → List ℕ → List ℕ
drain [] frees = frees
drain (buf ∷ bufs) frees = drain bufs (if buf == 0 then frees else buf ∷ frees)

-- `umem_depot_destroy_stale`; the shell goes back to the cache it is from.
pub destroy_stale : Depot → Bool → Magazine → Depot
unfolding drain
destroy_stale d is_full mp =
    let frees = if is_full then drain mp.slots d.slab_frees else d.slab_frees in
    record d { slab_frees = frees; mag_total = sub64 d.mag_total 1 }

-- UMEM_MAGAZINE_VALID
abbrev pub magazine_valid : Depot → Magazine → Bool
magazine_valid d mp = mp.source == d.source

-- What every caller does with a popped magazine: a stale one is destroyed.
pub fresh : Bool → Got → Got
unfolding destroy_stale
fresh is_full g = elim (g.1) [
  | none ↦ (g.0, none)
  | some mp ↦ if magazine_valid g.0 mp then (g.0, some mp) else (destroy_stale g.0 is_full mp, none)
]

-- A magazine that was found is counted; otherwise the next place is tried.
pub tally : (Depot → Depot) → Got → Got
tally count g = elim (g.1) [ none ↦ (g.0, none) | some mp ↦ (count g.0, some mp) ]

pub or_else : Got → (Depot → Got) → Got
or_else g next = elim (g.1) [ none ↦ next g.0 | some mp ↦ (g.0, some mp) ]

-- A walk of `n` steps over the stripes from the `i`-th after `cpu`, those that `wanted` leaves out
-- skipped. The mask is the number of CPUs less 1.
pub scan : Env → Bool → (ℕ → Bool) → ℕ → ℕ → ℕ → ℕ → Depot → Got
unfolding depot_pop_trylock fresh or_else
scan e is_full wanted mask cpu i zero d = (d, none)
scan e is_full wanted mask cpu i (suc n) d =
    let other = bit_and (cpu + i) mask in
    let here =
      if wanted other
      then fresh is_full (depot_pop_trylock (e.busy other) d is_full (stripe other))
      else (d, none) in
    or_else here (scan e is_full wanted mask cpu (i + 1) n)

abbrev pub count_local : Depot → Depot
count_local d = record d { local = add64 d.local 1 }

abbrev pub count_remote : Depot → Depot
count_remote d = record d { remote = add64 d.remote 1 }

abbrev pub count_cross : Depot → Depot
count_cross d = record d { cross_node = add64 d.cross_node 1 }

pub take_global : Env → Bool → Depot → Got
unfolding depot_pop fresh
take_global e is_full d = fresh is_full (depot_pop e.global_busy d is_full everywhere)

pub take_local : Env → Bool → ℕ → Depot → Got
unfolding depot_pop fresh tally
take_local e is_full cpu d =
    tally count_local (fresh is_full (depot_pop (e.busy cpu) d is_full (stripe cpu)))

pub steal_near : Env → Bool → ℕ → ℕ → Depot → Got
unfolding scan tally
steal_near e is_full mask cpu d =
    let near = λ (other : ℕ). e.cpu_node other == e.cpu_node cpu in
    tally count_remote (scan e is_full near mask cpu 1 mask d)

pub steal_far : Env → Bool → ℕ → ℕ → Depot → Got
unfolding scan tally
steal_far e is_full mask cpu d =
    let far = λ (other : ℕ). not (e.cpu_node other == e.cpu_node cpu) in
    tally count_cross (scan e is_full far mask cpu 1 mask d)

-- `umem_depot_alloc`: the own stripe, those of the same node, those of other nodes, and the list for
-- all CPUs.
unfoldable pub depot_alloc : Env → Bool → Depot → Got
unfolding take_local steal_near steal_far take_global or_else
depot_alloc e is_full d =
    let ncpus = length (lists_of d is_full).stripes in
    let mask = ncpus - 1 in
    let cpu = bit_and e.cpu_hint mask in
    if ncpus == 0
    then take_global e is_full d
    else or_else (take_local e is_full cpu d) (λ a.
      or_else (steal_near e is_full mask cpu a)
        (λ b. or_else (steal_far e is_full mask cpu b) (take_global e is_full)))

pub try_local : Env → Bool → ℕ → Depot → Got
unfolding depot_pop_trylock fresh tally
try_local e is_full cpu d =
    tally count_local (fresh is_full (depot_pop_trylock (e.busy cpu) d is_full (stripe cpu)))

pub steal_some : Env → Bool → ℕ → ℕ → ℕ → Depot → Got
unfolding scan tally
steal_some e is_full mask cpu n d =
    tally count_remote (scan e is_full (λ (other : ℕ). true) mask cpu 1 n d)

pub try_global : Env → Bool → Depot → Got
unfolding depot_pop_trylock fresh
try_global e is_full d = fresh is_full (depot_pop_trylock e.global_busy d is_full everywhere)

-- `umem_depot_alloc_trylock`: no lock is waited for, and at most `steal_max` stripes are tried.
unfoldable pub depot_alloc_trylock : Env → ℕ → Bool → Depot → Got
unfolding try_local steal_some try_global or_else
depot_alloc_trylock e steal_max is_full d =
    let ncpus = length (lists_of d is_full).stripes in
    let mask = ncpus - 1 in
    let cpu = bit_and e.cpu_hint mask in
    if ncpus == 0
    then try_global e is_full d
    else or_else (try_local e is_full cpu d) (λ a.
      or_else (steal_some e is_full mask cpu (min ncpus steal_max - 1) a) (try_global e is_full))

-- `umem_depot_free`
unfoldable pub depot_free : Env → Bool → Depot → Magazine → Depot
unfolding depot_push
depot_free e is_full d mp =
    let ncpus = length (lists_of d is_full).stripes in
    if ncpus == 0
    then depot_push d is_full everywhere mp
    else depot_push d is_full (stripe (bit_and e.cpu_hint (ncpus - 1))) mp

-- The stripe that `umem_depot_free_trylock` pushes to: the first of `n` whose lock is free.
pub free_stripe : Env → ℕ → ℕ → ℕ → ℕ → Place
free_stripe e mask cpu i zero = everywhere
free_stripe e mask cpu i (suc n) =
    let other = bit_and (cpu + i) mask in
    let rest = free_stripe e mask cpu (i + 1) n in if e.busy other then rest else stripe other

-- `umem_depot_free_trylock`
unfoldable pub depot_free_trylock : Env → Bool → Depot → Magazine → Depot
unfolding depot_push free_stripe
depot_free_trylock e is_full d mp =
    let ncpus = length (lists_of d is_full).stripes in
    let mask = ncpus - 1 in
    let cpu = bit_and e.cpu_hint mask in
    let place =
      if ncpus == 0
      then everywhere
      else if e.busy cpu
      then free_stripe e mask cpu 1 mask
      else stripe cpu in
    depot_push d is_full place mp
