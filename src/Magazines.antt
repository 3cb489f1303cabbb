-- ===== src/Magazines.antt =====
-- umem.c: the magazines of a CPU in front of the depot, `_umem_cache_alloc` and `_umem_cache_free`
-- under `cc_lock`. The restartable sequences, the hooks and the debugging features are off. A magazine
-- that is NULL has -1 rounds in the source, and is none here.
pub mod Counted
pub mod Ready
pub mod Allocating
pub mod Freeing
pub mod Session
mod Tests
use libumem.Base.{
  ℕ, zero, suc, ◌+◌, ◌-◌, ◌%◌, ◌^◌, Bool, true, false, Option, none, some, List, [], ◌∷◌, get_elem?,
  set, ltb, ◌==◌, if◌then◌else◌,
}
use libumem.Word.{add64, sub64}
use libumem.Depot.{Magazine, Depot, Env, Got, depot_alloc, depot_free}

-- A magazine that a CPU has, and how many of its rounds are buffers.
pub record Loaded : Type 0 where
  pub magazine : Magazine
  pub rounds : ℕ

-- `umem_cpu_cache_t`
pub record Cpu : Type 0 where
  pub loaded : Option Loaded
  pub previous : Option Loaded
  pub magsize : ℕ
  pub allocs : ℕ
  pub frees : ℕ

-- The cache as one CPU's thread finds it.
pub record State : Type 0 where
  pub cpu : Cpu
  pub depot : Depot

-- `umem_cpu_reload`
abbrev pub reload : Cpu → Loaded → Cpu
reload c l = record c { previous = c.loaded; loaded = some l }

abbrev pub add32 : ℕ → ℕ → ℕ
add32 a b = (a + b) % 2 ^ 32

abbrev pub slot : List ℕ → ℕ → ℕ
slot slots i = elim (get_elem? slots i) [ none ↦ 0 | some buf ↦ buf ]

-- The last round of the loaded magazine, and the magazine without it.
abbrev pub pop_round : Option Loaded → Option (ℕ × Loaded)
pop_round none = none
pop_round (some l) =
    if ltb 0 l.rounds
    then some (slot l.magazine.slots (l.rounds - 1), record l { rounds = l.rounds - 1 })
    else none

-- The loaded magazine with a further round, if it has room.
abbrev pub push_round : ℕ → ℕ → Option Loaded → Option Loaded
push_round magsize buf none = none
push_round magsize buf (some l) =
    if ltb l.rounds magsize
    then some (record {
      magazine = record l.magazine { slots = set l.magazine.slots l.rounds buf };
      rounds = l.rounds + 1;
    })
    else none

-- The previous magazine if it has a round, and if it has none.
abbrev pub unless_empty : Option Loaded → Option Loaded
unless_empty none = none
unless_empty (some l) = if ltb 0 l.rounds then some l else none

abbrev pub if_empty : Option Loaded → Option Loaded
if_empty none = none
if_empty (some l) = if l.rounds == 0 then some l else none

-- The previous magazine goes to the depot's lists of a kind.
abbrev pub free_previous : Env → Bool → Option Loaded → Depot → Depot
free_previous e is_full none d = d
free_previous e is_full (some l) d = depot_free e is_full d l.magazine

-- A magazine of the depot is loaded with a number of rounds, and the previous one given back.
pub exchange : Env → Bool → ℕ → State → Depot → Magazine → State
exchange e to_full rounds s d mp = record {
  cpu = reload s.cpu (record { magazine = mp; rounds = rounds });
  depot = free_previous e to_full s.cpu.previous d;
}

-- One turn of a loop: it is over, it goes on, or the slab layer is asked.
pub data Turn : Type 0 where
  over : Option ℕ → State → Turn
  again : State → Turn
  slab_layer : State → Turn

pub alloc_full : Env → State → Got → Turn
unfolding exchange
alloc_full e s g = elim (g.1) [
  | none ↦ slab_layer (record s { depot = g.0 })
  | some fmp ↦ again (exchange e false s.cpu.magsize s (g.0) fmp)
]

-- The loop's body where the loaded magazine is empty.
pub alloc_reload : Env → State → Turn
unfolding alloc_full
alloc_reload e s = elim (unless_empty s.cpu.previous) [
  | some l ↦ again (record s { cpu = reload s.cpu l })
  | none ↦ if s.cpu.magsize == 0 then slab_layer s else alloc_full e s (depot_alloc e true s.depot)
]

-- The body of the loop of `_umem_cache_alloc`.
pub alloc_turn : Env → State → Turn
unfolding alloc_reload
alloc_turn e s = elim (pop_round s.cpu.loaded) [
  | some (buf, l) ↦
      over (some buf)
        (record s { cpu = record s.cpu { loaded = some l; allocs = add32 s.cpu.allocs 1 } })
  | none ↦ alloc_reload e s
]

-- The loop, with fuel: the buffer, or none for the slab layer.
pub alloc_loop : ℕ → Env → State → Option (Option ℕ × State)
unfolding alloc_turn
alloc_loop zero e s = none
alloc_loop (suc n) e s = elim (alloc_turn e s) [
  | over buf t ↦ some (buf, t)
  | slab_layer t ↦ some (none, t)
  | again t ↦ alloc_loop n e t
]

-- The turn of the loop of `_umem_cache_free` that has no empty magazine: it takes a new one, if the
-- cache of magazines has one. No other thread uses this cache while `cc_lock` is free.
pub add_magazine : Env → State → Depot → Option Magazine → Turn
add_magazine e s d none = slab_layer (record s { depot = d })
add_magazine e s d (some emp) =
    if s.cpu.magsize == d.magsize
    then again
        (record s { depot = depot_free e false (record d { mag_total = add64 d.mag_total 1 }) emp })
    else again (record s { depot = record d { mag_total = sub64 (add64 d.mag_total 1) 1 } })

pub free_empty : Env → State → Option Magazine → Got → Turn
unfolding exchange add_magazine
free_empty e s shell g = elim (g.1) [
  | some emp ↦ again (exchange e true 0 s (g.0) emp)
  | none ↦ add_magazine e s (g.0) shell
]

-- The loop's body where the loaded magazine is full.
pub free_reload : Env → State → Option Magazine → Turn
unfolding free_empty
free_reload e s shell = elim (if_empty s.cpu.previous) [
  | some l ↦ again (record s { cpu = reload s.cpu l })
  | none ↦
      if s.cpu.magsize == 0
      then slab_layer s
      else free_empty e s shell (depot_alloc e false s.depot)
]

-- The body of the loop of `_umem_cache_free`.
pub free_turn : Env → State → ℕ → Option Magazine → Turn
unfolding free_reload
free_turn e s buf shell = elim (push_round s.cpu.magsize buf s.cpu.loaded) [
  | some l ↦
      over none (record s { cpu = record s.cpu { loaded = some l; frees = add32 s.cpu.frees 1 } })
  | none ↦ free_reload e s shell
]

-- The loop, with fuel: whether the slab layer is to take the buffer.
pub free_loop : ℕ → Env → ℕ → Option Magazine → State → Option (Bool × State)
unfolding free_turn
free_loop zero e buf shell s = none
free_loop (suc n) e buf shell s = elim (free_turn e s buf shell) [
  | over got t ↦ some (false, t)
  | slab_layer t ↦ some (true, t)
  | again t ↦ free_loop n e buf shell t
]

-- `_umem_cache_alloc`, from what `umem_slab_alloc` answers and whether the constructor succeeds on it.
pub cache_alloc : ℕ → Env → Option ℕ → Bool → State → Option (Option ℕ × State)
unfolding alloc_loop
cache_alloc fuel e slab_answer constructed s = elim (alloc_loop fuel e s) [
  | none ↦ none
  | some (some buf, t) ↦ some (some buf, t)
  | some (none, t) ↦ some (elim slab_answer [
    | none ↦ (none, t)
    | some buf ↦
        if constructed
        then (some buf, t)
        else (none, record t { depot = record t.depot { slab_frees = buf ∷ t.depot.slab_frees } })
  ])
]

-- `_umem_cache_free`
pub cache_free : ℕ → Env → Option Magazine → ℕ → State → Option State
unfolding free_loop
cache_free fuel e shell buf s = if buf == 0 then some s else elim (free_loop fuel e buf shell s) [
  | none ↦ none
  | some (true, t) ↦
      some (record t { depot = record t.depot { slab_frees = buf ∷ t.depot.slab_frees } })
  | some (false, t) ↦ some t
]
