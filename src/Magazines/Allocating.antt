-- ===== src/Magazines/Allocating.antt =====
-- umem.c: the loop of `_umem_cache_alloc`, and where each buffer is when it is over.
use libumem.Base.{
  ℕ, suc, ◌+◌, ◌-◌, ◌<◌, ◌≡◌, refl, ap, ◌∙◌, Bool, true, false, Option, none, some, List, ◌∷◌,
  length, ltb, ◌==◌, if◌then◌else◌, inl, inr, arith, Bool-cases, lt→ltb,
}
use libumem.Depot.{Magazine, Depot, Env, depot_alloc}
use libumem.Depot.Count.{count, count_depot, count_mag, count_got, Keeps}
use libumem.Depot.Taking.{depot_alloc-Keeps}
use libumem.Depot.Sized.{Serves, depot_alloc-Serves, counted-Serves}
use libumem.Magazines.{
  Loaded, State, slot, add32, Turn, alloc_full, alloc_reload, alloc_turn, alloc_loop, cache_alloc,
}
use libumem.Magazines.Counted.{
  count_first, count_loaded, count_cache, count_out, count_first-all, count_first-none,
  count_first-suc,
}
use libumem.Magazines.Ready.{
  Holds, IsWhole, IsReady, Serves-IsReadyDepot, exchange-IsReady, exchange-count,
}

abbrev pub at_cpu : Option Loaded → Option Loaded → ℕ → ℕ → ℕ → Depot → State
at_cpu loaded previous magsize allocs frees d = record {
  cpu = record {
    loaded = loaded;
    previous = previous;
    magsize = magsize;
    allocs = allocs;
    frees = frees;
  };
  depot = d;
}

-- What the slab layer is asked for where the magazines have no buffer.
abbrev pub asked : Option ℕ → Option ℕ → Option ℕ
asked none slab_answer = slab_answer
asked (some buf) slab_answer = none

module _ (cap : ℕ → ℕ) where
  -- The cache is ready again, and every buffer is where it was or handed over.
  pub record Allocated (s : State) (r : Option ℕ × State) : Type 0 where
    pub ready : IsReady cap (r.1)
    pub counted : (b : ℕ) → 0 < b → count_cache b (r.1) + count_out b (r.0) ≡ count_cache b s

  pub empty-count :
      (b : ℕ) (previous : Option Loaded)
      → Holds (λ l. l.rounds ≡ 0) previous
      → Holds (λ l. count_first b l.rounds l.magazine.slots ≡ count_mag b false l.magazine) previous
  unfolding count_mag
  empty-count b none h = tt
  empty-count b (some l) h = rw h (count_first-none b l.magazine.slots)

  pub empty-IsWhole :
      (size : ℕ) (loaded : Option Loaded)
      → Holds (λ l. l.rounds ≡ 0) loaded
      → Holds (IsWhole cap size) loaded
  empty-IsWhole size none h = tt
  empty-IsWhole size (some l) h = inl h

  abbrev HasRound : Option Loaded → Type 0
  HasRound none = ⊥
  HasRound (some l) = 0 < l.rounds

  abbrev AllocTurn : State → Turn → Type 0
  AllocTurn s (Turn.over o t) = Allocated s (o, t)
  AllocTurn s (Turn.again t) = Allocated s (none, t) × HasRound t.cpu.loaded
  AllocTurn s (Turn.slab_layer t) = Allocated s (none, t)

  -- The depot has been searched for a full magazine.
  alloc_full-AllocTurn :
      (e : Env) (s : State) (d : Depot) (o : Option Magazine)
      → IsReady cap s
      → 0 < s.cpu.magsize
      → Holds (λ l. l.rounds ≡ 0) s.cpu.loaded
      → Holds (λ l. l.rounds ≡ 0) s.cpu.previous
      → Serves cap s.depot (d, o)
      → ((b : ℕ) → 0 < b → Keeps b true s.depot (d, o))
      → AllocTurn s (alloc_full e s (d, o))
  unfolding alloc_full
  alloc_full-AllocTurn e s d none r h l p k c = record {
    ready = record {
      loaded_fits = r.loaded_fits;
      previous_fits = r.previous_fits;
      previous_whole = r.previous_whole;
      depot_ready = Serves-IsReadyDepot cap s.cpu.magsize s.depot d none k r.depot_ready;
    };
    counted = λ b positive.
        let kept = c b positive in unfold count_cache count_got in omega (arith, kept);
  }
  alloc_full-AllocTurn e s d (some mp) r h l p k c =
      let found =
        exchange-IsReady cap e false s.cpu.magsize s d mp r h (omega arith)
          (empty-IsWhole s.cpu.magsize s.cpu.loaded l) k in
      let room : length mp.slots ≡ s.cpu.magsize =
        let (size, source) = k.right_size r.depot_ready.in_depot mp refl in
        size ∙ ap cap source ∙ (r.depot_ready.sizes h).0 in
      let striped =
        (Serves-IsReadyDepot cap s.cpu.magsize s.depot d (some mp) k r.depot_ready).striped in
      (
        record {
          ready = found;
          counted = λ b positive.
              let kept : count_depot b d + count_mag b true mp ≡ count_depot b s.depot =
                unfold count_got in c b positive in
              let all : count_first b s.cpu.magsize mp.slots ≡ count_mag b true mp =
                unfold count_mag in count_first-all b s.cpu.magsize mp.slots room in
              let same =
                exchange-count cap b e true s.cpu.magsize s d mp striped
                  (empty-count b s.cpu.previous p) all kept in
              omega (arith, same);
        },
        h,
      )

  -- Both magazines are empty.
  from_depot-AllocTurn :
      (e : Env) (s : State)
      → IsReady cap s
      → Holds (λ l. l.rounds ≡ 0) s.cpu.loaded
      → Holds (λ l. l.rounds ≡ 0) s.cpu.previous
      → AllocTurn s (
          if s.cpu.magsize == 0
          then Turn.slab_layer s
          else alloc_full e s (depot_alloc e true s.depot))
  from_depot-AllocTurn e s r l p = elim (Bool-cases (s.cpu.magsize == 0)) [
    | inl z ↦ rw z (record { ready = r; counted = λ b positive. omega arith })
    | inr z ↦
        let g = depot_alloc e true s.depot in
        rw z (
          alloc_full-AllocTurn e s (g.0) (g.1) r (ground (arith, z)) l p
            (depot_alloc-Serves cap e true s.depot)
            (λ b positive. (depot_alloc-Keeps b e 0 true s.depot positive).0))
  ]

  -- The loaded magazine has no round.
  alloc_reload-AllocTurn :
      (e : Env) (loaded previous : Option Loaded) (magsize allocs frees : ℕ) (d : Depot)
      → IsReady cap (at_cpu loaded previous magsize allocs frees d)
      → Holds (λ l. l.rounds ≡ 0) loaded
      → AllocTurn
          (at_cpu loaded previous magsize allocs frees d)
          (alloc_reload e (at_cpu loaded previous magsize allocs frees d))
  unfolding alloc_reload
  alloc_reload-AllocTurn e loaded none magsize allocs frees d r l =
      from_depot-AllocTurn e (at_cpu loaded none magsize allocs frees d) r l tt
  alloc_reload-AllocTurn e loaded (some p) magsize allocs frees d r l =
      elim (Bool-cases (ltb 0 p.rounds)) [
        | inl has ↦
            rw (has, AllocTurn, alloc_reload)
              (
                record {
                  ready = record {
                    loaded_fits = r.previous_fits;
                    previous_fits = r.loaded_fits;
                    previous_whole = empty-IsWhole magsize loaded l;
                    depot_ready = r.depot_ready;
                  };
                  counted = λ b positive. unfold count_cache in omega arith;
                },
                ground (arith, has),
              )
        | inr has ↦
            rw (has, AllocTurn, alloc_reload)
              (from_depot-AllocTurn e (at_cpu loaded (some p) magsize allocs frees d) r l
                (ground (arith, has)))
      ]

  -- The loaded magazine has a round.
  round-Allocated :
      (e : Env) (l : Loaded) (previous : Option Loaded) (magsize allocs frees : ℕ) (d : Depot)
      → IsReady cap (at_cpu (some l) previous magsize allocs frees d)
      → 0 < l.rounds
      → (o : Option ℕ) × (t : State) × (alloc_turn e
            (at_cpu (some l) previous magsize allocs frees d)
          ≡ Turn.over o t)
        × Allocated (at_cpu (some l) previous magsize allocs frees d) (o, t)
  unfolding alloc_turn
  round-Allocated e l previous magsize allocs frees d r h =
      let last = slot l.magazine.slots (l.rounds - 1) in
      let left : Loaded = record l { rounds = l.rounds - 1 } in
      (
        some last,
        at_cpu (some left) previous magsize (add32 allocs 1) frees d,
        rw (lt→ltb 0 l.rounds h, alloc_turn) refl,
        record {
          ready = record {
            loaded_fits = record {
              room = r.loaded_fits.room;
              kind = r.loaded_fits.kind;
              filled = omega (arith, r.loaded_fits.filled);
              enabled = r.loaded_fits.enabled;
            };
            previous_fits = r.previous_fits;
            previous_whole = r.previous_whole;
            depot_ready = r.depot_ready;
          };
          counted = λ b positive.
              let n : l.rounds ≡ suc (l.rounds - 1) = omega (arith, h) in
              let c =
                count_first-suc b (l.rounds - 1) l.magazine.slots
                  (omega (arith, h, r.loaded_fits.room, r.loaded_fits.filled)) in
              let c' = rw (← n) at c in unfold count_cache count_loaded in omega (arith, c');
        },
      )

  alloc_turn-AllocTurn :
      (e : Env) (loaded previous : Option Loaded) (magsize allocs frees : ℕ) (d : Depot)
      → IsReady cap (at_cpu loaded previous magsize allocs frees d)
      → AllocTurn
          (at_cpu loaded previous magsize allocs frees d)
          (alloc_turn e (at_cpu loaded previous magsize allocs frees d))
  alloc_turn-AllocTurn e none previous magsize allocs frees d r =
      unfold alloc_turn in alloc_reload-AllocTurn e none previous magsize allocs frees d r tt
  alloc_turn-AllocTurn e (some l) previous magsize allocs frees d r =
      elim (Bool-cases (ltb 0 l.rounds)) [
        | inl has ↦
            let (o, t, q, a) =
              round-Allocated e l previous magsize allocs frees d r (ground (arith, has)) in
            rw q a
        | inr has ↦
            unfold alloc_turn in
            rw (has, AllocTurn, alloc_turn)
              (alloc_reload-AllocTurn e (some l) previous magsize allocs frees d r
                (ground (arith, has)))
      ]

  -- The turn after a magazine with a round is loaded is the last.
  last-turn :
      (n : ℕ) (e : Env) (s : State) (loaded previous : Option Loaded) (magsize allocs frees : ℕ)
      (d : Depot)
      → Allocated s (none, at_cpu loaded previous magsize allocs frees d)
      → HasRound loaded
      → (r : Option ℕ × State) × (alloc_loop
            (suc n)
            e
            (at_cpu loaded previous magsize allocs frees d)
          ≡ some r)
        × Allocated s r
  unfolding alloc_loop
  last-turn n e s none previous magsize allocs frees d a h = elim h [ ]
  last-turn n e s (some l) previous magsize allocs frees d a h =
      let (o, t, q, b) = round-Allocated e l previous magsize allocs frees d a.ready h in
      (
        (o, t),
        rw (alloc_loop, q) refl,
        record {
          ready = b.ready;
          counted = λ c positive. omega (arith, a.counted c positive, b.counted c positive);
        },
      )

  after-turn :
      (n : ℕ) (e : Env) (s : State) (turn : Turn)
      → alloc_turn e s ≡ turn
      → AllocTurn s turn
      → (r : Option ℕ × State) × (alloc_loop (suc (suc n)) e s ≡ some r) × Allocated s r
  unfolding alloc_loop
  after-turn n e s (Turn.over o t) q a = ((o, t), rw (alloc_loop, q) refl, a)
  after-turn n e s (Turn.slab_layer t) q a = ((none, t), rw (alloc_loop, q) refl, a)
  after-turn n e s (Turn.again t) q a =
      let (r, f, b) =
        last-turn n e s t.cpu.loaded t.cpu.previous t.cpu.magsize t.cpu.allocs t.cpu.frees t.depot
          (a.0) (a.1) in
      (r, rw (alloc_loop, q) f, b)

  -- Two turns are enough.
  pub alloc_loop-Allocated :
      (n : ℕ) (e : Env) (s : State)
      → IsReady cap s
      → (r : Option ℕ × State) × (alloc_loop (suc (suc n)) e s ≡ some r) × Allocated s r
  alloc_loop-Allocated n e s r = after-turn n e s (alloc_turn e s) refl (
      alloc_turn-AllocTurn e s.cpu.loaded s.cpu.previous s.cpu.magsize s.cpu.allocs s.cpu.frees
        s.depot r)

  -- The cache is ready again, and of its buffers and the one that the slab layer has given every one
  -- is where it was, handed over, or given back to the slab layer.
  pub record Supplied (s : State) (given : Option ℕ) (r : Option ℕ × State) : Type 0 where
    pub ready : IsReady cap (r.1)
    pub counted :
        (b : ℕ)
        → 0 < b
        → count_cache b (r.1) + count_out b (r.0) ≡ count_cache b s + count_out b given

  pub slab_free-IsReady :
      (t : State) (frees : List ℕ)
      → IsReady cap t
      → IsReady cap (record t { depot = record t.depot { slab_frees = frees } })
  slab_free-IsReady t frees r = record {
    loaded_fits = r.loaded_fits;
    previous_fits = r.previous_fits;
    previous_whole = r.previous_whole;
    depot_ready =
        Serves-IsReadyDepot cap t.cpu.magsize t.depot (record t.depot { slab_frees = frees }) none
          (counted-Serves cap t.depot (record t.depot { slab_frees = frees }) refl refl refl refl)
          r.depot_ready;
  }

  supply :
      (n : ℕ) (e : Env) (slab_answer : Option ℕ) (constructed : Bool) (s : State) (m : Option ℕ)
      (t : State)
      → alloc_loop n e s ≡ some (m, t)
      → Allocated s (m, t)
      → (r : Option ℕ × State) × (cache_alloc n e slab_answer constructed s ≡ some r)
        × Supplied s (asked m slab_answer) r
  unfolding cache_alloc
  supply n e slab_answer constructed s (some buf) t q a = (
    (some buf, t),
    rw (cache_alloc, q) refl,
    record { ready = a.ready; counted = λ b positive. omega (arith, a.counted b positive) },
  )
  supply n e none constructed s none t q a = (
    (none, t),
    rw (cache_alloc, q) refl,
    record { ready = a.ready; counted = λ b positive. omega (arith, a.counted b positive) },
  )
  supply n e (some buf) true s none t q a = (
    (some buf, t),
    rw (cache_alloc, q) refl,
    record { ready = a.ready; counted = λ b positive. omega (arith, a.counted b positive) },
  )
  supply n e (some buf) false s none t q a = (
    (none, record t { depot = record t.depot { slab_frees = buf ∷ t.depot.slab_frees } }),
    rw (cache_alloc, q) refl,
    record {
      ready = slab_free-IsReady t (buf ∷ t.depot.slab_frees) a.ready;
      counted = λ b positive.
          let c = a.counted b positive in unfold count_cache count_depot count in omega (arith, c);
    },
  )

  -- On a ready cache two turns of the loop of `_umem_cache_alloc` are enough, the cache is ready
  -- again, and every buffer, with the one that the slab layer gives where it is asked, is where it
  -- was, handed over, or given back to the slab layer.
  pub cache_alloc-Supplied :
      (n : ℕ) (e : Env) (slab_answer : Option ℕ) (constructed : Bool) (s : State)
      → IsReady cap s
      → (m : Option ℕ × State) × (r : Option ℕ × State) × (alloc_loop (suc (suc n)) e s ≡ some m)
        × (cache_alloc (suc (suc n)) e slab_answer constructed s ≡ some r)
        × Supplied s (asked (m.0) slab_answer) r
  cache_alloc-Supplied n e slab_answer constructed s r =
      let (m, q, a) = alloc_loop-Allocated n e s r in
      let (t, f, c) = supply (suc (suc n)) e slab_answer constructed s (m.0) (m.1) q a in
      (m, t, q, f, c)
