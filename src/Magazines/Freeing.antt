-- ===== src/Magazines/Freeing.antt =====
-- umem.c: the loop of `_umem_cache_free`, and where each buffer is when it is over.
use libumem.Base.{
  ℕ, suc, ◌+◌, ◌<◌, ◌≡◌, refl, sym, ◌∙◌, Bool, true, false, Option, none, some, ◌∷◌, length, set,
  ltb, ◌==◌, if◌then◌else◌, ◌⊎◌, inl, inr, arith, Bool-cases, lt→ltb, eq→==, length-set,
}
use libumem.Word.{add64}
use mathlib.Core.Path.{subst}
use libumem.Depot.{Magazine, Depot, Env, depot_alloc, depot_free}
use libumem.Depot.Count.{count, count_depot, count_mag, count_got, Keeps}
use libumem.Depot.Giving.{depot_free-count}
use libumem.Depot.Taking.{depot_alloc-Keeps}
use libumem.Depot.Found.{depot_alloc-depot_free}
use libumem.Depot.Sized.{Serves, depot_alloc-Serves, depot_free-Serves, counted-Serves}
use libumem.Magazines.{
  Loaded, State, add32, Turn, exchange, add_magazine, free_empty, free_reload, free_turn, free_loop,
  cache_free,
}
use libumem.Magazines.Counted.{
  count_first, count_loaded, count_cache, count_first-all, count_first-none, count_first-set,
}
use libumem.Magazines.Ready.{
  Holds, Fits, IsWhole, IsReady, Serves-IsReadyDepot, exchange-IsReady, exchange-count,
}
use libumem.Magazines.Allocating.{at_cpu, slab_free-IsReady}

module _ (cap : ℕ → ℕ) where
  -- The cache is ready again, and has `n` buffers `b` more.
  pub record Kept (s t : State) (n : ℕ → ℕ) : Type 0 where
    pub ready : IsReady cap t
    pub counted : (b : ℕ) → 0 < b → count_cache b t ≡ count_cache b s + n b

  abbrev one_of : ℕ → ℕ → ℕ
  one_of buf b = if buf == b then 1 else 0

  abbrev HasRoom : ℕ → Option Loaded → Type 0
  HasRoom size none = ⊥
  HasRoom size (some l) = l.rounds < size

  -- What a turn comes to; `Q` holds of the state of the next turn.
  abbrev FreeTurn : (State → Type 0) → ℕ → State → Turn → Type 0
  FreeTurn Q buf s (Turn.over o t) = Kept s t (one_of buf)
  FreeTurn Q buf s (Turn.again t) = Kept s t (λ b. 0) × Q t
  FreeTurn Q buf s (Turn.slab_layer t) = Kept s t (λ b. 0)

  abbrev Roomy : State → Type 0
  Roomy t = HasRoom t.cpu.magsize t.cpu.loaded

  full-IsWhole :
      (size : ℕ) (loaded : Option Loaded)
      → Holds (Fits cap size) loaded
      → Holds (λ l. ltb l.rounds size ≡ false) loaded
      → Holds (IsWhole cap size) loaded
  full-IsWhole size none f h = tt
  full-IsWhole size (some l) f h = inr (ground (arith, f.filled, h))

  full-count :
      (b size : ℕ) (previous : Option Loaded)
      → Holds (Fits cap size) previous
      → Holds (IsWhole cap size) previous
      → Holds (λ l. (l.rounds == 0) ≡ false) previous
      → Holds (λ l. count_first b l.rounds l.magazine.slots ≡ count_mag b true l.magazine) previous
  unfolding count_mag
  full-count b size none f w h = tt
  full-count b size (some l) f (inl z) h = absurd (ground (arith, z, h))
  full-count b size (some l) f (inr z) h =
      count_first-all b l.rounds l.magazine.slots (f.room ∙ sym z)

  -- The depot had an empty magazine.
  exchange-Kept :
      (e : Env) (s : State) (d : Depot) (mp : Magazine)
      → IsReady cap s
      → 0 < s.cpu.magsize
      → Holds (λ l. ltb l.rounds s.cpu.magsize ≡ false) s.cpu.loaded
      → Holds (λ l. (l.rounds == 0) ≡ false) s.cpu.previous
      → Serves cap s.depot (d, some mp)
      → ((b : ℕ) → 0 < b → Keeps b false s.depot (d, some mp))
      → Kept s (exchange e true 0 s d mp) (λ b. 0)
  exchange-Kept e s d mp r h l p k c =
      let striped =
        (Serves-IsReadyDepot cap s.cpu.magsize s.depot d (some mp) k r.depot_ready).striped in
      record {
        ready =
            exchange-IsReady cap e true 0 s d mp r h (omega arith)
              (full-IsWhole s.cpu.magsize s.cpu.loaded r.loaded_fits l) k;
        counted = λ b positive.
            let kept : count_depot b d + count_mag b false mp ≡ count_depot b s.depot =
              unfold count_got in c b positive in
            let all : count_first b 0 mp.slots ≡ count_mag b false mp =
              unfold count_mag in count_first-none b mp.slots in
            let same =
              exchange-count cap b e false 0 s d mp striped
                (full-count b s.cpu.magsize s.cpu.previous r.previous_fits r.previous_whole p) all
                kept in
            omega (arith, same);
      }

  -- The depot still has an empty magazine, or has got one.
  abbrev Offers : Env → State → Type 0
  Offers e t = (mp : Magazine) × ((depot_alloc e false t.depot).1 ≡ some mp)

  -- A new magazine is of the kind that the cache uses now.
  abbrev pub IsNew : Depot → Option Magazine → Type 0
  IsNew d none = Unit
  IsNew d (some mp) = (length mp.slots ≡ cap mp.source) × (mp.source ≡ d.source)

  unchanged-Kept :
      (s : State) (d : Depot)
      → IsReady cap s
      → Serves cap s.depot (d, none)
      → ((b : ℕ) → 0 < b → count_depot b d ≡ count_depot b s.depot)
      → Kept s (record s { depot = d }) (λ b. 0)
  unchanged-Kept s d r k c = record {
    ready = record {
      loaded_fits = r.loaded_fits;
      previous_fits = r.previous_fits;
      previous_whole = r.previous_whole;
      depot_ready = Serves-IsReadyDepot cap s.cpu.magsize s.depot d none k r.depot_ready;
    };
    counted = λ b positive. let same = c b positive in unfold count_cache in omega (arith, same);
  }

  then-Serves :
      (a b : Depot) (x : Depot)
      → Serves cap a (b, none)
      → Serves cap b (x, none)
      → Serves cap a (x, none)
  then-Serves a b x k m = record {
    same_source = m.same_source ∙ k.same_source;
    same_magsize = m.same_magsize ∙ k.same_magsize;
    same_full = m.same_full ∙ k.same_full;
    same_empty = m.same_empty ∙ k.same_empty;
    still_sized = λ s. m.still_sized (k.still_sized s);
    right_size = λ s mp q. cc;
  }

  -- The search has found nothing, and a new magazine goes to the depot, or there is none.
  add_magazine-FreeTurn :
      (e : Env) (buf : ℕ) (s : State) (d : Depot) (shell : Option Magazine)
      → IsReady cap s
      → 0 < s.cpu.magsize
      → IsNew s.depot shell
      → Serves cap s.depot (d, none)
      → ((b : ℕ) → 0 < b → count_depot b d ≡ count_depot b s.depot)
      → FreeTurn (Offers e) buf s (add_magazine e s d shell)
  unfolding add_magazine
  add_magazine-FreeTurn e buf s d none r m w k c = unchanged-Kept s d r k c
  add_magazine-FreeTurn e buf s d (some emp) r m w k c =
      let more : Depot = record d { mag_total = add64 d.mag_total 1 } in
      let now = depot_free e false more emp in
      let mid = counted-Serves cap d more refl refl refl refl in
      let grown = then-Serves s.depot d more k mid in
      let pushed = depot_free-Serves cap e false more emp (w.0) in
      let all = then-Serves s.depot more now grown pushed in
      let striped =
        (Serves-IsReadyDepot cap s.cpu.magsize s.depot more none grown r.depot_ready).striped in
      rw (eq→== s.cpu.magsize d.magsize (sym (r.depot_ready.sizes m).1 ∙ sym k.same_magsize)) (
        unchanged-Kept s now r all (λ b positive.
            let pushed_count = depot_free-count b e false more emp striped.empty_striped in
            let none : count_mag b false emp ≡ 0 = unfold count_mag in refl in
            let same : count_depot b more ≡ count_depot b d = unfold count_depot in refl in
            omega (arith, c b positive, pushed_count, none, same)),
        (
          emp,
          depot_alloc-depot_free e more emp striped.empty_striped (w.1 ∙ sym k.same_source)
              (length more.empty.stripes) refl,
        ),
      )

  module _ (Q : State → Type 0) (roomy : (t : State) → Roomy t → Q t) where
    free_empty-FreeTurn :
        (e : Env) (buf : ℕ) (s : State) (shell : Option Magazine) (d : Depot) (o : Option Magazine)
        → IsReady cap s
        → 0 < s.cpu.magsize
        → Holds (λ l. ltb l.rounds s.cpu.magsize ≡ false) s.cpu.loaded
        → Holds (λ l. (l.rounds == 0) ≡ false) s.cpu.previous
        → Serves cap s.depot (d, o)
        → ((b : ℕ) → 0 < b → Keeps b false s.depot (d, o))
        → (o ≡ none → FreeTurn Q buf s (add_magazine e s d shell))
        → FreeTurn Q buf s (free_empty e s shell (d, o))
    unfolding free_empty
    free_empty-FreeTurn e buf s shell d none r h l p k c missing = missing refl
    free_empty-FreeTurn e buf s shell d (some emp) r h l p k c missing =
        (exchange-Kept e s d emp r h l p k c, roomy _ (unfold exchange in h))

    -- What the failed search leaves to do.
    abbrev Missing : Env → ℕ → State → Option Magazine → Type 0
    Missing e buf s shell =
        (d : Depot)
        → 0 < s.cpu.magsize
        → Serves cap s.depot (d, none)
        → ((b : ℕ) → 0 < b → Keeps b false s.depot (d, none))
        → (depot_alloc e false s.depot).1 ≡ none
        → FreeTurn Q buf s (add_magazine e s d shell)

    -- Neither magazine has room.
    from_depot-FreeTurn :
        (e : Env) (buf : ℕ) (s : State) (shell : Option Magazine)
        → IsReady cap s
        → Holds (λ l. ltb l.rounds s.cpu.magsize ≡ false) s.cpu.loaded
        → Holds (λ l. (l.rounds == 0) ≡ false) s.cpu.previous
        → Missing e buf s shell
        → FreeTurn Q buf s (
            if s.cpu.magsize == 0
            then Turn.slab_layer s
            else free_empty e s shell (depot_alloc e false s.depot))
    from_depot-FreeTurn e buf s shell r l p missing = elim (Bool-cases (s.cpu.magsize == 0)) [
      | inl z ↦ rw z (record { ready = r; counted = λ b positive. omega arith })
      | inr z ↦
          let g = depot_alloc e false s.depot in
          let serves = depot_alloc-Serves cap e false s.depot in
          let keeps =
            λ (b : ℕ) (positive : 0 < b). (depot_alloc-Keeps b e 0 false s.depot positive).0 in
          rw z (
            free_empty-FreeTurn e buf s shell (g.0) (g.1) r (ground (arith, z)) l p serves keeps
              (λ none_left.
                missing (g.0) (ground (arith, z))
                  (subst (λ o. Serves cap s.depot (g.0, o)) none_left serves)
                  (subst (λ o. (b : ℕ) → 0 < b → Keeps b false s.depot (g.0, o)) none_left keeps)
                  none_left))
    ]

    -- The loaded magazine has no room.
    free_reload-FreeTurn :
        (e : Env) (buf : ℕ) (shell : Option Magazine) (loaded previous : Option Loaded)
        (magsize allocs frees : ℕ) (d : Depot)
        → IsReady cap (at_cpu loaded previous magsize allocs frees d)
        → Holds (λ l. ltb l.rounds magsize ≡ false) loaded
        → Missing e buf (at_cpu loaded previous magsize allocs frees d) shell
        → FreeTurn Q buf
            (at_cpu loaded previous magsize allocs frees d)
            (free_reload e (at_cpu loaded previous magsize allocs frees d) shell)
    unfolding free_reload
    free_reload-FreeTurn e buf shell loaded none magsize allocs frees d r l missing =
        from_depot-FreeTurn e buf (at_cpu loaded none magsize allocs frees d) shell r l tt missing
    free_reload-FreeTurn e buf shell loaded (some p) magsize allocs frees d r l missing =
        elim (Bool-cases (p.rounds == 0)) [
          | inl has ↦
              rw (has, FreeTurn, free_reload)
                (
                  record {
                    ready = record {
                      loaded_fits = r.previous_fits;
                      previous_fits = r.loaded_fits;
                      previous_whole = full-IsWhole magsize loaded r.loaded_fits l;
                      depot_ready = r.depot_ready;
                    };
                    counted = λ b positive. unfold count_cache in omega arith;
                  },
                  roomy _ (ground (arith, has, r.previous_fits.enabled)),
                )
          | inr has ↦
              rw (has, FreeTurn, free_reload)
                (from_depot-FreeTurn e buf (at_cpu loaded (some p) magsize allocs frees d) shell r l
                  has missing)
        ]

  -- The loaded magazine has room.
  room-Kept :
      (e : Env) (buf : ℕ) (shell : Option Magazine) (l : Loaded) (previous : Option Loaded)
      (magsize allocs frees : ℕ) (d : Depot)
      → IsReady cap (at_cpu (some l) previous magsize allocs frees d)
      → l.rounds < magsize
      → (t : State) × (free_turn e (at_cpu (some l) previous magsize allocs frees d) buf shell
          ≡ Turn.over none t)
        × Kept (at_cpu (some l) previous magsize allocs frees d) t (one_of buf)
  unfolding free_turn
  room-Kept e buf shell l previous magsize allocs frees d r h =
      let more : Loaded = record {
        magazine = record l.magazine { slots = set l.magazine.slots l.rounds buf };
        rounds = l.rounds + 1;
      } in
      (
        at_cpu (some more) previous magsize allocs (add32 frees 1) d,
        rw (lt→ltb l.rounds magsize h, free_turn) refl,
        record {
          ready = record {
            loaded_fits = record {
              room = length-set l.magazine.slots l.rounds buf ∙ r.loaded_fits.room;
              kind = r.loaded_fits.kind;
              filled = omega (arith, h);
              enabled = r.loaded_fits.enabled;
            };
            previous_fits = r.previous_fits;
            previous_whole = r.previous_whole;
            depot_ready = r.depot_ready;
          };
          counted = λ b positive.
              let n : suc l.rounds ≡ l.rounds + 1 = omega arith in
              let c =
                count_first-set b l.rounds buf l.magazine.slots
                  (omega (arith, h, r.loaded_fits.room)) in
              let c' = rw n at c in unfold count_cache count_loaded in omega (arith, c');
        },
      )

  free_turn-FreeTurn :
      (Q : State → Type 0) (roomy : (t : State) → Roomy t → Q t) (e : Env) (buf : ℕ)
      (shell : Option Magazine) (loaded previous : Option Loaded) (magsize allocs frees : ℕ)
      (d : Depot)
      → IsReady cap (at_cpu loaded previous magsize allocs frees d)
      → Missing Q roomy e buf (at_cpu loaded previous magsize allocs frees d) shell
      → FreeTurn Q buf
          (at_cpu loaded previous magsize allocs frees d)
          (free_turn e (at_cpu loaded previous magsize allocs frees d) buf shell)
  free_turn-FreeTurn Q roomy e buf shell none previous magsize allocs frees d r missing =
      unfold free_turn in
      free_reload-FreeTurn Q roomy e buf shell none previous magsize allocs frees d r tt missing
  free_turn-FreeTurn Q roomy e buf shell (some l) previous magsize allocs frees d r missing =
      elim (Bool-cases (ltb l.rounds magsize)) [
        | inl has ↦
            let (t, q, k) =
              room-Kept e buf shell l previous magsize allocs frees d r (ground (arith, has)) in
            rw q k
        | inr has ↦
            unfold free_turn in
            rw (has, FreeTurn, free_turn)
              (free_reload-FreeTurn Q roomy e buf shell (some l) previous magsize allocs frees d r
                has missing)
      ]

  -- What the loop has done with the buffer: it is in a magazine, or left to the slab layer.
  abbrev pub stored : Bool → ℕ → ℕ → ℕ
  stored true buf b = 0
  stored false buf b = one_of buf b

  Kept-trans : (s t u : State) (n : ℕ → ℕ) → Kept s t (λ b. 0) → Kept t u n → Kept s u n
  Kept-trans s t u n k m = record {
    ready = m.ready;
    counted = λ b positive. omega (arith, k.counted b positive, m.counted b positive);
  }

  abbrev pub Ends : ℕ → Env → ℕ → Option Magazine → State → State → Type 0
  Ends n e buf shell s t =
      (to_slab : Bool) × (u : State) × (free_loop n e buf shell t ≡ some (to_slab, u))
      × Kept s u (stored to_slab buf)

  module _ (e : Env) (buf : ℕ) (shell : Option Magazine) where
    -- A turn whose successors end within `n` turns.
    turn-Ends :
        (Q : State → Type 0) (n : ℕ) (s : State) (turn : Turn)
        → ((t : State) → Kept s t (λ b. 0) → Q t → Ends n e buf shell s t)
        → free_turn e s buf shell ≡ turn
        → FreeTurn Q buf s turn
        → Ends (suc n) e buf shell s s
    unfolding free_loop
    turn-Ends Q n s (Turn.over o t) more q k = (false, t, rw (free_loop, q) refl, k)
    turn-Ends Q n s (Turn.slab_layer t) more q k = (true, t, rw (free_loop, q) refl, k)
    turn-Ends Q n s (Turn.again t) more q k =
        let (to_slab, u, f, c) = more t (k.0) (k.1) in (to_slab, u, rw (free_loop, q) f, c)

    roomy-Ends :
        (n : ℕ) (loaded previous : Option Loaded) (magsize allocs frees : ℕ) (d : Depot)
        → IsReady cap (at_cpu loaded previous magsize allocs frees d)
        → HasRoom magsize loaded
        → Ends
            (suc n)
            e
            buf
            shell
            (at_cpu loaded previous magsize allocs frees d)
            (at_cpu loaded previous magsize allocs frees d)
    unfolding free_loop
    roomy-Ends n none previous magsize allocs frees d r h = elim h [ ]
    roomy-Ends n (some l) previous magsize allocs frees d r h =
        let (t, q, k) = room-Kept e buf shell l previous magsize allocs frees d r h in
        (false, t, rw (free_loop, q) refl, k)

    Ends-trans :
        (n : ℕ) (s t : State) → Kept s t (λ b. 0) → Ends n e buf shell t t → Ends n e buf shell s t
    Ends-trans n s t k (to_slab, u, f, c) =
        (to_slab, u, f, Kept-trans s t u (stored to_slab buf) k c)

    after-Roomy : (n : ℕ) (s t : State) → Kept s t (λ b. 0) → Roomy t → Ends (suc n) e buf shell s t
    after-Roomy n s t k h = Ends-trans (suc n) s t k (
        roomy-Ends n t.cpu.loaded t.cpu.previous t.cpu.magsize t.cpu.allocs t.cpu.frees t.depot
          k.ready h)

    Offers-Ends :
        (n : ℕ) (s : State) → IsReady cap s → Offers e s → Ends (suc (suc n)) e buf shell s s
    Offers-Ends n s r (mp, found) =
        turn-Ends Roomy (suc n) s (free_turn e s buf shell) (after-Roomy n s) refl (
          free_turn-FreeTurn Roomy (λ t h. h) e buf shell s.cpu.loaded s.cpu.previous s.cpu.magsize
            s.cpu.allocs s.cpu.frees s.depot r
            (λ d h k c none_left. absurd (cc (found, none_left))))

    abbrev Next : State → Type 0
    Next t = Roomy t ⊎ Offers e t

    Offers-FreeTurn :
        (s : State) (turn : Turn) → FreeTurn (Offers e) buf s turn → FreeTurn Next buf s turn
    Offers-FreeTurn s (Turn.over o t) k = k
    Offers-FreeTurn s (Turn.slab_layer t) k = k
    Offers-FreeTurn s (Turn.again t) k = (k.0, inr (k.1))

    after-Next :
        (n : ℕ) (s t : State) → Kept s t (λ b. 0) → Next t → Ends (suc (suc n)) e buf shell s t
    after-Next n s t k (inl h) = after-Roomy (suc n) s t k h
    after-Next n s t k (inr o) = Ends-trans (suc (suc n)) s t k (Offers-Ends n t k.ready o)

    -- Three turns are enough.
    pub free_loop-Ends :
        (n : ℕ) (s : State)
        → IsReady cap s
        → IsNew s.depot shell
        → Ends (suc (suc (suc n))) e buf shell s s
    free_loop-Ends n s r w =
        turn-Ends Next (suc (suc n)) s (free_turn e s buf shell) (after-Next n s) refl (
          free_turn-FreeTurn Next (λ t h. inl h) e buf shell s.cpu.loaded s.cpu.previous
            s.cpu.magsize s.cpu.allocs s.cpu.frees s.depot r
            (λ d positive_size k c none_left. Offers-FreeTurn s (add_magazine e s d shell) (
              add_magazine-FreeTurn e buf s d shell r positive_size w k (λ b positive.
                let kept = c b positive in unfold count_got in omega (arith, kept)))))

  give_back :
      (fuel : ℕ) (e : Env) (shell : Option Magazine) (buf : ℕ) (s : State) (to_slab : Bool)
      (t : State)
      → (buf == 0) ≡ false
      → free_loop fuel e buf shell s ≡ some (to_slab, t)
      → Kept s t (stored to_slab buf)
      → (u : State) × (cache_free fuel e shell buf s ≡ some u) × Kept s u (one_of buf)
  unfolding cache_free
  give_back fuel e shell buf s false t z q k = (t, rw (cache_free, z, q) refl, k)
  give_back fuel e shell buf s true t z q k = (
    record t { depot = record t.depot { slab_frees = buf ∷ t.depot.slab_frees } },
    rw (cache_free, z, q) refl,
    record {
      ready = slab_free-IsReady cap t (buf ∷ t.depot.slab_frees) k.ready;
      counted = λ b positive.
          let c = k.counted b positive in unfold count_cache count_depot count in omega (arith, c);
    },
  )

  -- On a ready cache three turns of the loop of `_umem_cache_free` are enough, if a new magazine
  -- is of the cache's kind; the cache is ready again, and holds the buffer once more than before,
  -- in a magazine or given to the slab layer, and every other buffer as before. NULL changes
  -- nothing.
  pub cache_free-Kept :
      (n : ℕ) (e : Env) (shell : Option Magazine) (buf : ℕ) (s : State)
      → IsReady cap s
      → IsNew s.depot shell
      → (t : State) × (cache_free (suc (suc (suc n))) e shell buf s ≡ some t)
        × Kept s t (one_of buf)
  unfolding cache_free
  cache_free-Kept n e shell buf s r w = elim (Bool-cases (buf == 0)) [
    | inl z ↦ (
      s,
      rw (z, cache_free) refl,
      record { ready = r; counted = λ b positive. ground (arith, z, positive) },
    )
    | inr z ↦
        let (to_slab, t, q, k) = free_loop-Ends e buf shell n s r w in
        give_back (suc (suc (suc n))) e shell buf s to_slab t z q k
  ]
