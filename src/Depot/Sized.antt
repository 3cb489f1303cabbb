-- ===== src/Depot/Sized.antt =====
-- umem.c: the magazines that the depot holds and hands out have the room of the cache they are from.
use Prim.Native.Nat.{bit_and}
use libumem.Base.{
  ℕ, zero, suc, ◌-◌, ◌≡◌, refl, sym, ap, ◌∙◌, Bool, true, false, none, some, List, [], ◌∷◌, length,
  set, All, ◌==◌, arith, Bool-cases, Option-cases, inl, inr,
}
use mathlib.Core.Option.{some-injective}
use mathlib.Core.Path.{subst}
use libumem.Depot.{
  Magazine, Maglist, Lists, Depot, Env, Place, stripe, everywhere, nth, list_at, put_list, lists_of,
  with_lists, Got, popped, pushed, take_first, depot_pop, depot_pop_trylock, depot_push,
  destroy_stale, magazine_valid, fresh, tally, or_else, count_local, count_remote, count_cross,
  depot_alloc, depot_free,
}
use libumem.Depot.Count.{put_list-length}
use libumem.Depot.Closed.{IsClosed, depot_alloc-closed}

module _ (cap : ℕ → ℕ) where
  abbrev pub Sized : List Magazine → Type 0
  Sized ms = All (λ m. length m.slots ≡ cap m.source) ms

  abbrev pub SizedStripes : List Maglist → Type 0
  SizedStripes ls = All (λ m. Sized m.list) ls

  -- Every magazine has as many rounds as the cache it is from gives it.
  pub record IsSized (l : Lists) : Type 0 where
    pub in_stripes : SizedStripes l.stripes
    pub in_global : Sized l.global.list

  pub record IsSizedDepot (d : Depot) : Type 0 where
    pub in_full : IsSized d.full
    pub in_empty : IsSized d.empty

  -- What a step that may find a magazine leaves.
  pub record Serves (d : Depot) (g : Got) : Type 0 where
    pub same_source : g.0.source ≡ d.source
    pub same_magsize : g.0.magsize ≡ d.magsize
    pub same_full : length g.0.full.stripes ≡ length d.full.stripes
    pub same_empty : length g.0.empty.stripes ≡ length d.empty.stripes
    pub still_sized : IsSizedDepot d → IsSizedDepot (g.0)
    pub right_size :
        IsSizedDepot d
        → (mp : Magazine) → g.1 ≡ some mp
        → (length mp.slots ≡ cap mp.source) × (mp.source ≡ d.source)

  nth-Sized : (ls : List Maglist) (i : ℕ) → SizedStripes ls → Sized (nth ls i).list
  nth-Sized [] i s = tt
  nth-Sized (l ∷ ls) zero s = s.0
  nth-Sized (l ∷ ls) (suc i) s = nth-Sized ls i (s.1)

  set-Sized :
      (ls : List Maglist) (i : ℕ) (m : Maglist)
      → SizedStripes ls
      → Sized m.list
      → SizedStripes (set ls i m)
  set-Sized [] i m s h = tt
  set-Sized (l ∷ ls) zero m s h = (h, s.1)
  set-Sized (l ∷ ls) (suc i) m s h = (s.0, set-Sized ls i m (s.1) h)

  pub list_at-Sized : (l : Lists) (p : Place) → IsSized l → Sized (list_at l p).list
  unfolding list_at
  list_at-Sized l (stripe i) s = nth-Sized l.stripes i s.in_stripes
  list_at-Sized l everywhere s = s.in_global

  pub put_list-IsSized :
      (l : Lists) (p : Place) (m : Maglist) → IsSized l → Sized m.list → IsSized (put_list l p m)
  unfolding put_list
  put_list-IsSized l (stripe i) m s h = record {
    in_stripes = set-Sized l.stripes i m s.in_stripes h;
    in_global = s.in_global;
  }
  put_list-IsSized l everywhere m s h = record { in_stripes = s.in_stripes; in_global = h }

  lists_of-IsSized : (d : Depot) (is_full : Bool) → IsSizedDepot d → IsSized (lists_of d is_full)
  lists_of-IsSized d true s = s.in_full
  lists_of-IsSized d false s = s.in_empty

  with_lists-IsSizedDepot :
      (d : Depot) (is_full : Bool) (l : Lists)
      → IsSizedDepot d
      → IsSized l
      → IsSizedDepot (with_lists d is_full l)
  with_lists-IsSizedDepot d true l s h = record { in_full = h; in_empty = s.in_empty }
  with_lists-IsSizedDepot d false l s h = record { in_full = s.in_full; in_empty = h }

  -- A pop that finds a magazine, and keeps all else.
  record Pops (d : Depot) (g : Got) : Type 0 where
    pub same_source : g.0.source ≡ d.source
    pub same_magsize : g.0.magsize ≡ d.magsize
    pub same_full : length g.0.full.stripes ≡ length d.full.stripes
    pub same_empty : length g.0.empty.stripes ≡ length d.empty.stripes
    pub still_sized : IsSizedDepot d → IsSizedDepot (g.0)
    pub fitting : IsSizedDepot d → (mp : Magazine) → g.1 ≡ some mp → length mp.slots ≡ cap mp.source

  nothing-Pops : (d : Depot) → Pops d (d, none)
  nothing-Pops d = record {
    same_source = refl;
    same_magsize = refl;
    same_full = refl;
    same_empty = refl;
    still_sized = λ s. s;
    fitting = λ s mp e. cc;
  }

  first-Sized :
      (d : Depot) (is_full : Bool) (p : Place) (list : List Magazine)
      → (list_at (lists_of d is_full) p).list ≡ list
      → IsSizedDepot d
      → Sized list
  first-Sized d is_full p list e s =
      subst Sized e (list_at-Sized (lists_of d is_full) p (lists_of-IsSized d is_full s))

  popped-Sized : (m : Maglist) (rest : List Magazine) → Sized rest → Sized (popped m rest).list
  unfolding popped
  popped-Sized m rest s = s

  take_first-Pops :
      (d : Depot) (is_full : Bool) (p : Place) (list : List Magazine)
      → (list_at (lists_of d is_full) p).list ≡ list
      → Pops d (take_first d is_full p list)
  unfolding take_first
  take_first-Pops d is_full p [] e = nothing-Pops d
  take_first-Pops d true p (mp ∷ rest) e = record {
    same_source = refl;
    same_magsize = refl;
    same_full = put_list-length d.full p (popped (list_at d.full p) rest);
    same_empty = refl;
    still_sized = λ s.
        let all = first-Sized d true p (mp ∷ rest) e s in
        with_lists-IsSizedDepot d true (put_list d.full p (popped (list_at d.full p) rest)) s (
          put_list-IsSized d.full p (popped (list_at d.full p) rest) s.in_full
            (popped-Sized (list_at d.full p) rest (all.1)));
    fitting = λ s found q.
        subst (λ m. length m.slots ≡ cap m.source) (some-injective mp found q)
          ((first-Sized d true p (mp ∷ rest) e s).0);
  }
  take_first-Pops d false p (mp ∷ rest) e = record {
    same_source = refl;
    same_magsize = refl;
    same_full = refl;
    same_empty = put_list-length d.empty p (popped (list_at d.empty p) rest);
    still_sized = λ s.
        let all = first-Sized d false p (mp ∷ rest) e s in
        with_lists-IsSizedDepot d false (put_list d.empty p (popped (list_at d.empty p) rest)) s (
          put_list-IsSized d.empty p (popped (list_at d.empty p) rest) s.in_empty
            (popped-Sized (list_at d.empty p) rest (all.1)));
    fitting = λ s found q.
        subst (λ m. length m.slots ≡ cap m.source) (some-injective mp found q)
          ((first-Sized d false p (mp ∷ rest) e s).0);
  }

  waited-IsSizedDepot :
      (d : Depot) (n : ℕ) → IsSizedDepot d → IsSizedDepot (record d { contention = n })
  waited-IsSizedDepot d n s = record { in_full = s.in_full; in_empty = s.in_empty }

  waited-Pops : (d : Depot) (n : ℕ) (g : Got) → Pops (record d { contention = n }) g → Pops d g
  waited-Pops d n g k = record {
    same_source = k.same_source;
    same_magsize = k.same_magsize;
    same_full = k.same_full;
    same_empty = k.same_empty;
    still_sized = λ s. k.still_sized (waited-IsSizedDepot d n s);
    fitting = λ s. k.fitting (waited-IsSizedDepot d n s);
  }

  depot_pop-Pops :
      (busy : Bool) (d : Depot) (is_full : Bool) (p : Place) → Pops d (depot_pop busy d is_full p)
  unfolding depot_pop
  depot_pop-Pops busy d true p =
      waited-Pops d _ _ (take_first-Pops (record d { contention = _ }) true p _ refl)
  depot_pop-Pops busy d false p =
      waited-Pops d _ _ (take_first-Pops (record d { contention = _ }) false p _ refl)

  depot_pop_trylock-Pops :
      (busy : Bool) (d : Depot) (is_full : Bool) (p : Place)
      → Pops d (depot_pop_trylock busy d is_full p)
  unfolding depot_pop_trylock
  depot_pop_trylock-Pops true d is_full p = nothing-Pops d
  depot_pop_trylock-Pops false d is_full p = take_first-Pops d is_full p _ refl

  pub nothing-Serves : (d : Depot) → Serves d (d, none)
  nothing-Serves d = record {
    same_source = refl;
    same_magsize = refl;
    same_full = refl;
    same_empty = refl;
    still_sized = λ s. s;
    right_size = λ s mp e. cc;
  }

  destroyed-IsSizedDepot :
      (d : Depot) (is_full : Bool) (mp : Magazine)
      → IsSizedDepot d
      → IsSizedDepot (destroy_stale d is_full mp)
  unfolding destroy_stale
  destroyed-IsSizedDepot d is_full mp s = record { in_full = s.in_full; in_empty = s.in_empty }

  fresh-Serves : (d : Depot) (is_full : Bool) (g : Got) → Pops d g → Serves d (fresh is_full g)
  unfolding fresh
  fresh-Serves d is_full g k = elim (Option-cases (g.1)) [
    | inl e ↦ rw e (record {
      same_source = k.same_source;
      same_magsize = k.same_magsize;
      same_full = k.same_full;
      same_empty = k.same_empty;
      still_sized = k.still_sized;
      right_size = λ s mp q. cc;
    })
    | inr (mp, e) ↦ elim (Bool-cases (magazine_valid (g.0) mp)) [
      | inl v ↦
          rw (e, v)
            (record {
              same_source = k.same_source;
              same_magsize = k.same_magsize;
              same_full = k.same_full;
              same_empty = k.same_empty;
              still_sized = k.still_sized;
              right_size = λ s found q.
                  let right : mp.source ≡ d.source = ground (arith, v, k.same_source) in
                  let size : length mp.slots ≡ cap mp.source = k.fitting s mp e in
                  subst (λ m. (length m.slots ≡ cap m.source) × (m.source ≡ d.source))
                    (some-injective mp found q) (size, right);
            })
      | inr v ↦
          rw (e, v)
            (unfold destroy_stale in
              record {
                same_source = k.same_source;
                same_magsize = k.same_magsize;
                same_full = k.same_full;
                same_empty = k.same_empty;
                still_sized = λ s. destroyed-IsSizedDepot (g.0) is_full mp (k.still_sized s);
                right_size = λ s found q. cc;
              })
    ]
  ]

  tally-Serves :
      (d : Depot) (f : Depot → Depot) (g : Got)
      → ((x : Depot) → Serves x (f x, none))
      → Serves d g
      → Serves d (tally f g)
  unfolding tally
  tally-Serves d f g c k = elim (Option-cases (g.1)) [
    | inl e ↦ rw e (rw e at k)
    | inr (mp, e) ↦
        let x = c (g.0) in
        rw e (record {
          same_source = x.same_source ∙ k.same_source;
          same_magsize = x.same_magsize ∙ k.same_magsize;
          same_full = x.same_full ∙ k.same_full;
          same_empty = x.same_empty ∙ k.same_empty;
          still_sized = λ s. x.still_sized (k.still_sized s);
          right_size = λ s found q. k.right_size s found (e ∙ q);
        })
  ]

  or_else-Serves :
      (d : Depot) (g : Got) (next : Depot → Got)
      → Serves d g
      → ((x : Depot) → Serves x (next x))
      → Serves d (or_else g next)
  unfolding or_else
  or_else-Serves d g next k n = elim (Option-cases (g.1)) [
    | inl e ↦
        let x = n (g.0) in
        rw e (record {
          same_source = x.same_source ∙ k.same_source;
          same_magsize = x.same_magsize ∙ k.same_magsize;
          same_full = x.same_full ∙ k.same_full;
          same_empty = x.same_empty ∙ k.same_empty;
          still_sized = λ s. x.still_sized (k.still_sized s);
          right_size = λ s found q.
              let (size, right) = x.right_size (k.still_sized s) found q in
              (size, right ∙ k.same_source);
        })
    | inr (mp, e) ↦ rw e (rw e at k)
  ]

  pub counted-Serves :
      (d x : Depot)
      → x.full ≡ d.full
      → x.empty ≡ d.empty
      → x.source ≡ d.source
      → x.magsize ≡ d.magsize
      → Serves d (x, none)
  counted-Serves d x f e s m = record {
    same_source = s;
    same_magsize = m;
    same_full = ap (λ l. length l.stripes) f;
    same_empty = ap (λ l. length l.stripes) e;
    still_sized = λ k. record {
      in_full = subst IsSized (sym f) k.in_full;
      in_empty = subst IsSized (sym e) k.in_empty;
    };
    right_size = λ k mp q. cc;
  }

  Serves-IsClosed : (is_full : Bool) → IsClosed is_full Serves
  Serves-IsClosed is_full = record {
    nothing = nothing-Serves;
    visit = λ busy d p.
        fresh-Serves d is_full (depot_pop busy d is_full p) (depot_pop-Pops busy d is_full p);
    try_visit = λ busy d p.
        fresh-Serves d is_full (depot_pop_trylock busy d is_full p)
          (depot_pop_trylock-Pops busy d is_full p);
    on_local = λ d g.
        tally-Serves d count_local g (λ x. counted-Serves x (count_local x) refl refl refl refl);
    on_remote = λ d g.
        tally-Serves d count_remote g (λ x. counted-Serves x (count_remote x) refl refl refl refl);
    on_cross = λ d g.
        tally-Serves d count_cross g (λ x. counted-Serves x (count_cross x) refl refl refl refl);
    on_else = or_else-Serves;
  }

  pub depot_alloc-Serves :
      (e : Env) (is_full : Bool) (d : Depot) → Serves d (depot_alloc e is_full d)
  depot_alloc-Serves e is_full d = depot_alloc-closed (Serves-IsClosed is_full) e d

  push-Serves :
      (d : Depot) (is_full : Bool) (p : Place) (mp : Magazine)
      → length mp.slots ≡ cap mp.source
      → Serves d (depot_push d is_full p mp, none)
  unfolding depot_push
  push-Serves d true p mp s = record {
    same_source = refl;
    same_magsize = refl;
    same_full = put_list-length d.full p (pushed (list_at d.full p) mp);
    same_empty = refl;
    still_sized = λ k. record {
      in_full =
          put_list-IsSized d.full p (pushed (list_at d.full p) mp) k.in_full
            (s, list_at-Sized d.full p k.in_full);
      in_empty = k.in_empty;
    };
    right_size = λ k found q. cc;
  }
  push-Serves d false p mp s = record {
    same_source = refl;
    same_magsize = refl;
    same_full = refl;
    same_empty = put_list-length d.empty p (pushed (list_at d.empty p) mp);
    still_sized = λ k. record {
      in_full = k.in_full;
      in_empty =
          put_list-IsSized d.empty p (pushed (list_at d.empty p) mp) k.in_empty
            (s, list_at-Sized d.empty p k.in_empty);
    };
    right_size = λ k found q. cc;
  }

  pub depot_free-Serves :
      (e : Env) (is_full : Bool) (d : Depot) (mp : Magazine)
      → length mp.slots ≡ cap mp.source
      → Serves d (depot_free e is_full d mp, none)
  unfolding depot_free
  depot_free-Serves e is_full d mp s =
      let ncpus = length (lists_of d is_full).stripes in
      let own = stripe (bit_and e.cpu_hint (ncpus - 1)) in
      elim (Bool-cases (ncpus == 0)) [
        | inl z ↦ rw z (push-Serves d is_full everywhere mp s)
        | inr z ↦ rw z (push-Serves d is_full own mp s)
      ]
