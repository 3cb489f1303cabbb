-- ===== src/Depot/Taking.antt =====
-- umem.c: where a buffer is before and after `umem_depot_alloc` and `umem_depot_alloc_trylock`.
use libumem.Base.{
  ℕ, ◌+◌, ◌<◌, ◌≡◌, refl, Bool, true, false, List, [], ◌∷◌, ◌==◌, if◌then◌else◌, arith, Bool-cases,
  Option-cases, inl, inr,
}
use libumem.Depot.{
  Magazine, Maglist, Lists, Depot, Env, Place, stripe, everywhere, list_at, put_list, lists_of, Got,
  popped, take_first, depot_pop, depot_pop_trylock, drain, destroy_stale, fresh, tally, or_else,
  count_local, count_remote, count_cross, magazine_valid, depot_alloc, depot_alloc_trylock,
}
use libumem.Depot.Count.{
  count, count_mags, count_depot, count_mag, count_got, Keeps, InRange, nth-empty, put_lem,
  full_lists,
}
use libumem.Depot.Closed.{IsClosed, depot_alloc-closed, depot_alloc_trylock-closed}

pub taken-InRange :
    (l : Lists) (p : Place) (mp : Magazine) (rest : List Magazine)
    → (list_at l p).list ≡ mp ∷ rest
    → InRange l p
unfolding list_at
taken-InRange l (stripe i) mp rest e = nth-empty l.stripes i mp rest e
taken-InRange l everywhere mp rest e = tt

popped-list : (m : Maglist) (rest : List Magazine) → (popped m rest).list ≡ rest
unfolding popped
popped-list m rest = refl

take_first-Keeps :
    (b : ℕ) (d : Depot) (is_full : Bool) (p : Place) (list : List Magazine)
    → (list_at (lists_of d is_full) p).list ≡ list
    → Keeps b is_full d (take_first d is_full p list)
unfolding take_first count count_mags count_depot count_got
take_first-Keeps b d is_full p [] e = unfold count_got in omega arith
take_first-Keeps b d false p (mp ∷ rest) e = unfold count_depot count_got in omega arith
take_first-Keeps b d true p (mp ∷ rest) e =
    let next = popped (list_at d.full p) rest in
    let c = put_lem b d.full p next (taken-InRange d.full p mp rest e) in
    let was : count_mags b (list_at d.full p).list ≡ count b mp.slots + count_mags b rest =
      rw e refl in
    let is : count_mags b next.list ≡ count_mags b rest =
      rw (popped-list (list_at d.full p) rest) refl in
    let before = full_lists b d in
    let after = full_lists b (record d { full = put_list d.full p next }) in
    omega (arith, c, was, is, before, after)

waited-count :
    (b : ℕ) (d : Depot) (n : ℕ) → count_depot b (record d { contention = n }) ≡ count_depot b d
unfolding count_depot
waited-count b d n = refl

depot_pop-Keeps :
    (b : ℕ) (busy : Bool) (d : Depot) (is_full : Bool) (p : Place)
    → Keeps b is_full d (depot_pop busy d is_full p)
unfolding depot_pop count_depot
depot_pop-Keeps b busy d true p = take_first-Keeps b (record d { contention = _ }) true p _ refl
depot_pop-Keeps b busy d false p = take_first-Keeps b (record d { contention = _ }) false p _ refl

depot_pop_trylock-Keeps :
    (b : ℕ) (busy : Bool) (d : Depot) (is_full : Bool) (p : Place)
    → Keeps b is_full d (depot_pop_trylock busy d is_full p)
unfolding depot_pop_trylock
depot_pop_trylock-Keeps b true d is_full p = unfold count_got in omega arith
depot_pop_trylock-Keeps b false d is_full p = take_first-Keeps b d is_full p _ refl

-- The rounds of a stale magazine; a NULL round is no buffer.
drain-count :
    (b : ℕ) (bufs frees : List ℕ)
    → 0 < b
    → count b (drain bufs frees) ≡ count b bufs + count b frees
unfolding drain count
drain-count b [] frees h = omega arith
drain-count b (buf ∷ bufs) frees h =
    ground (arith, drain-count b bufs (if buf == 0 then frees else buf ∷ frees) h)

pub destroy_stale-count :
    (b : ℕ) (d : Depot) (is_full : Bool) (mp : Magazine)
    → 0 < b
    → count_depot b (destroy_stale d is_full mp) ≡ count_depot b d + count_mag b is_full mp
unfolding destroy_stale count_depot count_mag
destroy_stale-count b d false mp h = omega arith
destroy_stale-count b d true mp h = omega (arith, drain-count b mp.slots d.slab_frees h)

fresh-Keeps :
    (b : ℕ) (d : Depot) (is_full : Bool) (g : Got)
    → 0 < b
    → Keeps b is_full d g
    → Keeps b is_full d (fresh is_full g)
unfolding fresh count_got
fresh-Keeps b d is_full g h k = elim (Option-cases (g.1)) [
  | inl e ↦ rw e (rw e at k)
  | inr (mp, e) ↦ elim (Bool-cases (magazine_valid (g.0) mp)) [
    | inl v ↦ rw (e, v) (rw e at k)
    | inr v ↦
        let k' = rw e at k in
        rw (e, v) (omega (arith, k', destroy_stale-count b (g.0) is_full mp h))
  ]
]

tally-Keeps :
    (b : ℕ) (d : Depot) (is_full : Bool) (f : Depot → Depot) (g : Got)
    → ((x : Depot) → count_depot b (f x) ≡ count_depot b x)
    → Keeps b is_full d g
    → Keeps b is_full d (tally f g)
unfolding tally
tally-Keeps b d is_full f g s k = elim (Option-cases (g.1)) [
  | inl e ↦ rw e (rw e at k)
  | inr (mp, e) ↦ let k' = rw e at k in rw e (omega (arith, k', s (g.0)))
]

or_else-Keeps :
    (b : ℕ) (d : Depot) (is_full : Bool) (g : Got) (next : Depot → Got)
    → Keeps b is_full d g
    → ((x : Depot) → Keeps b is_full x (next x))
    → Keeps b is_full d (or_else g next)
unfolding or_else count_got
or_else-Keeps b d is_full g next k n = elim (Option-cases (g.1)) [
  | inl e ↦ let k' = rw e at k in rw e (omega (arith, k', n (g.0)))
  | inr (mp, e) ↦ rw e (rw e at k)
]

pub Keeps-IsClosed : (b : ℕ) → 0 < b → (is_full : Bool) → IsClosed is_full (Keeps b is_full)
Keeps-IsClosed b positive is_full = record {
  nothing = λ d. unfold count_got in omega arith;
  visit = λ busy d p.
      fresh-Keeps b d is_full (depot_pop busy d is_full p) positive
        (depot_pop-Keeps b busy d is_full p);
  try_visit = λ busy d p.
      fresh-Keeps b d is_full (depot_pop_trylock busy d is_full p) positive
        (depot_pop_trylock-Keeps b busy d is_full p);
  on_local = λ d g. tally-Keeps b d is_full count_local g (λ x. unfold count_depot in refl);
  on_remote = λ d g. tally-Keeps b d is_full count_remote g (λ x. unfold count_depot in refl);
  on_cross = λ d g. tally-Keeps b d is_full count_cross g (λ x. unfold count_depot in refl);
  on_else = λ d g next. or_else-Keeps b d is_full g next;
}

-- For any depot, any hint and any busy locks, `umem_depot_alloc` and `umem_depot_alloc_trylock`
-- keep count of every buffer but NULL: it is still in the depot's full magazines, in the full
-- magazine that is answered, or given to the slab layer.
pub depot_alloc-Keeps :
    (b : ℕ) (e : Env) (steal_max : ℕ) (is_full : Bool) (d : Depot)
    → 0 < b
    → Keeps b is_full d (depot_alloc e is_full d)
      × Keeps b is_full d (depot_alloc_trylock e steal_max is_full d)
depot_alloc-Keeps b e steal_max is_full d h =
    let c = Keeps-IsClosed b h is_full in
    (depot_alloc-closed c e d, depot_alloc_trylock-closed c e steal_max d)
