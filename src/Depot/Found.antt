-- ===== src/Depot/Found.antt =====
-- umem.c: a magazine that `umem_depot_free` has pushed is found by the next `umem_depot_alloc`.
use Prim.Native.Nat.{bit_and}
use libumem.Base.{
  ℕ, zero, suc, ◌-◌, ◌<◌, ◌≡◌, refl, ap, ◌∙◌, Bool, true, false, some, List, [], ◌∷◌, length, set,
  ◌==◌, arith, eq→==, ne→not-==,
}
use mathlib.Core.Path.{subst}
use libumem.Depot.{
  Magazine, Maglist, Lists, Depot, Env, Place, stripe, everywhere, nth, list_at, put_list, Got,
  pushed, take_first, depot_pop, depot_push, fresh, tally, or_else, count_local, take_local,
  steal_near, steal_far, take_global, depot_alloc, depot_free,
}
use libumem.Depot.Count.{InRange, put_list-length}
use libumem.Depot.Giving.{IsStriped, masked-InRange}

nth-set : (ls : List Maglist) (i : ℕ) (m : Maglist) → i < length ls → nth (set ls i m) i ≡ m
nth-set [] i m h = elim h [ ]
nth-set (l ∷ ls) zero m h = refl
nth-set (l ∷ ls) (suc i) m h = nth-set ls i m (omega arith)

list_at-put_list :
    (l : Lists) (p : Place) (m : Maglist) → InRange l p → list_at (put_list l p m) p ≡ m
unfolding list_at put_list
list_at-put_list l (stripe i) m r = nth-set l.stripes i m r
list_at-put_list l everywhere m r = refl

-- A valid magazine on a list is found there.
fresh-pop :
    (busy : Bool) (d : Depot) (p : Place) (mp : Magazine) (rest : List Magazine)
    → (list_at d.empty p).list ≡ mp ∷ rest
    → (mp.source == d.source) ≡ true
    → (fresh false (depot_pop busy d false p)).1 ≡ some mp
unfolding fresh depot_pop take_first
fresh-pop busy d p mp rest e v = rw (e, v) refl

or_else-found :
    (g : Got) (next : Depot → Got) (mp : Magazine) → g.1 ≡ some mp → (or_else g next).1 ≡ some mp
unfolding or_else
or_else-found g next mp e = rw e refl

tally-found :
    (f : Depot → Depot) (g : Got) (mp : Magazine) → g.1 ≡ some mp → (tally f g).1 ≡ some mp
unfolding tally
tally-found f g mp e = rw e refl

-- The search finds what is first on its own stripe, or on the list for all CPUs if there is no stripe.
abbrev own_place : Env → ℕ → Place
own_place e zero = everywhere
own_place e (suc n) = stripe (bit_and e.cpu_hint (suc n - 1))

own-found :
    (e : Env) (d : Depot) (mp : Magazine) (rest : List Magazine) (n : ℕ)
    → length d.empty.stripes ≡ n
    → (list_at d.empty (own_place e n)).list ≡ mp ∷ rest
    → (mp.source == d.source) ≡ true
    → (depot_alloc e false d).1 ≡ some mp
unfolding depot_alloc
own-found e d mp rest zero z l v =
    rw (z, take_global) (fresh-pop e.global_busy d everywhere mp rest l v)
own-found e d mp rest (suc n) z l v =
    let cpu = bit_and e.cpu_hint (suc n - 1) in
    let local : (take_local e false cpu d).1 ≡ some mp =
      unfold take_local in
      tally-found count_local (fresh false (depot_pop (e.busy cpu) d false (stripe cpu))) mp
        (fresh-pop (e.busy cpu) d (stripe cpu) mp rest l v) in
    let far = λ (b : Depot). or_else (steal_far e false (suc n - 1) cpu b) (take_global e false) in
    let near = λ (a : Depot). or_else (steal_near e false (suc n - 1) cpu a) far in
    rw (z, ne→not-== (suc n) 0 (omega arith))
      (or_else-found (take_local e false cpu d) near mp local)

push-found :
    (e : Env) (d : Depot) (mp : Magazine) (n : ℕ)
    → length d.empty.stripes ≡ n
    → InRange d.empty (own_place e n)
    → mp.source ≡ d.source
    → (depot_alloc e false (depot_push d false (own_place e n) mp)).1 ≡ some mp
unfolding depot_push
push-found e d mp n z r v =
    let p = own_place e n in
    let l = pushed (list_at d.empty p) mp in
    own-found e (depot_push d false p mp) mp (list_at d.empty p).list n
      (put_list-length d.empty p l ∙ z)
      (ap (λ (x : Maglist). x.list) (list_at-put_list d.empty p l r)) (eq→== _ _ v)

-- The magazine is found by the search that follows.
pub depot_alloc-depot_free :
    (e : Env) (d : Depot) (mp : Magazine)
    → IsStriped d.empty
    → mp.source ≡ d.source
    → (n : ℕ) → length d.empty.stripes ≡ n
    → (depot_alloc e false (depot_free e false d mp)).1 ≡ some mp
unfolding depot_free
depot_alloc-depot_free e d mp s v zero z = rw z (push-found e d mp zero z tt v)
depot_alloc-depot_free e d mp s v (suc n) z =
    let in_range = masked-InRange d.empty e.cpu_hint (rw z (ne→not-== (suc n) 0 (omega arith))) s in
    rw (z, ne→not-== (suc n) 0 (omega arith))
      (push-found e d mp (suc n) z
        (subst (λ m. bit_and e.cpu_hint (m - 1) < length d.empty.stripes) z in_range) v)
