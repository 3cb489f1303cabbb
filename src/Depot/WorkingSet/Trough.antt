-- ===== src/Depot/WorkingSet/Trough.antt =====
-- umem.c: how many magazines `umem_maglist_ws_reap` takes after an interval of uses of a list.
use libumem.Base.{
  ℕ, zero, suc, ◌+◌, ◌-◌, ◌≤◌, ◌≡◌, refl, sym, ap, ◌∙◌, List, [], ◌∷◌, length, min, arith,
}
use libumem.Depot.{Magazine, Maglist, popped, pushed}
use libumem.Depot.WorkingSet.{ws_update, excess, reap_pop, collect, ws_reap}

-- A push or a pop of a list, as the depot does them. A pop of an empty list does nothing.
pub data Use : Type 0 where
  push : Magazine → Use
  pop : Use

abbrev pub pop_list : Maglist → List Magazine → Maglist
pop_list m [] = m
pop_list m (mp ∷ rest) = popped m rest

abbrev pub use_list : Maglist → Use → Maglist
use_list m (push mp) = pushed m mp
use_list m pop = pop_list m m.list

abbrev pub use_all : Maglist → List Use → Maglist
use_all m [] = m
use_all m (u ∷ us) = use_all (use_list m u) us

-- The number of magazines that is kept with a list.
abbrev pub IsCounted : Maglist → Type 0
IsCounted m = m.total ≡ length m.list

-- The least number of magazines on the way, of a list that has `n`.
abbrev pub trough : ℕ → List Use → ℕ
trough n [] = n
trough n (push mp ∷ us) = min n (trough (n + 1) us)
trough n (pop ∷ us) = min n (trough (n - 1) us)

pop_list-IsCounted :
    (m : Maglist) (l : List Magazine) → m.list ≡ l → IsCounted m → IsCounted (pop_list m l)
unfolding popped
pop_list-IsCounted m [] e c = c
pop_list-IsCounted m (mp ∷ rest) e c = let c' = rw e at c in omega (arith, c')

pop_list-total :
    (m : Maglist) (l : List Magazine)
    → m.list ≡ l
    → IsCounted m
    → (pop_list m l).total ≡ m.total - 1
unfolding popped
pop_list-total m [] e c = let c' = rw e at c in omega (arith, c')
pop_list-total m (mp ∷ rest) e c = refl

pop_list-low :
    (m : Maglist) (l : List Magazine)
    → m.list ≡ l
    → IsCounted m
    → m.low ≤ m.total
    → (pop_list m l).low ≡ min m.low (m.total - 1)
unfolding popped
pop_list-low m [] e c le = let c' = rw e at c in omega (arith, c', le)
pop_list-low m (mp ∷ rest) e c le = omega arith

use_list-IsCounted : (m : Maglist) (u : Use) → IsCounted m → IsCounted (use_list m u)
use_list-IsCounted m (push mp) c = omega (arith, c)
use_list-IsCounted m pop c = pop_list-IsCounted m m.list refl c

pub use_all-IsCounted : (m : Maglist) (us : List Use) → IsCounted m → IsCounted (use_all m us)
use_all-IsCounted m [] c = c
use_all-IsCounted m (u ∷ us) c = use_all-IsCounted (use_list m u) us (use_list-IsCounted m u c)

trough-le : (n : ℕ) (us : List Use) → trough n us ≤ n
trough-le n [] = omega arith
trough-le n (push mp ∷ us) = omega arith
trough-le n (pop ∷ us) = omega arith

use_all-low :
    (m : Maglist) (us : List Use)
    → IsCounted m
    → m.low ≤ m.total
    → (use_all m us).low ≡ min m.low (trough m.total us)
use_all-low m [] c le = omega (arith, le)
use_all-low m (push mp ∷ us) c le =
    omega (arith, le, use_all-low (pushed m mp) us (omega (arith, c)) (omega (arith, le)))
use_all-low m (pop ∷ us) c le =
    let n = pop_list m m.list in
    let t = pop_list-total m m.list refl c in
    let l = pop_list-low m m.list refl c le in
    let r = use_all-low n us (pop_list-IsCounted m m.list refl c) (omega (arith, t, l, le)) in
    let r' = rw t at r in omega (arith, le, l, r', trough-le (m.total - 1) us)

pop_list-reaplimit : (m : Maglist) (l : List Magazine) → (pop_list m l).reaplimit ≡ m.reaplimit
unfolding popped
pop_list-reaplimit m [] = refl
pop_list-reaplimit m (mp ∷ rest) = refl

use_all-reaplimit : (m : Maglist) (us : List Use) → (use_all m us).reaplimit ≡ m.reaplimit
use_all-reaplimit m [] = refl
use_all-reaplimit m (push mp ∷ us) = use_all-reaplimit (pushed m mp) us
use_all-reaplimit m (pop ∷ us) =
    use_all-reaplimit (pop_list m m.list) us ∙ pop_list-reaplimit m m.list

use_all-low-le :
    (m : Maglist) (us : List Use)
    → IsCounted m
    → m.low ≤ m.total
    → (use_all m us).low ≤ (use_all m us).total
use_all-low-le m [] c le = le
use_all-low-le m (push mp ∷ us) c le =
    use_all-low-le (pushed m mp) us (omega (arith, c)) (omega (arith, le))
use_all-low-le m (pop ∷ us) c le =
    let t = pop_list-total m m.list refl c in
    let l = pop_list-low m m.list refl c le in
    use_all-low-le (pop_list m m.list) us (pop_list-IsCounted m m.list refl c)
      (omega (arith, t, l, le))

collect-length :
    (n : ℕ) (list : List Magazine) (m : Maglist) (chain : List Magazine)
    → m.list ≡ list
    → m.total ≡ length list
    → IsCounted (collect n list m chain).0
      × ((collect n list m chain).0.total ≡ m.total - n)
      × (length (collect n list m chain).1 ≡ length chain + min n m.total)
unfolding collect reap_pop
collect-length zero list m chain e c = (c ∙ ap length (sym e), omega arith, omega arith)
collect-length (suc n) [] m chain e c = (c ∙ ap length (sym e), omega (arith, c), omega (arith, c))
collect-length (suc n) (mp ∷ rest) m chain e c =
    let next = reap_pop m rest in
    let (i, t, l) = collect-length n rest next (mp ∷ chain) refl (omega (arith, c)) in
    (i, omega (arith, t), omega (arith, l, c))

-- A reap takes as many magazines as it asks for, or all there are.
ws_reap-length :
    (m : Maglist)
    → IsCounted m
    → IsCounted (ws_reap m).0
      × ((ws_reap m).0.total ≡ m.total - excess m)
      × (length (ws_reap m).1 ≡ min (excess m) m.total)
unfolding ws_reap
ws_reap-length m c =
    let (i, t, l) = collect-length (excess m) m.list m [] refl c in (i, t, omega (arith, l))

-- If a list's count is right, then after an update of the working set and any pushes and pops the
-- reap takes exactly as many magazines as the smaller of the least count in that interval and the
-- least count that the update found.
pub ws_reap_lem :
    (m : Maglist) (us : List Use)
    → IsCounted m
    → length (ws_reap (use_all (ws_update m) us)).1 ≡ min m.low (trough m.total us)
ws_reap_lem m us c =
    let n = ws_update m in
    let c' : IsCounted n = unfold ws_update in c in
    let le : n.low ≤ n.total = unfold ws_update in omega arith in
    let (i, t, l) = ws_reap-length (use_all n us) (use_all-IsCounted n us c') in
    let low : (use_all n us).low ≡ min m.total (trough m.total us) =
      unfold ws_update in use_all-low n us c' le in
    let limit : (use_all n us).reaplimit ≡ m.low = unfold ws_update in use_all-reaplimit n us in
    omega (arith, l, low, limit, use_all-low-le n us c' le, trough-le m.total us)

length-zero : (l : List Magazine) → length l ≡ 0 → l ≡ []
length-zero [] e = refl
length-zero (mp ∷ l) e = absurd (omega (arith, e))

-- Two updates with nothing between them, and a reap.
pub purge_lem :
    (m : Maglist)
    → IsCounted m
    → ((ws_reap (ws_update (ws_update m))).0.list ≡ [])
      × (length (ws_reap (ws_update (ws_update m))).1 ≡ length m.list)
unfolding ws_update
purge_lem m c =
    let n = ws_update (ws_update m) in
    let (i, t, l) = ws_reap-length n c in
    (length-zero (ws_reap n).0.list (omega (arith, i, t)), omega (arith, l, c))
