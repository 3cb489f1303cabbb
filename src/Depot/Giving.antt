-- ===== src/Depot/Giving.antt =====
-- umem.c: where a buffer is before and after `umem_depot_free` and `umem_depot_free_trylock`.
use Prim.Native.Nat.{bit_and}
use libumem.Base.{
  ℕ, zero, suc, ◌+◌, ◌-◌, ◌<◌, ◌^◌, ◌≡◌, refl, Bool, true, false, length, ◌==◌, if◌then◌else◌,
  arith, Bool-cases, ◌⊎◌, inl, inr,
}
use libumem.Bits.Mask.{bit_and-low, two-pow-pos}
use libumem.Depot.{
  Magazine, Lists, Depot, Env, Place, stripe, everywhere, list_at, put_list, lists_of, pushed,
  depot_push, depot_free, free_stripe, depot_free_trylock,
}
use libumem.Depot.Count.{count, count_mags, count_depot, count_mag, InRange, put_lem, full_lists}

push-count :
    (b : ℕ) (d : Depot) (is_full : Bool) (p : Place) (mp : Magazine)
    → InRange (lists_of d is_full) p
    → count_depot b (depot_push d is_full p mp) ≡ count_depot b d + count_mag b is_full mp
unfolding depot_push count_depot count_mag
push-count b d false p mp r = omega arith
push-count b d true p mp r =
    let l = pushed (list_at d.full p) mp in
    let c = put_lem b d.full p l r in
    let is : count_mags b l.list ≡ count b mp.slots + count_mags b (list_at d.full p).list =
      unfold count_mags in refl in
    let before = full_lists b d in
    let after = full_lists b (record d { full = put_list d.full p l }) in
    unfold count_depot in omega (arith, c, is, before, after)

-- The mask of a power of two leaves a stripe that there is.
mask-InRange : (k n a : ℕ) → n ≡ 2 ^ k → bit_and a (n - 1) < n
mask-InRange k n a e =
    let low = bit_and-low k a in let pos = two-pow-pos k in rw e (rw low (omega (arith, pos)))

-- No stripes, or a power of two of them.
abbrev pub IsStriped : Lists → Type 0
IsStriped l = (length l.stripes ≡ 0) ⊎ ((k : ℕ) × (length l.stripes ≡ 2 ^ k))

pub masked-InRange :
    (l : Lists) (a : ℕ)
    → (length l.stripes == 0) ≡ false
    → IsStriped l
    → bit_and a (length l.stripes - 1) < length l.stripes
masked-InRange l a z (inl n) = absurd (ground (arith, z, n))
masked-InRange l a z (inr (k, e)) = mask-InRange k (length l.stripes) a e

free_stripe-InRange :
    (l : Lists) (e : Env) (cpu i n : ℕ)
    → (length l.stripes == 0) ≡ false
    → IsStriped l
    → InRange l (free_stripe e (length l.stripes - 1) cpu i n)
unfolding free_stripe
free_stripe-InRange l e cpu i zero z s = tt
free_stripe-InRange l e cpu i (suc n) z s =
    elim (Bool-cases (e.busy (bit_and (cpu + i) (length l.stripes - 1)))) [
      | inl b ↦ rw b (free_stripe-InRange l e cpu (i + 1) n z s)
      | inr b ↦ rw b (masked-InRange l (cpu + i) z s)
    ]

pub depot_free-count :
    (b : ℕ) (e : Env) (is_full : Bool) (d : Depot) (mp : Magazine)
    → IsStriped (lists_of d is_full)
    → count_depot b (depot_free e is_full d mp) ≡ count_depot b d + count_mag b is_full mp
unfolding depot_free
depot_free-count b e is_full d mp s = elim (Bool-cases (length (lists_of d is_full).stripes == 0)) [
  | inl z ↦ rw z (push-count b d is_full everywhere mp tt)
  | inr z ↦ rw z (
      push-count b d is_full (stripe (bit_and e.cpu_hint (length (lists_of d is_full).stripes - 1)))
        mp (masked-InRange (lists_of d is_full) e.cpu_hint z s))
]

free_place-InRange :
    (e : Env) (l : Lists) (cpu : ℕ)
    → (length l.stripes == 0) ≡ false
    → IsStriped l
    → cpu < length l.stripes
    → InRange l (
        if e.busy cpu
        then free_stripe e (length l.stripes - 1) cpu 1 (length l.stripes - 1)
        else stripe cpu)
free_place-InRange e l cpu z s lt = elim (Bool-cases (e.busy cpu)) [
  | inl b ↦ rw b (free_stripe-InRange l e cpu 1 (length l.stripes - 1) z s)
  | inr b ↦ rw b lt
]

depot_free_trylock-count :
    (b : ℕ) (e : Env) (is_full : Bool) (d : Depot) (mp : Magazine)
    → IsStriped (lists_of d is_full)
    → count_depot b (depot_free_trylock e is_full d mp) ≡ count_depot b d + count_mag b is_full mp
unfolding depot_free_trylock
depot_free_trylock-count b e is_full d mp s =
    let l = lists_of d is_full in
    let cpu = bit_and e.cpu_hint (length l.stripes - 1) in
    elim (Bool-cases (length l.stripes == 0)) [
      | inl z ↦ rw z (push-count b d is_full everywhere mp tt)
      | inr z ↦ rw z (
          push-count b d is_full
            (if e.busy cpu
              then free_stripe e (length l.stripes - 1) cpu 1 (length l.stripes - 1)
              else stripe cpu)
            mp (free_place-InRange e l cpu z s (masked-InRange l e.cpu_hint z s)))
    ]

-- Giving a magazine to the depot adds its rounds, if it counts as full, and changes nothing else, with
-- and without waiting for locks.
pub depot_frees-count :
    (b : ℕ) (e : Env) (is_full : Bool) (d : Depot) (mp : Magazine)
    → IsStriped (lists_of d is_full)
    → (count_depot b (depot_free e is_full d mp) ≡ count_depot b d + count_mag b is_full mp)
      × (count_depot b (depot_free_trylock e is_full d mp)
          ≡ count_depot b d + count_mag b is_full mp)
depot_frees-count b e is_full d mp s =
    (depot_free-count b e is_full d mp s, depot_free_trylock-count b e is_full d mp s)
