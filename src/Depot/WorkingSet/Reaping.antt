-- ===== src/Depot/WorkingSet/Reaping.antt =====
-- umem.c: no buffer is lost when the depot is reaped.
use libumem.Base.{
  ℕ, zero, suc, ◌+◌, ◌≤◌, ◌<◌, ◌≡◌, refl, ◌∙◌, true, false, List, [], ◌∷◌, ◌==◌, length, All, ltb,
  arith, Bool-cases, inl, inr,
}
use libumem.Depot.{
  Magazine, Maglist, Depot, Place, list_at, put_list, destroy_stale, magazine_valid,
}
use libumem.Depot.Count.{count, count_mags, count_depot, count_mag, InRange, put_lem, full_lists}
use libumem.Depot.Taking.{destroy_stale-count}
use libumem.Depot.WorkingSet.{
  excess, reap_pop, collect, free_rounds, magazine_destroy, destroy_all, ws_reap, reap_place,
}

-- Every magazine that is not stale has room for at most `n` rounds.
abbrev pub Fitting : ℕ → ℕ → List Magazine → Type 0
Fitting source n ms = All (λ m. (m.source == source) ≡ true → length m.slots ≤ n) ms

collect-count :
    (b n : ℕ) (list : List Magazine) (m : Maglist) (chain : List Magazine)
    → m.list ≡ list
    → count_mags b (collect n list m chain).0.list + count_mags b (collect n list m chain).1
      ≡ count_mags b list + count_mags b chain
unfolding collect count_mags
collect-count b zero list m chain e = rw e refl
collect-count b (suc n) [] m chain e = rw e refl
collect-count b (suc n) (mp ∷ rest) m chain e =
    let c = collect-count b n rest (reap_pop m rest) (mp ∷ chain) (unfold reap_pop in refl) in
    omega (arith, c)

collect-Fitting :
    (source size n : ℕ) (list : List Magazine) (m : Maglist) (chain : List Magazine)
    → Fitting source size list
    → Fitting source size chain
    → Fitting source size (collect n list m chain).1
unfolding collect
collect-Fitting source size zero list m chain f g = g
collect-Fitting source size (suc n) [] m chain f g = g
collect-Fitting source size (suc n) (mp ∷ rest) m chain f g =
    collect-Fitting source size n rest (reap_pop m rest) (mp ∷ chain) (f.1) (f.0, g)

free_rounds-count :
    (b n : ℕ) (bufs frees : List ℕ)
    → length bufs ≤ n
    → count b (free_rounds n bufs frees) ≡ count b bufs + count b frees
unfolding count
free_rounds-count b zero [] frees h = omega arith
free_rounds-count b zero (buf ∷ bufs) frees h = absurd (omega (arith, h))
free_rounds-count b (suc n) [] frees h = omega arith
free_rounds-count b (suc n) (buf ∷ bufs) frees h =
    omega (arith, free_rounds-count b n bufs (buf ∷ frees) (omega (arith, h)))

destroy-count :
    (b : ℕ) (d : Depot) (n : ℕ) (mp : Magazine)
    → ((mp.source == d.source) ≡ true → length mp.slots ≤ n)
    → (mp.source == d.source) ≡ true
    → count_depot b (magazine_destroy d mp n) ≡ count_depot b d + count b mp.slots
unfolding magazine_destroy count_depot
destroy-count b d n mp f v = omega (arith, free_rounds-count b n mp.slots d.slab_frees (f v))

module _ (b : ℕ) (positive : 0 < b) where
  destroy_full-count :
      (d : Depot) (n : ℕ) (mps : List Magazine)
      → 0 < n
      → Fitting d.source n mps
      → count_depot b (destroy_all d n mps) ≡ count_depot b d + count_mags b mps
  unfolding destroy_all count_mags
  destroy_full-count d n [] h f = omega arith
  destroy_full-count d n (mp ∷ mps) h f = elim (Bool-cases (magazine_valid d mp)) [
    | inl v ↦
        let next = magazine_destroy d mp n in
        let c = destroy-count b d n mp (f.0) v in
        let r = destroy_full-count next n mps h (unfold magazine_destroy in f.1) in
        rw v (omega (arith, c, r))
    | inr v ↦
        let next = destroy_stale d true mp in
        let c = destroy_stale-count b d true mp positive in
        let r = destroy_full-count next n mps h (unfold destroy_stale in f.1) in
        let l : ltb 0 n ≡ true = ground (arith, h) in
        let k : count_mag b true mp ≡ count b mp.slots = unfold count_mag in refl in
        rw (v, l) (omega (arith, c, r, k))
  ]

  destroy_empty-count :
      (d : Depot) (mps : List Magazine) → count_depot b (destroy_all d 0 mps) ≡ count_depot b d
  unfolding destroy_all
  destroy_empty-count d [] = refl
  destroy_empty-count d (mp ∷ mps) = elim (Bool-cases (magazine_valid d mp)) [
    | inl v ↦
        let c : count_depot b (magazine_destroy d mp 0) ≡ count_depot b d =
          unfold magazine_destroy count_depot in refl in
        rw v (destroy_empty-count (magazine_destroy d mp 0) mps ∙ c)
    | inr v ↦
        let c : count_depot b (destroy_stale d false mp) ≡ count_depot b d =
          unfold destroy_stale count_depot in refl in
        rw v (destroy_empty-count (destroy_stale d false mp) mps ∙ c)
  ]

  pub reap_place-count :
      (d : Depot) (p : Place) (n : ℕ)
      → 0 < n
      → InRange d.full p
      → Fitting d.source n (list_at d.full p).list
      → (count_depot b (reap_place d true p n) ≡ count_depot b d)
        × (count_depot b (reap_place d false p 0) ≡ count_depot b d)
  unfolding reap_place ws_reap
  reap_place-count d p n h r f =
      let m = list_at d.full p in
      let left = collect (excess m) m.list m [] in
      let c = collect-count b (excess m) m.list m [] refl in
      let g = collect-Fitting d.source n (excess m) m.list m [] f tt in
      let next = record d { full = put_list d.full p (left.0) } in
      let all = destroy_full-count next n (left.1) h g in
      let moved = put_lem b d.full p (left.0) r in
      let before = full_lists b d in
      let after = full_lists b next in
      let none : count_mags b [] ≡ 0 = unfold count_mags in refl in
      let e = list_at d.empty p in
      let rest = collect (excess e) e.list e [] in
      let empty_left = record d { empty = put_list d.empty p (rest.0) } in
      let same : count_depot b empty_left ≡ count_depot b d = unfold count_depot in refl in
      (
        omega (arith, c, all, moved, before, after, none),
        destroy_empty-count empty_left (rest.1) ∙ same,
      )
