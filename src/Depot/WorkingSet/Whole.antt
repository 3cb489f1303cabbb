-- ===== src/Depot/WorkingSet/Whole.antt =====
-- umem.c: `umem_depot_ws_reap` over all lists of the depot.
use libumem.Base.{
  ℕ, zero, suc, ◌+◌, ◌≤◌, ◌<◌, ◌≡◌, refl, sym, ap, ◌∙◌, true, false, List, [], ◌∷◌, length, ltb,
  arith, Bool-cases, inl, inr,
}
use mathlib.Core.Path.{subst}
use libumem.Depot.{
  Magazine, Maglist, Lists, Depot, Place, stripe, everywhere, list_at, put_list, destroy_stale,
  magazine_valid,
}
use libumem.Depot.Count.{count_depot, count_mags, InRange, put_lem, put_list-length, full_lists}
use libumem.Depot.Sized.{Sized, IsSized, IsSizedDepot, list_at-Sized, put_list-IsSized}
use libumem.Depot.WorkingSet.{
  excess, reap_pop, collect, magazine_destroy, destroy_all, ws_reap, mark_excess, reap_place,
  mark_place, reap_stripes, depot_reap,
}
use libumem.Depot.WorkingSet.Reaping.{Fitting, reap_place-count}

abbrev reaped_stripe : ℕ → ℕ → Depot → Depot
reaped_stripe size i d =
    mark_place
      (mark_place (reap_place (reap_place d true (stripe i) size) false (stripe i) 0) true
        (stripe i))
      false (stripe i)

module _ (cap : ℕ → ℕ) where
  Sized-Fitting :
      (source n : ℕ) (ms : List Magazine) → cap source ≡ n → Sized cap ms → Fitting source n ms
  Sized-Fitting source n [] e s = tt
  Sized-Fitting source n (m ∷ ms) e s = (
    λ v.
        let same : m.source ≡ source = ground (arith, v) in
        let room : length m.slots ≡ n = s.0 ∙ ap cap same ∙ e in omega (arith, room),
    Sized-Fitting source n ms e (s.1),
  )

  collect-Sized :
      (n : ℕ) (list : List Magazine) (m : Maglist) (chain : List Magazine)
      → m.list ≡ list
      → Sized cap list
      → Sized cap (collect n list m chain).0.list
  unfolding collect
  collect-Sized zero list m chain e s = subst (Sized cap) (sym e) s
  collect-Sized (suc n) [] m chain e s = subst (Sized cap) (sym e) s
  collect-Sized (suc n) (mp ∷ rest) m chain e s =
      collect-Sized n rest (reap_pop m rest) (mp ∷ chain) (unfold reap_pop in refl) (s.1)

  -- What a part of a reap leaves as it was.
  record Reaped (b : ℕ) (d x : Depot) : Type 0 where
    same_source : x.source ≡ d.source
    same_magsize : x.magsize ≡ d.magsize
    same_full : length x.full.stripes ≡ length d.full.stripes
    still_sized : IsSizedDepot cap d → IsSizedDepot cap x
    same_count : cap d.source ≡ d.magsize → IsSizedDepot cap d → count_depot b x ≡ count_depot b d

  Reaped-trans : (b : ℕ) (d x y : Depot) → Reaped b d x → Reaped b x y → Reaped b d y
  Reaped-trans b d x y k m = record {
    same_source = m.same_source ∙ k.same_source;
    same_magsize = m.same_magsize ∙ k.same_magsize;
    same_full = m.same_full ∙ k.same_full;
    still_sized = λ s. m.still_sized (k.still_sized s);
    same_count = λ c s.
        m.same_count (ap cap k.same_source ∙ c ∙ sym k.same_magsize) (k.still_sized s)
        ∙ k.same_count c s;
  }

  -- The part of the depot that destroying magazines leaves alone.
  record SameLists (d x : Depot) : Type 0 where
    source : x.source ≡ d.source
    magsize : x.magsize ≡ d.magsize
    full : x.full ≡ d.full
    empty : x.empty ≡ d.empty

  rewrap :
      (x d : Depot) {y : Depot}
      → SameLists x y
      → x.source ≡ d.source
      → x.magsize ≡ d.magsize
      → x.full ≡ d.full
      → x.empty ≡ d.empty
      → SameLists d y
  rewrap x d k s m f e = record {
    source = k.source ∙ s;
    magsize = k.magsize ∙ m;
    full = k.full ∙ f;
    empty = k.empty ∙ e;
  }

  destroy_all-SameLists :
      (d : Depot) (n : ℕ) (mps : List Magazine) → SameLists d (destroy_all d n mps)
  unfolding destroy_all
  destroy_all-SameLists d n [] = record { source = refl; magsize = refl; full = refl; empty = refl }
  destroy_all-SameLists d n (mp ∷ mps) = elim (Bool-cases (magazine_valid d mp)) [
    | inl v ↦
        let k = destroy_all-SameLists (magazine_destroy d mp n) n mps in
        rw v (unfold magazine_destroy in rewrap (magazine_destroy d mp n) d k refl refl refl refl)
    | inr v ↦
        let k = destroy_all-SameLists (destroy_stale d (ltb 0 n) mp) n mps in
        rw v (unfold destroy_stale in rewrap (destroy_stale d (ltb 0 n) mp) d k refl refl refl refl)
  ]

  SameLists-IsSizedDepot : (d x : Depot) → SameLists d x → IsSizedDepot cap d → IsSizedDepot cap x
  SameLists-IsSizedDepot d x k s = record {
    in_full = subst (IsSized cap) (sym k.full) s.in_full;
    in_empty = subst (IsSized cap) (sym k.empty) s.in_empty;
  }

  module _ (b : ℕ) (positive : 0 < b) where
    reap_full-Reaped :
        (d : Depot) (p : Place)
        → InRange d.full p
        → 0 < d.magsize
        → Reaped b d (reap_place d true p d.magsize)
    unfolding reap_place ws_reap
    reap_full-Reaped d p r h =
        let m = list_at d.full p in
        let left = collect (excess m) m.list m [] in
        let next : Depot = record d { full = put_list d.full p (left.0) } in
        let k = destroy_all-SameLists next d.magsize (left.1) in
        record {
          same_source = k.source;
          same_magsize = k.magsize;
          same_full =
              ap (λ (l : Lists). length l.stripes) k.full ∙ put_list-length d.full p (left.0);
          still_sized = λ s.
              SameLists-IsSizedDepot next (destroy_all next d.magsize (left.1)) k (record {
                in_full = put_list-IsSized cap d.full p (left.0) s.in_full (
                    collect-Sized (excess m) m.list m [] refl
                      (list_at-Sized cap d.full p s.in_full));
                in_empty = s.in_empty;
              });
          same_count = λ c s.
              (reap_place-count b positive d p d.magsize h r (
                Sized-Fitting d.source d.magsize (list_at d.full p).list c
                  (list_at-Sized cap d.full p s.in_full))).0;
        }

    reap_empty-Reaped :
        (d : Depot) (p : Place)
        → InRange d.full p
        → 0 < d.magsize
        → Reaped b d (reap_place d false p 0)
    unfolding reap_place ws_reap
    reap_empty-Reaped d p r h =
        let m = list_at d.empty p in
        let left = collect (excess m) m.list m [] in
        let next : Depot = record d { empty = put_list d.empty p (left.0) } in
        let k = destroy_all-SameLists next 0 (left.1) in
        record {
          same_source = k.source;
          same_magsize = k.magsize;
          same_full = ap (λ (l : Lists). length l.stripes) k.full;
          still_sized = λ s. SameLists-IsSizedDepot next (destroy_all next 0 (left.1)) k (record {
            in_full = s.in_full;
            in_empty = put_list-IsSized cap d.empty p (left.0) s.in_empty (
                collect-Sized (excess m) m.list m [] refl (list_at-Sized cap d.empty p s.in_empty));
          });
          same_count = λ c s.
              (reap_place-count b positive d p d.magsize h r (
                Sized-Fitting d.source d.magsize (list_at d.full p).list c
                  (list_at-Sized cap d.full p s.in_full))).1;
        }

    mark_excess-list : (m : Maglist) → (mark_excess m).list ≡ m.list
    unfolding mark_excess
    mark_excess-list m = ground arith

    mark_full-Reaped : (d : Depot) (p : Place) → InRange d.full p → Reaped b d (mark_place d true p)
    unfolding mark_place
    mark_full-Reaped d p r =
        let m = list_at d.full p in
        let same = mark_excess-list m in
        record {
          same_source = refl;
          same_magsize = refl;
          same_full = put_list-length d.full p (mark_excess m);
          still_sized = λ s. record {
            in_full =
                put_list-IsSized cap d.full p (mark_excess m) s.in_full
                  (subst (Sized cap) (sym same) (list_at-Sized cap d.full p s.in_full));
            in_empty = s.in_empty;
          };
          same_count = λ c s.
              let moved = put_lem b d.full p (mark_excess m) r in
              let before = full_lists b d in
              let after = full_lists b (record d { full = put_list d.full p (mark_excess m) }) in
              omega (arith, moved, before, after, ap (count_mags b) same);
        }

    mark_empty-Reaped : (d : Depot) (p : Place) → Reaped b d (mark_place d false p)
    unfolding mark_place
    mark_empty-Reaped d p =
        let m = list_at d.empty p in
        record {
          same_source = refl;
          same_magsize = refl;
          same_full = refl;
          still_sized = λ s. record {
            in_full = s.in_full;
            in_empty = put_list-IsSized cap d.empty p (mark_excess m) s.in_empty (
                subst (Sized cap) (sym (mark_excess-list m))
                  (list_at-Sized cap d.empty p s.in_empty));
          };
          same_count = λ c s. unfold count_depot in refl;
        }

    -- Both lists at a place.
    reap_both-Reaped :
        (d : Depot) (p : Place)
        → ((x : Depot) → length x.full.stripes ≡ length d.full.stripes → InRange x.full p)
        → 0 < d.magsize
        → Reaped b d (reap_place (reap_place d true p d.magsize) false p 0)
    reap_both-Reaped d p r h =
        let full = reap_place d true p d.magsize in
        let k = reap_full-Reaped d p (r d refl) h in
        Reaped-trans b d full (reap_place full false p 0) k (
          reap_empty-Reaped full p (r full k.same_full) (subst (λ m. 0 < m) (sym k.same_magsize) h))

    stripe-Reaped :
        (d : Depot) (i : ℕ)
        → i < length d.full.stripes
        → 0 < d.magsize
        → Reaped b d (reaped_stripe d.magsize i d)
    stripe-Reaped d i lt h =
        let both = reap_place (reap_place d true (stripe i) d.magsize) false (stripe i) 0 in
        let marked = mark_place both true (stripe i) in
        let k = reap_both-Reaped d (stripe i) (λ x e. subst (λ n. i < n) (sym e) lt) h in
        let m = mark_full-Reaped both (stripe i) (subst (λ n. i < n) (sym k.same_full) lt) in
        Reaped-trans b d both (mark_place marked false (stripe i)) k (
          Reaped-trans b both marked (mark_place marked false (stripe i)) m
            (mark_empty-Reaped marked (stripe i)))

    reap_stripes-Reaped :
        (size i n : ℕ) (d : Depot)
        → d.magsize ≡ size
        → 0 < size
        → i + n ≤ length d.full.stripes
        → Reaped b d (reap_stripes size i n d)
    unfolding reap_stripes
    reap_stripes-Reaped size i zero d e h le = record {
      same_source = refl;
      same_magsize = refl;
      same_full = refl;
      still_sized = λ s. s;
      same_count = λ c s. refl;
    }
    reap_stripes-Reaped size i (suc n) d e h le =
        let x = reaped_stripe size i d in
        let k : Reaped b d x =
          subst (λ m. Reaped b d (reaped_stripe m i d)) e
            (stripe-Reaped d i (omega (arith, le)) (omega (arith, e, h))) in
        Reaped-trans b d x (reap_stripes size (i + 1) n x) k (
          reap_stripes-Reaped size (i + 1) n x (k.same_magsize ∙ e) h
            (omega (arith, le, k.same_full)))

    -- In a depot whose magazines have the room of their kind, which for the cache's kind is the
    -- magazine size and not 0, `umem_depot_ws_reap` keeps count of every buffer but NULL and the
    -- magazines that it leaves have the room of their kind.
    pub depot_reap-count :
        (d : Depot)
        → 0 < d.magsize
        → cap d.source ≡ d.magsize
        → IsSizedDepot cap d
        → (count_depot b (depot_reap d) ≡ count_depot b d) × IsSizedDepot cap (depot_reap d)
    unfolding depot_reap
    depot_reap-count d h c s =
        let all = reap_place (reap_place d true everywhere d.magsize) false everywhere 0 in
        let k = reap_both-Reaped d everywhere (λ x e. tt) h in
        let r = Reaped-trans b d all (reap_stripes d.magsize 0 (length d.full.stripes) all) k (
          reap_stripes-Reaped d.magsize 0 (length d.full.stripes) all k.same_magsize h
            (omega (arith, k.same_full))) in
        (r.same_count c s, r.still_sized s)
