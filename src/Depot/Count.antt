-- ===== src/Depot/Count.antt =====
-- umem.c: how often a buffer is in the lists of the depot and among those given to the slab layer.
use libumem.Base.{
  ℕ, zero, suc, ◌+◌, ◌<◌, ◌≡◌, refl, Bool, true, false, Option, none, some, List, [], ◌∷◌, length,
  set, ◌==◌, if◌then◌else◌, arith, length-set,
}
use libumem.Depot.{
  Magazine, Maglist, Lists, Depot, Place, stripe, everywhere, nth, list_at, put_list, Got,
}

-- How often a buffer is in a list.
unfoldable pub count : ℕ → List ℕ → ℕ
count b [] = 0
count b (x ∷ xs) = (if x == b then 1 else 0) + count b xs

unfoldable pub count_mags : ℕ → List Magazine → ℕ
unfolding count
count_mags b [] = 0
count_mags b (m ∷ ms) = count b m.slots + count_mags b ms

unfoldable pub count_stripes : ℕ → List Maglist → ℕ
unfolding count_mags
count_stripes b [] = 0
count_stripes b (l ∷ ls) = count_mags b l.list + count_stripes b ls

-- The buffer in the full magazines and among those given to the slab layer.
unfoldable pub count_depot : ℕ → Depot → ℕ
unfolding count_stripes count count_mags
count_depot b d =
    count_stripes b d.full.stripes + count_mags b d.full.global.list + count b d.slab_frees

-- The buffer in a magazine of a kind.
unfoldable pub count_mag : ℕ → Bool → Magazine → ℕ
unfolding count
count_mag b true m = count b m.slots
count_mag b false m = 0

unfoldable pub count_got : ℕ → Bool → Option Magazine → ℕ
unfolding count_mag
count_got b is_full none = 0
count_got b is_full (some m) = count_mag b is_full m

-- A step that finds a magazine or none has moved no buffer elsewhere.
abbrev pub Keeps : ℕ → Bool → Depot → Got → Type 0
Keeps b is_full d g = count_depot b (g.0) + count_got b is_full (g.1) ≡ count_depot b d

pub stripes-set :
    (b : ℕ) (ls : List Maglist) (i : ℕ) (m : Maglist)
    → i < length ls
    → count_stripes b (set ls i m) + count_mags b (nth ls i).list
      ≡ count_stripes b ls + count_mags b m.list
unfolding count_stripes
stripes-set b [] i m h = elim h [ ]
stripes-set b (l ∷ ls) zero m h = omega arith
stripes-set b (l ∷ ls) (suc i) m h = omega (arith, stripes-set b ls i m (omega arith))

-- A place past the last stripe has no magazines.
pub nth-empty :
    (ls : List Maglist) (i : ℕ) (mp : Magazine) (rest : List Magazine)
    → (nth ls i).list ≡ mp ∷ rest
    → i < length ls
nth-empty [] i mp rest e = cc
nth-empty (l ∷ ls) zero mp rest e = omega arith
nth-empty (l ∷ ls) (suc i) mp rest e = omega (arith, nth-empty ls i mp rest e)

-- A place that there is.
abbrev pub InRange : Lists → Place → Type 0
InRange l (stripe i) = i < length l.stripes
InRange l everywhere = Unit

unfoldable pub count_lists : ℕ → Lists → ℕ
unfolding count_stripes count_mags
count_lists b l = count_stripes b l.stripes + count_mags b l.global.list

pub put_lem :
    (b : ℕ) (l : Lists) (p : Place) (m : Maglist)
    → InRange l p
    → count_lists b (put_list l p m) + count_mags b (list_at l p).list
      ≡ count_lists b l + count_mags b m.list
unfolding put_list list_at count_lists
put_lem b l (stripe i) m r = omega (arith, stripes-set b l.stripes i m r)
put_lem b l everywhere m r = omega arith

pub full_lists : (b : ℕ) (d : Depot) → count_depot b d ≡ count_lists b d.full + count b d.slab_frees
unfolding count_depot count_lists
full_lists b d = refl

pub put_list-length :
    (l : Lists) (p : Place) (m : Maglist) → length (put_list l p m).stripes ≡ length l.stripes
unfolding put_list
put_list-length l (stripe i) m = length-set l.stripes i m
put_list-length l everywhere m = refl
