-- ===== src/Magazines/Session.antt =====
-- umem.c: the calls of a client on a cache, `_umem_cache_alloc` and `_umem_cache_free`, in any order, as
-- a step relation between what the cache and the client hold.
use libumem.Base.{
  ℕ, ◌+◌, ◌≤◌, ◌<◌, ◌≡◌, refl, sym, ◌∙◌, Bool, Option, none, some, List, [], ◌∷◌, ◌==◌,
  if◌then◌else◌, arith, Bool-cases, inl, inr,
}
use mathlib.Core.Path.{subst}
use mathlib.Core.Option.{some-injective}
use libumem.Depot.{Magazine, Env}
use libumem.Depot.Count.{count, count_depot}
use libumem.Magazines.{State, cache_alloc, cache_free}
use libumem.Magazines.Counted.{count_cache, count_out}
use libumem.Magazines.Ready.{IsReady}
use libumem.Magazines.Allocating.{Supplied, asked, slab_free-IsReady, cache_alloc-Supplied}
use libumem.Magazines.Freeing.{Kept, IsNew, cache_free-Kept}

-- The cache, and the buffers that its clients hold.
pub record Session : Type 0 where
  pub cache : State
  pub held : List ℕ

-- The buffers held after one more is handed over, and after one is given back.
abbrev pub handed : Option ℕ → List ℕ → List ℕ
handed none held = held
handed (some buf) held = buf ∷ held

unfoldable pub without : ℕ → List ℕ → List ℕ
without buf [] = []
without buf (x ∷ xs) = if x == buf then xs else x ∷ without buf xs

-- The slab layer hands out only what neither the cache nor a client has.
abbrev pub IsFresh : Session → Option ℕ → Type 0
IsFresh s none = Unit
IsFresh s (some buf) = (0 < buf) × (count_cache buf s.cache ≡ 0) × (count buf s.held ≡ 0)

module _ (cap : ℕ → ℕ) where
  -- A call that ends, with the fuel that is always enough; and the slab layer takes what it was given.
  pub data Step (s : Session) : Session → Type 0 where
    alloc :
        (e : Env) (given o : Option ℕ) (constructed : Bool) (t : State)
        → IsFresh s given
        → cache_alloc 2 e given constructed s.cache ≡ some (o, t)
        → Step s (record { cache = t; held = handed o s.held })
    free :
        (e : Env) (shell : Option Magazine) (buf : ℕ) (t : State)
        → IsNew cap s.cache.depot shell
        → 0 < count buf s.held
        → cache_free 3 e shell buf s.cache ≡ some t
        → Step s (record { cache = t; held = without buf s.held })
    slab_takes :
        Step s
          (record s { cache = record s.cache { depot = record s.cache.depot { slab_frees = [] } } })

  pub data Reach (s : Session) : Session → Type 0 where
    here : Reach s s
    next : {t u : Session} → Reach s t → Step t u → Reach s u

  -- Every buffer is in one place at most: with one client, or once in the cache.
  pub record IsExclusive (s : Session) : Type 0 where
    pub ready : IsReady cap s.cache
    pub once : (b : ℕ) → 0 < b → count_cache b s.cache + count b s.held ≤ 1

  count-handed :
      (b : ℕ) (o : Option ℕ) (held : List ℕ)
      → count b (handed o held) ≡ count_out b o + count b held
  unfolding count
  count-handed b none held = omega arith
  count-handed b (some buf) held = refl

  count-without :
      (b buf : ℕ) (held : List ℕ)
      → 0 < count buf held
      → count b (without buf held) + (if buf == b then 1 else 0) ≡ count b held
  unfolding count without
  count-without b buf [] h = absurd (omega (arith, h))
  count-without b buf (x ∷ xs) h = ground (arith, h, count-without b buf xs)

  fresh_once :
      (b : ℕ) (s : Session) (m given : Option ℕ)
      → IsExclusive s
      → 0 < b
      → IsFresh s given
      → count_cache b s.cache + count b s.held + count_out b (asked m given) ≤ 1
  fresh_once b s (some buf) given x positive f = omega (arith, x.once b positive)
  fresh_once b s none none x positive f = omega (arith, x.once b positive)
  fresh_once b s none (some buf) x positive f = elim (Bool-cases (buf == b)) [
    | inl e ↦
        let same : buf ≡ b = ground (arith, e) in
        let cached = subst (λ c. count_cache c s.cache ≡ 0) same (f.1) in
        let held = subst (λ c. count c s.held ≡ 0) same (f.2) in rw e (omega (arith, cached, held))
    | inr e ↦ rw e (omega (arith, x.once b positive))
  ]

  Step-IsExclusive : {s t : Session} → Step s t → IsExclusive s → IsExclusive t
  Step-IsExclusive {s} (alloc e given o constructed t f q) x =
      let (m, r, loop, call, c) = cache_alloc-Supplied cap 0 e given constructed s.cache x.ready in
      let c' =
        subst (Supplied cap s.cache (asked (m.0) given)) (some-injective r (o, t) (sym call ∙ q))
          c in
      record {
        ready = c'.ready;
        once = λ b positive. omega (
          arith,
          c'.counted b positive,
          count-handed b o s.held,
          fresh_once b s (m.0) given x positive f,
        );
      }
  Step-IsExclusive {s} (free e shell buf t w h q) x =
      let (u, call, k) = cache_free-Kept cap 0 e shell buf s.cache x.ready w in
      let k' =
        subst (λ v. Kept cap s.cache v (λ b. if buf == b then 1 else 0))
          (some-injective u t (sym call ∙ q)) k in
      record {
        ready = k'.ready;
        once = λ b positive.
            omega (arith, k'.counted b positive, count-without b buf s.held h, x.once b positive);
      }
  Step-IsExclusive {s} slab_takes x = record {
    ready = slab_free-IsReady cap s.cache [] x.ready;
    once = λ b positive.
        let o = x.once b positive in unfold count_cache count_depot count in omega (arith, o);
  }

  -- Start from a ready cache where every buffer is in one place at most, with a client or once in
  -- the cache. Whatever sequence of allocations, frees of buffers that are held, and takings by
  -- the slab layer is made, this stays so, if the slab layer answers only buffers that are nowhere
  -- and new magazines are of the cache's kind. So no buffer is handed out that a client has.
  pub Reach-IsExclusive : {s t : Session} → Reach s t → IsExclusive s → IsExclusive t
  Reach-IsExclusive here x = x
  Reach-IsExclusive (next r st) x = Step-IsExclusive st (Reach-IsExclusive r x)
