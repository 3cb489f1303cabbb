-- ===== src/Depot/Closed.antt =====
-- umem.c: what every step of `umem_depot_alloc` keeps, the whole search keeps.
use Prim.Native.Nat.{bit_and}
use libumem.Base.{
  ℕ, zero, suc, ◌+◌, ◌-◌, Bool, true, false, none, length, ◌==◌, if◌then◌else◌, min, not,
  Bool-cases, inl, inr,
}
use libumem.Depot.{
  Depot, Env, Place, stripe, everywhere, lists_of, Got, depot_pop, depot_pop_trylock, fresh, tally,
  or_else, scan, count_local, count_remote, count_cross, take_global, take_local, steal_near,
  steal_far, try_local, steal_some, try_global, depot_alloc, depot_alloc_trylock,
}

-- A relation between a depot and what a search of it comes to, kept by every step of the searches.
pub record IsClosed {ℓ} (is_full : Bool) (R : Depot → Got → Type ℓ) : Type ℓ where
  pub nothing : (d : Depot) → R d (d, none)
  pub visit :
      (busy : Bool) (d : Depot) (p : Place) → R d (fresh is_full (depot_pop busy d is_full p))
  pub try_visit :
      (busy : Bool) (d : Depot) (p : Place)
      → R d (fresh is_full (depot_pop_trylock busy d is_full p))
  pub on_local : (d : Depot) (g : Got) → R d g → R d (tally count_local g)
  pub on_remote : (d : Depot) (g : Got) → R d g → R d (tally count_remote g)
  pub on_cross : (d : Depot) (g : Got) → R d g → R d (tally count_cross g)
  pub on_else :
      (d : Depot) (g : Got) (next : Depot → Got)
      → R d g
      → ((x : Depot) → R x (next x))
      → R d (or_else g next)

module _ {ℓ} {is_full : Bool} {R : Depot → Got → Type ℓ} (c : IsClosed is_full R) where
  here-closed :
      (busy wanted : Bool) (d : Depot) (p : Place)
      → R d (if wanted then fresh is_full (depot_pop_trylock busy d is_full p) else (d, none))
  here-closed busy true d p = c.try_visit busy d p
  here-closed busy false d p = c.nothing d

  scan-closed :
      (e : Env) (wanted : ℕ → Bool) (mask cpu i n : ℕ) (d : Depot)
      → R d (scan e is_full wanted mask cpu i n d)
  unfolding scan
  scan-closed e wanted mask cpu i zero d = c.nothing d
  scan-closed e wanted mask cpu i (suc n) d =
      let other = bit_and (cpu + i) mask in
      c.on_else d _ _ (here-closed (e.busy other) (wanted other) d (stripe other))
        (scan-closed e wanted mask cpu (i + 1) n)

  take_global-closed : (e : Env) (d : Depot) → R d (take_global e is_full d)
  unfolding take_global
  take_global-closed e d = c.visit e.global_busy d everywhere

  try_global-closed : (e : Env) (d : Depot) → R d (try_global e is_full d)
  unfolding try_global
  try_global-closed e d = c.try_visit e.global_busy d everywhere

  take_local-closed : (e : Env) (cpu : ℕ) (d : Depot) → R d (take_local e is_full cpu d)
  unfolding take_local
  take_local-closed e cpu d = c.on_local d _ (c.visit (e.busy cpu) d (stripe cpu))

  try_local-closed : (e : Env) (cpu : ℕ) (d : Depot) → R d (try_local e is_full cpu d)
  unfolding try_local
  try_local-closed e cpu d = c.on_local d _ (c.try_visit (e.busy cpu) d (stripe cpu))

  steal_near-closed : (e : Env) (mask cpu : ℕ) (d : Depot) → R d (steal_near e is_full mask cpu d)
  unfolding steal_near
  steal_near-closed e mask cpu d =
      c.on_remote d _
        (scan-closed e (λ other. e.cpu_node other == e.cpu_node cpu) mask cpu 1 mask d)

  steal_far-closed : (e : Env) (mask cpu : ℕ) (d : Depot) → R d (steal_far e is_full mask cpu d)
  unfolding steal_far
  steal_far-closed e mask cpu d =
      c.on_cross d _
        (scan-closed e (λ other. not (e.cpu_node other == e.cpu_node cpu)) mask cpu 1 mask d)

  steal_some-closed :
      (e : Env) (mask cpu n : ℕ) (d : Depot) → R d (steal_some e is_full mask cpu n d)
  unfolding steal_some
  steal_some-closed e mask cpu n d = c.on_remote d _ (scan-closed e (λ other. true) mask cpu 1 n d)

  pub depot_alloc-closed : (e : Env) (d : Depot) → R d (depot_alloc e is_full d)
  unfolding depot_alloc
  depot_alloc-closed e d =
      let mask = length (lists_of d is_full).stripes - 1 in
      let cpu = bit_and e.cpu_hint mask in
      let far = λ (a : Depot). or_else (steal_far e is_full mask cpu a) (take_global e is_full) in
      let near = λ (a : Depot). or_else (steal_near e is_full mask cpu a) far in
      elim (Bool-cases (length (lists_of d is_full).stripes == 0)) [
        | inl z ↦ rw z (take_global-closed e d)
        | inr z ↦ rw z (
            c.on_else d (take_local e is_full cpu d) near (take_local-closed e cpu d) (λ a.
              c.on_else a (steal_near e is_full mask cpu a) far (steal_near-closed e mask cpu a)
                (λ b.
                  c.on_else b (steal_far e is_full mask cpu b) (take_global e is_full)
                    (steal_far-closed e mask cpu b) (take_global-closed e))))
      ]

  pub depot_alloc_trylock-closed :
      (e : Env) (steal_max : ℕ) (d : Depot) → R d (depot_alloc_trylock e steal_max is_full d)
  unfolding depot_alloc_trylock
  depot_alloc_trylock-closed e steal_max d =
      let ncpus = length (lists_of d is_full).stripes in
      let mask = ncpus - 1 in
      let cpu = bit_and e.cpu_hint mask in
      let n = min ncpus steal_max - 1 in
      let some_of =
        λ (a : Depot). or_else (steal_some e is_full mask cpu n a) (try_global e is_full) in
      elim (Bool-cases (ncpus == 0)) [
        | inl z ↦ rw z (try_global-closed e d)
        | inr z ↦ rw z (
            c.on_else d (try_local e is_full cpu d) some_of (try_local-closed e cpu d) (λ a.
              c.on_else a (steal_some e is_full mask cpu n a) (try_global e is_full)
                (steal_some-closed e mask cpu n a) (try_global-closed e)))
      ]
