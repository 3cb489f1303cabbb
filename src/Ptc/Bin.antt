-- ===== src/Ptc/Bin.antt =====
-- umem_ptc.c: a bin stays within its slots, and no buffer is lost between the client, the bin and the
-- magazine layer.
use mathlib.Core.Bool.{false≢true}
use mathlib.Core.Path.{subst}
use libumem.Base.{
  ℕ, zero, suc, ◌+◌, ◌/◌, ◌≤◌, ◌<◌, ◌≡◌, refl, ◌∙◌, Bool, true, false, Option, none, some, List, [],
  ◌∷◌, length, ◌==◌, if◌then◌else◌, arith, lt→ltb, le→not-ltb, eq→==, ne→not-==,
}
use native.Mathlib.Decide.{dec_lt, ℕ_discrete}
use libumem.Depot.Count.{count}
use libumem.Ptc.{
  bin_capacity, Cached, flush_loop, flush_count, bin_flush, refill_loop, bin_refill, slot_pop,
  pop_filled, ptc_alloc, ptc_free,
}

abbrev pub count_answers : ℕ → List (Option ℕ) → ℕ
count_answers b [] = 0
count_answers b (none ∷ xs) = count_answers b xs
count_answers b (some x ∷ xs) = (if x == b then 1 else 0) + count_answers b xs

-- How often a buffer is in the bin, given to the magazine layer, or to be answered by it.
abbrev pub total : ℕ → Cached → ℕ
total b s = count b s.slots + count b s.freed + count_answers b s.answers

abbrev pub out : ℕ → Option ℕ → ℕ
out b none = 0
out b (some x) = if x == b then 1 else 0

-- The answer of `umem_ptc_alloc`: the bin is within its slots, and the buffer is where it was or handed
-- over.
abbrev pub Supplied : ℕ → Cached → Option (Option ℕ × Cached) → Type 0
Supplied capacity s none = ⊥
Supplied capacity s (some r) =
    (length r.1.slots ≤ capacity) × ((b : ℕ) → total b r.1 + out b (r.0) ≡ total b s)

-- The answer of `umem_ptc_free`.
abbrev pub Taken : ℕ → ℕ → Cached → Option (Bool × Cached) → Type 0
Taken capacity buf s none = ⊥
Taken capacity buf s (some r) =
    (length r.1.slots ≤ capacity)
    × ((b : ℕ) → total b r.1 ≡ total b s + (if r.0 then out b (some buf) else 0))

abbrev Filled : ℕ → (ℕ → ℕ) → Option Cached → Type 0
Filled capacity f none = ⊥
Filled capacity f (some t) = (length t.slots ≤ capacity) × ((b : ℕ) → total b t ≡ f b)

Filled-same :
    (capacity : ℕ) (f g : ℕ → ℕ) (o : Option Cached)
    → ((b : ℕ) → f b ≡ g b)
    → Filled capacity f o
    → Filled capacity g o
Filled-same capacity f g none e h = h
Filled-same capacity f g (some t) e h = (h.0, λ b. h.1 b ∙ e b)

pop-Supplied :
    (capacity : ℕ) (slots : List ℕ) (s : Cached)
    → s.slots ≡ slots
    → length s.slots ≤ capacity
    → Supplied capacity s (some (slot_pop slots s))
unfolding count
pop-Supplied capacity [] s e h = (h, λ b. omega arith)
pop-Supplied capacity (x ∷ xs) s e h =
    let shorter : suc (length xs) ≤ capacity = subst (λ l. length l ≤ capacity) e h in
    (omega (arith, shorter), λ b. rw e (omega arith))

refill-Filled :
    (capacity n : ℕ) (answers : List (Option ℕ)) (s : Cached)
    → length s.slots + n ≤ capacity
    → Filled capacity
        (λ b. count b s.slots + count b s.freed + count_answers b answers)
        (refill_loop capacity n answers s)
unfolding count
refill-Filled capacity zero answers s h = (omega (arith, h), λ b. refl)
refill-Filled capacity (suc n) [] s h = (omega (arith, h), λ b. refl)
refill-Filled capacity (suc n) (none ∷ xs) s h = (omega (arith, h), λ b. refl)
refill-Filled capacity (suc n) (some x ∷ xs) s h =
    rw (lt→ltb (length s.slots) capacity (omega (arith, h))) (
      Filled-same capacity _ _ (refill_loop capacity n xs (record s { slots = x ∷ s.slots }))
        (λ b. omega arith)
        (refill-Filled capacity n xs (record s { slots = x ∷ s.slots }) (omega (arith, h))))

flush-length :
    (n : ℕ) (slots : List ℕ) (s : Cached)
    → (length (flush_loop n slots s).slots ≤ length slots)
      × (0 < n → 0 < length slots → length (flush_loop n slots s).slots < length slots)
flush-length zero slots s = (omega arith, λ p q. absurd (omega (arith, p)))
flush-length (suc n) [] s = (omega arith, λ p q. absurd (omega (arith, q)))
flush-length (suc n) (x ∷ xs) s =
    let r = flush-length n xs (record s { freed = x ∷ s.freed }) in
    (omega (arith, r.0), λ p q. omega (arith, r.0))

flush-total :
    (b n : ℕ) (slots : List ℕ) (s : Cached)
    → total b (flush_loop n slots s) ≡ count b slots + count b s.freed + count_answers b s.answers
unfolding count
flush-total b zero slots s = refl
flush-total b (suc n) [] s = refl
flush-total b (suc n) (x ∷ xs) s =
    flush-total b n xs (record s { freed = x ∷ s.freed }) ∙ omega arith

flush_count-pos : (n : ℕ) → 0 < n → 0 < flush_count n
flush_count-pos n h = elim (ℕ_discrete (n / 2) 0) [
  | yes z ↦ rw (eq→== (n / 2) 0 z) h
  | no p ↦ rw (ne→not-== (n / 2) 0 p) (omega (arith, p))
]

-- What a flush makes of a bin.
abbrev Flushed : Bool → Cached → Cached → Type 0
Flushed has_cache s t =
    ((b : ℕ) → total b t ≡ total b s)
    × (length t.slots ≤ length s.slots)
    × (has_cache ≡ true → 0 < length s.slots → length t.slots < length s.slots)

bin_flush_lem : (has_cache : Bool) (s : Cached) → Flushed has_cache s (bin_flush has_cache s)
unfolding bin_flush
bin_flush_lem false s = elim (ℕ_discrete (length s.slots) 0) [
  | yes z ↦ rw (eq→== (length s.slots) 0 z) (λ b. refl, omega arith, λ e q. absurd (false≢true e))
  | no p ↦
      rw (ne→not-== (length s.slots) 0 p) (λ b. refl, omega arith, λ e q. absurd (false≢true e))
]
bin_flush_lem true s = elim (ℕ_discrete (length s.slots) 0) [
  | yes z ↦
      rw (eq→== (length s.slots) 0 z) (λ b. refl, omega arith, λ e q. absurd (omega (arith, z, q)))
  | no p ↦
      let n = flush_count (length s.slots) in
      let r = flush-length n s.slots s in
      rw (ne→not-== (length s.slots) 0 p) (
        (λ b. flush-total b n s.slots s),
        r.0,
        λ e q. r.1 (flush_count-pos (length s.slots) (omega (arith, p))) q,
      )
]

push-Taken :
    (capacity buf : ℕ) (s t : Cached)
    → length t.slots < capacity
    → ((b : ℕ) → total b t ≡ total b s)
    → Taken capacity buf s (some (true, record t { slots = buf ∷ t.slots }))
unfolding count
push-Taken capacity buf s t h e = (omega (arith, h), λ b. omega (arith, e b))

pop_filled-Supplied :
    (capacity : ℕ) (s : Cached) (o : Option Cached)
    → Filled capacity (λ b. total b s) o
    → Supplied capacity s (pop_filled o)
pop_filled-Supplied capacity s none h = h
pop_filled-Supplied capacity s (some t) h =
    let r = pop-Supplied capacity t.slots t refl (h.0) in (r.0, λ b. r.1 b ∙ h.1 b)

refill-either :
    (capacity : ℕ) (has_cache : Bool) (s : Cached)
    → length s.slots ≡ 0
    → Filled capacity (λ b. total b s) (bin_refill capacity has_cache s)
unfolding bin_refill
refill-either capacity true s z =
    refill-Filled capacity (capacity / 2) s.answers s (omega (arith, z))
refill-either capacity false s z = (omega (arith, z), λ b. refl)

-- `umem_ptc_alloc` on a bin within its slots writes no slot behind them; every buffer, with what the
-- magazine layer answers, is afterwards where it was or handed over.
ptc_alloc-Supplied :
    (bin : ℕ) (has_cache : Bool) (s : Cached)
    → length s.slots ≤ bin_capacity bin
    → Supplied (bin_capacity bin) s (ptc_alloc bin has_cache s)
unfolding ptc_alloc bin_refill
ptc_alloc-Supplied bin has_cache s h = elim (dec_lt 0 (length s.slots)) [
  | yes p ↦ rw (lt→ltb 0 (length s.slots) p) (pop-Supplied (bin_capacity bin) s.slots s refl h)
  | no z ↦ rw (le→not-ltb 0 (length s.slots) (omega (arith, z))) (
      pop_filled-Supplied (bin_capacity bin) s (bin_refill (bin_capacity bin) has_cache s)
        (refill-either (bin_capacity bin) has_cache s (omega (arith, z))))
]

ptc_free-Taken :
    (bin buf : ℕ) (has_cache : Bool) (s : Cached)
    → length s.slots ≤ bin_capacity bin
    → Taken (bin_capacity bin) buf s (ptc_free bin has_cache buf s)
unfolding ptc_free
ptc_free-Taken bin buf has_cache s h =
    let t = bin_flush has_cache s in
    let f = bin_flush_lem has_cache s in
    elim (dec_lt (length s.slots) (bin_capacity bin)) [
      | yes room ↦
          rw (lt→ltb (length s.slots) (bin_capacity bin) room)
            (push-Taken (bin_capacity bin) buf s s room (λ b. refl))
      | no full ↦ elim (dec_lt (length t.slots) (bin_capacity bin)) [
        | yes room ↦
            rw
              (
                le→not-ltb (length s.slots) (bin_capacity bin) (omega (arith, full)),
                lt→ltb (length t.slots) (bin_capacity bin) room,
              )
              (push-Taken (bin_capacity bin) buf s t room (f.0))
        | no still ↦
            rw
              (
                le→not-ltb (length s.slots) (bin_capacity bin) (omega (arith, full)),
                le→not-ltb (length t.slots) (bin_capacity bin) (omega (arith, still)),
              )
              (omega (arith, f.1, h), λ b. omega (arith, f.0 b))
      ]
    ]

-- On a bin within its slots, `umem_ptc_alloc` and `umem_ptc_free` write no slot behind them and leave the
-- bin within its slots. Every buffer, with what the magazine layer answers, is afterwards where it was, in
-- the bin or given to the magazine layer, or handed over, and the buffer that is freed is there once more
-- exactly if the free succeeds.
pub bin-Kept :
    (bin buf : ℕ) (has_cache : Bool) (s : Cached)
    → length s.slots ≤ bin_capacity bin
    → Supplied (bin_capacity bin) s (ptc_alloc bin has_cache s)
      × Taken (bin_capacity bin) buf s (ptc_free bin has_cache buf s)
bin-Kept bin buf has_cache s h =
    (ptc_alloc-Supplied bin has_cache s h, ptc_free-Taken bin buf has_cache s h)
