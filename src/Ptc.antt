-- ===== src/Ptc.antt =====
-- umem_ptc.c: one bin of a thread's cache. A bin is the list of the buffers in `slots[0 .. count)`, the
-- top first; a push with the slots full is `none`. What the calls of `_umem_cache_alloc` answer is a list,
-- with NULL as `none` and behind its end, and the buffers given to `_umem_cache_free` are a list. Whether
-- `umem_alloc_table` has a cache for the size is an argument. The mangling of slots is left out.
pub mod Bin
mod Tests
use libumem.Base.{
  ℕ, zero, suc, ◌+◌, ◌-◌, ◌/◌, Bool, true, false, Option, none, some, List, [], ◌∷◌, length, ltb,
  ◌==◌, if◌then◌else◌,
}

-- `ptc_bin_capacity`, with PTC_BIN_MEDIUM and so on, and PTC_NSLOTS_SMALL and so on.
abbrev pub bin_capacity : ℕ → ℕ
bin_capacity bin =
    if ltb bin 13 then 128 else if ltb bin 21 then 64 else if ltb bin 28 then 32 else 16

-- A bin, what the magazine layer will answer, and what was given to it.
pub record Cached : Type 0 where
  pub slots : List ℕ
  pub answers : List (Option ℕ)
  pub freed : List ℕ

-- `ptc_slot_push`
abbrev pub slot_push : ℕ → ℕ → Cached → Option Cached
slot_push capacity buf s =
    if ltb (length s.slots) capacity then some (record s { slots = buf ∷ s.slots }) else none

-- The loop of `umem_ptc_bin_flush_impl` that frees one buffer after the other.
abbrev pub flush_loop : ℕ → List ℕ → Cached → Cached
flush_loop zero slots s = record s { slots = slots }
flush_loop (suc n) [] s = record s { slots = [] }
flush_loop (suc n) (buf ∷ slots) s = flush_loop n slots (record s { freed = buf ∷ s.freed })

abbrev pub flush_count : ℕ → ℕ
flush_count count = if count / 2 == 0 then count else count / 2

-- `umem_ptc_bin_flush`
pub bin_flush : Bool → Cached → Cached
bin_flush has_cache s =
    if length s.slots == 0
    then s
    else if has_cache
    then flush_loop (flush_count (length s.slots)) s.slots s
    else s

-- The loop of `umem_ptc_bin_refill`; a NULL ends it.
abbrev pub refill_loop : ℕ → ℕ → List (Option ℕ) → Cached → Option Cached
refill_loop capacity zero answers s = some (record s { answers = answers })
refill_loop capacity (suc n) [] s = some (record s { answers = [] })
refill_loop capacity (suc n) (none ∷ answers) s = some (record s { answers = answers })
refill_loop capacity (suc n) (some buf ∷ answers) s =
    let rest = refill_loop capacity n answers (record s { slots = buf ∷ s.slots }) in
    if ltb (length s.slots) capacity then rest else none

-- `umem_ptc_bin_refill`; what it answers is whether the bin, which was empty, has a buffer.
pub bin_refill : ℕ → Bool → Cached → Option Cached
bin_refill capacity has_cache s =
    if has_cache then refill_loop capacity (capacity / 2) s.answers s else some s

-- A buffer, or NULL, and the bin behind.
abbrev pub slot_pop : List ℕ → Cached → Option ℕ × Cached
slot_pop [] s = (none, s)
slot_pop (buf ∷ slots) s = (some buf, record s { slots = slots })

abbrev pub pop_filled : Option Cached → Option (Option ℕ × Cached)
pop_filled none = none
pop_filled (some s) = some (slot_pop s.slots s)

-- `umem_ptc_alloc`, from where the bin is known.
pub ptc_alloc : ℕ → Bool → Cached → Option (Option ℕ × Cached)
unfolding bin_refill
ptc_alloc bin has_cache s =
    if ltb 0 (length s.slots)
    then some (slot_pop s.slots s)
    else pop_filled (bin_refill (bin_capacity bin) has_cache s)

abbrev pub accepted : Option Cached → Option (Bool × Cached)
accepted none = none
accepted (some s) = some (true, s)

-- `umem_ptc_free`, from where the bin is known; false is its -1.
pub ptc_free : ℕ → Bool → ℕ → Cached → Option (Bool × Cached)
unfolding bin_flush
ptc_free bin has_cache buf s =
    let flushed = bin_flush has_cache s in
    if ltb (length s.slots) (bin_capacity bin)
    then accepted (slot_push (bin_capacity bin) buf s)
    else if ltb (length flushed.slots) (bin_capacity bin)
    then accepted (slot_push (bin_capacity bin) buf flushed)
    else some (false, flushed)
