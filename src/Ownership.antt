-- ===== src/Ownership.antt =====
-- umem_own.c: the header of an owned allocation and its operations. `debug` is
-- `umem_ownership_debug`, `self` is `thr_self()`. An error is what `report_error` is called with.
pub mod Borrows
mod Tests
use Prim.Native.Nat.{bit_and}
use libumem.Base.{
  ℕ, zero, suc, ◌+◌, ◌-◌, ◌*◌, ◌%◌, ◌^◌, Bool, true, false, not, ◌&&◌, ◌||◌, Option, none, some,
  List, [], ◌∷◌, inl, inr, ◌⊎◌, ltb, ◌==◌, if◌then◌else◌,
}
use libumem.Word.{add64, not64}

-- UMEM_OWN_STATE_*
abbrev pub state_owned : ℕ
state_owned = 1

abbrev pub state_moved : ℕ
state_moved = 2

abbrev pub state_dropped : ℕ
state_dropped = 3

-- `umem_own_error_t`, of which UMEM_OWN_LEAK is never reported
pub data OwnError : Type 0 where
  use_after_free : OwnError
  use_after_move : OwnError
  double_free : OwnError
  borrow_conflict : OwnError
  thread_violation : OwnError

-- `own_hdr_lite_t`, and behind it the fields that `own_hdr_debug_t` adds.
pub record Header : Type 0 where
  pub refcount : ℕ
  pub state : ℕ
  pub alloc_size : ℕ
  pub owner_thread : ℕ
  pub borrow_count : ℕ
  pub mut_borrow : ℕ

-- `_Atomic uint32_t`, and `_Atomic int32_t` by its bits
abbrev pub word32 : ℕ
word32 = 2 ^ 32

abbrev pub inc32 : ℕ → ℕ
inc32 n = (n + 1) % word32

abbrev pub dec32 : ℕ → ℕ
dec32 n = (n + word32 - 1) % word32

-- `aligned_header_size`, from the size of the header in use
pub aligned_header_size : ℕ → ℕ
aligned_header_size header_size = bit_and (add64 header_size 15) (not64 15)

-- `init_header`, over the bytes that the allocation held before
pub init_header : Bool → ℕ → ℕ → Header → Header
init_header debug self user_size old =
    let lite = record old { refcount = 0; state = state_owned; alloc_size = user_size } in
    if debug then record lite { owner_thread = self; borrow_count = 0; mut_borrow = 0 } else lite

-- `require_owned` of a handle that is not NULL
pub require_owned : Header → Option OwnError
require_owned o =
    if o.state == state_owned
    then none
    else if o.state == state_moved
    then some use_after_move
    else some use_after_free

pub require_thread : Bool → ℕ → Header → Option OwnError
require_thread debug self o =
    if debug && not (o.owner_thread == self) then some thread_violation else none

-- The two requirements that most operations begin with.
pub require : Bool → ℕ → Header → Option OwnError
unfolding require_owned require_thread
require debug self o = elim (require_owned o) [
  | some e ↦ some e
  | none ↦ require_thread debug self o
]

-- What an operation comes to: an error that leaves the header alone, the header afterwards, or the header
-- as it is when the memory that it begins is given to `_umem_free`, and how many bytes that is.
pub data Outcome : Type 0 where
  error : OwnError → Outcome
  done : Header → Outcome
  freed : Header → ℕ → Outcome

-- `umem_deref` returns the data, or NULL behind an error
pub deref : Bool → ℕ → Header → Outcome
unfolding require
deref debug self o = elim (require debug self o) [ some e ↦ error e | none ↦ done o ]

-- `umem_deref_const`, of a handle that may be NULL, looks at no thread.
pub deref_const : Option Header → Outcome
deref_const none = error use_after_free
deref_const (some o) =
    if not (o.state == state_owned)
    then error (if o.state == state_moved then use_after_move else use_after_free)
    else done o

-- `umem_drop`, from the size of the header in use: the header is freed with the allocation.
pub drop : ℕ → Bool → ℕ → Header → Outcome
unfolding require_thread aligned_header_size
drop header_size debug self o =
    let total = add64 (aligned_header_size header_size) o.alloc_size in
    if o.state == state_dropped
    then error double_free
    else if o.state == state_moved
    then error use_after_move
    else if not (o.state == state_owned)
    then error use_after_free
    else elim (require_thread debug self o) [
      | some e ↦ error e
      | none ↦
          if not (o.refcount == 0)
          then error borrow_conflict
          else if debug && (not (o.borrow_count == 0) || not (o.mut_borrow == 0))
          then error borrow_conflict
          else freed (record o { state = state_dropped }) total
    ]

-- `umem_borrow`
pub borrow : Bool → ℕ → Header → Outcome
unfolding require
borrow debug self o = elim (require debug self o) [
  | some e ↦ error e
  | none ↦
      if debug && not (o.mut_borrow == 0)
      then error borrow_conflict
      else done (record o {
        refcount = inc32 o.refcount;
        borrow_count = if debug then inc32 o.borrow_count else o.borrow_count;
      })
]

-- `umem_borrow_mut`
pub borrow_mut : Bool → ℕ → Header → Outcome
unfolding require
borrow_mut debug self o = elim (require debug self o) [
  | some e ↦ error e
  | none ↦
      if debug && not (o.borrow_count == 0)
      then error borrow_conflict
      else if debug && not (o.mut_borrow == 0)
      then error borrow_conflict
      else done
          (record o { refcount = inc32 o.refcount; mut_borrow = if debug then 1 else o.mut_borrow })
]

-- `umem_unborrow` of a reference to the handle, with its `ref_mutable`. On its error it has put the
-- count of references back to 0, where it was.
pub unborrow : Bool → Bool → Header → Outcome
unborrow debug mutable o =
    if o.refcount == 0
    then error borrow_conflict
    else done (record o {
      refcount = dec32 o.refcount;
      mut_borrow = if debug && mutable then 0 else o.mut_borrow;
      borrow_count = if debug && not mutable then dec32 o.borrow_count else o.borrow_count;
    })

-- `umem_move`: the handle that is returned is the one that was given.
pub move : Bool → ℕ → Header → Outcome
unfolding require
move debug self o = elim (require debug self o) [
  | some e ↦ error e
  | none ↦
      if not (o.refcount == 0)
      then error borrow_conflict
      else done
          (if debug then record o { owner_thread = self; borrow_count = 0; mut_borrow = 0 } else o)
]

-- `umem_own_is_valid`
pub is_valid : Option Header → Bool
is_valid none = false
is_valid (some o) = o.state == state_owned

-- `umem_own_state`
pub own_state : Option Header → ℕ
own_state none = 0
own_state (some o) = o.state

-- `umem_own_alloc` and `umem_own_cache_alloc`, from the bytes of the allocation if there is one
pub own_alloc : Bool → ℕ → ℕ → Option Header → Option Header
unfolding init_header
own_alloc debug self size none = none
own_alloc debug self size (some raw) = some (init_header debug self size raw)

-- `umem_clone` before its allocation: the error, or how many bytes will be copied.
pub clone_size : Option Header → ℕ → OwnError ⊎ ℕ
clone_size none size = inl use_after_free
clone_size (some src) size =
    if not (src.state == state_owned)
    then inl (if src.state == state_moved then use_after_move else use_after_free)
    else inr (if ltb size src.alloc_size then size else src.alloc_size)
