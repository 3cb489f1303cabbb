-- ===== src/Ownership/Tests.antt =====
-- The theorems on owned handles, at a handle with one shared reference.
use libumem.Base.{ℕ, ◌≡◌, refl, true, arith}
use libumem.Ownership.{
  freed, aligned_header_size, Header, error, borrow_conflict, init_header, borrow, drop, require,
  require_owned, require_thread,
}
use libumem.Ownership.Borrows.{World, borrowed, Reach, fresh, after, Agrees, Reach-Agrees, drop_lem}

abbrev junk : Header
junk = record {
  refcount = 9;
  state = 9;
  alloc_size = 9;
  owner_thread = 9;
  borrow_count = 9;
  mut_borrow = 9;
}

abbrev handle : ℕ → ℕ → Header
handle refs state = record {
  refcount = refs;
  state = state;
  alloc_size = 64;
  owner_thread = 7;
  borrow_count = refs;
  mut_borrow = 0;
}

abbrev one_out : World
one_out = record { header = handle 1 1; shared = 1; mutable = 0 }

one_out-Reach : Reach (init_header true 7 64 junk) one_out
unfolding init_header borrow require require_owned require_thread
one_out-Reach = after _ one_out fresh (borrowed 7 (handle 0 1) (handle 1 1) 0 0 (omega arith) refl)

Reach-Agrees_example : Agrees one_out
Reach-Agrees_example = Reach-Agrees 7 64 junk one_out one_out-Reach

drop_lem_example : drop 16 true 7 one_out.header ≡ error borrow_conflict
drop_lem_example = drop_lem 16 7 64 7 junk one_out one_out-Reach refl refl

-- A header of 16 bytes and 64 bytes of data are freed.
handle-dropped : drop 16 true 7 (handle 0 1) ≡ freed (handle 0 3) 80
unfolding drop require_thread aligned_header_size
handle-dropped = refl
