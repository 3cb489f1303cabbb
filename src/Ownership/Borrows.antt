-- ===== src/Ownership/Borrows.antt =====
-- The borrows of one handle in debug mode, as the sequence of calls that its threads make.
use libumem.Base.{
  ℕ, suc, ◌+◌, ◌<◌, ◌≡◌, ◌≢◌, ◌⊎◌, refl, Bool, true, false, ◌==◌, if◌then◌else◌, arith, inl,
}
use libumem.Word.{add64}
use libumem.Ownership.{
  Header, error, done, borrow_conflict, freed, aligned_header_size, init_header, require_owned,
  require_thread, require, drop, borrow, borrow_mut, unborrow, move, word32, inc32, dec32,
  state_owned, state_dropped,
}

-- A handle, and how many references to it are out: shared ones, and mutable ones.
pub record World : Type 0 where
  pub header : Header
  pub shared : ℕ
  pub mutable : ℕ

-- One call that succeeds. A reference is given back once, and fewer references are out than 32 bits
-- count. A drop leaves the header as it is when its memory is freed.
pub data Step : World → World → Type 0 where
  borrowed :
      (self : ℕ) (o o' : Header) (s m : ℕ)
      → s + m + 1 < word32
      → borrow true self o ≡ done o'
      → Step
          (record { header = o; shared = s; mutable = m })
          (record { header = o'; shared = suc s; mutable = m })
  borrowed_mut :
      (self : ℕ) (o o' : Header) (s m : ℕ)
      → s + m + 1 < word32
      → borrow_mut true self o ≡ done o'
      → Step
          (record { header = o; shared = s; mutable = m })
          (record { header = o'; shared = s; mutable = suc m })
  returned :
      (o o' : Header) (s m : ℕ)
      → unborrow true false o ≡ done o'
      → Step
          (record { header = o; shared = suc s; mutable = m })
          (record { header = o'; shared = s; mutable = m })
  returned_mut :
      (o o' : Header) (s m : ℕ)
      → unborrow true true o ≡ done o'
      → Step
          (record { header = o; shared = s; mutable = suc m })
          (record { header = o'; shared = s; mutable = m })
  moved :
      (self : ℕ) (o o' : Header) (s m : ℕ)
      → move true self o ≡ done o'
      → Step
          (record { header = o; shared = s; mutable = m })
          (record { header = o'; shared = s; mutable = m })
  dropped :
      (header_size self total : ℕ) (o o' : Header) (s m : ℕ)
      → drop header_size true self o ≡ freed o' total
      → Step
          (record { header = o; shared = s; mutable = m })
          (record { header = o'; shared = s; mutable = m })

-- What a new handle can come to.
pub data Reach (start : Header) : World → Type 0 where
  fresh : Reach start (record { header = start; shared = 0; mutable = 0 })
  after : (w w' : World) → Reach start w → Step w w' → Reach start w'

-- The counts of the header are those of the references that are out, and a mutable reference is
-- alone.
pub record Agrees (w : World) : Type 0 where
  pub few : w.shared + w.mutable < word32
  pub counted : w.header.refcount ≡ w.shared + w.mutable
  pub shared_counted : w.header.borrow_count ≡ w.shared
  pub mutable_counted : w.header.mut_borrow ≡ w.mutable
  pub exclusive : w.mutable ≡ 0 ⊎ ((w.mutable ≡ 1) × (w.shared ≡ 0))

-- What each call that succeeds has found and done, in debug mode.
borrow_done :
    (self : ℕ) (o o' : Header)
    → borrow true self o ≡ done o'
    → (o.mut_borrow ≡ 0)
      × (o'.refcount ≡ inc32 o.refcount)
      × (o'.borrow_count ≡ inc32 o.borrow_count)
      × (o'.mut_borrow ≡ o.mut_borrow)
unfolding borrow require require_owned require_thread
borrow_done self o o' e = ground (arith, e)

borrow_mut_done :
    (self : ℕ) (o o' : Header)
    → borrow_mut true self o ≡ done o'
    → (o.mut_borrow ≡ 0)
      × (o.borrow_count ≡ 0)
      × (o'.refcount ≡ inc32 o.refcount)
      × (o'.borrow_count ≡ o.borrow_count)
      × (o'.mut_borrow ≡ 1)
unfolding borrow_mut require require_owned require_thread
borrow_mut_done self o o' e = ground (arith, e)

unborrow_done :
    (mutable : Bool) (o o' : Header)
    → unborrow true mutable o ≡ done o'
    → (o.refcount ≢ 0)
      × (o'.refcount ≡ dec32 o.refcount)
      × (o'.borrow_count ≡ (if mutable then o.borrow_count else dec32 o.borrow_count))
      × (o'.mut_borrow ≡ (if mutable then 0 else o.mut_borrow))
unfolding unborrow
unborrow_done true o o' e = ground (arith, e)
unborrow_done false o o' e = ground (arith, e)

move_done :
    (self : ℕ) (o o' : Header)
    → move true self o ≡ done o'
    → (o.refcount ≡ 0) × (o'.refcount ≡ o.refcount) × (o'.borrow_count ≡ 0) × (o'.mut_borrow ≡ 0)
unfolding move require require_owned require_thread
move_done self o o' e = ground (arith, e)

drop_done :
    (header_size self total : ℕ) (o o' : Header)
    → drop header_size true self o ≡ freed o' total
    → (o.refcount ≡ 0)
      × (o'.refcount ≡ o.refcount)
      × (o'.borrow_count ≡ o.borrow_count)
      × (o'.mut_borrow ≡ o.mut_borrow)
      × (o'.state ≡ state_dropped)
unfolding drop require_thread
drop_done header_size self total o o' e = ground (arith, e)

-- Every call keeps the counts right and a mutable reference alone.
Step-Agrees : (w w' : World) → Step w w' → Agrees w → Agrees w'
Step-Agrees w w' (borrowed self o o' s m b e) a =
    let d = borrow_done self o o' e in
    record {
      few = omega arith;
      counted = omega (arith, a.counted);
      shared_counted = omega (arith, a.shared_counted);
      mutable_counted = omega (arith, a.mutable_counted);
      exclusive = ground (arith, a.mutable_counted);
    }
Step-Agrees w w' (borrowed_mut self o o' s m b e) a =
    let d = borrow_mut_done self o o' e in
    record {
      few = omega arith;
      counted = omega (arith, a.counted);
      shared_counted = omega (arith, a.shared_counted);
      mutable_counted = omega (arith, a.mutable_counted);
      exclusive = ground (arith, a.mutable_counted, a.shared_counted);
    }
Step-Agrees w w' (returned o o' s m e) a =
    let d = unborrow_done false o o' e in
    record {
      few = omega (arith, a.few);
      counted = omega (arith, a.counted, a.few);
      shared_counted = omega (arith, a.shared_counted, a.few);
      mutable_counted = omega (arith, a.mutable_counted);
      exclusive = ground (arith, a.exclusive);
    }
Step-Agrees w w' (returned_mut o o' s m e) a =
    let d = unborrow_done true o o' e in
    record {
      few = omega (arith, a.few);
      counted = omega (arith, a.counted, a.few);
      shared_counted = omega (arith, a.shared_counted);
      mutable_counted = ground (arith, a.exclusive);
      exclusive = ground (arith, a.exclusive);
    }
Step-Agrees w w' (moved self o o' s m e) a =
    let d = move_done self o o' e in
    record {
      few = a.few;
      counted = omega (arith, a.counted);
      shared_counted = omega (arith, a.counted);
      mutable_counted = omega (arith, a.counted);
      exclusive = a.exclusive;
    }
Step-Agrees w w' (dropped header_size self total o o' s m e) a =
    let d = drop_done header_size self total o o' e in
    record {
      few = a.few;
      counted = omega (arith, a.counted);
      shared_counted = omega (arith, a.shared_counted);
      mutable_counted = omega (arith, a.mutable_counted);
      exclusive = a.exclusive;
    }

-- Whatever calls succeed on a new handle in debug mode, while fewer than 2^32 references are out
-- and each is given back once, its counts are those of the references that are out, and a mutable
-- reference is never out together with another one.
pub Reach-Agrees :
    (owner size : ℕ) (old : Header) (w : World)
    → Reach (init_header true owner size old) w
    → Agrees w
unfolding init_header
Reach-Agrees owner size old w fresh = record {
  few = omega arith;
  counted = refl;
  shared_counted = refl;
  mutable_counted = refl;
  exclusive = inl refl;
}
Reach-Agrees owner size old w (after v u r s) = Step-Agrees v u s (Reach-Agrees owner size old v r)

-- In debug mode the drop of a live handle by its owner gives the header and the data behind it to
-- `_umem_free`, in the state of a dropped one, if no reference is out, and otherwise reports a conflict.
pub drop_lem :
    (header_size owner size self : ℕ) (old : Header) (w : World)
    → Reach (init_header true owner size old) w
    → w.header.state ≡ state_owned
    → w.header.owner_thread ≡ self
    → drop header_size true self w.header ≡ (
        if w.shared + w.mutable == 0
        then freed
            (record (w.header) { state = state_dropped })
            (add64 (aligned_header_size header_size) w.header.alloc_size)
        else error borrow_conflict)
unfolding drop require_thread
drop_lem header_size owner size self old w r live mine =
    let a = Reach-Agrees owner size old w r in
    ground (arith, a.counted, a.shared_counted, a.mutable_counted, live, mine)
