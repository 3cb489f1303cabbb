-- ===== src/Vmem/Valid.antt =====
-- What holds of an arena whenever its lock is free: the segments tile disjoint spans, each free
-- segment is on the freelist of its size and each allocated one in the bucket of its address and
-- nowhere else, the bitmap shows the freelists in use, and the statistics are exact.
use libumem.Base.{Bool, ℕ, ◌+◌, ◌%◌, ◌^◌, ◌≤◌, ◌<◌, ◌≡◌, ◌∙◌, true, ◌&&◌, ◌==◌, arith}
use libumem.Word.{word}
use libumem.Chains.{Table, push, delete}
use libumem.Chains.Count.{indicator, count, nonempty, drop-nonempty, count-push, count-delete}
use libumem.Segs.{Seg, alloc, free}
use libumem.Segs.Tiled.{IsTiled}
use libumem.Segs.Sums.{sum_by, covers, inuse_of, total_of}
use libumem.Vmem.{Vmem, bucket, vs_size, hash_of, freelist_insert, freelist_delete, set_bit}

abbrev pub on_list : ℕ → ℕ → ℕ → ℕ → ℕ
on_list start end i x = indicator ((bucket (vs_size start end) == i) && (start == x))

abbrev pub free_at : ℕ → ℕ → Seg → ℕ
free_at i x (free s e m) = on_list s e i x
free_at i x other = 0

abbrev pub alloc_at : (ℕ → ℕ) → ℕ → ℕ → Seg → ℕ
alloc_at h i x (alloc s e m) = indicator ((h s == i) && (s == x))
alloc_at h i x other = 0

-- The freelists hold what `m` says, and the bitmap shows which are in use.
pub record Lists (freelist : Table) (freemap : ℕ → Bool) (m : ℕ → ℕ → ℕ) : Type 0 where
  pub listed : (i x : ℕ) → count x (freelist i) ≡ m i x
  pub mapped : (i : ℕ) → freemap i ≡ nonempty (freelist i)

pub recount :
    (m m' : ℕ → ℕ → ℕ) (freelist : Table) (freemap : ℕ → Bool)
    → ((i x : ℕ) → m i x ≡ m' i x)
    → Lists freelist freemap m
    → Lists freelist freemap m'
recount m m' freelist freemap e l = record {
  listed = λ i x. l.listed i x ∙ e i x;
  mapped = l.mapped;
}

pub record IsValid (v : Vmem) : Type 0 where
  pub quantum_pow : v.quantum ≡ 2 ^ v.qshift
  pub quantum_small : v.qshift < 64
  pub tiled : IsTiled v.quantum v.segs
  pub apart : (x : ℕ) → sum_by (covers x) v.segs ≤ 1
  pub lists : Lists v.freelist v.freemap (λ i x. sum_by (free_at i x) v.segs)
  pub hashed : (i x : ℕ) → count x (v.hash i) ≡ sum_by (alloc_at (hash_of v) i x) v.segs
  pub inuse : v.mem_inuse ≡ sum_by inuse_of v.segs % word
  pub total : v.mem_total ≡ sum_by total_of v.segs % word

pub freelist_insert-Lists :
    (v : Vmem) (m : ℕ → ℕ → ℕ) (s e : ℕ)
    → Lists v.freelist v.freemap m
    → (let w = freelist_insert v s e in Lists w.freelist w.freemap (λ i x. on_list s e i x + m i x))
unfolding freelist_insert
freelist_insert-Lists v m s e l = record {
  listed = λ i x. omega (arith, count-push v.freelist (bucket (vs_size s e)) i s x, l.listed i x);
  mapped = λ i. pushed i;
}
  where
    pushed :
        (i : ℕ)
        → set_bit v.freemap (bucket (vs_size s e)) true i
          ≡ nonempty (push v.freelist (bucket (vs_size s e)) s i)
    pushed i = unfold push in ground (arith, l.mapped i)

pub freelist_delete-Lists :
    (v : Vmem) (m m' : ℕ → ℕ → ℕ) (s e : ℕ)
    → Lists v.freelist v.freemap m
    → ((i x : ℕ) → m' i x + on_list s e i x ≡ m i x)
    → (let w = freelist_delete v s e in Lists w.freelist w.freemap m')
unfolding freelist_delete
freelist_delete-Lists v m m' s e l h = record {
  listed = λ i x. omega (arith, count-delete v.freelist b i s x there, l.listed i x, h i x);
  mapped = λ i.
      unfold delete in ground (arith, l.mapped i, l.mapped b, drop-nonempty s (v.freelist b) there);
}
  where
    b : ℕ
    b = bucket (vs_size s e)

    there : 0 < count s (v.freelist b)
    there = ground (arith, h b s, l.listed b s)
