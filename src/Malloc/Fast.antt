-- ===== src/Malloc/Fast.antt =====
-- malloc.c: the fast path of `umem_malloc_free` beside `process_free_umem`.
use libumem.Base.{ℕ, true, false, ◌≡◌, refl, ltb, ◌==◌, arith, Bool-cases, inl, inr}
use libumem.Word.{sub64}
use libumem.Malloc.{
  Memory, Heap, write, free_pattern, umem_free, decode, hull_contains, may_read, may_own, layout_of,
  decode_tags, poison, validate, process_free, umem_malloc_free, malloc_magic, malloc_second_magic,
}

module _ (h : Heap) (mem : Memory) (ptr : ℕ) where
  first_block :
      hull_contains h.seen (sub64 ptr 8) 8 ≡ true
      → (decode (mem (sub64 ptr 8)).stat (mem (sub64 ptr 8)).size == malloc_magic) ≡ true
      → ltb (mem (sub64 ptr 8)).size 8 ≡ false
      → hull_contains h.seen (sub64 ptr 8) (mem (sub64 ptr 8)).size ≡ true
      → h.owns (sub64 ptr 8) (mem (sub64 ptr 8)).size ≡ true
      → umem_free
          (sub64 ptr 8)
          (mem (sub64 ptr 8)).size
          (write mem (sub64 ptr 8) (record (mem (sub64 ptr 8)) { stat = free_pattern }))
        ≡ process_free h mem ptr true
  unfolding process_free validate decode_tags layout_of may_read may_own poison
  first_block a b c d e = rw (a, b, c, d, e) refl

  second_block :
      hull_contains h.seen (sub64 ptr 8) 8 ≡ true
      → (decode (mem (sub64 ptr 8)).stat (mem (sub64 ptr 8)).size == malloc_second_magic) ≡ true
      → ltb (mem (sub64 ptr 8)).size 16 ≡ false
      → hull_contains h.seen (sub64 (sub64 ptr 8) 8) (mem (sub64 ptr 8)).size ≡ true
      → h.owns (sub64 (sub64 ptr 8) 8) (mem (sub64 ptr 8)).size ≡ true
      → umem_free
          (sub64 (sub64 ptr 8) 8)
          (mem (sub64 ptr 8)).size
          (write mem (sub64 ptr 8) (record (mem (sub64 ptr 8)) { stat = free_pattern }))
        ≡ process_free h mem ptr true
  unfolding process_free validate decode_tags layout_of may_read may_own poison
  second_block a b c d e =
      let n : (decode (mem (sub64 ptr 8)).stat (mem (sub64 ptr 8)).size == malloc_magic) ≡ false =
        ground (arith, b) in
      rw (a, n, b, c, d, e) refl

-- For any memory and any pointer that is neither NULL nor a bootstrap pointer, `umem_malloc_free`
-- comes to what `process_free_umem` comes to: the same refusal, or the same block given back with
-- the same memory behind it.
pub umem_malloc_free_lem :
    (h : Heap) (mem : Memory) (ptr : ℕ) → umem_malloc_free h mem ptr ≡ process_free h mem ptr true
unfolding umem_malloc_free
umem_malloc_free_lem h mem ptr =
    let hdr = sub64 ptr 8 in
    let size = (mem hdr).size in
    elim (Bool-cases (hull_contains h.seen hdr 8)) [
      | inr a ↦ rw a refl
      | inl a ↦ elim (Bool-cases (decode (mem hdr).stat size == malloc_second_magic)) [
        | inl b ↦ elim (Bool-cases (ltb size 16)) [
          | inl c ↦ rw (a, b, c) refl
          | inr c ↦ elim (Bool-cases (hull_contains h.seen (sub64 hdr 8) size)) [
            | inr d ↦ rw (a, b, c, d) refl
            | inl d ↦ elim (Bool-cases (h.owns (sub64 hdr 8) size)) [
              | inr e ↦ rw (a, b, c, d, e) refl
              | inl e ↦ rw (a, b, c, d, e) (second_block h mem ptr a b c d e)
            ]
          ]
        ]
        | inr n ↦ elim (Bool-cases (decode (mem hdr).stat size == malloc_magic)) [
          | inr b ↦ rw (a, n, b) refl
          | inl b ↦ elim (Bool-cases (ltb size 8)) [
            | inl c ↦ rw (a, n, b, c) refl
            | inr c ↦ elim (Bool-cases (hull_contains h.seen hdr size)) [
              | inr d ↦ rw (a, n, b, c, d) refl
              | inl d ↦ elim (Bool-cases (h.owns hdr size)) [
                | inr e ↦ rw (a, n, b, c, d, e) refl
                | inl e ↦ rw (a, n, b, c, d, e) (first_block h mem ptr a b c d e)
              ]
            ]
          ]
        ]
      ]
    ]
