-- ===== src/Malloc/Decision.antt =====
-- malloc.c: what `process_free_umem` accepts, and what it does to the tags.
use mathlib.Core.Path.{subst}
use libumem.Base.{
  ℕ, ◌+◌, ◌≤◌, ◌<◌, ◌≡◌, refl, sym, Bool, true, false, not, ◌||◌, ltb, ◌==◌, if◌then◌else◌, arith,
  Bool-cases, inl, inr,
}
use libumem.Word.{word, add64, sub64}
use libumem.Malloc.{
  Memory, Heap, Freed, rejected, sized, umem_free, vmem_xfree, Block, Decoded, refused, block,
  decode, u32, may_read, may_own, two_tags, layout_of, decode_tags, poison, validate, process_free,
  malloc_magic, malloc_second_magic, malloc_oversize_magic, memalign_magic, free_pattern,
  double_free,
}

-- The tags of a block with the tag nearest to the pointer at `buf`.
record IsDecoded (buf : ℕ) (b : Block) : Type 0 where
  pub some_overhead : 8 ≤ b.overhead
  pub room : sub64 (add64 buf 8) b.base ≡ b.overhead
  pub poison_last : (if b.two_words then b.poison_low + 8 else b.poison_low) ≡ buf

Fits : ℕ → Decoded → Type 0
Fits buf (refused m) = Unit
Fits buf (block b) = IsDecoded buf b

read_back :
    (h : Heap) (buf : ℕ) → buf < word → may_read h (sub64 buf 8) 8 ≡ true → sub64 buf 8 + 8 ≡ buf
unfolding may_read
read_back h buf w r = ground (arith, r)

two_tags-Fits :
    (h : Heap) (mem : Memory) (buf size magic : ℕ) (memalign : Bool)
    → buf < word
    → Fits buf (two_tags h mem buf size magic memalign)
unfolding two_tags Fits
two_tags-Fits h mem buf size magic memalign w = elim (Bool-cases (may_read h (sub64 buf 8) 8)) [
  | inr n ↦ rw n tt
  | inl r ↦ elim (Bool-cases (decode (mem (sub64 buf 8)).stat (mem (sub64 buf 8)).size == magic)) [
    | inr n ↦ rw (r, n) tt
    | inl d ↦
        let p = read_back h buf w r in
        rw (r, d) (record { some_overhead = omega arith; room = omega arith; poison_last = p })
  ]
]

decode_tags-Fits :
    (h : Heap) (mem : Memory) (buf : ℕ) → buf < word → Fits buf (decode_tags h mem buf)
unfolding decode_tags layout_of Fits
decode_tags-Fits h mem buf w =
    let m = decode (mem buf).stat (mem buf).size in
    elim (Bool-cases (may_read h buf 8)) [
      | inr n ↦ rw n tt
      | inl r ↦ elim (Bool-cases (m == malloc_magic)) [
        | inl e ↦
            rw (r, e)
              (record { some_overhead = omega arith; room = omega arith; poison_last = refl })
        | inr a ↦ elim (Bool-cases (m == malloc_second_magic)) [
          | inl e ↦
              rw (r, a, e)
                (record { some_overhead = omega arith; room = omega arith; poison_last = refl })
          | inr b ↦ elim (Bool-cases (m == malloc_oversize_magic)) [
            | inl e ↦ rw (r, a, b, e) (two_tags-Fits h mem buf (mem buf).size malloc_magic false w)
            | inr c ↦ elim (Bool-cases (m == memalign_magic)) [
              | inl e ↦
                  rw (r, a, b, c, e) (two_tags-Fits h mem buf (mem buf).size memalign_magic true w)
              | inr d ↦ rw (r, a, b, c, d) tt
            ]
          ]
        ]
      ]
    ]

-- What may come of a call on a pointer: memory goes back only if asked for, as a range that the heap
-- owns, that begins 8 bytes or more in front of the pointer and that reaches up to it at least.
pub IsOwned : Heap → Bool → ℕ → Freed → Type 0
IsOwned h do_free ptr (rejected m) = Unit
IsOwned h do_free ptr (sized n) = do_free ≡ false
IsOwned h do_free ptr (umem_free base size mem) =
    (do_free ≡ true) × (8 ≤ sub64 ptr base) × (sub64 ptr base ≤ size) × (h.owns base size ≡ true)
IsOwned h do_free ptr (vmem_xfree base size mem) =
    (do_free ≡ true) × (8 ≤ sub64 ptr base) × (sub64 ptr base ≤ size) × (h.owns base size ≡ true)

owned : (h : Heap) (base size : ℕ) → may_own h base size ≡ true → h.owns base size ≡ true
unfolding may_own
owned h base size e = ground (arith, e)

validate-IsOwned :
    (h : Heap) (mem : Memory) (do_free : Bool) (buf : ℕ) (d : Decoded)
    → Fits buf d
    → IsOwned h do_free (add64 buf 8) (validate h mem do_free d)
unfolding validate IsOwned Fits
validate-IsOwned h mem do_free buf (refused m) i = tt
validate-IsOwned h mem do_free buf (block b) i = elim (Bool-cases (ltb b.size b.overhead)) [
  | inl l ↦ rw l tt
  | inr l ↦ elim (Bool-cases (may_own h b.base b.size)) [
    | inr m ↦ rw (l, m) tt
    | inl m ↦ elim (Bool-cases do_free) [
      | inr f ↦ rw (l, m, f) refl
      | inl f ↦
          let s : 8 ≤ sub64 (add64 buf 8) b.base = omega (arith, i.room, i.some_overhead) in
          let t : sub64 (add64 buf 8) b.base ≤ b.size = ground (arith, l, i.room) in
          elim (Bool-cases b.memalign) [
            | inl k ↦ rw (l, m, f, k) (refl, s, t, owned h b.base b.size m)
            | inr k ↦ rw (l, m, f, k) (refl, s, t, owned h b.base b.size m)
          ]
    ]
  ]
]

-- For any memory and any pointer below 2^64, `process_free_umem` gives memory back only if it is asked
-- to free, and then a range that the span lookup says is the heap's, that begins in front of the
-- pointer with 8 bytes or more between, and that is at least as long as what stands between, which are
-- the tags; it reports a size only if it is not asked to free.
pub process_free-IsOwned :
    (h : Heap) (mem : Memory) (ptr : ℕ) (do_free : Bool)
    → ptr < word
    → IsOwned h do_free ptr (process_free h mem ptr do_free)
unfolding process_free
process_free-IsOwned h mem ptr do_free w =
    let buf = sub64 ptr 8 in
    let same : add64 buf 8 ≡ ptr = omega (arith, w) in
    subst (λ p. IsOwned h do_free p (validate h mem do_free (decode_tags h mem buf))) same
      (validate-IsOwned h mem do_free buf (decode_tags h mem buf)
        (decode_tags-Fits h mem buf (omega arith)))

-- The tag next to the pointer has been given the pattern of freed memory, its size kept.
pub IsPoisoned : Memory → ℕ → Freed → Type 0
IsPoisoned mem buf (rejected m) = Unit
IsPoisoned mem buf (sized n) = Unit
IsPoisoned mem buf (umem_free base size mem') =
    ((mem' buf).stat ≡ free_pattern) × ((mem' buf).size ≡ (mem buf).size)
IsPoisoned mem buf (vmem_xfree base size mem') =
    ((mem' buf).stat ≡ free_pattern) × ((mem' buf).size ≡ (mem buf).size)

poison_lem :
    (mem : Memory) (buf : ℕ) (b : Block)
    → IsDecoded buf b
    → ((poison mem b buf).stat ≡ free_pattern) × ((poison mem b buf).size ≡ (mem buf).size)
unfolding poison
poison_lem mem buf b i = elim (Bool-cases b.two_words) [
  | inl k ↦
      let q : b.poison_low + 8 ≡ buf = ground (arith, k, i.poison_last) in
      let same : (b.poison_low + 8 == b.poison_low + 8) ≡ true = ground arith in
      let other : (b.poison_low == b.poison_low + 8) ≡ false = ground arith in
      rw (sym q, k, same, other) (refl, refl)
  | inr k ↦
      let q : b.poison_low ≡ buf = ground (arith, k, i.poison_last) in
      let same : (b.poison_low == b.poison_low) ≡ true = ground arith in
      rw (sym q, k, same) (refl, refl)
]

validate-IsPoisoned :
    (h : Heap) (mem : Memory) (do_free : Bool) (buf : ℕ) (d : Decoded)
    → Fits buf d
    → IsPoisoned mem buf (validate h mem do_free d)
unfolding validate IsPoisoned Fits
validate-IsPoisoned h mem do_free buf (refused m) i = tt
validate-IsPoisoned h mem do_free buf (block b) i =
    elim (Bool-cases (ltb b.size b.overhead || not (may_own h b.base b.size))) [
      | inl l ↦ rw l tt
      | inr l ↦ elim (Bool-cases do_free) [
        | inr f ↦ rw (l, f) tt
        | inl f ↦ elim (Bool-cases b.memalign) [
          | inl k ↦ rw (l, f, k) (poison_lem mem buf b i)
          | inr k ↦ rw (l, f, k) (poison_lem mem buf b i)
        ]
      ]
    ]

-- A tag with the pattern is refused, if its size is less than the least distance to a magic number.
pattern_refused :
    (h : Heap) (mem : Memory) (ptr : ℕ) (do_free : Bool)
    → may_read h (sub64 ptr 8) 8 ≡ true
    → (mem (sub64 ptr 8)).stat ≡ free_pattern
    → (mem (sub64 ptr 8)).size < 674672913
    → process_free h mem ptr do_free ≡ rejected double_free
unfolding process_free decode_tags layout_of validate decode
pattern_refused h mem ptr do_free r e s =
    let size = (mem (sub64 ptr 8)).size in
    let m = u32 (add64 free_pattern size) in
    let a : (m == malloc_magic) ≡ false = ground (arith, s) in
    let b : (m == malloc_second_magic) ≡ false = ground (arith, s) in
    let c : (m == malloc_oversize_magic) ≡ false = ground (arith, s) in
    let d : (m == memalign_magic) ≡ false = ground (arith, s) in rw (r, e, a, b, c, d) refl

-- If `process_free_umem` has given a block to `_umem_free`, and the tag in front of the pointer is
-- still what that call left and may still be read, then a second call refuses the pointer as a
-- double free, if the size in the tag is less than 674672913, the least distance from the pattern
-- of freed memory to a magic number.
pub double_free_lem :
    (h h' : Heap) (mem mem' : Memory) (ptr base size : ℕ) (do_free : Bool)
    → process_free h mem ptr true ≡ umem_free base size mem'
    → may_read h' (sub64 ptr 8) 8 ≡ true
    → (mem (sub64 ptr 8)).size < 674672913
    → process_free h' mem' ptr do_free ≡ rejected double_free
unfolding process_free IsPoisoned
double_free_lem h h' mem mem' ptr base size do_free e r s =
    let buf = sub64 ptr 8 in
    let d = decode_tags-Fits h mem buf (omega arith) in
    let v = validate-IsPoisoned h mem true buf (decode_tags h mem buf) d in
    let p = subst (IsPoisoned mem buf) e v in
    pattern_refused h' mem' ptr do_free r p.0 (subst (λ n. n < 674672913) (sym p.1) s)
