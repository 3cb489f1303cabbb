-- ===== src/Sizes/Adding.antt =====
-- umem.c: `umem_alloc_sizes_add` writes inside the table, and keeps it sorted.
use libumem.Base.{
  ℕ, suc, ◌+◌, ◌%◌, ◌≤◌, ◌<◌, ◌≡◌, ◌≢◌, refl, ap, Option, some, List, [], ◌∷◌, length, All, ◌==◌,
  if◌then◌else◌, ◌⊎◌, inl, inr, arith, eq→==, ne→not-==, lt→ltb, le→not-ltb,
}
use native.Mathlib.Decide.{dec_lt, ℕ_discrete}
use libumem.Word.{p2phase, p2roundup}
use libumem.Word.Align.{p2roundup_lem, p2phase_lem}
use libumem.Sizes.{maxbuf, umem_align, last_or, without_last, insert_sorted, sizes_add}
use libumem.Sizes.Sorted.{IsTable}

abbrev pub Has : ℕ → List ℕ → Type 0
Has v [] = ⊥
Has v (x ∷ xs) = (x ≡ v) ⊎ Has v xs

without_last-zeros : (xs : List ℕ) → All (λ y. y ≡ 0) xs → All (λ y. y ≡ 0) (without_last xs)
without_last-zeros [] a = tt
without_last-zeros (x ∷ []) a = tt
without_last-zeros (x ∷ y ∷ xs) a = (a.0, without_last-zeros (y ∷ xs) (a.1))

-- The place that is given up is a free one.
without_last-IsTable :
    (lo d : ℕ) (xs : List ℕ) → IsTable lo xs → last_or d xs ≡ 0 → IsTable lo (without_last xs)
without_last-IsTable lo d [] t e = t
without_last-IsTable lo d (x ∷ []) t e = absurd (omega (arith, t.0, e))
without_last-IsTable lo d (x ∷ y ∷ xs) (l, m, inl (top, z)) e =
    (l, m, inl (top, without_last-zeros (y ∷ xs) z))
without_last-IsTable lo d (x ∷ y ∷ xs) (l, m, inr (b, t)) e =
    (l, m, inr (b, without_last-IsTable x x (y ∷ xs) t e))

without_last-length : (x : ℕ) (xs : List ℕ) → length (without_last (x ∷ xs)) ≡ length xs
without_last-length x [] = refl
without_last-length x (y ∷ xs) = ap suc (without_last-length y xs)

without_last-Has :
    (v d : ℕ) (xs : List ℕ) → 0 < v → last_or d xs ≡ 0 → Has v xs → Has v (without_last xs)
without_last-Has v d [] p e h = h
without_last-Has v d (x ∷ []) p e (inl q) = absurd (omega (arith, p, e, q))
without_last-Has v d (x ∷ []) p e (inr h) = absurd h
without_last-Has v d (x ∷ y ∷ xs) p e (inl q) = inl q
without_last-Has v d (x ∷ y ∷ xs) p e (inr h) = inr (without_last-Has v x (y ∷ xs) p e h)

-- A table with one size more.
record Added (lo size : ℕ) (table added : List ℕ) : Type 0 where
  pub still : IsTable lo added
  pub same_length : length added ≡ length table
  pub has : Has size added
  pub keeps : (v : ℕ) → 0 < v → Has v table → Has v added

pub table_top : (lo x : ℕ) (xs : List ℕ) → IsTable lo (x ∷ xs) → x ≤ maxbuf
table_top lo x xs (l, m, inl (top, z)) = omega (arith, top)
table_top lo x xs (l, m, inr (b, t)) = omega (arith, b)

pub Has-behind :
    (x v : ℕ) (xs ys : List ℕ) → (Has v xs → Has v ys) → Has v (x ∷ xs) → Has v (x ∷ ys)
Has-behind x v xs ys k (inl g) = inl g
Has-behind x v xs ys k (inr g) = inr (k g)

insert_behind :
    (lo d size x : ℕ) (xs : List ℕ)
    → IsTable lo (x ∷ xs)
    → x ≢ size
    → ¬ (size < x)
    → size ≤ maxbuf
    → last_or d (x ∷ xs) ≡ 0
    → (x < maxbuf
        → IsTable x xs
        → (ys : List ℕ) × (insert_sorted size xs ≡ some ys) × Added x size xs ys)
    → (ys : List ℕ) × (insert_sorted size (x ∷ xs) ≡ some ys) × Added lo size (x ∷ xs) ys
insert_behind lo d size x xs (l, m, inl (top, z)) other above h e rest =
    absurd (omega (arith, top, other, above, h))
insert_behind lo d size x xs (l, m, inr (b, t)) other above h e rest =
    let (ys, q, a) = rest b t in
    (
      x ∷ ys,
      rw (ne→not-== x size other, le→not-ltb size x (omega (arith, above)), q) refl,
      record {
        still = (l, m, inr (b, a.still));
        same_length = ap suc a.same_length;
        has = inr a.has;
        keeps = λ v p g. Has-behind x v xs ys (a.keeps v p) g;
      },
    )

insert_sorted-Added :
    (lo d size : ℕ) (xs : List ℕ)
    → IsTable lo xs
    → lo < size
    → size ≤ maxbuf
    → size % umem_align ≡ 0
    → last_or d xs ≡ 0
    → (ys : List ℕ) × (insert_sorted size xs ≡ some ys) × Added lo size xs ys
insert_sorted-Added lo d size [] t l h m e = absurd t
insert_sorted-Added lo d size (x ∷ xs) t l h m e = elim (ℕ_discrete x size) [
  | yes same ↦ (
    x ∷ xs,
    rw (eq→== x size same) refl,
    record { still = t; same_length = refl; has = inl same; keeps = λ v p g. g },
  )
  | no other ↦ elim (dec_lt size x) [
    | yes below ↦ (
      size ∷ without_last (x ∷ xs),
      rw (ne→not-== x size other, lt→ltb size x below) refl,
      record {
        still = (
          l,
          m,
          inr (
            omega (arith, table_top lo x xs t, below),
            without_last-IsTable size d (x ∷ xs) (below, t.1, t.2) e,
          ),
        );
        same_length = ap suc (without_last-length x xs);
        has = inl refl;
        keeps = λ v p g. inr (without_last-Has v d (x ∷ xs) p e g);
      },
    )
    | no above ↦
        insert_behind lo d size x xs t other above h e
          (λ b u. insert_sorted-Added x x size xs u (omega (arith, above, other)) h m e)
  ]
]

-- What an added size makes of a sorted table.
abbrev pub AddOutcome : ℕ → List ℕ → Option (List ℕ) → Type 0
AddOutcome size table result =
    (added : List ℕ) × (result ≡ some added)
    × IsTable 0 added
    × (length added ≡ length table)
    × ((v : ℕ) → 0 < v → Has v table → Has v added)
    × (0 < size
        → size ≤ maxbuf
        → last_or 0 table ≡ 0
        → (r : ℕ) × (r % umem_align ≡ 0) × (size ≤ r) × (r < size + umem_align) × Has r added)

-- What is put in for a size: itself if it is a multiple of 8, else the next one.
rounded :
    (size : ℕ)
    → size ≤ maxbuf
    → let r = if p2phase size umem_align == 0 then size else p2roundup size umem_align in
      (r % umem_align ≡ 0) × (size ≤ r) × (r < size + umem_align) × (r ≤ maxbuf)
rounded size h =
    let phase : p2phase size 8 ≡ size % 8 = p2phase_lem 3 (omega arith) size in
    elim (ℕ_discrete (size % 8) 0) [
      | yes even ↦ rw (phase, eq→== (size % 8) 0 even) (even, omega arith, omega arith, h)
      | no odd ↦
          let (m, a, b) = p2roundup_lem 3 (omega arith) size (omega (arith, h)) in
          rw (phase, ne→not-== (size % 8) 0 odd) (m, a, b, omega (arith, m, b, h))
    ]

same_table :
    (size : ℕ) (table : List ℕ)
    → IsTable 0 table
    → ¬ ((0 < size) × (size ≤ maxbuf) × (last_or 0 table ≡ 0))
    → AddOutcome size table (some table)
same_table size table t n = (table, refl, t, refl, (λ v p g. g), λ a b c. absurd (n (a, b, c)))

-- `umem_alloc_sizes_add` writes inside a sorted table and keeps it sorted, at the same length and with
-- the sizes that it had. If the last place is free, a size from 1 to the greatest, rounded up to the
-- next multiple of 8, is in the table then.
pub sizes_add_lem :
    (size : ℕ) (table : List ℕ) → IsTable 0 table → AddOutcome size table (sizes_add size table)
unfolding sizes_add
sizes_add_lem size table t = elim (ℕ_discrete size 0) [
  | yes none_asked ↦
      rw (eq→== size 0 none_asked) (same_table size table t (λ h. omega (arith, none_asked, h.0)))
  | no asked ↦ elim (dec_lt maxbuf size) [
    | yes above ↦
        rw (ne→not-== size 0 asked, lt→ltb maxbuf size above)
          (same_table size table t (λ h. omega (arith, above, h.1)))
    | no within ↦ elim (ℕ_discrete (last_or 0 table) 0) [
      | no full ↦
          rw
            (
              ne→not-== size 0 asked,
              le→not-ltb maxbuf size (omega (arith, within)),
              ne→not-== (last_or 0 table) 0 full,
            )
            (same_table size table t (λ h. full h.2))
      | yes free ↦
          let (m, a, b, c) = rounded size (omega (arith, within)) in
          let r = if p2phase size umem_align == 0 then size else p2roundup size umem_align in
          let (ys, q, o) = insert_sorted-Added 0 0 r table t (omega (arith, a, asked)) c m free in
          rw
            (
              ne→not-== size 0 asked,
              le→not-ltb maxbuf size (omega (arith, within)),
              eq→== (last_or 0 table) 0 free,
            )
            (ys, q, o.still, o.same_length, o.keeps, λ p h e. (r, m, a, b, o.has))
    ]
  ]
]
