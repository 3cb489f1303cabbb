-- ===== src/Sizes/Removing.antt =====
-- umem.c: what `umem_alloc_sizes_remove` does to the table, and when it writes behind its end.
use libumem.Base.{
  ℕ, suc, ◌-◌, ◌≤◌, ◌<◌, ◌≡◌, ◌≢◌, refl, sym, ◌∙◌, ap, Bool, true, false, Option, none, some, List,
  [], ◌∷◌, length, All, ◌==◌, if◌then◌else◌, inl, inr, arith, eq→==, ne→not-==, lt→ltb, le→not-ltb,
}
use native.Mathlib.Decide.{dec_lt, ℕ_discrete}
use libumem.Sizes.{maxbuf, last_or, shifted, remove_sorted, sizes_remove}
use libumem.Sizes.Sorted.{IsTable}
use libumem.Sizes.Adding.{Has, Has-behind}

shifted-zeros : (xs : List ℕ) → All (λ y. y ≡ 0) xs → All (λ y. y ≡ 0) (shifted xs)
shifted-zeros [] a = (refl, tt)
shifted-zeros (x ∷ xs) a = (a.0, shifted-zeros xs (a.1))

shifted-IsTable : (lo : ℕ) (xs : List ℕ) → IsTable lo xs → IsTable lo (shifted xs)
shifted-IsTable lo [] t = absurd t
shifted-IsTable lo (x ∷ xs) (l, m, inl (top, z)) = (l, m, inl (top, shifted-zeros xs z))
shifted-IsTable lo (x ∷ xs) (l, m, inr (b, t)) = (l, m, inr (b, shifted-IsTable x xs t))

shifted-length : (xs : List ℕ) → length (shifted xs) ≡ suc (length xs)
shifted-length [] = refl
shifted-length (x ∷ xs) = ap suc (shifted-length xs)

Has-shifted : (v : ℕ) (xs : List ℕ) → Has v xs → Has v (shifted xs)
Has-shifted v [] h = absurd h
Has-shifted v (x ∷ xs) h = Has-behind x v xs (shifted xs) (Has-shifted v xs) h

IsTable-lower : (lo lo' : ℕ) (xs : List ℕ) → lo' ≤ lo → IsTable lo xs → IsTable lo' xs
IsTable-lower lo lo' [] h t = t
IsTable-lower lo lo' (x ∷ xs) h (l, m, r) = (omega (arith, h, l), m, r)

zeros-below : (v : ℕ) (xs : List ℕ) → All (λ y. y ≡ 0) xs → 0 < v → ¬ Has v xs
zeros-below v [] a p h = h
zeros-below v (x ∷ xs) a p (inl q) = omega (arith, a.0, p, q)
zeros-below v (x ∷ xs) a p (inr h) = zeros-below v xs (a.1) p h

-- A size that a sorted table has is above its bound.
Has-above : (lo v : ℕ) (xs : List ℕ) → IsTable lo xs → 0 < v → Has v xs → lo < v
Has-above lo v [] t p h = absurd h
Has-above lo v (x ∷ xs) (l, m, r) p (inl q) = omega (arith, l, q)
Has-above lo v (x ∷ xs) (l, m, inl (top, z)) p (inr h) = absurd (zeros-below v xs z p h)
Has-above lo v (x ∷ xs) (l, m, inr (b, t)) p (inr h) = omega (arith, l, Has-above x v xs t p h)

-- A table with one size less.
pub record Removed (lo size : ℕ) (table removed : List ℕ) : Type 0 where
  pub still : IsTable lo removed
  pub same_length : length removed ≡ length table
  pub gone : 0 < size → ¬ Has size removed
  pub keeps : (v : ℕ) → v ≢ size → Has v table → Has v removed

remove_first :
    (lo size x : ℕ) (xs : List ℕ)
    → IsTable lo (x ∷ xs)
    → x ≡ size
    → size < maxbuf
    → Removed lo size (x ∷ xs) (shifted xs)
remove_first lo size x xs (l, m, inl (top, z)) same h = absurd (omega (arith, top, same, h))
remove_first lo size x xs (l, m, inr (b, t)) same h =
    let u = shifted-IsTable x xs t in
    record {
      still = IsTable-lower x lo (shifted xs) (omega (arith, l)) u;
      same_length = shifted-length xs;
      gone = λ p g. omega (arith, same, Has-above x size (shifted xs) u p g);
      keeps = λ v other g. elim g [
        | inl q ↦ absurd (other (sym q ∙ same))
        | inr k ↦ Has-shifted v xs k
      ];
    }

remove_behind :
    (lo size x : ℕ) (xs : List ℕ)
    → IsTable lo (x ∷ xs)
    → x < size
    → size < maxbuf
    → (IsTable x xs → (ys : List ℕ) × (remove_sorted size xs ≡ some ys) × Removed x size xs ys)
    → (ys : List ℕ) × (remove_sorted size (x ∷ xs) ≡ some ys) × Removed lo size (x ∷ xs) ys
remove_behind lo size x xs (l, m, inl (top, z)) above h rest = absurd (omega (arith, top, above, h))
remove_behind lo size x xs (l, m, inr (b, t)) above h rest =
    let (ys, q, r) = rest t in
    (
      x ∷ ys,
      rw
          (
            ne→not-== x size (omega (arith, above)),
            le→not-ltb size x (omega (arith, above)),
            ne→not-== x 0 (omega (arith, l)),
            q,
          )
          refl,
      record {
        still = (l, m, inr (b, r.still));
        same_length = ap suc r.same_length;
        gone = λ p g. elim g [ inl e ↦ omega (arith, above, e) | inr k ↦ r.gone p k ];
        keeps = λ v other g. Has-behind x v xs ys (r.keeps v other) g;
      },
    )

remove_sorted-Removed :
    (lo size : ℕ) (xs : List ℕ)
    → IsTable lo xs
    → size < maxbuf
    → (ys : List ℕ) × (remove_sorted size xs ≡ some ys) × Removed lo size xs ys
remove_sorted-Removed lo size [] t h = absurd t
remove_sorted-Removed lo size (x ∷ xs) t h = elim (ℕ_discrete x size) [
  | yes same ↦ (shifted xs, rw (eq→== x size same) refl, remove_first lo size x xs t same h)
  | no other ↦ elim (dec_lt size x) [
    | yes below ↦ (
      x ∷ xs,
      rw (ne→not-== x size other, lt→ltb size x below) refl,
      record {
        still = t;
        same_length = refl;
        gone = λ p g.
            omega
              (arith, below, Has-above (x - 1) size (x ∷ xs) (omega (arith, t.0), t.1, t.2) p g);
        keeps = λ v o g. g;
      },
    )
    | no above ↦
        remove_behind lo size x xs t (omega (arith, above, other)) h
          (λ u. remove_sorted-Removed x size xs u h)
  ]
]

last_or-zeros : (d : ℕ) (xs : List ℕ) → d ≡ 0 → All (λ y. y ≡ 0) xs → last_or d xs ≡ 0
last_or-zeros d [] e z = e
last_or-zeros d (x ∷ xs) e z = last_or-zeros x xs z.0 z.1

-- For a size above the greatest the loop ends at the first free place, if there is one.
past_top :
    (d size x : ℕ) (xs : List ℕ)
    → x ≡ maxbuf
    → maxbuf < size
    → All (λ y. y ≡ 0) xs
    → remove_sorted size (x ∷ xs) ≡ (if last_or d (x ∷ xs) == 0 then some (x ∷ xs) else none)
past_top d size x [] top h z =
    rw
      (
        ne→not-== x size (omega (arith, top, h)),
        le→not-ltb size x (omega (arith, top, h)),
        ne→not-== x 0 (omega (arith, top)),
      )
      refl
past_top d size x (y ∷ ys) top h z =
    rw
      (
        ne→not-== x size (omega (arith, top, h)),
        le→not-ltb size x (omega (arith, top, h)),
        ne→not-== x 0 (omega (arith, top)),
        ne→not-== y size (omega (arith, z.0, h)),
        le→not-ltb size y (omega (arith, z.0, h)),
        eq→== y 0 z.0,
        eq→== (last_or y ys) 0 (last_or-zeros y ys z.0 z.1),
      )
      refl

push_if :
    (b : Bool) (x : ℕ) (xs : List ℕ)
    → elim (if b then some xs else none) as (λ o. Option (List ℕ)) [
      | none ↦ none
      | some ys ↦ some (x ∷ ys)
    ]
      ≡ (if b then some (x ∷ xs) else none)
push_if true x xs = refl
push_if false x xs = refl

remove_sorted-past :
    (lo d size : ℕ) (xs : List ℕ)
    → IsTable lo xs
    → maxbuf < size
    → remove_sorted size xs ≡ (if last_or d xs == 0 then some xs else none)
remove_sorted-past lo d size [] t h = absurd t
remove_sorted-past lo d size (x ∷ xs) (l, m, inl (top, z)) h = past_top d size x xs top h z
remove_sorted-past lo d size (x ∷ xs) (l, m, inr (b, t)) h =
    rw
      (
        ne→not-== x size (omega (arith, b, h)),
        le→not-ltb size x (omega (arith, b, h)),
        ne→not-== x 0 (omega (arith, l)),
        remove_sorted-past x x size xs t h,
      )
      (push_if (last_or x xs == 0) x xs)

-- For a size below the greatest, `umem_alloc_sizes_remove` keeps a sorted table sorted and of the same length,
-- takes that size out and leaves every other in it; the greatest is not taken out. For a size above the
-- greatest it changes nothing if the last place of the table is free, and writes behind the table's
-- end if the table is full.
pub sizes_remove_lem :
    (size : ℕ) (table : List ℕ)
    → IsTable 0 table
    → (size < maxbuf
        → (removed : List ℕ) × (sizes_remove size table ≡ some removed)
          × Removed 0 size table removed)
      × (size ≡ maxbuf → sizes_remove size table ≡ some table)
      × (maxbuf < size
          → sizes_remove size table ≡ (if last_or 0 table == 0 then some table else none))
unfolding sizes_remove
sizes_remove_lem size table t = (
  (λ h. rw (ne→not-== size maxbuf (omega (arith, h))) (remove_sorted-Removed 0 size table t h)),
  (λ e. rw (eq→== size maxbuf e) refl),
  λ h. rw (ne→not-== size maxbuf (omega (arith, h))) (remove_sorted-past 0 0 size table t h),
)
