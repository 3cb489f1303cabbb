-- ===== src/Vmem/Size.antt =====
-- What `vmem_contains` says of a valid arena.
use libumem.Base.{
  ◌↔◌, ℕ, ◌+◌, ◌-◌, ◌≤◌, ◌<◌, ◌≡◌, refl, Bool, true, false, ◌&&◌, ◌||◌, List, [], ◌∷◌, leb, ◌⊎◌,
  inl, inr, arith,
}
use libumem.Word.{word, add64, sub64, p2roundup}
use libumem.Segs.{Seg, span, alloc, free, rotor}
use libumem.Segs.Tiled.{After}
use libumem.Vmem.{Vmem, contains}
use libumem.Vmem.Valid.{IsValid}

-- One of the spans has the whole range from `start` on.
abbrev pub InSpan : ℕ → ℕ → List Seg → Type 0
InSpan start size [] = ⊥
InSpan start size (span s e ∷ ss) = ((s ≤ start) × (start + size ≤ e)) ⊎ InSpan start size ss
InSpan start size (other ∷ ss) = InSpan start size ss

in_span :
    (s e start size : ℕ)
    → s < e
    → e < word
    → 0 < size
    → start + size < word
    → ((leb s start && leb (sub64 (add64 start size) 1) (sub64 e 1)) ≡ true
        → (s ≤ start) × (start + size ≤ e))
      × ((s ≤ start)
          → (start + size ≤ e)
          → (leb s start && leb (sub64 (add64 start size) 1) (sub64 e 1)) ≡ true)
in_span s e start size h w p q =
    let a : sub64 (add64 start size) 1 ≡ start + size - 1 = omega arith in
    let b : sub64 e 1 ≡ e - 1 = omega arith in
    rw (a, b) ((λ t. ground (arith, t, h, p)), λ u v. ground (arith, u, v, h, p))

or-true : (a b : Bool) → (a || b) ≡ true → (a ≡ true) ⊎ (b ≡ true)
or-true true b h = inl refl
or-true false b h = inr h

or_true : (a : Bool) → (a || true) ≡ true
or_true true = refl
or_true false = refl

contains-InSpan :
    (q c l start size : ℕ) (f : Bool) (ss : List Seg)
    → After q c l f ss
    → 0 < size
    → start + size < word
    → (contains ss start size ≡ true → InSpan start size ss)
      × (InSpan start size ss → contains ss start size ≡ true)
unfolding contains
contains-InSpan q c l start size f [] a p w = ((λ h. ground (arith, h)), λ h. absurd h)
contains-InSpan q c l start size f (span s e ∷ ss) a p w =
    let (to, from) = contains-InSpan q s e start size false ss (a.5) p w in
    let (in_to, in_from) = in_span s e start size (a.1) (a.2) p w in
    (
      (λ h. elim (or-true _ (contains ss start size) h) [
        | inl t ↦ inl (in_to t)
        | inr r ↦ inr (to r)
      ]),
      λ h. elim h [
        | inl (u, v) ↦ rw (in_from u v) refl
        | inr r ↦
            rw (from r) (or_true (leb s start && leb (sub64 (add64 start size) 1) (sub64 e 1)))
      ],
    )
contains-InSpan q c l start size f (alloc s e i ∷ ss) a p w =
    contains-InSpan q (p2roundup e q) l start size false ss (a.5) p w
contains-InSpan q c l start size f (free s e i ∷ ss) a p w =
    contains-InSpan q e l start size true ss (a.6) p w
contains-InSpan q c l start size f (rotor ∷ ss) a p w =
    contains-InSpan q c l start size false ss a p w

-- In a valid arena `vmem_contains` accepts a range that is not empty and does not wrap exactly if one
-- span has the whole of it.
pub contains_lem :
    (v : Vmem) (start size : ℕ)
    → IsValid v
    → 0 < size
    → start + size < word
    → (contains v.segs start size ≡ true) ↔ InSpan start size v.segs
contains_lem v start size h p w = contains-InSpan v.quantum 0 0 start size false v.segs h.tiled p w
