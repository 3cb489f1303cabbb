-- ===== src/Segs/Tiled.antt =====
-- The segments of an arena tile its spans: each begins where the last one ended, no two free ones
-- are neighbours, and everything is aligned to the quantum.
use libumem.Base.{
  ℕ, ◌%◌, ◌≤◌, ◌<◌, ◌≡◌, refl, List, [], ◌∷◌, ◌==◌, Bool, true, false, some, arith, Bool-cases, inl,
  inr,
}
use libumem.Word.{word, p2roundup}
use libumem.Segs.{Seg, span, alloc, free, rotor, Place, rev_append, locate_free, locate_alloc}

module _ (q : ℕ) where
  -- Where the next segment must begin, where the span ends, and whether a free segment came last.
  abbrev pub After : ℕ → ℕ → Bool → List Seg → Type 0
  After cursor limit freed [] = cursor ≡ limit
  After cursor limit freed (span s e ∷ ss) =
      (cursor ≡ limit) × (s < e) × (e < word) × (s % q ≡ 0) × (e % q ≡ 0) × After s e false ss
  After cursor limit freed (alloc s e i ∷ ss) =
      (s ≡ cursor)
      × (s < e)
      × (s % q ≡ 0)
      × (e ≤ p2roundup e q)
      × (p2roundup e q ≤ limit)
      × After (p2roundup e q) limit false ss
  After cursor limit freed (free s e i ∷ ss) =
      (s ≡ cursor)
      × (s < e)
      × (s % q ≡ 0)
      × (e % q ≡ 0)
      × (e ≤ limit)
      × (freed ≡ false)
      × After e limit true ss
  After cursor limit freed (rotor ∷ ss) = After cursor limit false ss

  -- The same three, read off the segments before a place, nearest first.
  abbrev pub cursor : List Seg → ℕ
  cursor [] = 0
  cursor (span s e ∷ ss) = s
  cursor (alloc s e i ∷ ss) = p2roundup e q
  cursor (free s e i ∷ ss) = e
  cursor (rotor ∷ ss) = cursor ss

abbrev pub limit : List Seg → ℕ
limit [] = 0
limit (span s e ∷ ss) = e
limit (other ∷ ss) = limit ss

abbrev pub freed : List Seg → Bool
freed (free s e i ∷ ss) = true
freed other = false

module _ (q : ℕ) where
  abbrev pub Before : List Seg → Type 0
  Before [] = Unit {0}
  Before (span s e ∷ ss) =
      (cursor q ss ≡ limit ss) × (s < e) × (e < word) × (s % q ≡ 0) × (e % q ≡ 0) × Before ss
  Before (alloc s e i ∷ ss) =
      (s ≡ cursor q ss)
      × (s < e)
      × (s % q ≡ 0)
      × (e ≤ p2roundup e q)
      × (p2roundup e q ≤ limit ss)
      × Before ss
  Before (free s e i ∷ ss) =
      (s ≡ cursor q ss)
      × (s < e)
      × (s % q ≡ 0)
      × (e % q ≡ 0)
      × (e ≤ limit ss)
      × (freed ss ≡ false)
      × Before ss
  Before (rotor ∷ ss) = Before ss

  abbrev pub IsTiled : List Seg → Type 0
  IsTiled = After q 0 0 false

  -- The two sides of a place.
  abbrev pub Context : List Seg → List Seg → Type 0
  Context before after =
      Before before × After q (cursor q before) (limit before) (freed before) after

  -- Moving the place by one segment.
  pub move_right :
      (s : Seg) (before after : List Seg) → Context before (s ∷ after) → Context (s ∷ before) after
  move_right (span s e) before after (b, a) = ((a.0, a.1, a.2, a.3, a.4, b), a.5)
  move_right (alloc s e i) before after (b, a) = ((a.0, a.1, a.2, a.3, a.4, b), a.5)
  move_right (free s e i) before after (b, a) = ((a.0, a.1, a.2, a.3, a.4, a.5, b), a.6)
  move_right rotor before after (b, a) = (b, a)

  pub move_left :
      (s : Seg) (before after : List Seg) → Context (s ∷ before) after → Context before (s ∷ after)
  move_left (span s e) before after (b, a) = (b.5, (b.0, b.1, b.2, b.3, b.4, a))
  move_left (alloc s e i) before after (b, a) = (b.5, (b.0, b.1, b.2, b.3, b.4, a))
  move_left (free s e i) before after (b, a) = (b.6, (b.0, b.1, b.2, b.3, b.4, b.5, a))
  move_left rotor before after (b, a) = (b, a)

  -- The list is tiled if the two sides of a place are.
  pub Context-IsTiled :
      (before after : List Seg) → Context before after → IsTiled (rev_append before after)
  Context-IsTiled [] after c = c.1
  Context-IsTiled (s ∷ before) after c =
      Context-IsTiled before (s ∷ after) (move_left s before after c)

  pub limit-lt-word : (before : List Seg) → Before before → limit before < word
  limit-lt-word [] b = omega arith
  limit-lt-word (span s e ∷ ss) b = b.2
  limit-lt-word (alloc s e i ∷ ss) b = limit-lt-word ss b.5
  limit-lt-word (free s e i ∷ ss) b = limit-lt-word ss b.6
  limit-lt-word (rotor ∷ ss) b = limit-lt-word ss b

  pub limit-aligned : (before : List Seg) → Before before → 0 % q ≡ 0 → limit before % q ≡ 0
  limit-aligned [] b z = z
  limit-aligned (span s e ∷ ss) b z = b.4
  limit-aligned (alloc s e i ∷ ss) b z = limit-aligned ss b.5 z
  limit-aligned (free s e i ∷ ss) b z = limit-aligned ss b.6 z
  limit-aligned (rotor ∷ ss) b z = limit-aligned ss b z

  -- A free segment may come where an allocated one has come before.
  pub After-freed : (c l : ℕ) (f : Bool) (ss : List Seg) → After q c l f ss → After q c l false ss
  After-freed c l f [] a = a
  After-freed c l f (span s e ∷ ss) a = a
  After-freed c l f (alloc s e i ∷ ss) a = a
  After-freed c l f (free s e i ∷ ss) a = (a.0, a.1, a.2, a.3, a.4, refl, a.6)
  After-freed c l f (rotor ∷ ss) a = a

-- What a successful search says of its place.
abbrev pub IsFreeAt : List Seg → List Seg → ℕ → Place → Type 0
IsFreeAt before segs x p =
    (p.start ≡ x)
    × (rev_append before segs ≡ rev_append p.before (free p.start p.end p.import ∷ p.after))

abbrev pub IsAllocAt : List Seg → List Seg → ℕ → Place → Type 0
IsAllocAt before segs x p =
    (p.start ≡ x)
    × (rev_append before segs ≡ rev_append p.before (alloc p.start p.end p.import ∷ p.after))

module _ (q : ℕ) where
  pub locate_free_lem :
      (before segs : List Seg) (x : ℕ) (p : Place)
      → Context q before segs
      → locate_free before segs x ≡ some p
      → IsFreeAt before segs x p × Context q p.before (free p.start p.end p.import ∷ p.after)
  unfolding locate_free
  locate_free_lem before [] x p c e = cc
  locate_free_lem before (free s t i ∷ ss) x p c e = elim (Bool-cases (s == x)) [
    | inl hit ↦ ground (arith, hit)
    | inr miss ↦ ground (
      arith,
      miss,
      locate_free_lem (free s t i ∷ before) ss x p (move_right q (free s t i) before ss c),
    )
  ]
  locate_free_lem before (span s t ∷ ss) x p c e =
      locate_free_lem (span s t ∷ before) ss x p (move_right q (span s t) before ss c) e
  locate_free_lem before (alloc s t i ∷ ss) x p c e =
      locate_free_lem (alloc s t i ∷ before) ss x p (move_right q (alloc s t i) before ss c) e
  locate_free_lem before (rotor ∷ ss) x p c e =
      locate_free_lem (rotor ∷ before) ss x p (move_right q rotor before ss c) e

  pub locate_alloc_lem :
      (before segs : List Seg) (x : ℕ) (p : Place)
      → Context q before segs
      → locate_alloc before segs x ≡ some p
      → IsAllocAt before segs x p × Context q p.before (alloc p.start p.end p.import ∷ p.after)
  unfolding locate_alloc
  locate_alloc_lem before [] x p c e = cc
  locate_alloc_lem before (alloc s t i ∷ ss) x p c e = elim (Bool-cases (s == x)) [
    | inl hit ↦ ground (arith, hit)
    | inr miss ↦ ground (
      arith,
      miss,
      locate_alloc_lem (alloc s t i ∷ before) ss x p (move_right q (alloc s t i) before ss c),
    )
  ]
  locate_alloc_lem before (span s t ∷ ss) x p c e =
      locate_alloc_lem (span s t ∷ before) ss x p (move_right q (span s t) before ss c) e
  locate_alloc_lem before (free s t i ∷ ss) x p c e =
      locate_alloc_lem (free s t i ∷ before) ss x p (move_right q (free s t i) before ss c) e
  locate_alloc_lem before (rotor ∷ ss) x p c e =
      locate_alloc_lem (rotor ∷ before) ss x p (move_right q rotor before ss c) e
