-- ===== src/Segs.antt =====
-- The segments of an arena, in the order of its `vs_anext` list behind `vm_seg0`.
pub mod Tiled
pub mod Sums
use libumem.Base.{
  ℕ, zero, suc, ◌-◌, ◌+◌, List, [], ◌∷◌, ◌==◌, if◌then◌else◌, Bool, true, false, Option, none, some,
}
use libumem.Word.{sub64}

-- `vmem_seg_t`, by its `vs_type`: [start, end), and `vs_import` where the code reads it.
pub data Seg : Type 0 where
  span : ℕ → ℕ → Seg
  alloc : ℕ → ℕ → Bool → Seg
  free : ℕ → ℕ → Bool → Seg
  rotor : Seg

-- A place in the list: what stands before it, nearest first, the range and the import mark of the
-- segment, and what follows it.
pub record Place : Type 0 where
  pub before : List Seg
  pub start : ℕ
  pub end : ℕ
  pub import : Bool
  pub after : List Seg

-- Puts the list together again.
abbrev pub rev_append : List Seg → List Seg → List Seg
rev_append [] after = after
rev_append (s ∷ before) after = rev_append before (s ∷ after)

abbrev pub or_else : Bool → Place → Option Place → Option Place
or_else hit p rest = if hit then some p else rest

-- The free segment, or the allocated segment, that starts at an address.
pub locate_free : List Seg → List Seg → ℕ → Option Place
locate_free before [] x = none
locate_free before (free s e i ∷ after) x =
    or_else (s == x) (record { before = before; start = s; end = e; import = i; after = after })
      (locate_free (free s e i ∷ before) after x)
locate_free before (other ∷ after) x = locate_free (other ∷ before) after x

unfoldable pub locate_alloc : List Seg → List Seg → ℕ → Option Place
locate_alloc before [] x = none
locate_alloc before (alloc s e i ∷ after) x =
    or_else (s == x) (record { before = before; start = s; end = e; import = i; after = after })
      (locate_alloc (alloc s e i ∷ before) after x)
locate_alloc before (other ∷ after) x = locate_alloc (other ∷ before) after x

-- `vs_type == VMEM_SPAN` of a neighbour, where `vm_seg0` at the list's ends is a span too.
abbrev pub next_is_span : List Seg → Bool
next_is_span [] = true
next_is_span (span s e ∷ ss) = true
next_is_span (other ∷ ss) = false
