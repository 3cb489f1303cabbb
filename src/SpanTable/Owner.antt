-- ===== src/SpanTable/Owner.antt =====
-- Which span of the table holds an address: the linear scan that the binary search stands for, and
-- what insertion and removal do to it.
use libumem.Base.{
  ℕ, zero, suc, ◌≤◌, ◌<◌, ◌≡◌, refl, Option, none, some, Bool, true, false, ◌&&◌, List, [], ◌∷◌,
  arith, ltb, leb, if◌then◌else◌, length, get_elem?, All,
}
use libumem.SpanTable.{SpanEnt, insert_index, insert_at, remove_at, remove_index}
use libumem.SpanTable.Order.{IsSorted, IsApart, insert_sorted}

abbrev pub contains : SpanEnt → ℕ → Bool
contains e addr = leb e.base addr && ltb addr e.end

unfoldable pub owner : List SpanEnt → ℕ → Option SpanEnt
owner [] addr = none
owner (e ∷ es) addr = if contains e addr then some e else owner es addr

owner_below : (lo addr : ℕ) (es : List SpanEnt) → IsSorted lo es → addr < lo → owner es addr ≡ none
unfolding owner
owner_below lo addr [] s h = refl
owner_below lo addr (e ∷ es) s h = ground (arith, owner_below e.end addr es s.2)

-- Entries from index `i` on start above `addr`: nothing there owns it.
pub owner-none :
    (lo addr : ℕ) (es : List SpanEnt)
    → IsSorted lo es
    → ((j : ℕ) (e : SpanEnt) → get_elem? es j ≡ some e → contains e addr ≡ false)
    → owner es addr ≡ none
unfolding owner
owner-none lo addr [] s h = refl
owner-none lo addr (e ∷ es) s h =
    ground (arith, h 0 e refl, owner-none e.end addr es s.2 (λ j. h (suc j)))

-- In a sorted table the entry that contains the address owns it.
pub owner-some :
    (lo addr j : ℕ) (es : List SpanEnt) (e : SpanEnt)
    → IsSorted lo es
    → get_elem? es j ≡ some e
    → contains e addr ≡ true
    → owner es addr ≡ some e
unfolding owner
owner-some lo addr j [] e s g c = ground arith
owner-some lo addr zero (x ∷ es) e s g c = ground arith
owner-some lo addr (suc j) (x ∷ es) e s g c =
    ground (arith, owner-some x.end addr j es e s.2 g c, owner_below x.end addr es s.2)

-- An inserted span owns its addresses, and every other address keeps its owner.
pub owner-insert :
    (lo addr : ℕ) (es : List SpanEnt) (new : SpanEnt)
    → IsSorted lo es
    → All (IsApart new.base new.end) es
    → owner (insert_sorted es new) addr ≡ (if contains new addr then some new else owner es addr)
unfolding owner insert_index insert_at
owner-insert lo addr [] new s a = refl
owner-insert lo addr (e ∷ es) new s a = ground (arith, owner-insert e.end addr es new s.2 a.1)

remove_index-ge :
    (lo base end : ℕ) (es : List SpanEnt)
    → IsSorted lo es
    → remove_index es base end < length es
    → lo ≤ base
unfolding remove_index
remove_index-ge lo base end [] s h = elim h [ ]
remove_index-ge lo base end (e ∷ es) s h = ground (arith, remove_index-ge e.end base end es s.2)

-- After the removal the removed span's addresses have no owner, and the others keep theirs.
pub owner-remove :
    (lo addr base end : ℕ) (es : List SpanEnt)
    → IsSorted lo es
    → remove_index es base end < length es
    → owner (remove_at es (remove_index es base end)) addr
      ≡ (if leb base addr && ltb addr end then none else owner es addr)
unfolding owner remove_index remove_at
owner-remove lo addr base end [] s h = elim h [ ]
owner-remove lo addr base end (e ∷ es) s h = ground (
  arith,
  owner-remove e.end addr base end es s.2,
  owner_below e.end addr es s.2,
  remove_index-ge e.end base end es s.2,
)
