-- ===== src/Envvar/Pieces.antt =====
-- envvar.c: the items of a variable are those between its commas, in their order.
use mathlib.Core.Option.{some-injective}
use native.Mathlib.Decide.{ℕ_discrete}
use libumem.Base.{
  ℕ, zero, suc, ◌+◌, ◌≤◌, ◌<◌, ◌≡◌, ◌≢◌, refl, sym, ◌∙◌, ap, Bool, Option, none, some, List, [],
  ◌∷◌, length, All, ◌==◌, if◌then◌else◌, arith, Option-cases, inl, inr, eq→==, ne→not-==,
}
use libumem.Envvar.Items.{Settings, Item}
use libumem.Envvar.Tables.{after, process_value, up_to_comma, behind_comma, text_loop, process_text}

-- The texts between the commas.
abbrev pub onto_first : ℕ → List (List ℕ) → List (List ℕ)
onto_first c [] = (c ∷ []) ∷ []
onto_first c (p ∷ ps) = (c ∷ p) ∷ ps

abbrev pub pieces : List ℕ → List (List ℕ)
pieces [] = [] ∷ []
pieces (c ∷ cs) = if c == 44 then [] ∷ pieces cs else onto_first c (pieces cs)

-- The items that are processed one after the other.
abbrev pub process_pieces : Bool → List Item → List (List ℕ) → Settings → Option Settings
process_pieces secure items [] st = some st
process_pieces secure items (p ∷ ps) st =
    after (process_value secure items p st) (λ s. process_pieces secure items ps s)

-- The items of a list, with commas between them.
abbrev pub with_comma : List ℕ → List ℕ → List ℕ
with_comma [] text = 44 ∷ text
with_comma (c ∷ cs) text = c ∷ with_comma cs text

abbrev pub join : List ℕ → List (List ℕ) → List ℕ
join p [] = p
join p (q ∷ qs) = with_comma p (join q qs)

pieces-plain : (p : List ℕ) → All (λ c. c ≢ 44) p → pieces p ≡ p ∷ []
pieces-plain [] a = refl
pieces-plain (c ∷ cs) a = rw (ne→not-== c 44 a.0, pieces-plain cs a.1) refl

pieces-comma :
    (p text : List ℕ) → All (λ c. c ≢ 44) p → pieces (with_comma p text) ≡ p ∷ pieces text
pieces-comma [] text a = refl
pieces-comma (c ∷ cs) text a = rw (ne→not-== c 44 a.0, pieces-comma cs text a.1) refl

pieces-join :
    (p : List ℕ) (qs : List (List ℕ))
    → All (λ c. c ≢ 44) p
    → All (All (λ c. c ≢ 44)) qs
    → pieces (join p qs) ≡ p ∷ qs
pieces-join p [] a b = pieces-plain p a
pieces-join p (q ∷ qs) a b =
    pieces-comma p (join q qs) a ∙ ap (λ ps. p ∷ ps) (pieces-join q qs b.0 b.1)

some_is_none : (text : List ℕ) → Path (Option (List ℕ)) (some text) none → ⊥
some_is_none text e = cc

behind_comma-none : (text : List ℕ) → behind_comma text ≡ none → pieces text ≡ up_to_comma text ∷ []
behind_comma-none [] e = refl
behind_comma-none (c ∷ cs) e = elim (ℕ_discrete c 44) [
  | yes q ↦ absurd (some_is_none cs (rw (eq→== c 44 q) at e))
  | no q ↦ let n = ne→not-== c 44 q in rw (n, behind_comma-none cs (rw n at e)) refl
]

behind_comma-some :
    (text next : List ℕ)
    → behind_comma text ≡ some next
    → (pieces text ≡ up_to_comma text ∷ pieces next) × (length next < length text)
behind_comma-some [] next e = absurd (some_is_none next (sym e))
behind_comma-some (c ∷ cs) next e = elim (ℕ_discrete c 44) [
  | yes q ↦
      let b = eq→== c 44 q in
      let same : cs ≡ next = some-injective cs next (rw b at e) in rw (b, same) (refl, omega arith)
  | no q ↦
      let n = ne→not-== c 44 q in
      let (r, l) = behind_comma-some cs next (rw n at e) in (rw (n, r) refl, omega (arith, l))
]

after-same :
    (r : Option Settings) (f g : Settings → Option Settings)
    → ((s : Settings) → f s ≡ g s)
    → after r f ≡ after r g
after-same none f g e = refl
after-same (some s) f g e = e s

-- With fuel for more rounds than there are bytes left, the loop ends, with the items in their order.
text_loop-pieces :
    (fuel : ℕ) (secure : Bool) (items : List Item) (value : List ℕ) (c : ℕ) (end : List ℕ)
    (st : Settings)
    → length value + 2 ≤ fuel
    → text_loop fuel secure items value (c ∷ end) st ≡ process_pieces secure items (pieces value) st
text_loop-pieces zero secure items value c end st h = absurd (omega (arith, h))
text_loop-pieces (suc zero) secure items value c end st h = absurd (omega (arith, h))
text_loop-pieces (suc (suc fuel)) secure items value c end st h =
    elim (Option-cases (behind_comma value)) [
      | inl e ↦ rw (e, behind_comma-none value e) refl
      | inr (next, e) ↦
          let (q, l) = behind_comma-some value next e in
          rw (e, q)
            (after-same (process_value secure items (up_to_comma value) st) _ _
              (λ s. text_loop-pieces (suc fuel) secure items next 44 next s (omega (arith, h, l))))
    ]

process_text-pieces :
    (secure : Bool) (items : List Item) (text : List ℕ) (st : Settings)
    → text ≢ []
    → process_text secure items text st ≡ process_pieces secure items (pieces text) st
process_text-pieces secure items [] st h = absurd (h refl)
process_text-pieces secure items (c ∷ cs) st h =
    text_loop-pieces (length (c ∷ cs) + 2) secure items (c ∷ cs) c cs st (omega arith)

-- If texts without commas are joined by commas, and the whole is not empty, then the loop of
-- `umem_process_envvars` over it ends within two rounds more than it has bytes, and processes each of
-- the texts once, from the first to the last, until one of them faults.
pub process_text-join :
    (secure : Bool) (items : List Item) (p : List ℕ) (qs : List (List ℕ)) (st : Settings)
    → All (λ c. c ≢ 44) p
    → All (All (λ c. c ≢ 44)) qs
    → join p qs ≢ []
    → process_text secure items (join p qs) st ≡ process_pieces secure items (p ∷ qs) st
process_text-join secure items p qs st a b h =
    process_text-pieces secure items (join p qs) st h
    ∙ ap (λ ps. process_pieces secure items ps st) (pieces-join p qs a b)
