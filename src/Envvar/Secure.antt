-- ===== src/Envvar/Secure.antt =====
-- envvar.c: in secure mode the options that are marked `item_secure_unsafe` have no effect, whatever
-- the texts of the environment are.
use mathlib.Core.Bool.{false≢true}
use libumem.Base.{
  ℕ, zero, suc, Option-cases, inl, inr, ◌+◌, ◌≡◌, refl, sym, ◌∙◌, Bool, true, false, not, ◌&&◌,
  ◌||◌, Option, none, some, List, [], ◌∷◌, length, ltb, ◌==◌, if◌then◌else◌,
}
use libumem.Envvar.Number.{skip_space}
use libumem.Envvar.Items.{
  same_text, Var, Settings, Item, Processed, success, bad, fault, run_item, set_flag, finish,
  process_item, output, mtbf, mmap_guard_min, introspect_enabled, backend,
}
use libumem.Envvar.Tables.{
  options_items, debug_items, logging_items, trim_end, name_part, value_part, process_named,
  process_value, up_to_comma, behind_comma, text_loop, process_text, process_envvar, Environment,
  after, process_envvars,
}
use libumem.Envvar.Writes.{
  is_target, special_writes, writes, guarded, Kept, KeptBy, KeptIn, or-false, and-true,
}
use libumem.Envvar.Processors.{run_item-Kept}

set_flag-Kept :
    (v : Var) (target : Option Var) (item : Item) (st s : Settings)
    → is_target target v ≡ false
    → Kept v st s
    → Kept v st (set_flag target item s)
set_flag-Kept v none item st s h k = k
set_flag-Kept v (some w) item st s h k = (rw h (k.0), k.1)

finish-Kept :
    (v : Var) (item : Item) (st : Settings) (p : Processed)
    → is_target item.flag_target v ≡ false
    → KeptBy v st p
    → KeptIn v st (finish item st p)
finish-Kept v item st fault h k = tt
finish-Kept v item st bad h k = (refl, refl)
finish-Kept v item st (success s) h k = set_flag-Kept v item.flag_target item st s h k

if-KeptIn :
    (v : Var) (st : Settings) (b : Bool) (x y : Option Settings)
    → KeptIn v st x
    → (b ≡ false → KeptIn v st y)
    → KeptIn v st (if b then x else y)
if-KeptIn v st true x y p q = p
if-KeptIn v st false x y p q = q refl

and-left : (a : Bool) → (a && true) ≡ false → a ≡ false
and-left true h = absurd (false≢true (sym h))
and-left false h = refl

or-left : (a b : Bool) → a ≡ false → (a || b) ≡ true → b ≡ true
or-left true b e h = absurd (false≢true (sym e))
or-left false b e h = h

not-true : (b : Bool) → not b ≡ true → b ≡ false
not-true true h = absurd (false≢true h)
not-true false h = refl

process_item-Kept :
    (v : Var) (item : Item) (arg : Option (List ℕ)) (st : Settings)
    → (item.secure_unsafe || not (writes item v)) ≡ true
    → KeptIn v st (process_item true item arg st)
unfolding process_item
process_item-Kept v item arg st g =
    if-KeptIn v st (item.secure_unsafe && true) _ _ (refl, refl)
      λ e.
        let safe : item.secure_unsafe ≡ false = and-left item.secure_unsafe e in
        let apart =
          not-true (writes item v) (or-left item.secure_unsafe (not (writes item v)) safe g) in
        let (f, rest) = or-false (is_target item.flag_target v) _ apart in
        let (u, rest2) = or-false (is_target item.uint_target v) _ rest in
        let (s, p) =
          or-false (is_target item.size_target v) (special_writes item.special v) rest2 in
        finish-Kept v item st (run_item item.kind item arg st) f
          (run_item-Kept v item.kind item arg st u s p)

process_named-Kept :
    (v : Var) (items : List Item) (name : List ℕ) (arg : Option (List ℕ)) (st : Settings)
    → guarded v items ≡ true
    → KeptIn v st (process_named true items name arg st)
process_named-Kept v [] name arg st g = (refl, refl)
process_named-Kept v (item ∷ items) name arg st g =
    let (one, rest) = and-true _ (guarded v items) g in
    if-KeptIn v st (same_text name item.name) _ _ (process_item-Kept v item arg st one)
      (λ e. process_named-Kept v items name arg st rest)

process_value-Kept :
    (v : Var) (items : List Item) (text : List ℕ) (st : Settings)
    → guarded v items ≡ true
    → KeptIn v st (process_value true items text st)
unfolding process_value
process_value-Kept v items text st g =
    let buf = trim_end (skip_space text) in
    if-KeptIn v st (length buf == 0 || ltb 512 (length buf + 1)) _ _ (refl, refl)
      (λ e. process_named-Kept v items (name_part buf) (value_part buf) st g)

KeptIn-trans :
    (v : Var) (st s : Settings) (r : Option Settings) → Kept v st s → KeptIn v s r → KeptIn v st r
KeptIn-trans v st s none k h = tt
KeptIn-trans v st s (some made) k h = (h.0 ∙ k.0, h.1 ∙ k.1)

after-Kept :
    (v : Var) (st : Settings) (r : Option Settings) (next : Settings → Option Settings)
    → KeptIn v st r
    → ((s : Settings) → KeptIn v s (next s))
    → KeptIn v st (after r next)
after-Kept v st none next k h = tt
after-Kept v st (some s) next k h = KeptIn-trans v st s (next s) k (h s)

text_loop-Kept :
    (v : Var) (fuel : ℕ) (items : List Item) (value end : List ℕ) (st : Settings)
    → guarded v items ≡ true
    → KeptIn v st (text_loop fuel true items value end st)
text_loop-Kept v zero items value end st g = tt
text_loop-Kept v (suc fuel) items value [] st g = (refl, refl)
text_loop-Kept v (suc fuel) items value (c ∷ end) st g =
    after-Kept v st (process_value true items (up_to_comma value) st) _
      (process_value-Kept v items (up_to_comma value) st g)
      λ s. elim (Option-cases (behind_comma value)) [
        | inl e ↦ rw e (text_loop-Kept v fuel items [] [] s g)
        | inr (next, e) ↦ rw e (text_loop-Kept v fuel items next (44 ∷ next) s g)
      ]

process_text-Kept :
    (v : Var) (items : List Item) (text : List ℕ) (st : Settings)
    → guarded v items ≡ true
    → KeptIn v st (process_text true items text st)
process_text-Kept v items text st g = text_loop-Kept v (length text + 2) items text text st g

envvar-Kept :
    (v : Var) (items : List Item) (result func : Option (List ℕ)) (st : Settings)
    → guarded v items ≡ true
    → KeptIn v st (process_envvar true items result func st)
envvar-Kept v items none none st g = (refl, refl)
envvar-Kept v items none (some text) st g = process_text-Kept v items text st g
envvar-Kept v items (some text) func st g = process_text-Kept v items text st g

envvars-Kept :
    (v : Var) (env : Environment) (st : Settings)
    → guarded v debug_items ≡ true
    → guarded v options_items ≡ true
    → guarded v logging_items ≡ true
    → KeptIn v st (process_envvars true env st)
unfolding process_envvars
envvars-Kept v env st d o l =
    after-Kept v st (process_envvar true debug_items env.debug env.debug_func st) _
      (envvar-Kept v debug_items env.debug env.debug_func st d)
      λ s.
        after-Kept v s (process_envvar true options_items env.options env.options_func s) _
          (envvar-Kept v options_items env.options env.options_func s o)
          (λ t. envvar-Kept v logging_items env.logging env.logging_func t l)

-- In secure mode, whatever UMEM_DEBUG, UMEM_OPTIONS and UMEM_LOGGING say, processing them does not
-- change the text of the profile, nor where messages go, the injected failures, the back end of the
-- heap, from which size on freed spans are guarded, and whether introspection is on.
pub process_envvars-Kept :
    (env : Environment) (st : Settings)
    → KeptIn output st (process_envvars true env st)
      × KeptIn mtbf st (process_envvars true env st)
      × KeptIn backend st (process_envvars true env st)
      × KeptIn mmap_guard_min st (process_envvars true env st)
      × KeptIn introspect_enabled st (process_envvars true env st)
process_envvars-Kept env st = (
  envvars-Kept output env st refl refl refl,
  envvars-Kept mtbf env st refl refl refl,
  envvars-Kept backend env st refl refl refl,
  envvars-Kept mmap_guard_min env st refl refl refl,
  envvars-Kept introspect_enabled env st refl refl refl,
)
