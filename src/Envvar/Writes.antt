-- ===== src/Envvar/Writes.antt =====
-- envvar.c: which variables the items of the options write.
use mathlib.Core.Bool.{false≢true}
use libumem.Base.{
  ℕ, ◌≡◌, refl, sym, Bool, true, false, not, ◌&&◌, ◌||◌, Option, none, some, List, [], ◌∷◌, ◌==◌,
  if◌then◌else◌,
}
use libumem.Envvar.Number.{Parsed, number, badnumber, overflow, parse_size}
use libumem.Envvar.Items.{
  Var, same, Settings, set, Processor, Item, Processed, success, bad, fault, store, enable_log,
  default_log, with_table, change_sizes, change_with, read, backend_process, allocator_process,
  reap_interval_process, size_process, profile_process, log_process, backend, allocator,
  reap_interval, logging,
}

abbrev pub is_target : Option Var → Var → Bool
is_target none v = false
is_target (some w) v = same w v

abbrev pub special_writes : Option Processor → Var → Bool
special_writes none v = false
special_writes (some backend_process) v = same backend v
special_writes (some allocator_process) v = same allocator v
special_writes (some reap_interval_process) v = same reap_interval v
special_writes (some size_process) v = false
special_writes (some profile_process) v = true
special_writes (some log_process) v = same logging v

-- Whether an item may write the variable, or the profile's text.
abbrev pub writes : Item → Var → Bool
writes item v =
    is_target item.flag_target v
    || (is_target item.uint_target v
        || (is_target item.size_target v || special_writes item.special v))

-- Only unsafe items write the variable.
abbrev pub guarded : Var → List Item → Bool
guarded v [] = true
guarded v (item ∷ items) = (item.secure_unsafe || not (writes item v)) && guarded v items

abbrev pub Kept : Var → Settings → Settings → Type 0
Kept v st made = (made.vars v ≡ st.vars v) × (made.profile_spec ≡ st.profile_spec)

abbrev pub KeptBy : Var → Settings → Processed → Type 0
KeptBy v st (success made) = Kept v st made
KeptBy v st bad = Unit
KeptBy v st fault = Unit

abbrev pub KeptIn : Var → Settings → Option Settings → Type 0
KeptIn v st (some made) = Kept v st made
KeptIn v st none = Unit

pub or-false : (a b : Bool) → (a || b) ≡ false → (a ≡ false) × (b ≡ false)
or-false true b h = absurd (false≢true (sym h))
or-false false b h = (refl, h)

pub and-true : (a b : Bool) → (a && b) ≡ true → (a ≡ true) × (b ≡ true)
and-true true b h = (refl, h)
and-true false b h = absurd (false≢true h)

pub set-Kept : (v w : Var) (n : ℕ) (st : Settings) → same w v ≡ false → Kept v st (set w n st)
set-Kept v w n st h = (rw h refl, refl)

pub store-Kept :
    (v : Var) (target : Option Var) (p : Parsed) (st : Settings)
    → is_target target v ≡ false
    → KeptBy v st (store target p st)
store-Kept v target badnumber st h = tt
store-Kept v target overflow st h = tt
store-Kept v none (number n) st h = tt
store-Kept v (some w) (number n) st h = set-Kept v w n st h

pub if-KeptBy :
    (v : Var) (st : Settings) (b : Bool) (x y : Processed)
    → KeptBy v st x
    → KeptBy v st y
    → KeptBy v st (if b then x else y)
if-KeptBy v st true x y p q = p
if-KeptBy v st false x y p q = q

pub enable_log-Kept :
    (v : Var) (target : Option Var) (p : Processed) (st : Settings)
    → same logging v ≡ false
    → KeptBy v st p
    → KeptBy v st (enable_log target p)
enable_log-Kept v target bad st h k = tt
enable_log-Kept v target fault st h k = tt
enable_log-Kept v target (success s) st h k =
    if-KeptBy v st (read target s == 0) (success s) (success (set logging 1 s)) k (rw h (k.0), k.1)

pub default_log-Kept :
    (v : Var) (target : Option Var) (st : Settings)
    → same logging v ≡ false
    → is_target target v ≡ false
    → KeptBy v st (default_log target st)
default_log-Kept v none st h k = tt
default_log-Kept v (some w) st h k = (rw (h, k) refl, refl)

with_table-Kept :
    (v : Var) (st s : Settings) (table : Option (List ℕ))
    → Kept v st s
    → KeptBy v st (with_table s table)
with_table-Kept v st s none k = tt
with_table-Kept v st s (some t) k = k

change_sizes-Kept :
    (v : Var) (action : ℕ → List ℕ → Option (List ℕ)) (target : Option Var) (p : Processed)
    (st : Settings)
    → KeptBy v st p
    → KeptBy v st (change_sizes action target p)
change_sizes-Kept v action target bad st k = tt
change_sizes-Kept v action target fault st k = tt
change_sizes-Kept v action target (success s) st k =
    with_table-Kept v st s (action (read target s) s.sizes) k

pub change_with-Kept :
    (v : Var) (action : ℕ → List ℕ → Option (List ℕ)) (item : Item) (arg : Option (List ℕ))
    (st : Settings)
    → is_target item.size_target v ≡ false
    → KeptBy v st (change_with action item arg st)
change_with-Kept v action item none st h = tt
change_with-Kept v action item (some text) st h =
    change_sizes-Kept v action item.size_target (store item.size_target (parse_size text) st) st
      (store-Kept v item.size_target (parse_size text) st h)
