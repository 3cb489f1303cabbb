-- ===== src/Envvar/Processors.antt =====
-- envvar.c: a processor writes no variable but its own and those that the item points to.
use mathlib.Core.Bool.{false≢true}
use libumem.Base.{ℕ, ◌≡◌, refl, sym, false, Option, none, some, List, ◌==◌}
use libumem.Sizes.{sizes_add, sizes_remove}
use libumem.Envvar.Number.{Parsed, number, badnumber, overflow, parse_uint, parse_size}
use libumem.Envvar.Items.{
  bytes, same_text, Var, same, Settings, set, ItemType, Processor, Item, success, bad, store,
  clear_sizes, umem_log_process, umem_size_process, set_reap_interval, umem_backend_process,
  umem_allocator_process, run_special, run_item, item_invalid, item_flag, item_clearflag,
  item_optuint, item_uint, item_optsize, item_size, item_special, backend_process,
  allocator_process, reap_interval_process, size_process, profile_process, log_process, backend,
  allocator, reap_interval, logging,
}
use libumem.Envvar.Writes.{
  is_target, special_writes, Kept, KeptBy, set-Kept, store-Kept, if-KeptBy, enable_log-Kept,
  default_log-Kept, change_with-Kept,
}

log-Kept :
    (v : Var) (item : Item) (arg : Option (List ℕ)) (st : Settings)
    → same logging v ≡ false
    → is_target item.size_target v ≡ false
    → KeptBy v st (umem_log_process item arg st)
log-Kept v item none st h k = default_log-Kept v item.size_target st h k
log-Kept v item (some text) st h k =
    enable_log-Kept v item.size_target (store item.size_target (parse_size text) st) st h
      (store-Kept v item.size_target (parse_size text) st k)

clear-Kept : (v : Var) (arg : Option (List ℕ)) (st : Settings) → KeptBy v st (clear_sizes arg st)
clear-Kept v none st = (refl, refl)
clear-Kept v (some text) st = tt

size-Kept :
    (v : Var) (item : Item) (arg : Option (List ℕ)) (st : Settings)
    → is_target item.size_target v ≡ false
    → KeptBy v st (umem_size_process item arg st)
size-Kept v item arg st h =
    if-KeptBy v st (same_text item.name (bytes "size_clear")) _ _ (clear-Kept v arg st) (
      if-KeptBy v st (same_text item.name (bytes "size_add")) _ _
        (change_with-Kept v sizes_add item arg st h)
        (if-KeptBy v st (same_text item.name (bytes "size_remove")) _ bad
          (change_with-Kept v sizes_remove item arg st h) tt))

reap-Kept :
    (v : Var) (p : Parsed) (st : Settings)
    → same reap_interval v ≡ false
    → KeptBy v st (set_reap_interval p st)
reap-Kept v badnumber st h = tt
reap-Kept v overflow st h = tt
reap-Kept v (number n) st h =
    if-KeptBy v st (n == 0) bad (success (set reap_interval n st)) tt
      (set-Kept v reap_interval n st h)

backend-Kept :
    (v : Var) (arg : Option (List ℕ)) (st : Settings)
    → same backend v ≡ false
    → KeptBy v st (umem_backend_process arg st)
backend-Kept v none st h = tt
backend-Kept v (some text) st h =
    if-KeptBy v st (same_text text (bytes "sbrk")) _ _ (set-Kept v backend _ st h)
      (if-KeptBy v st (same_text text (bytes "mmap")) _ bad (set-Kept v backend _ st h) tt)

allocator-Kept :
    (v : Var) (arg : Option (List ℕ)) (st : Settings)
    → same allocator v ≡ false
    → KeptBy v st (umem_allocator_process arg st)
allocator-Kept v none st h = tt
allocator-Kept v (some text) st h =
    let put : (n : ℕ) → Kept v st (set allocator n st) = λ n. set-Kept v allocator n st h in
    if-KeptBy v st (same_text text (bytes "best")) _ _ (put 256) (
      if-KeptBy v st (same_text text (bytes "next")) _ _ (put 1024) (
        if-KeptBy v st (same_text text (bytes "first")) _ _ (put 512)
          (if-KeptBy v st (same_text text (bytes "instant")) _ bad (put 0) tt)))

special-Kept :
    (v : Var) (processor : Option Processor) (item : Item) (arg : Option (List ℕ)) (st : Settings)
    → is_target item.size_target v ≡ false
    → special_writes processor v ≡ false
    → KeptBy v st (run_special processor item arg st)
special-Kept v none item arg st h k = tt
special-Kept v (some backend_process) item arg st h k = backend-Kept v arg st k
special-Kept v (some allocator_process) item arg st h k = allocator-Kept v arg st k
special-Kept v (some reap_interval_process) item none st h k = tt
special-Kept v (some reap_interval_process) item (some text) st h k =
    reap-Kept v (parse_uint text) st k
special-Kept v (some size_process) item arg st h k = size-Kept v item arg st h
special-Kept v (some profile_process) item arg st h k = absurd (false≢true (sym k))
special-Kept v (some log_process) item arg st h k = log-Kept v item arg st k h

pub run_item-Kept :
    (v : Var) (kind : ItemType) (item : Item) (arg : Option (List ℕ)) (st : Settings)
    → is_target item.uint_target v ≡ false
    → is_target item.size_target v ≡ false
    → special_writes item.special v ≡ false
    → KeptBy v st (run_item kind item arg st)
run_item-Kept v item_invalid item arg st u s p = tt
run_item-Kept v item_flag item none st u s p = (refl, refl)
run_item-Kept v item_flag item (some text) st u s p = tt
run_item-Kept v item_clearflag item none st u s p = (refl, refl)
run_item-Kept v item_clearflag item (some text) st u s p = tt
run_item-Kept v item_optuint item none st u s p = (refl, refl)
run_item-Kept v item_optuint item (some text) st u s p =
    store-Kept v item.uint_target (parse_uint text) st u
run_item-Kept v item_uint item none st u s p = tt
run_item-Kept v item_uint item (some text) st u s p =
    store-Kept v item.uint_target (parse_uint text) st u
run_item-Kept v item_optsize item none st u s p = (refl, refl)
run_item-Kept v item_optsize item (some text) st u s p =
    store-Kept v item.size_target (parse_size text) st s
run_item-Kept v item_size item none st u s p = tt
run_item-Kept v item_size item (some text) st u s p =
    store-Kept v item.size_target (parse_size text) st s
run_item-Kept v item_special item arg st u s p = special-Kept v item.special item arg st s p
