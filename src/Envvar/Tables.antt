-- ===== src/Envvar/Tables.antt =====
-- envvar.c: the three tables of items, as they are built with UMEM_INTROSPECT and without
-- UMEM_STANDALONE, and `umem_process_value` and `umem_process_envvars` that look items up in them. The
-- flags are those of umem_impl.h.
use Prim.Native.String.{String}
use libumem.Base.{
  zero, suc, ◌+◌, ℕ, ◌+◌, Bool, true, false, ◌&&◌, ◌||◌, Option, none, some, List, [], ◌∷◌, length,
  ltb, ◌==◌, if◌then◌else◌,
}
use libumem.Envvar.Number.{isspace, skip_space}
use libumem.Envvar.Items.{
  bytes, same_text, Var, max_ncpus, depot_contention, flags, rseq_disabled, magazine_tuning,
  size_tempval, sbrk_minalloc, sbrk_pagesize, mmap_guard_min, reclaim_enabled, reclaim_delay,
  ptc_size, ptc_enabled, ptc_maxsize, ownership_debug, introspect_enabled, abort, stack_depth,
  content_maxsave, output, minfirewall, maxverify, mtbf, transaction_log_size, content_log_size,
  failure_log_size, slab_log_size, Settings, ItemType, item_flag, item_clearflag, item_optuint,
  item_uint, item_optsize, item_size, item_special, Processor, backend_process, allocator_process,
  reap_interval_process, size_process, profile_process, log_process, Item, process_item,
}

-- An item of a table, by what it sets.
abbrev flag_item : String → ItemType → Var → ℕ → Bool → Item
flag_item name kind target value unsafe = record {
  name = bytes name;
  kind = kind;
  flag_target = some target;
  flag_value = value;
  uint_target = none;
  size_target = none;
  special = none;
  secure_unsafe = unsafe;
}

abbrev uint_item : String → Var → Bool → Item
uint_item name target unsafe = record {
  name = bytes name;
  kind = item_uint;
  flag_target = none;
  flag_value = 0;
  uint_target = some target;
  size_target = none;
  special = none;
  secure_unsafe = unsafe;
}

abbrev size_item : String → Var → Bool → Item
size_item name target unsafe = record {
  name = bytes name;
  kind = item_size;
  flag_target = none;
  flag_value = 0;
  uint_target = none;
  size_target = some target;
  special = none;
  secure_unsafe = unsafe;
}

abbrev special_item : String → Option Var → Processor → Bool → Item
special_item name target processor unsafe = record {
  name = bytes name;
  kind = item_special;
  flag_target = none;
  flag_value = 0;
  uint_target = none;
  size_target = target;
  special = some processor;
  secure_unsafe = unsafe;
}

-- `umem_options_items`
abbrev pub options_items : List Item
options_items =
    special_item "backend" none backend_process true
    ∷ special_item "allocator" none allocator_process false
    ∷ uint_item "concurrency" max_ncpus false
    ∷ uint_item "max_contention" depot_contention false
    ∷ flag_item "nomagazines" item_flag flags 0x20 false
    ∷ flag_item "norseq" item_flag rseq_disabled 1 false
    ∷ special_item "reap_interval" none reap_interval_process false
    ∷ uint_item "magazine_tune" magazine_tuning false
    ∷ special_item "size_add" (some size_tempval) size_process false
    ∷ special_item "size_clear" (some size_tempval) size_process false
    ∷ special_item "size_remove" (some size_tempval) size_process false
    ∷ size_item "sbrk_minalloc" sbrk_minalloc false
    ∷ size_item "sbrk_pagesize" sbrk_pagesize false
    ∷ size_item "mmap_guard" mmap_guard_min true
    ∷ uint_item "reclaim" reclaim_enabled false
    ∷ uint_item "reclaim_delay" reclaim_delay false
    ∷ size_item "perthread_cache" ptc_size false
    ∷ uint_item "tcache" ptc_enabled false
    ∷ size_item "tcache_max" ptc_maxsize false
    ∷ uint_item "ownership" ownership_debug false
    ∷ special_item "profile" none profile_process true
    ∷ uint_item "introspect" introspect_enabled true
    ∷ flag_item "abort" item_flag abort 1 false
    ∷ []

-- `umem_debug_items`
abbrev pub debug_items : List Item
debug_items =
    flag_item "default" item_flag flags 0xf false
    ∷ record (flag_item "audit" item_optuint flags 0x1 false) { uint_target = some stack_depth }
    ∷ record (flag_item "contents" item_optsize flags 0x8 false) {
      size_target = some content_maxsave;
    }
    ∷ flag_item "guards" item_flag flags 0x6 false
    ∷ flag_item "verbose" item_flag output 1 true
    ∷ flag_item "nosignal" item_flag flags 0x11 false
    ∷ record (flag_item "firewall" item_size flags 0x40 false) { size_target = some minfirewall }
    ∷ flag_item "lite" item_flag flags 0x100 false
    ∷ size_item "maxverify" maxverify false
    ∷ flag_item "noabort" item_clearflag abort 1 true
    ∷ uint_item "mtbf" mtbf true
    ∷ flag_item "random" item_flag flags 0x400 false
    ∷ flag_item "allverbose" item_flag output 2 true
    ∷ flag_item "checknull" item_flag flags 0x1000 false
    ∷ []

-- `umem_logging_items`
abbrev pub logging_items : List Item
logging_items =
    special_item "transaction" (some transaction_log_size) log_process false
    ∷ record (special_item "contents" (some content_log_size) log_process false) {
      flag_target = some flags;
      flag_value = 0x8;
    }
    ∷ special_item "fail" (some failure_log_size) log_process false
    ∷ special_item "slab" (some slab_log_size) log_process false
    ∷ []

-- The space at the text's end is left out.
abbrev pub trim_end : List ℕ → List ℕ
trim_end [] = []
trim_end (c ∷ cs) = let rest = trim_end cs in if length rest == 0 && isspace c then [] else c ∷ rest

abbrev pub name_part : List ℕ → List ℕ
name_part [] = []
name_part (c ∷ cs) = if c == 61 then [] else c ∷ name_part cs

-- What stands behind the first '='.
abbrev pub value_part : List ℕ → Option (List ℕ)
value_part [] = none
value_part (c ∷ cs) = if c == 61 then some cs else value_part cs

abbrev pub process_named : Bool → List Item → List ℕ → Option (List ℕ) → Settings → Option Settings
process_named secure [] name arg st = some st
process_named secure (item ∷ items) name arg st =
    if same_text name item.name
    then process_item secure item arg st
    else process_named secure items name arg st

-- `umem_process_value`, with UMEM_ENV_ITEM_MAX
unfoldable pub process_value : Bool → List Item → List ℕ → Settings → Option Settings
process_value secure items text st =
    let buf = trim_end (skip_space text) in
    if length buf == 0 || ltb 512 (length buf + 1)
    then some st
    else process_named secure items (name_part buf) (value_part buf) st

abbrev pub after : Option Settings → (Settings → Option Settings) → Option Settings
after none next = none
after (some st) next = next st

-- `strchr(value, ',')`: the text from `value` up to the comma or the end, and the text behind the comma.
abbrev pub up_to_comma : List ℕ → List ℕ
up_to_comma [] = []
up_to_comma (c ∷ cs) = if c == 44 then [] else c ∷ up_to_comma cs

abbrev pub behind_comma : List ℕ → Option (List ℕ)
behind_comma [] = none
behind_comma (c ∷ cs) = if c == 44 then some cs else behind_comma cs

-- The inner loop of `umem_process_envvars`, with fuel, at the texts that `value` and `end` point to. It
-- goes on while `*end` is not the NUL. Where there is a comma, `end` is at it and `next` behind it;
-- otherwise both are at the NUL.
abbrev pub text_loop : ℕ → Bool → List Item → List ℕ → List ℕ → Settings → Option Settings
text_loop zero secure items value end st = none
text_loop (suc fuel) secure items value [] st = some st
text_loop (suc fuel) secure items value (c ∷ end) st =
    after (process_value secure items (up_to_comma value) st) (λ s. elim (behind_comma value) [
      | none ↦ text_loop fuel secure items [] [] s
      | some next ↦ text_loop fuel secure items next (44 ∷ next) s
    ])

-- The loop from its start; each round but the last passes a comma.
abbrev pub process_text : Bool → List Item → List ℕ → Settings → Option Settings
process_text secure items text st = text_loop (length text + 2) secure items text text st

-- A variable that is not in the environment, and not answered by a function, is passed over.
abbrev pub process_envvar :
    Bool → List Item → Option (List ℕ) → Option (List ℕ) → Settings → Option Settings
process_envvar secure items none none st = some st
process_envvar secure items none (some text) st = process_text secure items text st
process_envvar secure items (some text) func_result st = process_text secure items text st

-- `env_getenv_result` and `env_func_result` of the three variables.
pub record Environment : Type 0 where
  pub debug : Option (List ℕ)
  pub debug_func : Option (List ℕ)
  pub options : Option (List ℕ)
  pub options_func : Option (List ℕ)
  pub logging : Option (List ℕ)
  pub logging_func : Option (List ℕ)

-- `umem_process_envvars`, in the order of `umem_envvars`.
unfoldable pub process_envvars : Bool → Environment → Settings → Option Settings
process_envvars secure env st =
    after (process_envvar secure debug_items env.debug env.debug_func st) (λ s.
      after (process_envvar secure options_items env.options env.options_func s)
        (process_envvar secure logging_items env.logging env.logging_func))
