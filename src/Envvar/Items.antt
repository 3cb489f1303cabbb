-- ===== src/Envvar/Items.antt =====
-- envvar.c: one item of an option's text, from `item_uint_process` to `process_item`.
use Prim.Native.Nat.{bit_and, bit_or}
use Prim.Native.Char.{code}
use Prim.Native.String.{String}
use libumem.Base.{
  ℕ, ◌+◌, ◌-◌, ◌%◌, ◌^◌, Bool, true, false, ◌&&◌, ◌||◌, Option, none, some, List, [], ◌∷◌, ◌==◌,
  if◌then◌else◌,
}
use libumem.Sizes.{sizes_add, sizes_clear, sizes_remove}
use libumem.Envvar.Number.{Parsed, number, badnumber, overflow, parse_uint, parse_size}

-- The bytes of a text.
abbrev pub bytes : String → List ℕ
bytes String.[] = []
bytes (String.◌∷◌ c s) = code c ∷ bytes s

-- `strcmp`
abbrev pub same_text : List ℕ → List ℕ → Bool
same_text [] [] = true
same_text [] (d ∷ ds) = false
same_text (c ∷ cs) [] = false
same_text (c ∷ cs) (d ∷ ds) = c == d && same_text cs ds

-- `strncmp`, of the whole first text.
abbrev pub starts_with : List ℕ → List ℕ → Bool
starts_with [] text = true
starts_with (c ∷ cs) [] = false
starts_with (c ∷ cs) (d ∷ ds) = c == d && starts_with cs ds

-- The variables that the items point to.
pub data Var : Type 0 where
  max_ncpus : Var
  depot_contention : Var
  flags : Var
  rseq_disabled : Var
  reap_interval : Var
  magazine_tuning : Var
  size_tempval : Var
  sbrk_minalloc : Var
  sbrk_pagesize : Var
  mmap_guard_min : Var
  reclaim_enabled : Var
  reclaim_delay : Var
  ptc_size : Var
  ptc_enabled : Var
  ptc_maxsize : Var
  ownership_debug : Var
  introspect_enabled : Var
  abort : Var
  stack_depth : Var
  content_maxsave : Var
  output : Var
  minfirewall : Var
  maxverify : Var
  mtbf : Var
  transaction_log_size : Var
  content_log_size : Var
  failure_log_size : Var
  slab_log_size : Var
  logging : Var
  backend : Var
  allocator : Var

abbrev pub address : Var → ℕ
address max_ncpus = 0
address depot_contention = 1
address flags = 2
address rseq_disabled = 3
address reap_interval = 4
address magazine_tuning = 5
address size_tempval = 6
address sbrk_minalloc = 7
address sbrk_pagesize = 8
address mmap_guard_min = 9
address reclaim_enabled = 10
address reclaim_delay = 11
address ptc_size = 12
address ptc_enabled = 13
address ptc_maxsize = 14
address ownership_debug = 15
address introspect_enabled = 16
address abort = 17
address stack_depth = 18
address content_maxsave = 19
address output = 20
address minfirewall = 21
address maxverify = 22
address mtbf = 23
address transaction_log_size = 24
address content_log_size = 25
address failure_log_size = 26
address slab_log_size = 27
address logging = 28
address backend = 29
address allocator = 30

abbrev pub same : Var → Var → Bool
same v w = address v == address w

-- The variables, `umem_alloc_sizes`, `umem_profile_spec` and `umem_env_secure_ignored`.
pub record Settings : Type 0 where
  pub vars : Var → ℕ
  pub sizes : List ℕ
  pub profile_spec : List ℕ
  pub secure_ignored : ℕ

abbrev pub set : Var → ℕ → Settings → Settings
set v n st = record st { vars = λ w. if same v w then n else st.vars w }

pub data ItemType : Type 0 where
  item_invalid : ItemType
  item_flag : ItemType
  item_clearflag : ItemType
  item_optuint : ItemType
  item_uint : ItemType
  item_optsize : ItemType
  item_size : ItemType
  item_special : ItemType

-- The functions that `item_special` points to.
pub data Processor : Type 0 where
  backend_process : Processor
  allocator_process : Processor
  reap_interval_process : Processor
  size_process : Processor
  profile_process : Processor
  log_process : Processor

-- `umem_env_item_t`
pub record Item : Type 0 where
  pub name : List ℕ
  pub kind : ItemType
  pub flag_target : Option Var
  pub flag_value : ℕ
  pub uint_target : Option Var
  pub size_target : Option Var
  pub special : Option Processor
  pub secure_unsafe : Bool

-- ARG_SUCCESS with the settings made, ARG_BAD with nothing changed, or a read through NULL or a write
-- behind the table of sizes.
pub data Processed : Type 0 where
  success : Settings → Processed
  bad : Processed
  fault : Processed

abbrev pub store : Option Var → Parsed → Settings → Processed
store target badnumber st = bad
store target overflow st = bad
store none (number n) st = fault
store (some v) (number n) st = success (set v n st)

-- `item_uint_process` and `item_size_process`; `empty` reads the argument first.
abbrev pub item_uint_process : Item → Option (List ℕ) → Settings → Processed
item_uint_process item none st = fault
item_uint_process item (some text) st = store item.uint_target (parse_uint text) st

abbrev pub item_size_process : Item → Option (List ℕ) → Settings → Processed
item_size_process item none st = fault
item_size_process item (some text) st = store item.size_target (parse_size text) st

-- `*target`
abbrev pub read : Option Var → Settings → ℕ
read none st = 0
read (some v) st = st.vars v

-- `umem_log_process`
abbrev pub enable_log : Option Var → Processed → Processed
enable_log target bad = bad
enable_log target fault = fault
enable_log target (success st) =
    if read target st == 0 then success st else success (set logging 1 st)

abbrev pub default_log : Option Var → Settings → Processed
default_log none st = fault
default_log (some v) st = success (set logging 1 (set v 65536 st))

abbrev pub umem_log_process : Item → Option (List ℕ) → Settings → Processed
umem_log_process item none st = default_log item.size_target st
umem_log_process item (some text) st =
    enable_log item.size_target (item_size_process item (some text) st)

-- `umem_size_process`
abbrev pub with_table : Settings → Option (List ℕ) → Processed
with_table st none = fault
with_table st (some table) = success (record st { sizes = table })

abbrev pub change_sizes : (ℕ → List ℕ → Option (List ℕ)) → Option Var → Processed → Processed
change_sizes action target bad = bad
change_sizes action target fault = fault
change_sizes action target (success st) = with_table st (action (read target st) st.sizes)

abbrev pub change_with :
    (ℕ → List ℕ → Option (List ℕ)) → Item → Option (List ℕ) → Settings → Processed
change_with action item none st = bad
change_with action item (some text) st =
    change_sizes action item.size_target (item_size_process item (some text) st)

abbrev pub clear_sizes : Option (List ℕ) → Settings → Processed
clear_sizes (some text) st = bad
clear_sizes none st = success (record st { sizes = sizes_clear st.sizes })

abbrev pub umem_size_process : Item → Option (List ℕ) → Settings → Processed
umem_size_process item arg st =
    if same_text item.name (bytes "size_clear")
    then clear_sizes arg st
    else if same_text item.name (bytes "size_add")
    then change_with sizes_add item arg st
    else if same_text item.name (bytes "size_remove")
    then change_with sizes_remove item arg st
    else bad

-- `umem_reap_interval_process`
abbrev pub set_reap_interval : Parsed → Settings → Processed
set_reap_interval badnumber st = bad
set_reap_interval overflow st = bad
set_reap_interval (number n) st = if n == 0 then bad else success (set reap_interval n st)

abbrev pub umem_reap_interval_process : Option (List ℕ) → Settings → Processed
umem_reap_interval_process none st = fault
umem_reap_interval_process (some text) st = set_reap_interval (parse_uint text) st

-- `umem_backend_process`; VMEM_BACKEND_SBRK is 1 and VMEM_BACKEND_MMAP is 2.
abbrev pub umem_backend_process : Option (List ℕ) → Settings → Processed
umem_backend_process none st = bad
umem_backend_process (some text) st =
    if same_text text (bytes "sbrk")
    then success (set backend (bit_or (st.vars backend) 1) st)
    else if same_text text (bytes "mmap")
    then success (set backend (bit_or (st.vars backend) 2) st)
    else bad

-- `umem_allocator_process`, with VM_BESTFIT, VM_NEXTFIT and VM_FIRSTFIT.
abbrev pub umem_allocator_process : Option (List ℕ) → Settings → Processed
umem_allocator_process none st = bad
umem_allocator_process (some text) st =
    if same_text text (bytes "best")
    then success (set allocator 256 st)
    else if same_text text (bytes "next")
    then success (set allocator 1024 st)
    else if same_text text (bytes "first")
    then success (set allocator 512 st)
    else if same_text text (bytes "instant")
    then success (set allocator 0 st)
    else bad

-- `umem_profile_process`; a text of an item is shorter than `umem_profile_spec`.
abbrev pub umem_profile_process : Option (List ℕ) → Settings → Processed
umem_profile_process none st = bad
umem_profile_process (some text) st =
    if starts_with (bytes "record:") text || starts_with (bytes "use:") text
    then success (record st { profile_spec = text })
    else bad

abbrev pub run_special : Option Processor → Item → Option (List ℕ) → Settings → Processed
run_special none item arg st = fault
run_special (some backend_process) item arg st = umem_backend_process arg st
run_special (some allocator_process) item arg st = umem_allocator_process arg st
run_special (some reap_interval_process) item arg st = umem_reap_interval_process arg st
run_special (some size_process) item arg st = umem_size_process item arg st
run_special (some profile_process) item arg st = umem_profile_process arg st
run_special (some log_process) item arg st = umem_log_process item arg st

-- The two `switch`es of `process_item`, and the call of the processor.
abbrev pub run_item : ItemType → Item → Option (List ℕ) → Settings → Processed
run_item item_invalid item arg st = bad
run_item item_flag item none st = success st
run_item item_flag item (some text) st = bad
run_item item_clearflag item none st = success st
run_item item_clearflag item (some text) st = bad
run_item item_optuint item none st = success st
run_item item_optuint item (some text) st = item_uint_process item (some text) st
run_item item_uint item none st = bad
run_item item_uint item (some text) st = item_uint_process item (some text) st
run_item item_optsize item none st = success st
run_item item_optsize item (some text) st = item_size_process item (some text) st
run_item item_size item none st = bad
run_item item_size item (some text) st = item_size_process item (some text) st
run_item item_special item arg st = run_special item.special item arg st

abbrev pub with_flag : ItemType → ℕ → ℕ → ℕ
with_flag item_clearflag value old = bit_and old (2 ^ 32 - 1 - value)
with_flag _ value old = bit_or old value

abbrev pub set_flag : Option Var → Item → Settings → Settings
set_flag none item st = st
set_flag (some v) item st = set v (with_flag item.kind item.flag_value (st.vars v)) st

abbrev pub finish : Item → Settings → Processed → Option Settings
finish item before fault = none
finish item before bad = some before
finish item before (success st) = some (set_flag item.flag_target item st)

-- `process_item`; the first argument is `umem_secure_mode()`.
unfoldable pub process_item : Bool → Item → Option (List ℕ) → Settings → Option Settings
process_item secure item arg st =
    if item.secure_unsafe && secure
    then some (record st { secure_ignored = (st.secure_ignored + 1) % 2 ^ 32 })
    else finish item st (run_item item.kind item arg st)
