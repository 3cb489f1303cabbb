-- ===== src/Partition.antt =====
-- umem_hash_partition.c: a 64-bit hash space divided among claimants, and the search for the claimant
-- of a hash. A name is the list of its bytes, without the NUL. The weights, which are floating-point
-- numbers, are left out. Whether `malloc` succeeds is an argument.
pub mod Tiles
pub mod Claim
pub mod Key
mod Tests
use Prim.Native.Nat.{bit_xor}
use libumem.Base.{
  ℕ, zero, suc, ◌+◌, ◌-◌, ◌*◌, ◌/◌, ◌%◌, ◌^◌, Bool, true, false, not, ◌&&◌, ◌||◌, Option, none,
  some, List, [], ◌∷◌, length, get_elem?, ltb, leb, ◌==◌, if◌then◌else◌,
}
use libumem.Word.{word, add64}

-- One claimant of `hash_partitions_t`: its lower bound, its interval and its name.
pub record Part : Type 0 where
  pub lower : ℕ
  pub interval : ℕ
  pub name : List ℕ

-- `claimant_size_t`
pub record ClaimantSize : Type 0 where
  pub name : List ℕ
  pub size : ℕ

-- UINT64_MAX_VAL, MAX_CLAIMANTS and MAX_NAME_LEN
abbrev pub uint64_max : ℕ
uint64_max = 2 ^ 64 - 1

abbrev pub max_claimants : ℕ
max_claimants = 1024

abbrev pub max_name_len : ℕ
max_name_len = 256

-- `strncpy` of `n` bytes.
abbrev pub copy_name : ℕ → List ℕ → List ℕ
copy_name zero name = []
copy_name (suc n) [] = []
copy_name (suc n) (c ∷ name) = c ∷ copy_name n name

abbrev pub stored_name : List ℕ → List ℕ
stored_name name = copy_name (max_name_len - 1) name

abbrev pub fnv_round : ℕ → ℕ → ℕ
fnv_round hash byte = (bit_xor hash byte * 1099511628211) % word

abbrev pub fnv_loop : ℕ → List ℕ → ℕ
fnv_loop hash [] = hash
fnv_loop hash (byte ∷ bytes) = fnv_loop (fnv_round hash byte) bytes

-- FNV-1a
pub simple_hash : List ℕ → ℕ
simple_hash bytes = fnv_loop 14695981039346656037 bytes

-- `hash_partitions_alloc`: whether there is room for the claimants.
abbrev pub partitions_alloc : Bool → ℕ → Bool
partitions_alloc malloc_succeeds capacity =
    not (capacity == 0 || ltb max_claimants capacity) && malloc_succeeds

-- The last claimant covers `n` more.
pub widen_last : ℕ → List Part → List Part
widen_last n [] = []
widen_last n (p ∷ []) = record p { interval = add64 p.interval n } ∷ []
widen_last n (p ∷ q ∷ ps) = p ∷ widen_last n (q ∷ ps)

-- The loop of `hash_partitions_create`; a claimant with an empty name is passed over.
pub fill_equal : ℕ → ℕ → List (List ℕ) → List Part
fill_equal interval next [] = []
fill_equal interval next ([] ∷ names) = fill_equal interval next names
fill_equal interval next ((c ∷ name) ∷ names) =
    record { lower = next; interval = interval; name = stored_name (c ∷ name) }
    ∷ fill_equal interval (add64 next interval) names

abbrev pub interval_sum : ℕ → List Part → ℕ
interval_sum sum [] = sum
interval_sum sum (p ∷ ps) = interval_sum (add64 sum p.interval) ps

-- `hash_partitions_create`
pub create : Bool → List (List ℕ) → Option (List Part)
unfolding fill_equal widen_last
create malloc_succeeds claimants =
    let interval = uint64_max / length claimants in
    let parts = fill_equal interval 0 claimants in
    if length claimants == 0
    then none
    else if partitions_alloc malloc_succeeds (length claimants)
    then some (widen_last ((uint64_max + word - interval_sum 0 parts) % word) parts)
    else none

-- What a loop over sizes has made, and how much of the space remains.
pub record Filled : Type 0 where
  pub parts : List Part
  pub remaining : ℕ

-- The loop of `hash_partitions_create_with_sizes`: a size is cut to what remains, and 0 passed over.
pub fill_sizes : ℕ → ℕ → List ClaimantSize → Filled
fill_sizes next remaining [] = record { parts = []; remaining = remaining }
fill_sizes next remaining (c ∷ cs) =
    let sz = if ltb remaining c.size then remaining else c.size in
    let skipped = fill_sizes next remaining cs in
    let rest = fill_sizes (add64 next sz) (remaining - sz) cs in
    let part : Part = record { lower = next; interval = sz; name = stored_name c.name } in
    if remaining == 0
    then record { parts = []; remaining = remaining }
    else if c.size == 0
    then skipped
    else record { parts = part ∷ rest.parts; remaining = rest.remaining }

abbrev pub finish_sizes : Filled → Option (List Part)
finish_sizes filled =
    if length filled.parts == 0
    then none
    else some
        (if ltb 0 filled.remaining then widen_last filled.remaining filled.parts else filled.parts)

-- `hash_partitions_create_with_sizes`
pub create_with_sizes : Bool → List ClaimantSize → Option (List Part)
unfolding fill_sizes widen_last
create_with_sizes malloc_succeeds sizes =
    if length sizes == 0
    then none
    else if partitions_alloc malloc_succeeds (length sizes)
    then finish_sizes (fill_sizes 0 uint64_max sizes)
    else none

-- One round of the binary search: an answer, or the bounds of the next. A read outside is `fault`.
pub data Round : Type 0 where
  found : List ℕ → Round
  go : ℕ → ℕ → Round
  missing : Round
  fault : Round

abbrev pub after_mid : List Part → ℕ → ℕ → ℕ → Part → Option Part → Round
after_mid parts hash mid right p none = if mid == length parts - 1 then found p.name else fault
after_mid parts hash mid right p (some q) =
    if mid == length parts - 1 || ltb hash q.lower then found p.name else go (mid + 1) right

abbrev pub at_mid : List Part → ℕ → ℕ → ℕ → ℕ → Option Part → Round
at_mid parts hash left mid right none = fault
at_mid parts hash left mid right (some p) =
    if leb p.lower hash
    then after_mid parts hash mid right p (get_elem? parts (mid + 1))
    else if mid == 0
    then missing
    else go left (mid - 1)

pub round : List Part → ℕ → ℕ → ℕ → Round
round parts hash left right =
    let mid = left + (right - left) / 2 in
    if leb left right then at_mid parts hash left mid right (get_elem? parts mid) else missing

-- The loop of `hash_partitions_get_claimant`, with fuel; `none` also stands for a read outside.
pub search : ℕ → List Part → ℕ → ℕ → ℕ → Option (Option (List ℕ))
search zero parts hash left right = none
search (suc fuel) parts hash left right = elim (round parts hash left right) [
  | found name ↦ some (some name)
  | missing ↦ some none
  | fault ↦ none
  | go l r ↦ search fuel parts hash l r
]

abbrev pub in_last : ℕ → Option Part → Option (List ℕ)
in_last hash none = none
in_last hash (some p) = if leb p.lower hash then some p.name else none

-- `hash_partitions_get_claimant`
pub get_claimant : ℕ → List Part → ℕ → Option (Option (List ℕ))
get_claimant fuel parts hash =
    let last = in_last hash (get_elem? parts (length parts - 1)) in
    let found = search fuel parts hash 0 (length parts - 1) in
    if length parts == 0
    then some none
    else elim last [ some name ↦ some (some name) | none ↦ found ]

-- `hash_partitions_get_claimant_by_key`
pub get_claimant_by_key : ℕ → List Part → List ℕ → Option (Option (List ℕ))
get_claimant_by_key fuel parts key = get_claimant fuel parts (simple_hash key)
