-- ===== src/Envvar/Tests.antt =====
-- envvar.c: runs of the options, and the theorems at concrete texts.
use libumem.Base.{ℕ, ◌^◌, ◌≡◌, refl, ap, length, true, false, Option, none, some, [], ◌∷◌, arith}
use libumem.Sizes.{alloc_sizes}
use libumem.Envvar.Number.{number, badnumber, overflow, parse_uint, parse_size}
use libumem.Envvar.Items.{
  bytes, Var, flags, output, mtbf, backend, mmap_guard_min, introspect_enabled, max_ncpus, Settings,
  process_item,
}
use libumem.Envvar.Tables.{
  debug_items, options_items, process_value, process_text, Environment, process_envvars,
}
use libumem.Envvar.Pieces.{process_pieces, join, process_text-join}
use libumem.Envvar.Writes.{KeptIn}
use libumem.Envvar.Secure.{process_envvars-Kept}

abbrev start : Settings
start = record { vars = λ v. 0; sizes = alloc_sizes; profile_spec = []; secure_ignored = 0 }

abbrev value_of : Var → Option Settings → Option ℕ
value_of v none = none
value_of v (some st) = some (st.vars v)

reads_size : parse_size (bytes " 16M") ≡ number 16777216
unfolding parse_size
reads_size = refl

refuses_text : parse_size (bytes "16Mb") ≡ badnumber
unfolding parse_size
refuses_text = refl

refuses_large : parse_uint (bytes "4294967296") ≡ overflow
unfolding parse_uint
refuses_large = refl

-- 27021597764222976 is 2^54 + 2^53; times 1024 it is 2^64 + 2^63, which the test for overflow misses.
wraps : parse_size (bytes "27021597764222976k") ≡ number (2 ^ 63)
unfolding parse_size
wraps = refl

-- The option needs a value, which is read without a test for NULL.
reads_null : process_text false options_items (bytes "reap_interval") start ≡ none
unfolding process_value process_item
reads_null = refl

sets_flags :
    value_of flags (process_text false debug_items (bytes "audit=10, guards,firewall=512") start)
    ≡ some 0x47
unfolding process_value process_item parse_uint parse_size
sets_flags = refl

abbrev hostile : Environment
hostile = record {
  debug = some (bytes "allverbose,mtbf=3");
  debug_func = none;
  options = some (bytes "profile=record:/tmp/x,introspect=1,concurrency=4");
  options_func = none;
  logging = none;
  logging_func = none;
}

still_tuned : value_of max_ncpus (process_envvars true hostile start) ≡ some 4
unfolding process_envvars process_value process_item parse_uint
still_tuned = refl

process_envvars-Kept_example :
    KeptIn output start (process_envvars true hostile start)
    × KeptIn mtbf start (process_envvars true hostile start)
    × KeptIn backend start (process_envvars true hostile start)
    × KeptIn mmap_guard_min start (process_envvars true hostile start)
    × KeptIn introspect_enabled start (process_envvars true hostile start)
process_envvars-Kept_example = process_envvars-Kept hostile start

process_text-join_example :
    process_text false debug_items (join (bytes "audit") (bytes "lite" ∷ [])) start
    ≡ process_pieces false debug_items (bytes "audit" ∷ bytes "lite" ∷ []) start
process_text-join_example =
    process_text-join false debug_items (bytes "audit") (bytes "lite" ∷ []) start
      (omega arith, (omega arith, (omega arith, (omega arith, (omega arith, tt)))))
      ((omega arith, (omega arith, (omega arith, (omega arith, tt)))), tt)
      (λ e. omega (arith, ap length e))
