-- ===== src/Envvar.antt =====
-- envvar.c: the options in UMEM_DEBUG, UMEM_OPTIONS and UMEM_LOGGING. A text is the list of its bytes,
-- without the NUL; a pointer that may be NULL is an option. Reading through NULL, and the write behind
-- the table of sizes, are `none`. The messages are left out, and where the texts come from
-- (`umem_setup_envvars`) is an argument.
pub mod Number
pub mod Items
pub mod Tables
pub mod Scaled
pub mod Pieces
pub mod Writes
pub mod Processors
pub mod Secure
mod Tests
