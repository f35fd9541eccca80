-- ===== src/Config.antt =====
-- src/config.h: the compile-time constants, and the widths of the machine's integers.
use system_t.Base.{ℕ, ◌^◌}

-- Bytes in a block.
abbrev pub blocksize : ℕ
blocksize = 4096

abbrev pub nblocks : ℕ
nblocks = 30

-- Seconds that a transaction may sleep before a retry.
abbrev pub maxtimeout : ℕ
maxtimeout = 32

-- Seconds that a transaction may hold a lock which another one wants.
abbrev pub timeslice : ℕ
timeslice = 4

-- A `trid_t` is an unsigned long of 64 bits.
abbrev pub trid_mod : ℕ
trid_mod = 2 ^ 64
