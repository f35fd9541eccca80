-- ===== src/Trq.antt =====
-- src/trq.hh: the message that a transaction and the monitor send each other.
-- A pid_t is held as its 32 bits, and so is a block number, which the monitor only compares.
use system_t.Base.{ℕ, ◌+◌, ◌-◌, ◌%◌, ◌^◌, ltb, if◌then◌else◌}
use system_t.Config.{trid_mod}

pub data Request : Type 0 where
  begin commit end read write abort allocate release restart : Request

pub data Reply : Type 0 where
  ok not_ok die : Reply

pub record Trq : Type 0 where
  pub tid : ℕ
  pub pid : ℕ
  pub request : Request
  pub reply : Reply
  pub block_no : ℕ

-- A trid_t in a field of type pid_t keeps its low 32 bits.
unfoldable pub pid_of_tid : ℕ → ℕ
pid_of_tid t = t % 2 ^ 32

-- A pid_t in a field of type trid_t is sign-extended.
unfoldable pub tid_of_pid : ℕ → ℕ
tid_of_pid p = if ltb p (2 ^ 31) then p else p + (trid_mod - 2 ^ 32)
