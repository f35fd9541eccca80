-- ===== src/Monitor/State.antt =====
-- src/Monitor.hh: what the monitor keeps of transactions, of blocks and of clients.
use system_t.Base.{ℕ, ◌-◌, Bool, true, false, List, [], ltb}
use system_t.Map.{Map}
use system_t.Config.{timeslice}

-- tstat::status_t
pub data Status : Type 0 where
  begun reading writing allocated releasing aborting restarting : Status
  committing ended preempted : Status

pub record Tstat : Type 0 where
  pub pid : ℕ
  pub block_no : ℕ
  pub started : ℕ
  pub stat : Status

-- A writer of 0 stands for no writer.
pub record Blockholders : Type 0 where
  pub readers : List ℕ
  pub writer : ℕ

-- `transactions` maps a client's descriptor to its transaction.
pub record Monitor : Type 0 where
  pub clients : List ℕ
  pub next_tid : ℕ
  pub transactions : Map ℕ
  pub status : Map Tstat
  pub blockmap : Map Blockholders

-- The constructor.
unfoldable pub init : Monitor
init = record { clients = []; next_tid = 1; transactions = []; status = []; blockmap = [] }

abbrev pub is_committing : Status → Bool
is_committing committing = true
is_committing _ = false

abbrev pub is_preempted : Status → Bool
is_preempted preempted = true
is_preempted _ = false

-- difftime(now, started) > TIMESLICE: a start that lies ahead of the clock is not past it either.
abbrev pub out_of_time : ℕ → Tstat → Bool
out_of_time now s = ltb timeslice (now - s.started)

-- q->second.stat = s
abbrev pub with_stat : Status → Tstat → Tstat
with_stat s t = record t { stat = s }

-- p->second.writer = t
abbrev pub with_writer : ℕ → Blockholders → Blockholders
with_writer t h = record h { writer = t }
