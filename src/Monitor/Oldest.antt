-- ===== src/Monitor/Oldest.antt =====
-- Lock requests of src/Monitor.cc from a transaction that is older than the holders of the block.
use system_t.Monitor.Returns.{Returns}
use system_t.Monitor.Policy.Evict.{IsHolder, IsWriter}
use system_t.Base.{ℕ, ◌<◌, ◌≡◌, ◌≢◌, some}
use system_t.Map.{find}
use system_t.Trq.{Trq}
use system_t.Monitor.State.{Monitor, Blockholders, Tstat, committing}

-- Every holder of the block is younger than `tid`, and a writer of it is not committing.
pub record IsOldest (m : Monitor) (b tid : ℕ) : Type 0 where
  pub younger : (h : Blockholders) (t : ℕ) → find b m.blockmap ≡ some h → IsHolder t h → tid < t
  pub writer :
      (h : Blockholders) (t : ℕ) (s : Tstat)
      → find b m.blockmap ≡ some h
      → IsWriter t h
      → find t m.status ≡ some s
      → s.stat ≢ committing
