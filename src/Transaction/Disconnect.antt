-- ===== src/Transaction/Disconnect.antt =====
-- A client that goes away while it commits: its commit of src/Transaction.cc up to there, and
-- client_disconnect of src/Monitor.cc.
use system_t.Outcome.{Outcome}
use system_t.Disk.{Disk}
use system_t.Monitor.Returns.{Returns}
use system_t.Monitor.Server.{Server}
