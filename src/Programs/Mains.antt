-- ===== src/Programs/Mains.antt =====
-- The main programs: src/initstore.cc makes the files, src/recover.cc recovers them, and src/tpmd.cc
-- is the monitor.
use system_t.Base.{ℕ, []}
use system_t.Config.{blocksize, nblocks}
use system_t.Outcome.{Outcome, returns, ◌>>=◌}
use system_t.Disk.{Block, unallocated, replicate, Disk}
use system_t.Log.Manager.{LogManager, open_log, do_recovery}
use system_t.Monitor.State.{init}
use system_t.Monitor.Server.{Round, start_round}
use system_t.Transport.Network.{Network}
use system_t.Transport.Layer.{new_layer, create_socket, bind_socket, listen_socket}

-- A block of the store as initstore writes it.
abbrev initial_block : Block
initial_block = replicate blocksize b'0'

-- Files that exist are truncated.
unfoldable pub initstore : Disk
initstore = record {
  store = replicate nblocks initial_block;
  index = replicate nblocks unallocated;
  log = [];
  alog = [];
}

unfoldable pub recover : Disk → Outcome (LogManager × Disk)
recover d = do_recovery open_log d

abbrev pub tpm_port : ℕ
tpm_port = 2983

-- The constructor of the monitor, and start up to its loop.
unfoldable pub tpmd : {W : Type 0} → Network W → Disk → W → Outcome (Round × W)
tpmd net d w = do
  (sockfd, t, w₁) ← create_socket net new_layer w
  (t', w₂) ← bind_socket net sockfd tpm_port t w₁
  w₃ ← listen_socket net sockfd 10 w₂
  returns (start_round sockfd (record { monitor = init; logger = open_log; disk = d }), w₃)
