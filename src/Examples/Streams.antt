-- ===== src/Examples/Streams.antt =====
-- The transport over a small network: one stream from descriptor 4 to descriptor 5, and the address
-- of the last connection.
use system_t.Monitor.Returns.{Returns}
use system_t.Base.{
  ℕ, ◌-◌, ◌≡◌, refl, ◌&&◌, true, false, Option, none, some, List, [], ◌∷◌, ◌++◌, arith, ltb,
  if◌then◌else◌,
}
use system_t.Outcome.{returns, ◌>>=◌}
use system_t.Disk.{length, replicate}
use system_t.Trq.{Trq, commit, read}
use system_t.Transaction.Atomic.{take}
use system_t.Transport.Image.{Fits, image, of_image}
use system_t.Transaction.Calls.{drop}
use system_t.Transport.Network.{SockaddrIn, Pton, converted, malformed, Network}
use system_t.Transport.Layer.{new_layer, read_socket, connect_socket}
use system_t.Transport.Messages.{Stream, write_all, read_all, read_all-write_all, read_socket-mixes}
use system_t.Transport.Connecting.{any_host, connect_socket-ignores_host}
use system_t.Examples.Locks.{ask}

record World : Type 0 where
  queue : List ℕ
  peer : Option SockaddrIn

-- Text begins with a digit.
abbrev as_text : List ℕ → Pton
as_text [] = malformed
as_text (c ∷ rest) = if ltb 47 c && ltb c 58 then converted (c - 48) else malformed

abbrev small_net : Network World
small_net = record {
  socket = λ w. (some 4, w);
  bind = λ sock address w. (true, w);
  listen = λ sock qlen w. (true, w);
  accept = λ sock w. (none, w);
  close = λ sock w. w;
  recv = λ sock n w. (some (take n w.queue), record w { queue = drop n w.queue });
  send = λ sock bytes w. (some (length bytes), record w { queue = w.queue ++ bytes });
  connect = λ sock address w. (true, record w { peer = some address });
  gethostbyname =
      λ host w. (record { failed = false; addresses = some ((127 ∷ 0 ∷ 0 ∷ 1 ∷ []) ∷ []) }, w);
  inet_pton = as_text;
}

small_net-Stream : Stream small_net (λ w. w.queue) 4 5
small_net-Stream = record {
  sends = λ bytes w. (record w { queue = w.queue ++ bytes }, refl, refl);
  receives = λ n w. (record w { queue = drop n w.queue }, refl, refl);
}

abbrev idle : World
idle = record { queue = []; peer = none }

ask-Fits : Fits (ask 1 100 commit)
ask-Fits = record { tid = omega arith; pid = omega arith; block_no = omega arith }

other-Fits : Fits (ask 2 200 read)
other-Fits = record { tid = omega arith; pid = omega arith; block_no = omega arith }

read_all-write_all_example :
    Returns
      (λ (r : List (Option Trq) × World).
        r.0 ≡ some (ask 1 100 commit) ∷ some (ask 2 200 read) ∷ [])
      (write_all small_net 4 (ask 1 100 commit ∷ ask 2 200 read ∷ []) idle
        >>= read_all small_net 5 2 (replicate 24 7))
read_all-write_all_example =
    read_all-write_all small_net (λ w. w.queue) 4 5 small_net-Stream
      (ask 1 100 commit ∷ ask 2 200 read ∷ []) (replicate 24 7) idle (ask-Fits, (other-Fits, tt))
      refl refl

-- 12 bytes of the message of transaction 2 have come; the last message was that of transaction 1.
abbrev half : World
half = record idle { queue = take 12 (image (ask 2 200 read)) }

read_socket-mixes_example :
    (read_socket small_net 5 (image (ask 1 100 commit)) half
      ≡ returns (12, take 12 (image (ask 2 200 read)) ++ drop 12 (image (ask 1 100 commit)), idle))
    × (of_image (take 12 (image (ask 2 200 read)) ++ drop 12 (image (ask 1 100 commit)))
        ≡ some (ask 2 200 commit))
read_socket-mixes_example =
    read_socket-mixes small_net 5 (ask 2 200 read) (ask 1 100 commit) half idle other-Fits ask-Fits
      (unfold image in refl)

connect_socket-ignores_host_example :
    connect_socket small_net 4 (b'h' ∷ []) 2983 new_layer idle
    ≡ returns (
      record new_layer { clientaddr = any_host 2983 },
      record idle { peer = some (any_host 2983) },
    )
connect_socket-ignores_host_example =
    connect_socket-ignores_host small_net 4 2983 (b'h' ∷ []) idle idle
      (record idle { peer = some (any_host 2983) }) true
      (record { bytes = 127 ∷ 0 ∷ 0 ∷ 1 ∷ []; others = []; found = refl; no_text = refl }) refl
