-- ===== src/Transport/Messages.antt =====
-- Messages through readSocket and writeSocket of src/Transport.cc.
use mathlib.Core.List.{append-nil, append_assoc}
use system_t.Monitor.Returns.{Returns, Returns-map, Returns-bind}
use system_t.Base.{ℕ, zero, suc, ◌≡◌, refl, sym, ap, ◌∙◌, Option, none, some, List, [], ◌∷◌, ◌++◌}
use system_t.Outcome.{Outcome, returns, exits, ◌>>=◌}
use system_t.Disk.{length}
use system_t.Trq.{Trq}
use system_t.Transaction.Atomic.{take}
use system_t.Transport.Image.{
  bytes_of, of_bytes-bytes_of, request_code, reply_code, request_code-lt, reply_code-lt, trq_size,
  image, of_image, Fits, of_image-fields, of_image-image, length-image, take-image, drop-image,
}
use system_t.Transaction.Calls.{drop}
use system_t.Transport.Network.{Network}
use system_t.Transport.Layer.{read_socket, write_socket}

-- A stream from descriptor `a` to descriptor `b`: send() puts all its bytes behind those that wait,
-- and recv() takes as many as wait, up to the number that it is asked for.
pub record Stream {W : Type 0} (net : Network W) (queue : W → List ℕ) (a b : ℕ) : Type 0 where
  pub sends :
      (bytes : List ℕ) (w : W)
      → (w' : W) × (net.send a bytes w ≡ (some (length bytes), w')) × (queue w' ≡ queue w ++ bytes)
  pub receives :
      (n : ℕ) (w : W)
      → (w' : W) × (net.recv b n w ≡ (some (take n (queue w)), w')) × (queue w' ≡ drop n (queue w))

-- Messages written one after the other.
unfoldable pub write_all : {W : Type 0} → Network W → ℕ → List Trq → W → Outcome W
write_all net a [] w = returns w
write_all net a (t ∷ ts) w = do w' ← write_socket net a (image t) w; write_all net a ts w'

-- As many messages read, each into the memory of the one before.
unfoldable pub read_all :
    {W : Type 0} → Network W → ℕ → ℕ → List ℕ → W → Outcome (List (Option Trq) × W)
read_all net b zero rq w = returns ([], w)
read_all net b (suc n) rq w = do
  (bytes_read, rq', w') ← read_socket net b rq w
  (rest, w'') ← read_all net b n rq' w'
  returns (of_image rq' ∷ rest, w'')

abbrev pub images : List Trq → List ℕ
images [] = []
images (t ∷ ts) = image t ++ images ts

abbrev pub AllFit : List Trq → Type 0
AllFit [] = Unit
AllFit (t ∷ ts) = Fits t × AllFit ts

abbrev pub all_some : List Trq → List (Option Trq)
all_some [] = []
all_some (t ∷ ts) = some t ∷ all_some ts

drop-length : {A : Type 0} (xs : List A) → drop (length xs) xs ≡ []
drop-length [] = refl
drop-length (x ∷ xs) = drop-length xs

read_socket-got :
    {W : Type 0} (net : Network W) (b : ℕ) (rq : List ℕ) (w : W) (bytes : List ℕ) (w' : W)
    → net.recv b trq_size w ≡ (some bytes, w')
    → read_socket net b rq w ≡ returns (length bytes, bytes ++ drop (length bytes) rq, w')
unfolding read_socket
read_socket-got {W} net b rq w bytes w' got =
    ap
      (λ (r : Option (List ℕ) × W). elim r.0 [
        | none ↦ exits
        | some bytes ↦ returns (length bytes, bytes ++ drop (length bytes) rq, r.1)
      ])
      got

module _ {W : Type 0} (net : Network W) (queue : W → List ℕ) (a b : ℕ)
    (stream : Stream net queue a b) where
  write_one :
      (t : Trq) (w : W)
      → (w' : W) × (write_socket net a (image t) w ≡ returns w') × (queue w' ≡ queue w ++ image t)
  unfolding write_socket
  write_one t w =
      let (w', sent, more) = stream.sends (image t) w in
      (w', ap (λ (r : Option ℕ × W). elim r.0 [ none ↦ exits | some n ↦ returns r.1 ]) sent, more)

  write_all-Returns :
      (ts : List Trq) (w : W)
      → Returns (λ w'. queue w' ≡ queue w ++ images ts) (write_all net a ts w)
  unfolding write_all
  write_all-Returns [] w = sym (append-nil (queue w))
  write_all-Returns (t ∷ ts) w =
      let (w', sent, more) = write_one t w in
      rw (sent, write_all)
        (Returns-map (λ u. queue u ≡ queue w' ++ images ts)
          (λ u. queue u ≡ queue w ++ (image t ++ images ts)) (write_all net a ts w')
          (λ u e. e ∙ ap (λ q. q ++ images ts) more ∙ append_assoc (queue w) (image t) (images ts))
          (write_all-Returns ts w'))

  -- The memory is overwritten as a whole.
  read_one :
      (t : Trq) (rest rq : List ℕ) (w : W)
      → queue w ≡ image t ++ rest
      → length rq ≡ trq_size
      → (w' : W) × (read_socket net b rq w ≡ returns (trq_size, image t, w')) × (queue w' ≡ rest)
  unfolding read_socket
  read_one t rest rq w waits size =
      let (w', got, left) = stream.receives trq_size w in
      let bytes : take trq_size (queue w) ≡ image t =
        ap (take trq_size) waits ∙ take-image t rest in
      let nothing : image t ++ drop trq_size rq ≡ image t =
        ap (λ n. image t ++ drop n rq) (sym size)
        ∙ ap (λ xs. image t ++ xs) (drop-length rq)
        ∙ append-nil (image t) in
      (
        w',
        read_socket-got net b rq w (take trq_size (queue w)) w' got
            ∙ rw bytes (rw (length-image t) (rw nothing refl)),
        left ∙ ap (drop trq_size) waits ∙ drop-image t rest,
      )

  read_all-Returns :
      (ts : List Trq) (rq : List ℕ) (w : W)
      → AllFit ts
      → queue w ≡ images ts
      → length rq ≡ trq_size
      → Returns (λ r. r.0 ≡ all_some ts) (read_all net b (length ts) rq w)
  unfolding read_all
  read_all-Returns [] rq w fit waits size = refl
  read_all-Returns (t ∷ ts) rq w fit waits size =
      let (w', got, left) = read_one t (images ts) rq w waits size in
      let rest = read_all-Returns ts (image t) w' fit.1 left (length-image t) in
      rw (got, read_all)
        (Returns-bind (λ (r : List (Option Trq) × W). r.0 ≡ all_some ts)
          (λ (r : List (Option Trq) × W). r.0 ≡ some t ∷ all_some ts)
          (read_all net b (length ts) (image t) w') _ rest
          (λ r e. rw (of_image-image t fit.0, e) refl))

  -- Messages whose numbers fit into their fields, written one after the other while nothing waits on
  -- the stream, are read as the same messages in the same order, whatever the memory held that the
  -- first is read into.
  pub read_all-write_all :
      (ts : List Trq) (rq : List ℕ) (w : W)
      → AllFit ts
      → queue w ≡ []
      → length rq ≡ trq_size
      → Returns (λ r. r.0 ≡ all_some ts) (write_all net a ts w >>= read_all net b (length ts) rq)
  read_all-write_all ts rq w fit empty size =
      Returns-bind (λ w'. queue w' ≡ queue w ++ images ts)
        (λ (r : List (Option Trq) × W). r.0 ≡ all_some ts) (write_all net a ts w) _
        (write_all-Returns ts w)
        (λ w' e. read_all-Returns ts rq w' fit (e ∙ ap (λ q. q ++ images ts) empty) size)

-- A message comes in two pieces, the first of them the transaction and the pid: readSocket returns
-- after the first piece, and the message that it has read is that of the sender in these two fields
-- and the one before in the request, the reply and the block.
pub read_socket-mixes :
    {W : Type 0} (net : Network W) (b : ℕ) (t before : Trq) (w w' : W)
    → Fits t
    → Fits before
    → net.recv b trq_size w ≡ (some (take 12 (image t)), w')
    → (read_socket net b (image before) w
        ≡ returns (12, take 12 (image t) ++ drop 12 (image before), w'))
      × (of_image (take 12 (image t) ++ drop 12 (image before))
          ≡ some (record before { tid = t.tid; pid = t.pid }))
unfolding read_socket image bytes_of
read_socket-mixes net b t before w w' fit old got = (
  read_socket-got net b (image before) w (take 12 (image t)) w' got,
  of_image-fields _ (record before { tid = t.tid; pid = t.pid }) (of_bytes-bytes_of 8 t.tid fit.tid)
      (of_bytes-bytes_of 4 t.pid fit.pid)
      (of_bytes-bytes_of 4 (request_code before.request) (request_code-lt before.request))
      (of_bytes-bytes_of 4 (reply_code before.reply) (reply_code-lt before.reply))
      (of_bytes-bytes_of 4 before.block_no old.block_no),
)
