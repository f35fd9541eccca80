-- ===== src/Transport/Image.antt =====
-- The memory image of a trq of src/trq.hh, as src/Transport.cc sends and receives it: 24 bytes, the
-- least significant byte of a number first.
use system_t.Base.{
  ℕ, zero, suc, ◌+◌, ◌*◌, ◌/◌, ◌%◌, ◌^◌, ◌<◌, ◌≡◌, refl, Option, none, some, List, [], ◌∷◌, ◌++◌,
  arith,
}
use native.Mathlib.Nat.{pow-suc}
use system_t.Transaction.Atomic.{take}
use system_t.Transaction.Calls.{drop}
use system_t.Disk.{get_elem?, length}
use system_t.Trq.{
  Request, Reply, Trq, begin, commit, end, read, write, abort, allocate, release, restart, ok,
  not_ok, die,
}

-- The bytes of a number of this width.
unfoldable pub bytes_of : ℕ → ℕ → List ℕ
bytes_of zero x = []
bytes_of (suc w) x = x % 256 ∷ bytes_of w (x / 256)

unfoldable pub of_bytes : List ℕ → ℕ
of_bytes [] = 0
of_bytes (b ∷ bs) = b + 256 * of_bytes bs

pub of_bytes-bytes_of : (w x : ℕ) → x < 256 ^ w → of_bytes (bytes_of w x) ≡ x
unfolding of_bytes bytes_of
of_bytes-bytes_of zero x h = omega arith
of_bytes-bytes_of (suc w) x h =
    let power : 256 ^ suc w ≡ 256 ^ w * 256 = pow-suc 256 w in
    let small : x / 256 < 256 ^ w = omega arith in
    let rest = of_bytes-bytes_of w (x / 256) small in omega arith

-- The enumerators count from 0.
unfoldable pub request_code : Request → ℕ
request_code begin = 0
request_code commit = 1
request_code end = 2
request_code read = 3
request_code write = 4
request_code abort = 5
request_code allocate = 6
request_code release = 7
request_code restart = 8

unfoldable pub reply_code : Reply → ℕ
reply_code ok = 0
reply_code not_ok = 1
reply_code die = 2

-- `none` for a number that no enumerator has.
unfoldable pub request_of : ℕ → Option Request
request_of n =
    get_elem? (begin ∷ commit ∷ end ∷ read ∷ write ∷ abort ∷ allocate ∷ release ∷ restart ∷ []) n

unfoldable pub reply_of : ℕ → Option Reply
reply_of n = get_elem? (ok ∷ not_ok ∷ die ∷ []) n

-- sizeof(trq)
abbrev pub trq_size : ℕ
trq_size = 24

unfoldable pub image : Trq → List ℕ
unfolding bytes_of request_code reply_code
image t =
    bytes_of 8 t.tid
    ++ bytes_of 4 t.pid
    ++ bytes_of 4 (request_code t.request)
    ++ bytes_of 4 (reply_code t.reply)
    ++ bytes_of 4 t.block_no

-- The `n` bytes from offset `i` on, as a number.
abbrev pub field : ℕ → ℕ → List ℕ → ℕ
field i n bytes = of_bytes (take n (drop i bytes))

unfoldable pub of_fields : ℕ → ℕ → ℕ → ℕ → ℕ → Option Trq
unfolding request_of reply_of
of_fields tid pid request reply block_no = elim (request_of request) [
  | none ↦ none
  | some q ↦ elim (reply_of reply) [
    | none ↦ none
    | some a ↦ some (record { tid = tid; pid = pid; request = q; reply = a; block_no = block_no })
  ]
]

-- The trq that the bytes are the image of.
unfoldable pub of_image : List ℕ → Option Trq
of_image bytes =
    of_fields (field 0 8 bytes) (field 8 4 bytes) (field 12 4 bytes) (field 16 4 bytes)
      (field 20 4 bytes)

-- The numbers fit into the fields.
pub record Fits (t : Trq) : Type 0 where
  pub tid : t.tid < 256 ^ 8
  pub pid : t.pid < 256 ^ 4
  pub block_no : t.block_no < 256 ^ 4

request_of-code : (r : Request) → request_of (request_code r) ≡ some r
unfolding request_of request_code
request_of-code begin = refl
request_of-code commit = refl
request_of-code end = refl
request_of-code read = refl
request_of-code write = refl
request_of-code abort = refl
request_of-code allocate = refl
request_of-code release = refl
request_of-code restart = refl

reply_of-code : (r : Reply) → reply_of (reply_code r) ≡ some r
unfolding reply_of reply_code
reply_of-code ok = refl
reply_of-code not_ok = refl
reply_of-code die = refl

pub request_code-lt : (r : Request) → request_code r < 256 ^ 4
unfolding request_code
request_code-lt r = grind arith

pub reply_code-lt : (r : Reply) → reply_code r < 256 ^ 4
unfolding reply_code
reply_code-lt r = grind arith

of_fields-codes :
    (t : Trq)
    → of_fields t.tid t.pid (request_code t.request) (reply_code t.reply) t.block_no ≡ some t
unfolding of_fields
of_fields-codes t = rw (request_of-code t.request, of_fields) (rw (reply_of-code t.reply) refl)

-- What is read back from 24 bytes is what is written in their five fields.
pub of_image-fields :
    (bytes : List ℕ) (t : Trq)
    → field 0 8 bytes ≡ t.tid
    → field 8 4 bytes ≡ t.pid
    → field 12 4 bytes ≡ request_code t.request
    → field 16 4 bytes ≡ reply_code t.reply
    → field 20 4 bytes ≡ t.block_no
    → of_image bytes ≡ some t
unfolding of_image
of_image-fields bytes t tid pid q a b = rw (tid, pid, q, a, b, of_image) (of_fields-codes t)

pub of_image-image : (t : Trq) → Fits t → of_image (image t) ≡ some t
unfolding image bytes_of
of_image-image t h =
    of_image-fields (image t) t (of_bytes-bytes_of 8 t.tid h.tid) (of_bytes-bytes_of 4 t.pid h.pid)
      (of_bytes-bytes_of 4 (request_code t.request) (request_code-lt t.request))
      (of_bytes-bytes_of 4 (reply_code t.reply) (reply_code-lt t.reply))
      (of_bytes-bytes_of 4 t.block_no h.block_no)

-- An image is 24 bytes long.
module _ (t : Trq) where
  pub length-image : length (image t) ≡ trq_size
  unfolding image bytes_of
  length-image = refl

  pub take-image : (rest : List ℕ) → take trq_size (image t ++ rest) ≡ image t
  unfolding image bytes_of
  take-image rest = refl

  pub drop-image : (rest : List ℕ) → drop trq_size (image t ++ rest) ≡ rest
  unfolding image bytes_of
  drop-image rest = refl
