-- ===== src/Transaction/Client.antt =====
-- The messages that src/Transaction.cc sends to src/Monitor.cc when nobody else does.
use mathlib.Core.Path.{subst}
use system_t.Monitor.Returns.{Returns}
use system_t.Base.{ℕ, ◌+◌, ◌<◌, ◌≡◌, refl, ◌≢◌, List, [], ◌∷◌, ◌++◌}
use system_t.Config.{trid_mod}
use system_t.Trq.{Trq, begin, commit, end}
use system_t.Monitor.State.{Monitor}
use system_t.Monitor.Invariant.{Inv}
use system_t.Monitor.Policy.Entries.{HolderAt}
use system_t.Monitor.Session.{ask_all, AllOk, IsSession, locks, closes, ask_all-grants}
use system_t.Transaction.State.{
  Transaction, Act, Ran, gives, throws, waits, faults, ends, spins, and_then,
}
use system_t.Transaction.Asking.{Gives, Gives-bind}
use system_t.Transaction.Held.{LockLog, unasked, asked, IsOrderly}
use system_t.Transaction.Orderly.{StaysOrderly}

-- Code that keeps the order, wherever it starts.
abbrev pub KeepsOrder : ℕ → List Trq → {A : Type 0} → Act A → Type 0
KeepsOrder c base m =
    (written : List ℕ) (s : Transaction)
    → IsOrderly c base written s
    → Gives (StaysOrderly c base) (m s)

pub then_keeps :
    (c : ℕ) (base : List Trq) {A B : Type 0} (m : Act A) (f : A → Act B)
    → KeepsOrder c base m
    → ((a : A) → KeepsOrder c base (f a))
    → KeepsOrder c base (and_then m f)
unfolding and_then
then_keeps c base m f p q written s k =
    Gives-bind (StaysOrderly c base) (StaysOrderly c base) (m s) f (p written s k)
      (λ a t (w, l). q a w t l)

-- Messages, newest first, in the order in which they were sent and before the messages `ts`. The
-- clock gives the time of a message from those that were sent before it.
unfoldable pub in_order : (List Trq → ℕ) → List Trq → List (Trq × ℕ) → List (Trq × ℕ)
in_order clock [] ts = ts
in_order clock (t ∷ new) ts = in_order clock new ((t, clock new) ∷ ts)

-- The log of locks is a session when COMMIT and END follow.
LockLog-IsSession :
    (c : ℕ) (base sent : List Trq) (written : List ℕ)
    → LockLog c base sent written
    → (new : List Trq) × (sent ≡ new ++ base)
      × ((clock : List Trq → ℕ) (ts : List (Trq × ℕ))
          → IsSession c written ts
          → IsSession c [] (in_order clock new ts))
unfolding in_order
LockLog-IsSession c base sent written unasked = ([], refl, λ clock ts s. s)
LockLog-IsSession c base sent written (asked {sent = before} t log e l fresh) =
    let (new, same, more) = LockLog-IsSession c base before _ log in
    (t ∷ new, rw same refl, λ clock ts s. more clock _ (locks t (clock new) e l fresh s))

-- A transaction that has begun at the monitor `m`, and has no buffers yet.
pub record IsFresh (m : Monitor) (s : Transaction) : Type 0 where
  pub tid : s.tid ≡ m.next_tid
  pub blockmap : s.blockmap ≡ []
  pub granted : AllOk s.replies

begun-IsOrderly : (m : Monitor) (s : Transaction) → IsFresh m s → IsOrderly s.tid s.sent [] s
begun-IsOrderly m s k = record {
  self = refl;
  log = unasked;
  used = λ b at. absurd at;
  holds = λ b at. absurd at;
  granted = k.granted;
}

-- The messages that code sends from `s` on, if it comes to its end, are granted by the monitor from
-- BEGIN to END.
abbrev pub IsGranted : ℕ → ℕ → Monitor → Transaction → Transaction → Type 0
IsGranted front_of_empty who m s t =
    (new : List Trq) × (t.sent ≡ new ++ s.sent)
    × ((clock : List Trq → ℕ) (b c e : Trq) (now later last : ℕ)
        → b.request ≡ begin
        → c.tid ≡ s.tid
        → c.request ≡ commit
        → e.tid ≡ s.tid
        → e.request ≡ end
        → Returns (λ (q : Monitor × List Trq). AllOk q.1)
            (ask_all front_of_empty who
              ((b, now) ∷ in_order clock new ((c, later) ∷ (e, last) ∷ [])) m))

Gives-map :
    {A : Type 0} (P Q : A → Transaction → Type 0) (r : Ran A)
    → ((a : A) (t : Transaction) → P a t → Q a t)
    → Gives P r
    → Gives Q r
Gives-map P Q (gives a t) k p = k a t p
Gives-map P Q (throws e t) k p = tt
Gives-map P Q waits k p = tt
Gives-map P Q faults k p = tt
Gives-map P Q ends k p = tt
Gives-map P Q spins k p = tt

module _ (front_of_empty who : ℕ) (m : Monitor) (v : Inv m) (room : m.next_tid + 1 < trid_mod)
    (apart : m.next_tid ≢ front_of_empty) (free : (b holder : ℕ) → ¬ HolderAt m b holder)
    (s : Transaction) (k : IsFresh m s) where
  pub lone_client :
      {A : Type 0} (code : Act A)
      → KeepsOrder s.tid s.sent code
      → Gives (λ _ t. IsGranted front_of_empty who m s t) (code s)
  lone_client code keeps =
      Gives-map (StaysOrderly s.tid s.sent) (λ _ t. IsGranted front_of_empty who m s t) (code s)
        (λ a t (w, o).
          let (new, same, session) = LockLog-IsSession s.tid s.sent t.sent w o.log in
          (
            new,
            same,
            λ clock b c e now later last bb cc cr ee er.
                ask_all-grants front_of_empty who m b now _ v room apart free bb (
                  subst (λ x. IsSession x [] (in_order clock new ((c, later) ∷ (e, last) ∷ [])))
                    k.tid (session clock _ (closes c e later last cc cr ee er))),
          ))
        (keeps [] s (begun-IsOrderly m s k))
