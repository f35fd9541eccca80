-- ===== src/Examples/Session.antt =====
-- A client that meets nobody at the monitor: it reads block 7, writes it, and allocates block 8.
use system_t.Monitor.Returns.{Returns}
use system_t.Base.{ℕ, refl, [], ◌∷◌, List, inl, inr, arith}
use system_t.Map.{find}
use system_t.Trq.{Request, Trq, ok, begin, read, write, allocate, commit, end}
use system_t.Monitor.Invariant.{init-Inv}
use system_t.Monitor.Runs.{accept_client-Inv}
use system_t.Monitor.State.{init}
use system_t.Monitor.Server.{accept_client}
use system_t.Monitor.LoneLocks.{reads, writes, allocates}
use system_t.Monitor.Session.{ask_all, AllOk, IsSession, locks, closes, ask_all-grants}

abbrev to_tpm : ℕ → Request → ℕ → Trq
to_tpm tid r b = record { tid = tid; pid = 100; request = r; reply = ok; block_no = b }

abbrev messages : List (Trq × ℕ)
messages =
    (to_tpm 1 read 7, 11)
    ∷ (to_tpm 1 write 7, 11)
    ∷ (to_tpm 1 allocate 8, 40)
    ∷ (to_tpm 1 commit 0, 41)
    ∷ (to_tpm 1 end 0, 42)
    ∷ []

messages-IsSession : IsSession 1 [] messages
messages-IsSession =
    locks (to_tpm 1 read 7) 11 refl reads (λ x. x)
      (locks (to_tpm 1 write 7) 11 refl writes (λ x. x)
        (locks (to_tpm 1 allocate 8) 40 refl allocates (elim [ inl e ↦ omega arith | inr e ↦ e ])
          (closes (to_tpm 1 commit 0) (to_tpm 1 end 0) 41 42 refl refl refl refl)))

ask_all-grants_example :
    Returns
      (λ q. AllOk q.1)
      (ask_all 0 4 ((to_tpm 0 begin 0, 10) ∷ messages) (accept_client 4 init))
unfolding accept_client init find
ask_all-grants_example =
    ask_all-grants 0 4 (accept_client 4 init) (to_tpm 0 begin 0) 10 messages
      (accept_client-Inv 4 init init-Inv) (omega arith) (omega arith)
      (λ b t (h, e, x). ground arith) refl messages-IsSession
