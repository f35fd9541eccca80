-- ===== src/Monitor/Policy/Requests.antt =====
-- The lock requests as clients see them: what a grant takes from whom, and why a refusal was due.
use system_t.Monitor.Returns.{Returns}
use system_t.Monitor.Keeps.{check_sole_reader-cases, remove_reader-Granted}
use system_t.Monitor.Policy.Taking.{
  WriterGivesWay, take_write-Taken, WriteTaken, ReadTaken, ReadersGiveWay, Refused, read_lock-cases,
  write_lock-cases,
}
use mathlib.Core.Path.{subst}
use system_t.Monitor.Policy.ReaderList.{can_read-Kept}
use system_t.Base.{ℕ, ◌≡◌, refl, sym, ◌∙◌, ◌≢◌, ◌⊎◌, inl, inr, some, [], ◌∷◌, arith, Bool-cases, ap}
use system_t.Map.{find}
use system_t.Trq.{Trq}
use system_t.Monitor.State.{allocated, releasing, reading, writing, Blockholders, Monitor}
use system_t.Monitor.Locks.{update_status, set_writer, check_sole_reader, remove_reader}
use system_t.Monitor.Handlers.{answer, allocate_rq, read_rq, write_rq, release_rq}
use system_t.Monitor.Invariant.{Inv}
use system_t.Monitor.Grants.{can_read-Granted, can_write-Granted}
use system_t.Monitor.Policy.Evict.{Member, IsHolder, Evicts, find-modify_ne}
use system_t.Monitor.Policy.Decide.{can_read-Verdict, can_write-Verdict, same_holder}
use system_t.Monitor.Policy.Entries.{HolderAt, Taken, find-set_writer_self, blockmap-update_status}

-- An upgrade costs nobody anything: its block had no other holder.
module _ (m : Monitor) (b tid now : ℕ) (v : Inv m) (h : Blockholders)
    (at : find b m.blockmap ≡ some h) (sole : h.readers ≡ tid ∷ []) where
  no_writer : h.writer ≡ 0
  no_writer = ground (arith, (v.holders b h at).exclusive)

  sole-Evicts : Evicts (λ t. (t ≢ tid) × HolderAt m b t) b m (remove_reader b tid m)
  unfolding remove_reader
  sole-Evicts = record {
    doomed = λ t l.
        let (n, other) = l in
        let (k, f, holds) = other in
        let same : h ≡ k = same_holder at f in
        absurd (nobody_else t n (subst (IsHolder t) (sym same) holds));
    spared = λ t n. refl;
    elsewhere = λ c n. find-modify_ne b c _ m.blockmap (λ e. n (sym e));
  }
    where
      nobody_else : (t : ℕ) → t ≢ tid → ¬ IsHolder t h
      nobody_else t n (inl w) = omega (arith, no_writer)
      nobody_else t n (inr r) =
          let r' : Member t (tid ∷ []) = subst (Member t) sole r in
          elim r' [ inl e ↦ n (sym e) | inr e ↦ e ]

  sole-WriterGivesWay : WriterGivesWay m b tid now writing
  sole-WriterGivesWay k s f held e =
      let same : h ≡ k = same_holder at f in absurd (held (rw (← same) no_writer))

  sole-ReadersGiveWay : ReadersGiveWay m b tid now writing
  sole-ReadersGiveWay k r s f z r_in e =
      let same : h ≡ k = same_holder at f in
      let r' : Member r (tid ∷ []) = subst (Member r) sole (rw same r_in) in
      elim r' [ inl e ↦ inr (inl (omega arith)) | inr e ↦ absurd e ]

  sole-Taken :
      Taken
        (HolderAt m b)
        b
        tid
        writing
        m
        (update_status tid b writing (set_writer b tid (remove_reader b tid m)))
  unfolding remove_reader
  sole-Taken =
      take_write-Taken m b tid now writing (λ t. (t ≢ tid) × HolderAt m b t) (remove_reader b tid m)
        sole-Evicts (λ t. refl) (λ t n l. (n, l)) (λ t l. l.1)

-- The monitor satisfies its invariant.
module _ (m : Monitor) (v : Inv m) (rq : Trq) (now : ℕ) where
  -- Under the invariant allocate_rq answers every request, with one of two outcomes. Either the reply is OK: then the
  -- sender is the only holder of the block, whoever held it before is to die and was bound to give
  -- way (a writer that is not committing and is younger or late; readers that are committing, not
  -- older, or late), and no other transaction and no other block is touched. Or the reply is
  -- NOT_OK: then nothing has changed, and some holder is committing, or is not younger than the
  -- sender and within its time slice.
  pub allocate_rq-arbitrates :
      Returns
        (λ r.
          WriteTaken m rq.block_no rq.tid now allocated r
          ⊎ Refused m rq.block_no rq.tid now allocated r)
        (allocate_rq rq now m)
  unfolding allocate_rq answer
  allocate_rq-arbitrates =
      write_lock-cases m rq.block_no rq.tid now allocated _ _ _ refl refl
        (can_write-Verdict m rq.block_no rq.tid now v)
        (can_write-Granted m rq.block_no v rq.tid now)

  -- release_rq decides a request to release a block as allocate_rq does: a grant makes the sender the
  -- only holder of the block, with status RELEASING, and dooms the holders before, who were bound to
  -- give way; a refusal changes nothing and has a holder that may stay.
  pub release_rq-arbitrates :
      Returns
        (λ r.
          WriteTaken m rq.block_no rq.tid now releasing r
          ⊎ Refused m rq.block_no rq.tid now releasing r)
        (release_rq rq now m)
  unfolding release_rq answer
  release_rq-arbitrates =
      write_lock-cases m rq.block_no rq.tid now releasing _ _ _ refl refl
        (can_write-Verdict m rq.block_no rq.tid now v)
        (can_write-Granted m rq.block_no v rq.tid now)

  -- Under the invariant read_rq answers every request. Either the reply is OK: then the readers of
  -- the block are the sender and all those before it, there is no writer, a writer before was bound to
  -- give way (not committing, and younger or late) and is to die, and no other transaction's status
  -- and no other block is touched. Or the reply is NOT_OK: then nothing has changed, and some holder
  -- may stay.
  pub read_rq-arbitrates :
      Returns
        (λ r.
          ReadTaken m rq.block_no rq.tid now reading r ⊎ Refused m rq.block_no rq.tid now reading r)
        (read_rq rq now m)
  unfolding read_rq answer
  read_rq-arbitrates =
      read_lock-cases m rq.block_no rq.tid now reading _ _ _ refl refl
        (can_read-Verdict m rq.block_no rq.tid now v) (can_read-Granted m rq.block_no v rq.tid now)
        (can_read-Kept rq.tid rq.block_no now m)

  -- Under the invariant write_rq answers every request, as allocate_rq does. Either the reply is OK:
  -- then the sender is the only holder of the block, all other holders before were bound to give way
  -- and are to die, and no status of another transaction and no other block is touched. Or the reply is
  -- NOT_OK: then nothing has changed, and some holder may stay. The upgrade of a sole reader is
  -- included, and costs nobody a lock. The condition is that the number of the sender is not the one that readers.front() reads
  -- from an empty list.
  pub write_rq-arbitrates :
      (front_of_empty : ℕ)
      → rq.tid ≢ front_of_empty
      → Returns
          (λ r.
            WriteTaken m rq.block_no rq.tid now writing r
            ⊎ Refused m rq.block_no rq.tid now writing r)
          (write_rq front_of_empty rq now m)
  unfolding write_rq answer
  write_rq-arbitrates front_of_empty apart =
      elim (Bool-cases (check_sole_reader front_of_empty rq.tid rq.block_no m)) [
        | inl e ↦
            let (h, at, sole) =
              check_sole_reader-cases front_of_empty rq.tid rq.block_no m apart e in
            rw e (
              inl (
                refl,
                ap (find rq.block_no) (blockmap-update_status rq.block_no rq.tid writing _)
                    ∙ find-set_writer_self rq.block_no rq.tid _ (λ k f.
                      ((remove_reader-Granted rq.tid rq.block_no m v h at sole).free refl k f).1),
                sole-Taken m rq.block_no rq.tid now v h at sole,
                sole-WriterGivesWay m rq.block_no rq.tid now v h at sole,
                sole-ReadersGiveWay m rq.block_no rq.tid now v h at sole,
              ))
        | inr e ↦ rw e (
            write_lock-cases m rq.block_no rq.tid now writing _ _ _ refl refl
              (can_write-Verdict m rq.block_no rq.tid now v)
              (can_write-Granted m rq.block_no v rq.tid now))
      ]
