-- ===== src/Monitor/Locks.antt =====
-- src/Monitor.cc, the lock table: who may read or write a block, and the entries of the holders.
-- The clock is an argument, read once for a request.
use system_t.Base.{
  ℕ, Bool, true, false, not, ◌&&◌, none, some, List, [], ◌∷◌, ltb, ◌==◌, if◌then◌else◌,
}
use system_t.Map.{Map, find, insert, modify}
use system_t.Outcome.{Outcome, returns, exits, undefined, ◌>>=◌}
use system_t.Monitor.State.{
  Status, preempted, Tstat, Blockholders, Monitor, is_committing, out_of_time, with_stat,
  with_writer,
}

-- list<trid_t>::remove, which drops every copy.
unfoldable pub remove : ℕ → List ℕ → List ℕ
remove t [] = []
remove t (r ∷ rs) = let rest = remove t rs in if r == t then rest else r ∷ rest

unfoldable pub update_status : ℕ → ℕ → Status → Monitor → Monitor
update_status tid blockno s m = record m {
  status = modify tid (λ p. record p { block_no = blockno; stat = s }) m.status;
}

-- The writer loses the block and is marked, so that its next request is answered by DIE.
unfoldable pub preempt_writer : ℕ → ℕ → Monitor → Monitor
preempt_writer writer blockno m = record m {
  status = modify writer (with_stat preempted) m.status;
  blockmap = modify blockno (with_writer 0) m.blockmap;
}

-- The part that can_read and can_write share: `tid` meets a writer of the block.
unfoldable pub contest_writer : ℕ → ℕ → ℕ → ℕ → Monitor → Outcome (Bool × Monitor)
contest_writer writer tid blockno now m = elim (find writer m.status) [
  | none ↦ exits
  | some q ↦
      if is_committing q.stat
      then returns (false, m)
      else if ltb tid writer
      then returns (true, preempt_writer writer blockno m)
      else if out_of_time now q
      then returns (true, preempt_writer writer blockno m)
      else returns (false, m)
]

unfoldable pub can_read : ℕ → ℕ → ℕ → Monitor → Outcome (Bool × Monitor)
can_read tid blockno now m = elim (find blockno m.blockmap) [
  | none ↦ returns (true, m)
  | some h ↦ if h.writer == 0 then returns (true, m) else contest_writer h.writer tid blockno now m
]

-- The loop that looks for a reader which `tid` has to respect. A reader with no status goes
-- through the end iterator.
unfoldable pub has_blocker : ℕ → ℕ → Map Tstat → List ℕ → Outcome Bool
has_blocker tid now status [] = returns false
has_blocker tid now status (r ∷ rs) =
    let rest = has_blocker tid now status rs in
    elim (find r status) [
      | none ↦ undefined
      | some s ↦
          if not (is_committing s.stat) && (ltb r tid && not (out_of_time now s))
          then returns true
          else rest
    ]

unfoldable pub preempt_readers : List ℕ → Monitor → Monitor
preempt_readers [] m = m
preempt_readers (k ∷ ks) m = preempt_readers ks (update_status k 0 preempted m)

-- readers.clear()
abbrev pub without_readers : Blockholders → Blockholders
without_readers h = record h { readers = [] }

unfoldable pub contest_readers : List ℕ → ℕ → ℕ → ℕ → Monitor → Outcome (Bool × Monitor)
contest_readers readers tid blockno now m = do
  found ← has_blocker tid now m.status readers
  if found
      then returns (false, m)
      else (let m' = preempt_readers readers m in
          returns (true, record m' { blockmap = modify blockno without_readers m'.blockmap }))

unfoldable pub can_write : ℕ → ℕ → ℕ → Monitor → Outcome (Bool × Monitor)
can_write tid blockno now m = elim (find blockno m.blockmap) [
  | none ↦ returns (true, m)
  | some h ↦
      if h.writer == 0
      then elim h.readers [
        | [] ↦ returns (true, m)
        | r ∷ rs ↦ contest_readers (r ∷ rs) tid blockno now m
      ]
      else contest_writer h.writer tid blockno now m
]

unfoldable pub set_writer : ℕ → ℕ → Monitor → Monitor
set_writer blockno tid m = elim (find blockno m.blockmap) [
  | none ↦ record m { blockmap = insert blockno (record { readers = []; writer = tid }) m.blockmap }
  | some h ↦ record m { blockmap = modify blockno (with_writer tid) m.blockmap }
]

unfoldable pub set_reader : ℕ → ℕ → Monitor → Monitor
set_reader blockno tid m = elim (find blockno m.blockmap) [
  | none ↦ record m {
    blockmap = insert blockno (record { readers = tid ∷ []; writer = 0 }) m.blockmap;
  }
  | some h ↦ record m {
    blockmap = modify blockno (λ p. record p { readers = tid ∷ p.readers }) m.blockmap;
  }
]

-- `front_of_empty` is what readers.front() reads from an empty list, which C++ leaves undefined.
unfoldable pub check_sole_reader : ℕ → ℕ → ℕ → Monitor → Bool
check_sole_reader front_of_empty tid block m = elim (find block m.blockmap) [
  | none ↦ false
  | some h ↦ elim h.readers [
    | [] ↦ tid == front_of_empty
    | r ∷ rest ↦ elim rest [ [] ↦ tid == r | _ ↦ false ]
  ]
]

unfoldable pub remove_reader : ℕ → ℕ → Monitor → Monitor
remove_reader block tid m = record m {
  blockmap = modify block (λ p. record p { readers = remove tid p.readers }) m.blockmap;
}
