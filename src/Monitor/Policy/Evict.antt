-- ===== src/Monitor/Policy/Evict.antt =====
-- Who loses a lock and what is left alone when the holders of a block are preempted.
use system_t.Base.{ℕ, ◌<◌, ◌≡◌, refl, ◌≢◌, ◌⊎◌, inl, inr, ◌∙◌, some, List, [], ◌∷◌, arith}
use system_t.Map.{find, modify, find-modify, find-modify_cases}
use system_t.Monitor.State.{Status, preempted, Tstat, Blockholders, Monitor, with_stat}
use system_t.Monitor.Locks.{update_status, preempt_writer, preempt_readers}

abbrev pub Member : ℕ → List ℕ → Type 0
Member t [] = ⊥
Member t (r ∷ rs) = (r ≡ t) ⊎ Member t rs

-- The transaction writes the block, or it reads or writes it.
abbrev pub IsWriter : ℕ → Blockholders → Type 0
IsWriter t h = (0 < t) × (h.writer ≡ t)

abbrev pub IsHolder : ℕ → Blockholders → Type 0
IsHolder t h = IsWriter t h ⊎ Member t h.readers

-- Its next request will be answered by DIE.
abbrev pub IsDoomed : ℕ → Monitor → Type 0
IsDoomed t m = (s : Tstat) → find t m.status ≡ some s → s.stat ≡ preempted

-- From `m` to `m'` the losers are doomed; all other transactions and all other blocks than `b` are
-- as they were.
pub record Evicts (Loser : ℕ → Type 0) (b : ℕ) (m m' : Monitor) : Type 0 where
  pub doomed : (t : ℕ) → Loser t → IsDoomed t m'
  pub spared : (t : ℕ) → ¬ Loser t → find t m'.status ≡ find t m.status
  pub elsewhere : (c : ℕ) → c ≢ b → find c m'.blockmap ≡ find c m.blockmap

IsDoomed-update_status :
    (t k : ℕ) (m : Monitor) → IsDoomed t m → IsDoomed t (update_status k 0 preempted m)
unfolding update_status
IsDoomed-update_status t k m d s e =
    let (v, p, either) = find-modify_cases k t _ s m.status e in
    elim either [ inl (_, q) ↦ rw q refl | inr (_, q) ↦ rw q (d v p) ]

update_status-IsDoomed : (t : ℕ) (m : Monitor) → IsDoomed t (update_status t 0 preempted m)
unfolding update_status
update_status-IsDoomed t m s e =
    let (v, p, either) = find-modify_cases t t _ s m.status e in
    elim either [ inl (_, q) ↦ rw q refl | inr (n, _) ↦ absurd (n refl) ]

IsDoomed-preempt_readers :
    (t : ℕ) (rs : List ℕ) (m : Monitor) → IsDoomed t m → IsDoomed t (preempt_readers rs m)
unfolding preempt_readers
IsDoomed-preempt_readers t [] m d = d
IsDoomed-preempt_readers t (k ∷ ks) m d =
    IsDoomed-preempt_readers t ks _ (IsDoomed-update_status t k m d)

pub preempt_readers-IsDoomed :
    (t : ℕ) (rs : List ℕ) (m : Monitor) → Member t rs → IsDoomed t (preempt_readers rs m)
unfolding preempt_readers
preempt_readers-IsDoomed t [] m h = absurd h
preempt_readers-IsDoomed t (k ∷ ks) m (inl e) =
    IsDoomed-preempt_readers t ks _ (rw e (update_status-IsDoomed t m))
preempt_readers-IsDoomed t (k ∷ ks) m (inr h) = preempt_readers-IsDoomed t ks _ h

find-update_status_ne :
    (t k b : ℕ) (s : Status) (m : Monitor)
    → k ≢ t
    → find t (update_status k b s m).status ≡ find t m.status
unfolding update_status
find-update_status_ne t k b s m n =
    ground (arith, find-modify k t (λ p. record p { block_no = b; stat = s }) m.status)

pub find-preempt_readers_ne :
    (t : ℕ) (rs : List ℕ) (m : Monitor)
    → ¬ Member t rs
    → find t (preempt_readers rs m).status ≡ find t m.status
unfolding preempt_readers
find-preempt_readers_ne t [] m n = refl
find-preempt_readers_ne t (k ∷ ks) m n =
    find-preempt_readers_ne t ks _ (λ h. n (inr h))
    ∙ find-update_status_ne t k 0 preempted m (λ e. n (inl e))

pub find-modify_ne :
    {V : Type 0} (k j : ℕ) (f : V → V) (m : List (ℕ × V)) → k ≢ j → find j (modify k f m) ≡ find j m
find-modify_ne k j f m n = ground (arith, find-modify k j f m)

-- The only holder is the writer.
pub preempt_writer-Evicts : (w b : ℕ) (m : Monitor) → Evicts (λ t. t ≡ w) b m (preempt_writer w b m)
unfolding preempt_writer
preempt_writer-Evicts w b m = record {
  doomed = λ t same s e.
      let (v, p, either) = find-modify_cases w t (with_stat preempted) s m.status e in
      elim either [ inl (_, q) ↦ rw q refl | inr (n, _) ↦ absurd (n (rw same refl)) ];
  spared = λ t n. find-modify_ne w t _ m.status (λ e. n (rw e refl));
  elsewhere = λ c n. find-modify_ne b c _ m.blockmap (λ e. n (rw e refl));
}

pub Evicts-weaken :
    {L K : ℕ → Type 0} {b : ℕ} {m m' : Monitor}
    → Evicts L b m m'
    → ((t : ℕ) → K t → L t)
    → ((t : ℕ) → L t → K t)
    → Evicts K b m m'
Evicts-weaken v to from = record {
  doomed = λ t k. v.doomed t (to t k);
  spared = λ t n. v.spared t (λ l. n (from t l));
  elsewhere = v.elsewhere;
}
