-- ===== src/Indexer/Sync/Laws.antt =====
-- Which blocks the loops of .indexer/index.js scan, whatever the node answers.
use sidiora_perpetual_protoc.Base.{
  ℕ, suc, ◌+◌, ◌-◌, ◌≤◌, ◌<◌, ◌≡◌, refl, ap, ◌∙◌, true, false, Option, none, some, List, [], ◌∷◌,
  ◌++◌, leb, ltb, ◌&&◌, if◌then◌else◌, min, arith, Bool-cases, Option-cases, inl, inr, is_some,
}
use sidiora_perpetual_protoc.Base.Ranges.{covering, covering-append}
use sidiora_perpetual_protoc.Indexer.Scanner.{Log, scan_blocks}
use sidiora_perpetual_protoc.Indexer.Sync.{State, after_scan, scan_batch, catch_up}

abbrev pub Answer : Type 0
Answer = ℕ → ℕ → Option (List Log)

scan_batch_fails :
    (get_logs : Answer) (batch from head : ℕ) (s : State)
    → get_logs from (min (from + batch - 1) head) ≡ none
    → scan_batch get_logs batch from head s ≡ (false, s)
unfolding scan_batch scan_blocks after_scan
scan_batch_fails get_logs batch from head s e = rw (e, scan_blocks) refl

-- What a scan that returns has done.
scan_batch_returns :
    (get_logs : Answer) (batch from head : ℕ) (s : State) (logs : List Log)
    → get_logs from (min (from + batch - 1) head) ≡ some logs
    → let r = scan_batch get_logs batch from head s in
      let to = min (from + batch - 1) head in
      (r.0 ≡ true)
      × (r.1.scanned ≡ s.scanned ++ (from, to) ∷ [])
      × (r.1.scanner.db.last_indexed_block ≡ some to)
unfolding scan_batch scan_blocks after_scan
scan_batch_returns get_logs batch from head s logs e = rw (e, scan_blocks) (refl, refl, refl)

-- The blocks from `first` up to the one before `next` were scanned exactly once, no other block
-- was, and the database says so.
abbrev pub Synced : ℕ → ℕ → State → Type 0
Synced first next s =
    ((b : ℕ) → covering b s.scanned ≡ (if leb first b && ltb b next then 1 else 0))
    × (s.scanner.db.last_indexed_block ≡ some (next - 1))

Synced-append :
    (first from to b : ℕ) (l : List (ℕ × ℕ))
    → first ≤ from
    → from ≤ to
    → covering b l ≡ (if leb first b && ltb b from then 1 else 0)
    → covering b (l ++ (from, to) ∷ []) ≡ (if leb first b && ltb b (to + 1) then 1 else 0)
Synced-append first from to b l h k e = rw (covering-append b l ((from, to) ∷ []), e) (ground arith)

-- A turn of a loop, whether its scan returns or throws.
pub scan_batch-Synced :
    (get_logs : Answer) (batch first from head : ℕ) (s : State)
    → 0 < batch
    → first ≤ from
    → from ≤ head
    → Synced first from s
    → let r = scan_batch get_logs batch from head s in
      Synced first (if r.0 then min (from + batch - 1) head + 1 else from) r.1
scan_batch-Synced get_logs batch first from head s p h k (c, e) =
    elim (Option-cases (get_logs from (min (from + batch - 1) head))) [
      | inl q ↦ rw (scan_batch_fails get_logs batch from head s q) (c, e)
      | inr (logs, q) ↦
          let (d, l, m) = scan_batch_returns get_logs batch from head s logs q in
          rw d (
            λ b. rw l (
                Synced-append first from (min (from + batch - 1) head) b s.scanned h (ground arith)
                  (c b)),
            rw m (ap some (omega arith)),
          )
    ]

-- The next block never moves back, nor past the head.
pub scan_batch_moves :
    (get_logs : Answer) (batch from head : ℕ) (s : State)
    → 0 < batch
    → from ≤ head
    → let next =
        if (scan_batch get_logs batch from head s).0
        then min (from + batch - 1) head + 1
        else from in
      (from ≤ next) × (next ≤ head + 1)
scan_batch_moves get_logs batch from head s p k = ground arith

catch_up-Synced :
    (batch head first : ℕ) (answers : List Answer) (from : ℕ) (s : State)
    → 0 < batch
    → first ≤ from
    → Synced first from s
    → let (next, t) = catch_up batch head answers from s in Synced first next t
unfolding catch_up
catch_up-Synced batch head first [] from s p k h = h
catch_up-Synced batch head first (get_logs ∷ rest) from s p k h =
    elim (Bool-cases (leb from head)) [
      | inl e ↦ rw e (
          let le : from ≤ head = ground arith in
          catch_up-Synced batch head first rest _ _ p
            (omega (arith, k, (scan_batch_moves get_logs batch from head s p le).0))
            (scan_batch-Synced get_logs batch first from head s p k le h))
      | inr e ↦ rw e h
    ]

-- With a positive batch size and from a state that has scanned nothing yet, the catch-up,
-- however often the node fails, has scanned each block from the first one up to the block that
-- it has reached exactly once, no other block, and has stored the last one.
pub catch_up_scans_once :
    (batch head first : ℕ) (answers : List Answer) (s : State)
    → 0 < batch
    → Synced first first s
    → let (next, t) = catch_up batch head answers first s in Synced first next t
catch_up_scans_once batch head first answers s p h =
    catch_up-Synced batch head first answers first s p (omega arith) h

-- Answers of the node of which at least so many return the logs of every range.
pub data Reliable : ℕ → List Answer → Type 0 where
  enough : {answers : List Answer} → Reliable 0 answers
  serves :
      {n : ℕ} {get_logs : Answer} {rest : List Answer}
      → ((from to : ℕ) → is_some (get_logs from to) ≡ true)
      → Reliable n rest
      → Reliable (suc n) (get_logs ∷ rest)
  unsure :
      {n : ℕ} {get_logs : Answer} {rest : List Answer}
      → Reliable n rest
      → Reliable n (get_logs ∷ rest)

past_head :
    (batch head : ℕ) (answers : List Answer) (from : ℕ) (s : State)
    → head < from
    → (catch_up batch head answers from s).0 ≡ from
unfolding catch_up
past_head batch head [] from s h = refl
past_head batch head (get_logs ∷ rest) from s h =
    let e : leb from head ≡ false = ground arith in rw e refl

returning_moves :
    (get_logs : Answer) (batch from head : ℕ) (s : State)
    → ((from to : ℕ) → is_some (get_logs from to) ≡ true)
    → 0 < batch
    → from ≤ head
    → from < (
        if (scan_batch get_logs batch from head s).0 then min (from + batch - 1) head + 1 else from)
returning_moves get_logs batch from head s total p k =
    elim (Option-cases (get_logs from (min (from + batch - 1) head))) [
      | inl q ↦ ground (arith, q, total from (min (from + batch - 1) head))
      | inr (logs, q) ↦ rw (scan_batch_returns get_logs batch from head s logs q).0 (omega arith)
    ]

catch_up-arrives :
    (batch head n : ℕ) (answers : List Answer)
    → Reliable n answers
    → (from : ℕ) (s : State) → 0 < batch
    → from ≤ head + 1
    → head + 1 ≤ from + n
    → (catch_up batch head answers from s).0 ≡ head + 1
unfolding catch_up
catch_up-arrives batch head _ answers enough from s p k m =
    past_head batch head answers from s (omega arith) ∙ omega arith
catch_up-arrives batch head _ _ (serves {n} {get_logs} {rest} r rs) from s p k m =
    elim (Bool-cases (leb from head)) [
      | inl e ↦ rw e (
          let le : from ≤ head = ground arith in
          catch_up-arrives batch head n rest rs _ _ p
            (scan_batch_moves get_logs batch from head s p le).1
            (omega (arith, m, returning_moves get_logs batch from head s r p le)))
      | inr e ↦ rw e (ground arith)
    ]
catch_up-arrives batch head _ _ (unsure {n} {get_logs} {rest} rs) from s p k m =
    elim (Bool-cases (leb from head)) [
      | inl e ↦ rw e (
          let le : from ≤ head = ground arith in
          catch_up-arrives batch head n rest rs _ _ p
            (scan_batch_moves get_logs batch from head s p le).1
            (omega (arith, m, (scan_batch_moves get_logs batch from head s p le).0)))
      | inr e ↦ rw e (ground arith)
    ]

-- With a positive batch size, a first block at most one past the head, and as many answers that
-- return logs as there are blocks to scan, at any place among the failures, the catch-up ends
-- past the head.
pub catch_up_reaches_head :
    (batch head from : ℕ) (answers : List Answer) (s : State)
    → 0 < batch
    → from ≤ head + 1
    → Reliable (head + 1 - from) answers
    → (catch_up batch head answers from s).0 ≡ head + 1
catch_up_reaches_head batch head from answers s p k r =
    catch_up-arrives batch head (head + 1 - from) answers r from s p k (omega arith)
