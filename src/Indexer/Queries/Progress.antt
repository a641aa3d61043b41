-- ===== src/Indexer/Queries/Progress.antt =====
-- What `indexerStatus` of .indexer/src/graphql/resolvers.js says after the catch-up of .indexer/index.js.
use sidiora_perpetual_protoc.Base.{
  ℕ, zero, suc, ◌+◌, ◌-◌, ◌≤◌, ◌<◌, ◌≡◌, ap, ◌∙◌, Option, some, List, leb, arith,
}
use sidiora_perpetual_protoc.Indexer.Rows.{Db}
use sidiora_perpetual_protoc.Indexer.Scanner.{Log}
use sidiora_perpetual_protoc.Indexer.Scanner
use sidiora_perpetual_protoc.Indexer.Sync.{State, catch_up}
use sidiora_perpetual_protoc.Indexer.Sync.Laws.{
  Synced, Reliable, catch_up_scans_once, catch_up_reaches_head,
}
use sidiora_perpetual_protoc.Indexer.Queries.Stats.{indexer_status}

synced_at :
    (n block : ℕ) (stats : Scanner.Stats) (db : Db)
    → 0 < n
    → db.last_indexed_block ≡ some block
    → (indexer_status (some n) stats db).is_synced ≡ some (leb n (block + 5))
unfolding indexer_status
synced_at zero block stats db p e = absurd (omega (arith, p))
synced_at (suc m) block stats db p e = rw e (ap some (ground arith))

-- After a catch-up with a positive batch size, from a state that has scanned nothing yet and a
-- first block at most one past the head, with as many answers that return logs as there are
-- blocks to scan, the status query says of a chain head above 0 that the indexer is synced
-- exactly if that head is at most five blocks past the one the catch-up was to reach.
pub caught_up_is_synced :
    (batch head first n : ℕ) (answers : List (ℕ → ℕ → Option (List Log))) (s : State)
    → 0 < batch
    → first ≤ head + 1
    → 0 < n
    → Synced first first s
    → Reliable (head + 1 - first) answers
    → let t = (catch_up batch head answers first s).1.scanner in
      (indexer_status (some n) t.stats t.db).is_synced ≡ some (leb n (head + 5))
caught_up_is_synced batch head first n answers s b h p y r =
    let (blocks, stored) = catch_up_scans_once batch head first answers s b y in
    let end = catch_up_reaches_head batch head first answers s b h r in
    let t = (catch_up batch head answers first s).1.scanner in
    synced_at n head t.stats t.db p (stored ∙ ap some (ap (λ k. k - 1) end ∙ omega arith))
