-- ===== src/Indexer/Sync.antt =====
-- The loops of .indexer/index.js: the catch-up from the stored block to the chain's head, and one
-- turn of the live polling.
pub mod Laws
pub mod Polls
use sidiora_perpetual_protoc.Base.{
  ℕ, zero, suc, ◌+◌, ◌-◌, Bool, true, false, Option, none, some, List, [], ◌∷◌, ◌++◌, leb, ltb,
  if◌then◌else◌, min,
}
use sidiora_perpetual_protoc.Indexer.Rows.{Db}
use sidiora_perpetual_protoc.Indexer.Models.{get_last_indexed_block, set_last_indexed_block}
use sidiora_perpetual_protoc.Indexer.Scanner.{Log}
use sidiora_perpetual_protoc.Indexer.Scanner

-- The scanner, and the ranges whose scan returned, in order.
pub record State : Type 0 where
  pub scanner : Scanner.State
  pub scanned : List (ℕ × ℕ)

-- `let lastIndexed = …`: the first block to index is `start_block`, or the one after the last.
unfoldable pub starting_block : ℕ → Db → ℕ × Db
unfolding get_last_indexed_block set_last_indexed_block
starting_block start_block db =
    let last = get_last_indexed_block db in
    if ltb last start_block
    then (start_block - 1, set_last_indexed_block (start_block - 1) db)
    else (last, db)

-- After `scanBlocks(from, to)`: the block is stored when the scan returned.
unfoldable pub after_scan : ℕ → ℕ → Option ℕ × Scanner.State → State → Bool × State
unfolding set_last_indexed_block
after_scan from to (none, sc) s = (false, record s { scanner = sc })
after_scan from to (some n, sc) s = (
  true,
  record {
    scanner = record sc { db = set_last_indexed_block to sc.db };
    scanned = s.scanned ++ (from, to) ∷ [];
  },
)

-- The body of a loop: scan from a block up to a batch or the head.
unfoldable pub scan_batch : (ℕ → ℕ → Option (List Log)) → ℕ → ℕ → ℕ → State → Bool × State
unfolding after_scan Scanner.scan_blocks
scan_batch get_logs batch from head s =
    let to = min (from + batch - 1) head in
    after_scan from to (Scanner.scan_blocks get_logs from to s.scanner) s

-- The catch-up `while`: each turn is one answer of the node, a failed range is tried again, and
-- the loop stops when it has passed the head, or is interrupted when the answers end. The result
-- is the next block to scan.
unfoldable pub catch_up : ℕ → ℕ → List (ℕ → ℕ → Option (List Log)) → ℕ → State → ℕ × State
unfolding scan_batch
catch_up batch head [] from s = (from, s)
catch_up batch head (get_logs ∷ rest) from s =
    if leb from head
    then (let (done, t) = scan_batch get_logs batch from head s in
        catch_up batch head rest (if done then min (from + batch - 1) head + 1 else from) t)
    else (from, s)

-- One turn of the live loop: the block it has reached, after the node said its head, if it did.
unfoldable pub poll : ℕ → Option ℕ → (ℕ → ℕ → Option (List Log)) → ℕ → State → ℕ × State
unfolding scan_batch
poll batch none get_logs current s = (current, s)
poll batch (some head) get_logs current s =
    if ltb current head
    then (let (done, t) = scan_batch get_logs batch (current + 1) head s in
        (if done then min (current + 1 + batch - 1) head else current, t))
    else (current, s)

unfoldable pub polls : ℕ → List (Option ℕ × (ℕ → ℕ → Option (List Log))) → ℕ → State → ℕ × State
unfolding poll
polls batch [] current s = (current, s)
polls batch ((head, get_logs) ∷ rest) current s =
    let (next, t) = poll batch head get_logs current s in polls batch rest next t
