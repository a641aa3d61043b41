-- ===== src/Indexer/Sync/Polls.antt =====
-- Which blocks the live polling of .indexer/index.js scans.
use mathlib.Core.Path.{subst}
use sidiora_perpetual_protoc.Base.{
  ℕ, ◌+◌, ◌≤◌, ◌<◌, Option, none, some, List, [], ◌∷◌, ltb, arith, Bool-cases, inl, inr,
}
use sidiora_perpetual_protoc.Indexer.Sync.{State, scan_batch, poll, polls}
use sidiora_perpetual_protoc.Indexer.Sync.Laws.{Answer, Synced, scan_batch-Synced, scan_batch_moves}

poll-Synced :
    (batch first : ℕ) (head : Option ℕ) (get_logs : Answer) (current : ℕ) (s : State)
    → 0 < batch
    → first ≤ current + 1
    → Synced first (current + 1) s
    → let (next, t) = poll batch head get_logs current s in
      Synced first (next + 1) t × (current ≤ next)
unfolding poll
poll-Synced batch first none get_logs current s p k h = (h, omega arith)
poll-Synced batch first (some head) get_logs current s p k h =
    elim (Bool-cases (ltb current head)) [
      | inl e ↦
          let le : current + 1 ≤ head = ground arith in
          let now = scan_batch-Synced get_logs batch first (current + 1) head s p k le h in
          rw e (
            subst (λ n. Synced first n (scan_batch get_logs batch (current + 1) head s).1)
                (ground arith) now,
            ground (arith, scan_batch_moves get_logs batch (current + 1) head s p le),
          )
      | inr e ↦ rw e (h, omega arith)
    ]

polls-Synced :
    (batch first : ℕ) (ps : List (Option ℕ × Answer)) (current : ℕ) (s : State)
    → 0 < batch
    → first ≤ current + 1
    → Synced first (current + 1) s
    → let (next, t) = polls batch ps current s in Synced first (next + 1) t
unfolding polls
polls-Synced batch first [] current s p k h = h
polls-Synced batch first ((head, get_logs) ∷ ps) current s p k h =
    let (h', le) = poll-Synced batch first head get_logs current s p k h in
    polls-Synced batch first ps _ _ p (omega (arith, k, le)) h'

-- With a positive batch size and from a state that has scanned nothing yet, the live polling,
-- whatever heads it is told and however often the node fails, has scanned each block after the
-- first one up to the one it has reached exactly once, no other block, and has stored the last
-- one.
pub polls_scan_once :
    (batch current : ℕ) (ps : List (Option ℕ × Answer)) (s : State)
    → 0 < batch
    → Synced (current + 1) (current + 1) s
    → let (next, t) = polls batch ps current s in Synced (current + 1) (next + 1) t
polls_scan_once batch current ps s p h =
    polls-Synced batch (current + 1) ps current s p (omega arith) h
