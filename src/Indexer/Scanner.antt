-- ===== src/Indexer/Scanner.antt =====
-- `Scanner.scanBlocks` of .indexer/src/scanner.js: the logs of a range, one after the other, each
-- in its own `try`.
pub mod Laws
pub mod Histories
pub mod Trades
use sidiora_perpetual_protoc.Base.{ℕ, ◌+◌, ◌-◌, Bool, Option, none, some, List, [], ◌∷◌}
use sidiora_perpetual_protoc.Base.Outcome.{Result, ok, throw}
use sidiora_perpetual_protoc.Indexer.Rows.{Db}
use sidiora_perpetual_protoc.Indexer.Models.{Context, Statement}
use sidiora_perpetual_protoc.Indexer.Handlers.{Event}
use sidiora_perpetual_protoc.Indexer.Dispatch.{handle_event}

-- What `iface.parseLog` makes of a log: it throws, finds no event, or decodes one.
pub data Parsed : Type 0 where
  undecodable unknown : Parsed
  decoded : Event → Parsed

-- A log, and what it parses to.
pub record Log : Type 0 where
  pub parsed : Parsed
  pub context : Context

-- The body of the loop: what it adds to `processed`, and the database. A throw is caught.
abbrev pub scan_event : Event → Context → Db → ℕ × Db
scan_event e ctx db =
    let (r, db') = handle_event e ctx db in elim r [ ok u ↦ (1, db') | throw x ↦ (0, db') ]

abbrev pub scan_parsed : Parsed → Context → Db → ℕ × Db
scan_parsed Parsed.undecodable ctx db = (0, db)
scan_parsed Parsed.unknown ctx db = (0, db)
scan_parsed (Parsed.decoded e) ctx db = scan_event e ctx db

abbrev pub scan_log : Log → Db → ℕ × Db
scan_log l db = scan_parsed l.parsed l.context db

unfoldable pub scan_logs : List Log → Db → ℕ × Db
scan_logs [] db = (0, db)
scan_logs (l ∷ ls) db =
    let (n, db') = scan_log l db in let (k, db'') = scan_logs ls db' in (n + k, db'')

pub record Stats : Type 0 where
  pub blocks_scanned : ℕ
  pub events_processed : ℕ

pub record State : Type 0 where
  pub stats : Stats
  pub db : Db

-- `scanBlocks(from, to)`, where `get_logs` may fail: then it throws and nothing has changed.
-- The result is the number of events processed.
unfoldable pub scan_blocks : (ℕ → ℕ → Option (List Log)) → ℕ → ℕ → State → Option ℕ × State
unfolding scan_logs
scan_blocks get_logs from to s = elim (get_logs from to) [
  | none ↦ (none, s)
  | some logs ↦
      let (n, db') = scan_logs logs s.db in
      (
        some n,
        record {
          stats = record {
            blocks_scanned = s.stats.blocks_scanned + (to + 1 - from);
            events_processed = s.stats.events_processed + n;
          };
          db = db';
        },
      )
]
