-- ===== src/Indexer/Scanner/Laws.antt =====
-- What .indexer/src/scanner.js makes of any list of logs.
use mathlib.Core.Path.{subst}
use sidiora_perpetual_protoc.Base.{
  ◌≡◌, refl, sym, Bool, false, not, List, [], ◌∷◌, if◌then◌else◌, length, filter, arith,
}
use sidiora_perpetual_protoc.Indexer.Rows.{Db}
use sidiora_perpetual_protoc.Indexer.Models.{Context}
use sidiora_perpetual_protoc.Indexer.Handlers.{Event}
use sidiora_perpetual_protoc.Indexer.Dispatch.{handle_event}
use sidiora_perpetual_protoc.Indexer.Effects.{is_modification, handle_event-throws}
use sidiora_perpetual_protoc.Indexer.Scanner.{
  Log, Parsed, scan_event, scan_parsed, scan_log, scan_logs,
}

-- The logs that are counted: those that decode to an event other than `PositionModified`.
abbrev pub counts : Parsed → Bool
counts (Parsed.decoded e) = not (is_modification e)
counts _ = false

abbrev pub counted : Log → Bool
counted l = counts l.parsed

scan_event-db :
    (e : Event) (ctx : Context) (db : Db) → (scan_event e ctx db).1 ≡ (handle_event e ctx db).1
scan_event-db e ctx db = ground (arith, handle_event-throws e ctx db)

scan_event-count :
    (e : Event) (ctx : Context) (db : Db)
    → (scan_event e ctx db).0 ≡ (if not (is_modification e) then 1 else 0)
scan_event-count e ctx db = ground (arith, handle_event-throws e ctx db)

-- An observation of the database that every handled event keeps is kept by every scan.
scan_parsed-keeps :
    (P : Db → Type 0)
    → ((e : Event) (ctx : Context) (db : Db) → P db → P (handle_event e ctx db).1)
    → (p : Parsed) (ctx : Context) (db : Db) → P db
    → P (scan_parsed p ctx db).1
scan_parsed-keeps P step Parsed.undecodable ctx db h = h
scan_parsed-keeps P step Parsed.unknown ctx db h = h
scan_parsed-keeps P step (Parsed.decoded e) ctx db h =
    subst (λ d. P d) (sym (scan_event-db e ctx db)) (step e ctx db h)

pub scan_logs-keeps :
    (P : Db → Type 0)
    → ((e : Event) (ctx : Context) (db : Db) → P db → P (handle_event e ctx db).1)
    → (ls : List Log) (db : Db) → P db
    → P (scan_logs ls db).1
unfolding scan_logs
scan_logs-keeps P step [] db h = h
scan_logs-keeps P step (l ∷ ls) db h =
    scan_logs-keeps P step ls (scan_log l db).1 (scan_parsed-keeps P step l.parsed l.context db h)

scan_parsed-count :
    (p : Parsed) (ctx : Context) (db : Db) → (scan_parsed p ctx db).0 ≡ (if counts p then 1 else 0)
scan_parsed-count Parsed.undecodable ctx db = refl
scan_parsed-count Parsed.unknown ctx db = refl
scan_parsed-count (Parsed.decoded e) ctx db = scan_event-count e ctx db

-- The number of events that a scan of a list of logs reports is the number of its logs that
-- decode to an event other than PositionModified.
pub scan_logs_counts : (ls : List Log) (db : Db) → (scan_logs ls db).0 ≡ length (filter counted ls)
unfolding scan_logs
scan_logs_counts [] db = refl
scan_logs_counts (l ∷ ls) db =
    ground (arith, scan_logs_counts ls (scan_log l db).1, scan_parsed-count l.parsed l.context db)
