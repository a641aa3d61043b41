-- ===== src/Tests/Sources.antt =====
-- The Orderly prices and the oracle at small inputs.
use sidiora_perpetual_protoc.Base.{
  ℕ, ◌+◌, ◌*◌, ◌-◌, ◌^◌, ◌≡◌, ◌↔◌, refl, true, none, some, List, [], ◌∷◌, All, arith,
}
use sidiora_perpetual_protoc.Base.Int.{pos, negsuc}
use sidiora_perpetual_protoc.Base.Text.{codes}
use sidiora_perpetual_protoc.Base.Outcome.{ok}
use sidiora_perpetual_protoc.Retry
use sidiora_perpetual_protoc.Engine.Orderly.{
  Row, Market, Fetched, to_price18, big_int, before_dot, after_dot, pad_end, fetch_prices,
}
use sidiora_perpetual_protoc.Engine.Orderly.Decimals.{decimal, to_price18-decimal}
use sidiora_perpetual_protoc.Engine.Orderly.Reading.{Readable, fetch_ok_iff}
use sidiora_perpetual_protoc.Engine.Sources.{Responses}
use sidiora_perpetual_protoc.Oracle.{Call, Node, initial_stats}
use sidiora_perpetual_protoc.Oracle.Laws.{run_cycles, priced, submissions, run_cycles-submissions}

price_426_21 : to_price18 (codes "426.21") ≡ some 426210000000000000000
unfolding to_price18 big_int before_dot after_dot pad_end
price_426_21 = refl

price_whole : to_price18 (codes "7") ≡ some 7000000000000000000
unfolding to_price18 big_int before_dot after_dot pad_end
price_whole = refl

tiny_price : to_price18 (codes "1e-7") ≡ none
unfolding to_price18 big_int before_dot
tiny_price = refl

to_price18-decimal_example :
    to_price18 (decimal 3 426 2 21) ≡ some (426 * 10 ^ 18 + 21 * 10 ^ (18 - 2))
to_price18-decimal_example = to_price18-decimal 3 426 2 21 (omega arith) (omega arith) (omega arith)

abbrev row : ℕ → List ℕ → Row
row symbol text = record {
  symbol = symbol;
  mark_price = none;
  index_price = some (record { text = text; positive = true });
  last_price = none;
}

abbrev rows : List Row
rows = row 3 (codes "426.21") ∷ row 4 (codes "1e-7") ∷ []

abbrev markets : List Market
markets =
    record { market_id = 6; symbol = 60; orderly_symbol = 3 }
    ∷ record { market_id = 7; symbol = 61; orderly_symbol = 9 }
    ∷ []

fetch_ok_iff_example :
    ((r : List Fetched) × ((fetch_prices markets (some rows) []).0 ≡ some r))
    ↔ All (Readable rows) markets
fetch_ok_iff_example = fetch_ok_iff markets rows []

-- A node that takes and confirms every transaction.
abbrev node : Retry.Rpc Call ℕ
node = record { send = λ call n. (ok n, n + 1); confirm = λ hash n. (ok hash, n) }

abbrev oracle : Node ℕ
oracle = record {
  fetchers = record {
    pyth_markets = record { market_id = 1; symbol = 66; pyth_id = 500 } ∷ [];
    pyth_last = [];
    orderly_markets = some markets;
    orderly_last = [];
  };
  submitter = record { world = 0; providers = 0; stats = initial_stats };
}

abbrev responses : List Responses
responses =
    record { feeds = none; rows = some rows }
    ∷ record { feeds = none; rows = none }
    ∷ record {
      feeds = some (
          record {
            id = 500;
            price =
                some
                  (record { price = pos 5000000; conf = pos 3; expo = negsuc 1; publish_time = 9 });
          }
          ∷ []);
      rows = none;
    }
    ∷ []

run_cycles-submissions_example :
    submissions (run_cycles node responses oracle).submitter.stats
    ≡ submissions initial_stats + priced responses oracle.fetchers
run_cycles-submissions_example = run_cycles-submissions node responses oracle
