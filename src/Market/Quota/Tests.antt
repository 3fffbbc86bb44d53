-- ===== src/Market/Quota/Tests.antt =====
-- The quota on concrete calls.
use bot_crypto.Prelude.{◌≡◌, refl, List, [], ◌∷◌, arith, ◌≤◌, filter, length}
use bot_crypto.Market.Quota.{FixedWindowQuota, err, exhausted, evict, events_of, consume}
use bot_crypto.Market.Quota.Laws.{in_window}
use bot_crypto.Market.Quota.Window.{Call, granted, granted-bounded}

-- Three reads in any ten ticks; two were made at 4 and at 9.
abbrev quota : FixedWindowQuota
quota = record { capacity = 3; window = 10; events = ("binance", 4 ∷ 9 ∷ []) ∷ [] }

consume-exhausted : (consume "binance" 2 12 quota).1 ≡ err (exhausted "binance" 2)
unfolding consume evict events_of
consume-exhausted = refl

consume-window : (consume "binance" 2 14 quota).0.events ≡ ("binance", 9 ∷ 14 ∷ 14 ∷ []) ∷ []
unfolding consume evict events_of
consume-window = refl

abbrev reads : List Call
reads =
    record { key = "binance"; cost = 2; now = 1 }
    ∷ record { key = "bybit"; cost = 3; now = 2 }
    ∷ record { key = "binance"; cost = 2; now = 5 }
    ∷ record { key = "binance"; cost = 1; now = 9 }
    ∷ record { key = "binance"; cost = 3; now = 12 }
    ∷ []

granted-bounded_example :
    length (
      filter
        (in_window 10 12)
        (granted "binance" reads (record { capacity = 3; window = 10; events = [] })))
    ≤ 3
granted-bounded_example = granted-bounded "binance" 10 3 reads (omega arith)
