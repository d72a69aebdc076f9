-- ===== src/Global/Metrics.antt =====
-- The counters of a thread and of the process.
use aethalloc.Prelude.{ℕ, ◌+◌, ◌%◌, ◌^◌, leb, if◌then◌else◌}

-- The fields of `ThreadMetrics`, `GlobalMetrics` and `MetricsSnapshot`.
pub record Metrics : Type 0 where
  pub allocs : ℕ
  pub frees : ℕ
  pub cache_hits : ℕ
  pub cache_misses : ℕ
  pub direct_allocs : ℕ

abbrev pub new : Metrics
new = record { allocs = 0; frees = 0; cache_hits = 0; cache_misses = 0; direct_allocs = 0 }

abbrev pub flush_threshold : ℕ
flush_threshold = 4096

-- Each `fetch_add` wraps at 64 bits.
unfoldable pub add_all : Metrics → Metrics → Metrics
add_all global m = record {
  allocs = (global.allocs + m.allocs) % 2 ^ 64;
  frees = (global.frees + m.frees) % 2 ^ 64;
  cache_hits = (global.cache_hits + m.cache_hits) % 2 ^ 64;
  cache_misses = (global.cache_misses + m.cache_misses) % 2 ^ 64;
  direct_allocs = (global.direct_allocs + m.direct_allocs) % 2 ^ 64;
}

-- The thread's counters and the process's, before and after.
unfoldable pub maybe_flush : Metrics → Metrics → Metrics × Metrics
maybe_flush m global =
    if leb flush_threshold (m.allocs + m.frees) then (new, add_all global m) else (m, global)

unfoldable pub flush_thread_metrics : Metrics → Metrics → Metrics × Metrics
flush_thread_metrics m global = (new, add_all global m)

unfoldable pub snapshot : Metrics → Metrics
snapshot global = global
