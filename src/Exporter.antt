-- ===== src/Exporter.antt =====
-- aethalloc-metrics/src/main.rs and lib.rs: the exporter of the counters over HTTP. A text is the list of
-- its code points.
pub mod Text
pub mod Args
pub mod Requests
use Prim.Native.String.{String}
use aethalloc.Prelude.{
  ℕ, ◌+◌, ◌-◌, ◌%◌, ◌^◌, Bool, true, false, Option, none, some, List, [], ◌∷◌, ◌++◌, ◌||◌, ltb,
  if◌then◌else◌, length,
}
use aethalloc.Global.Metrics.{Metrics}
use aethalloc.Exporter.Text.{codes, same, decimal, parse_u16, second_word, first_line}

abbrev pub default_port : ℕ
default_port = 9091

-- The help line, the type line and the value of one metric.
unfoldable pub metric : (name help kind : String) → (value : List ℕ) → List ℕ
metric name help kind value =
    codes "# HELP "
    ++ codes name
    ++ codes " "
    ++ codes help
    ++ codes "\n# TYPE "
    ++ codes name
    ++ codes " "
    ++ codes kind
    ++ codes "\n"
    ++ codes name
    ++ codes " "
    ++ value
    ++ codes "\n"

-- `{:.2}` of the share of the hits in percent is a parameter, as floating-point numbers are.
unfoldable pub hit_rate : (percent : (part whole : ℕ) → List ℕ) → Metrics → List ℕ
hit_rate percent m =
    let whole = (m.cache_hits + m.cache_misses) % 2 ^ 64 in
    if ltb 0 whole then percent m.cache_hits whole else codes "0.00"

-- `saturating_sub` stops at 0, as the subtraction of natural numbers does.
unfoldable pub active_blocks : Metrics → ℕ
active_blocks m = m.allocs - m.frees

unfoldable pub format_metrics :
    (percent : (part whole : ℕ) → List ℕ) (rate_name : String) → Metrics → List ℕ
unfolding metric hit_rate active_blocks decimal
format_metrics percent rate_name m =
    metric "aethalloc_allocs_total" "Total allocations" "counter" (decimal m.allocs)
    ++ metric "aethalloc_frees_total" "Total deallocations" "counter" (decimal m.frees)
    ++ metric "aethalloc_cache_hits_total" "Cache hits" "counter" (decimal m.cache_hits)
    ++ metric "aethalloc_cache_misses_total" "Cache misses" "counter" (decimal m.cache_misses)
    ++ metric "aethalloc_direct_allocs_total" "Direct (large) allocations" "counter"
        (decimal m.direct_allocs)
    ++ metric rate_name "Cache hit rate percentage" "gauge" (hit_rate percent m)
    ++ metric "aethalloc_active_blocks" "Estimated active blocks" "gauge"
        (decimal (active_blocks m))

-- The path of a request: the second word of its first line, or "/".
unfoldable pub request_path : List ℕ → List ℕ
unfolding first_line second_word
request_path request = elim (second_word (first_line request)) [
  | none ↦ codes "/"
  | some word ↦ word
]

unfoldable pub response : (status body : List ℕ) → List ℕ
unfolding decimal
response status body =
    codes "HTTP/1.1 "
    ++ status
    ++ codes "\r\nContent-Type: text/plain; version=0.0.4\r\nContent-Length: "
    ++ decimal (length body)
    ++ codes "\r\n\r\n"
    ++ body

-- What `handle_client` answers to a request, with the text of the metrics.
unfoldable pub answer : (metrics request : List ℕ) → List ℕ
unfolding request_path response same
answer metrics request =
    let path = request_path request in
    if same path (codes "/metrics")
    then response (codes "200 OK") metrics
    else if same path (codes "/health") || same path (codes "/")
    then response (codes "200 OK") (codes "OK\n")
    else response (codes "404 Not Found") (codes "Not Found\n")

-- A read of the stream gives bytes or fails; bytes that are no UTF-8, by the decoder, are taken as no
-- text. `none` is a connection that is dropped.
unfoldable pub handle_client :
    (from_utf8 : List ℕ → Option (List ℕ)) (read : Option (List ℕ)) (metrics : List ℕ)
    → Option (List ℕ)
unfolding answer
handle_client from_utf8 none metrics = none
handle_client from_utf8 (some buffer) metrics = elim (from_utf8 buffer) [
  | none ↦ some (answer metrics [])
  | some request ↦ some (answer metrics request)
]

-- The exporter that the program loads as a library reads the counters of the allocator, if it finds it.
unfoldable pub loaded_metrics :
    (percent : (part whole : ℕ) → List ℕ) → (get_metrics : Option Metrics) → List ℕ
unfolding format_metrics
loaded_metrics percent none = codes "# ERROR: libaethalloc.so not loaded\n"
loaded_metrics percent (some m) = format_metrics percent "aethalloc_cache_hit_rate" m

-- The port of the environment variable, if it is set and a number.
unfoldable pub env_port : Option (List ℕ) → ℕ
unfolding parse_u16
env_port none = default_port
env_port (some text) = elim (parse_u16 text) [ none ↦ default_port | some port ↦ port ]

pub data Outcome : Type 0 where
  serve : (port : ℕ) → Outcome
  exit : (code : ℕ) → Outcome

-- The loop over the arguments. A port that is no number of 16 bits is the default one.
unfoldable pub parse_args : List (List ℕ) → (port : ℕ) → Outcome
unfolding same parse_u16 env_port
parse_args [] port = serve port
parse_args (arg ∷ []) port =
    if same arg (codes "-p") || same arg (codes "--port")
    then exit 1
    else if same arg (codes "-h") || same arg (codes "--help")
    then exit 0
    else exit 1
parse_args (arg ∷ value ∷ rest) port =
    let again = parse_args rest (env_port (some value)) in
    if same arg (codes "-p") || same arg (codes "--port")
    then again
    else if same arg (codes "-h") || same arg (codes "--help")
    then exit 0
    else exit 1

unfoldable pub main : (env : Option (List ℕ)) → (args : List (List ℕ)) → Outcome
unfolding parse_args env_port
main env args = parse_args args (env_port env)
