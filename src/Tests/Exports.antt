-- ===== src/Tests/Exports.antt =====
-- The exporter on a command line and on requests.
use aethalloc.Prelude.{ℕ, ◌<◌, ◌≡◌, refl, arith, Bool, true, false, none, some, List, [], ◌∷◌, ◌++◌}
use aethalloc.Exporter.{serve, exit, main, answer, request_path, response}
use aethalloc.Exporter.Text.{codes, parse_u16, is_whitespace}
use aethalloc.Exporter.Args.{port_args, main-port_args, Flags, main-serve}
use aethalloc.Exporter.Requests.{IsWord, request_path-line}

abbrev two_ports : List (Bool × ℕ)
two_ports = (true, 8080) ∷ (false, 9100) ∷ []

main-port_args_example : main none (port_args two_ports) ≡ serve 9100
main-port_args_example = main-port_args none two_ports (omega arith, (omega arith, tt))

served : main (some (codes "7000")) (codes "-p" ∷ codes "80" ∷ []) ≡ serve 80
unfolding main
served = refl

abbrev eighty : ℕ
eighty = 80

main-serve_example : Flags (codes "-p" ∷ codes "80" ∷ []) × (eighty < 65536)
main-serve_example = main-serve (some (codes "7000")) (codes "-p" ∷ codes "80" ∷ []) 80 served

helped : main none (codes "--help" ∷ []) ≡ exit 0
unfolding main
helped = refl

too_large : parse_u16 (codes "65536") ≡ none
unfolding parse_u16
too_large = refl

get-IsWord : IsWord (codes "GET")
unfolding is_whitespace
get-IsWord = (refl, (refl, (refl, tt)))

metrics-IsWord : IsWord (codes "/metrics")
unfolding is_whitespace
metrics-IsWord = (refl, (refl, (refl, (refl, (refl, (refl, (refl, (refl, tt))))))))

request_path-line_example :
    request_path (codes "GET" ++ (32 ∷ (codes "/metrics" ++ (32 ∷ codes "HTTP/1.1\r\n\r\n"))))
    ≡ codes "/metrics"
request_path-line_example =
    request_path-line (codes "GET") (codes "/metrics") (codes "HTTP/1.1\r\n\r\n") get-IsWord
      metrics-IsWord

health : answer [] (codes "GET /health HTTP/1.1\r\n\r\n") ≡ response (codes "200 OK") (codes "OK\n")
unfolding answer
health = refl

not_found :
    answer [] (codes "GET /x HTTP/1.1") ≡ response (codes "404 Not Found") (codes "Not Found\n")
unfolding answer
not_found = refl
