-- ===== src/Exporter/Args.antt =====
-- The port that the command line sets.
use aethalloc.Prelude.{
  ℕ, zero, suc, ◌+◌, ◌-◌, ◌*◌, ◌/◌, ◌%◌, ◌^◌, ◌≤◌, ◌<◌, ◌≡◌, ◌≢◌, refl, ap, sym, subst, ◌∙◌, arith,
  Bool, true, false, Option, none, some, List, [], ◌∷◌, ◌&&◌, ◌||◌, ltb, leb, ◌==◌, if◌then◌else◌,
  inl, inr, Bool-cases, Option-cases, All,
}
use native.Mathlib.Nat.{pow-suc}
use mathlib.Core.Option.{some_inj, none-ne-some}
use aethalloc.Exporter.{serve, exit, main, parse_args, env_port}
use aethalloc.Exporter.Text.{codes, same, digits_before, decimal, parse_digits, parse_u16}

-- One digit that is read.
parse_digits-digit :
    (value d : ℕ) (text : List ℕ)
    → d < 10
    → value * 10 + d < 65536
    → parse_digits value ((48 + d) ∷ text) ≡ parse_digits (value * 10 + d) text
unfolding parse_digits
parse_digits-digit value d text small fits =
    let next : value * 10 + (48 + d - 48) ≡ value * 10 + d = omega arith in
    let ok : ((leb 48 (48 + d) && leb (48 + d) 57) && ltb (value * 10 + d) 65536) ≡ true =
      ground arith in
    rw (next, ok) refl

-- The digits that are printed before a text are read as the number.
parse_digits-digits_before :
    (fuel n : ℕ) (text : List ℕ)
    → n < 10 ^ suc fuel
    → n < 65536
    → parse_digits 0 (digits_before (suc fuel) n text) ≡ parse_digits n text
unfolding digits_before
parse_digits-digits_before zero n text small fits =
    let one : ltb n 10 ≡ true = ground arith in
    let e : 0 * 10 + n ≡ n = omega arith in
    rw one (rw e at (parse_digits-digit 0 n text (omega arith) (omega arith)))
parse_digits-digits_before (suc fuel) n text small fits = elim (Bool-cases (ltb n 10)) [
  | inl one ↦
      let e : 0 * 10 + n ≡ n = omega arith in
      rw one (rw e at (parse_digits-digit 0 n text (ground arith) (omega arith)))
  | inr more ↦
      let whole : n / 10 * 10 + n % 10 ≡ n = omega arith in
      rw more (
        parse_digits-digits_before fuel (n / 10) ((48 + n % 10) ∷ text)
          (omega (arith, pow-suc 10 (suc fuel), small)) (omega arith)
        ∙ rw whole at (parse_digits-digit (n / 10) (n % 10) text (omega arith) (omega arith)))
]

abbrev StartsWithDigit : List ℕ → Type 0
StartsWithDigit text = (c : ℕ) × (rest : List ℕ) × (text ≡ c ∷ rest) × (48 ≤ c) × (c ≤ 57)

digits_before-StartsWithDigit :
    (fuel n : ℕ) (text : List ℕ)
    → StartsWithDigit text
    → StartsWithDigit (digits_before fuel n text)
unfolding digits_before
digits_before-StartsWithDigit zero n text s = s
digits_before-StartsWithDigit (suc fuel) n text s = elim (Bool-cases (ltb n 10)) [
  | inl one ↦ rw one (48 + n, text, refl, omega arith, ground arith)
  | inr more ↦ rw more (
      digits_before-StartsWithDigit fuel (n / 10) ((48 + n % 10) ∷ text)
        (48 + n % 10, text, refl, omega arith, omega arith))
]

parse_u16-digit :
    (c : ℕ) (rest : List ℕ) → 48 ≤ c → parse_u16 (c ∷ rest) ≡ parse_digits 0 (c ∷ rest)
unfolding parse_u16
parse_u16-digit c [] h = let e : (c == 43) ≡ false = ground arith in rw e refl
parse_u16-digit c (d ∷ rest) h = let e : (c == 43) ≡ false = ground arith in rw e refl

-- A number of 16 bits is read back from its digits.
pub parse_u16-decimal : (n : ℕ) → n < 65536 → parse_u16 (decimal n) ≡ some n
unfolding decimal digits_before parse_digits
parse_u16-decimal n h =
    let big : n < 10 ^ 20 = omega arith in
    let (c, rest, e, lo, hi) = starts n in
    ap parse_u16 e
    ∙ parse_u16-digit c rest lo
    ∙ ap (parse_digits 0) (sym e)
    ∙ parse_digits-digits_before 19 n [] big h
  where
    starts : (n : ℕ) → StartsWithDigit (digits_before 20 n [])
    starts n = elim (Bool-cases (ltb n 10)) [
      | inl one ↦ rw one (48 + n, [], refl, omega arith, ground arith)
      | inr more ↦ rw more (
          digits_before-StartsWithDigit 19 (n / 10) ((48 + n % 10) ∷ [])
            (48 + n % 10, [], refl, omega arith, omega arith))
    ]

-- The arguments that set the given ports one after another, each by its long or its short flag.
abbrev pub port_args : List (Bool × ℕ) → List (List ℕ)
port_args [] = []
port_args ((long, port) ∷ ports) =
    (if long then codes "--port" else codes "-p") ∷ decimal port ∷ port_args ports

abbrev pub last_port : List (Bool × ℕ) → ℕ → ℕ
last_port [] port = port
last_port ((_, next) ∷ ports) port = last_port ports next

env_port-decimal : (n : ℕ) → n < 65536 → env_port (some (decimal n)) ≡ n
unfolding env_port
env_port-decimal n h = rw (parse_u16-decimal n h, env_port) refl

parse_args-port_args :
    (ports : List (Bool × ℕ)) (port : ℕ)
    → All (λ p. p.1 < 65536) ports
    → parse_args (port_args ports) port ≡ serve (last_port ports port)
unfolding parse_args same
parse_args-port_args [] port h = refl
parse_args-port_args ((true, next) ∷ ports) port h =
    ap (parse_args (port_args ports)) (env_port-decimal next h.0)
    ∙ parse_args-port_args ports next h.1
parse_args-port_args ((false, next) ∷ ports) port h =
    ap (parse_args (port_args ports)) (env_port-decimal next h.0)
    ∙ parse_args-port_args ports next h.1

-- Ports below 2^16 that are given by flags: the exporter serves at the last of them, or at the port
-- of the environment, or else the default one, where none is given.
pub main-port_args :
    (env : Option (List ℕ)) (ports : List (Bool × ℕ))
    → All (λ p. p.1 < 65536) ports
    → main env (port_args ports) ≡ serve (last_port ports (env_port env))
unfolding main
main-port_args env ports h = parse_args-port_args ports (env_port env) h

-- Arguments that are pairs of a port flag and a value.
pub data Flags : List (List ℕ) → Type 0 where
  no_flags : Flags []
  flag :
      {arg value : List ℕ} {rest : List (List ℕ)}
      → (same arg (codes "-p") || same arg (codes "--port")) ≡ true
      → Flags rest
      → Flags (arg ∷ value ∷ rest)

parse_digits-lt :
    (value : ℕ) (text : List ℕ) (n : ℕ)
    → value < 65536
    → parse_digits value text ≡ some n
    → n < 65536
unfolding parse_digits
parse_digits-lt value [] n h e = let at : value ≡ n = some_inj.0 e in omega arith
parse_digits-lt value (c ∷ rest) n h e =
    let next = value * 10 + (c - 48) in
    elim (Bool-cases ((leb 48 c && leb c 57) && ltb next 65536)) [
      | inl taken ↦ parse_digits-lt next rest n (ground arith) (rw taken at e)
      | inr bad ↦ absurd (none-ne-some _ (rw bad at e))
    ]

parse_u16-lt : (text : List ℕ) (n : ℕ) → parse_u16 text ≡ some n → n < 65536
unfolding parse_u16
parse_u16-lt [] n e = absurd (none-ne-some _ e)
parse_u16-lt (c ∷ []) n e = elim (Bool-cases (c == 43)) [
  | inl sign ↦ absurd (none-ne-some _ (rw sign at e))
  | inr other ↦ parse_digits-lt 0 (c ∷ []) n (omega arith) (rw other at e)
]
parse_u16-lt (c ∷ d ∷ rest) n e = elim (Bool-cases (c == 43)) [
  | inl sign ↦ parse_digits-lt 0 (d ∷ rest) n (omega arith) (rw sign at e)
  | inr other ↦ parse_digits-lt 0 (c ∷ d ∷ rest) n (omega arith) (rw other at e)
]

env_port-lt : (env : Option (List ℕ)) → env_port env < 65536
unfolding env_port
env_port-lt none = omega arith
env_port-lt (some text) = elim (Option-cases (parse_u16 text)) [
  | inl e ↦ rw (e, env_port) (omega arith)
  | inr (n, e) ↦ rw (e, env_port) (parse_u16-lt text n e)
]

exit-ne-serve : (code port : ℕ) → exit code ≢ serve port
exit-ne-serve code port e = ground arith

serve_inj : (p q : ℕ) → serve p ≡ serve q → p ≡ q
serve_inj p q e = ground arith

parse_args-serve :
    (args : List (List ℕ)) (port served : ℕ)
    → port < 65536
    → parse_args args port ≡ serve served
    → Flags args × (served < 65536)
unfolding parse_args
parse_args-serve [] port served h e = (no_flags, subst (λ x. x < 65536) (serve_inj port served e) h)
parse_args-serve (arg ∷ []) port served h e =
    elim (Bool-cases (same arg (codes "-p") || same arg (codes "--port"))) [
      | inl is_flag ↦ absurd (exit-ne-serve _ _ (rw is_flag at e))
      | inr other ↦ elim (Bool-cases (same arg (codes "-h") || same arg (codes "--help"))) [
        | inl help ↦ absurd (exit-ne-serve _ _ (rw (other, help) at e))
        | inr unknown ↦ absurd (exit-ne-serve _ _ (rw (other, unknown) at e))
      ]
    ]
parse_args-serve (arg ∷ value ∷ rest) port served h e =
    elim (Bool-cases (same arg (codes "-p") || same arg (codes "--port"))) [
      | inl is_flag ↦
          let (flags, small) =
            parse_args-serve rest (env_port (some value)) served (env_port-lt (some value))
              (rw is_flag at e) in
          (flag is_flag flags, small)
      | inr other ↦ elim (Bool-cases (same arg (codes "-h") || same arg (codes "--help"))) [
        | inl help ↦ absurd (exit-ne-serve _ _ (rw (other, help) at e))
        | inr unknown ↦ absurd (exit-ne-serve _ _ (rw (other, unknown) at e))
      ]
    ]

-- The exporter serves only where its arguments are pairs of a port flag and a value, and then at a port
-- below 2^16; with any other arguments it exits.
pub main-serve :
    (env : Option (List ℕ)) (args : List (List ℕ)) (port : ℕ)
    → main env args ≡ serve port
    → Flags args × (port < 65536)
unfolding main
main-serve env args port e = parse_args-serve args (env_port env) port (env_port-lt env) e
