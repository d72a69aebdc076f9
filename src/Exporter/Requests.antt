-- ===== src/Exporter/Requests.antt =====
-- The path that is read from a request, and the answer to it.
use aethalloc.Prelude.{ℕ, ◌≡◌, ◌≢◌, refl, ap, ◌∙◌, arith, false, List, [], ◌∷◌, ◌++◌, ◌==◌, All}
use aethalloc.Exporter.{request_path}
use aethalloc.Exporter.Text.{
  first_line, is_whitespace, skip_space, first_word, after_word, second_word,
}

abbrev pub IsSolid : ℕ → Type 0
IsSolid c = is_whitespace c ≡ false

-- A word is at least one character long, and holds no white space.
abbrev pub IsWord : List ℕ → Type 0
IsWord [] = ⊥
IsWord (c ∷ word) = IsSolid c × All IsSolid word

IsSolid-ne : (c : ℕ) → IsSolid c → (c ≢ 10) × (c ≢ 13)
unfolding is_whitespace
IsSolid-ne c h = ((λ e. ground arith), (λ e. ground arith))

first_line-cons :
    (c : ℕ) (text : List ℕ) → c ≢ 10 → c ≢ 13 → first_line (c ∷ text) ≡ c ∷ first_line text
unfolding first_line
first_line-cons c [] p q = let e : (c == 10) ≡ false = ground arith in rw e refl
first_line-cons c (d ∷ text) p q =
    let e : (c == 10) ≡ false = ground arith in
    let f : (c == 13) ≡ false = ground arith in rw (e, f) refl

first_line-word :
    (word text : List ℕ) → All IsSolid word → first_line (word ++ text) ≡ word ++ first_line text
first_line-word [] text h = refl
first_line-word (c ∷ word) text h =
    let (p, q) = IsSolid-ne c h.0 in
    first_line-cons c (word ++ text) p q ∙ ap (λ t. c ∷ t) (first_line-word word text h.1)

after_word-word :
    (word text : List ℕ) → All IsSolid word → after_word (word ++ 32 ∷ text) ≡ 32 ∷ text
unfolding after_word
after_word-word [] text h = refl
after_word-word (c ∷ word) text h = rw h.0 (after_word-word word text h.1)

first_word-word : (word text : List ℕ) → All IsSolid word → first_word (word ++ 32 ∷ text) ≡ word
unfolding first_word
first_word-word [] text h = refl
first_word-word (c ∷ word) text h = rw h.0 (ap (λ t. c ∷ t) (first_word-word word text h.1))

skip_space-solid : (c : ℕ) (text : List ℕ) → IsSolid c → skip_space (c ∷ text) ≡ c ∷ text
unfolding skip_space
skip_space-solid c text h = rw h refl

-- The path of a request line is the word after its first one, whatever comes behind it.
pub request_path-line :
    (method path rest : List ℕ)
    → IsWord method
    → IsWord path
    → request_path (method ++ (32 ∷ (path ++ (32 ∷ rest)))) ≡ path
unfolding request_path second_word skip_space
request_path-line [] path rest m p = absurd m
request_path-line (c ∷ method) [] rest m p = absurd p
request_path-line (c ∷ method) (d ∷ path) rest m p =
    let tail = first_line rest in
    let line : first_line ((c ∷ method) ++ (32 ∷ ((d ∷ path) ++ (32 ∷ rest))))
        ≡ (c ∷ method) ++ (32 ∷ ((d ∷ path) ++ (32 ∷ tail))) =
      first_line-word (c ∷ method) (32 ∷ ((d ∷ path) ++ (32 ∷ rest))) m
      ∙ ap (λ t. (c ∷ method) ++ t)
          (first_line-cons 32 ((d ∷ path) ++ (32 ∷ rest)) (λ e. omega arith) (λ e. omega arith)
            ∙ ap (λ t. 32 ∷ t)
                (first_line-word (d ∷ path) (32 ∷ rest) p
                  ∙ ap (λ t. (d ∷ path) ++ t)
                      (first_line-cons 32 rest (λ e. omega arith) (λ e. omega arith)))) in
    let start = skip_space-solid c (method ++ (32 ∷ ((d ∷ path) ++ (32 ∷ tail)))) m.0 in
    let behind = after_word-word (c ∷ method) ((d ∷ path) ++ (32 ∷ tail)) m in
    let word = skip_space-solid d (path ++ (32 ∷ tail)) p.0 in
    let found = first_word-word (d ∷ path) tail p in rw (line, start, behind, word, found) refl
