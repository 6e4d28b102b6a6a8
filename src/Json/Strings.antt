-- ===== src/Json/Strings.antt =====
-- Parser::parse_string of src/json.cpp behind escape_string.
use native.Mathlib.Decide.{ℕ_discrete}
use scrig.Base.{
  ℕ, ◌+◌, ◌≤◌, false, [], ◌∷◌, ◌++◌, length, length-append, All, ◌==◌, ne→==, le→ltb, append_assoc,
  append-nil, ◌≡◌, ◌≢◌, ◌⊎◌, refl, sym, ap, subst, ◌∙◌, arith,
}
use scrig.Base.Bytes.{Bytes}
use scrig.Base.Fault.{ok}
use scrig.Json.Text.{
  next, plain, unescape, string_loop, parse_string, escape_char, escape_loop, escape_string,
}

-- The characters that escape_string does not write as an escape `u`.
abbrev pub IsKept : ℕ → Type 0
IsKept c = (0x20 ≤ c) ⊎ ((8 ≤ c) × (c ≤ 13) × (c ≢ 11))

string_loop-escaped :
    (esc d : ℕ) (pos : ℕ) (more out : Bytes)
    → (esc == b'u') ≡ false
    → unescape esc ≡ d
    → (d == 0) ≡ false
    → string_loop plain pos (0x5c ∷ esc ∷ more) out
      ≡ string_loop plain (pos + 2) more (out ++ d ∷ [])
unfolding string_loop
string_loop-escaped esc d pos more out u same nonzero =
    let two : pos + 1 + 1 ≡ pos + 2 = omega arith in
    rw (u, string_loop) (rw (same, nonzero, string_loop) (rw (same, two) refl))

-- The loop reads one character from its text.
abbrev Reads : (pos : ℕ) (more out : Bytes) (c : ℕ) → Type 0
Reads pos more out c =
    string_loop plain pos (escape_char c ++ more) out
    ≡ string_loop plain (pos + length (escape_char c)) more (out ++ c ∷ [])

escape_char-Reads : (pos : ℕ) (more out : Bytes) (c : ℕ) → IsKept c → Reads pos more out c
unfolding escape_char unescape string_loop
escape_char-Reads pos more out c kept =
    let short : (d : ℕ) → c ≡ d → Reads pos more out d → Reads pos more out c =
      λ d e. subst (Reads pos more out) (sym e) in
    elim (ℕ_discrete c b'"') [
      | yes e ↦ short b'"' e (string_loop-escaped b'"' b'"' pos more out refl refl refl)
      | no n₁ ↦ elim (ℕ_discrete c 0x5c) [
        | yes e ↦ short 0x5c e (string_loop-escaped 0x5c 0x5c pos more out refl refl refl)
        | no n₂ ↦ elim (ℕ_discrete c 8) [
          | yes e ↦ short 8 e (string_loop-escaped b'b' 8 pos more out refl refl refl)
          | no n₃ ↦ elim (ℕ_discrete c 12) [
            | yes e ↦ short 12 e (string_loop-escaped b'f' 12 pos more out refl refl refl)
            | no n₄ ↦ elim (ℕ_discrete c 10) [
              | yes e ↦ short 10 e (string_loop-escaped b'n' 10 pos more out refl refl refl)
              | no n₅ ↦ elim (ℕ_discrete c 13) [
                | yes e ↦ short 13 e (string_loop-escaped b'r' 13 pos more out refl refl refl)
                | no n₆ ↦ elim (ℕ_discrete c 9) [
                  | yes e ↦ short 9 e (string_loop-escaped b't' 9 pos more out refl refl refl)
                  | no n₇ ↦
                      let wide : 0x20 ≤ c = ground (arith, kept) in
                      rw
                        (
                          ne→== c b'"' n₁,
                          ne→== c 0x5c n₂,
                          ne→== c 8 n₃,
                          ne→== c 12 n₄,
                          ne→== c 10 n₅,
                          ne→== c 13 n₆,
                          ne→== c 9 n₇,
                          le→ltb c 0x20 wide,
                        )
                        (rw (ne→== c b'"' n₁, ne→== c 0x5c n₂, string_loop) refl)
                ]
              ]
            ]
          ]
        ]
      ]
    ]

string_loop-escape_loop :
    (text : Bytes) (pos : ℕ) (rest out : Bytes)
    → All IsKept text
    → string_loop plain pos (escape_loop text ++ rest) out
      ≡ ok (out ++ text, record { pos = pos + length (escape_loop text); rest = rest })
unfolding escape_loop
string_loop-escape_loop [] pos rest out h = unfold string_loop in rw (append-nil out) refl
string_loop-escape_loop (c ∷ text) pos rest out (hc, hs) =
    let size = length-append (escape_char c) (escape_loop text) in
    let moved : pos + length (escape_char c) + length (escape_loop text)
        ≡ pos + length (escape_char c ++ escape_loop text) =
      omega (arith, size) in
    ap (λ t. string_loop plain pos t out) (append_assoc (escape_char c) (escape_loop text) rest)
    ∙ escape_char-Reads pos (escape_loop text ++ rest) out c hc
    ∙ string_loop-escape_loop text (pos + length (escape_char c)) rest (out ++ c ∷ []) hs
    ∙ rw (moved, append_assoc out (c ∷ []) text) refl

-- For a text without control characters but those that have an escape of one letter, parse_string
-- reads back the literal that escape_string writes, at any position and whatever follows, and
-- stands behind it.
pub parse_string-escape_string :
    (text : Bytes) (pos : ℕ) (rest : Bytes)
    → All IsKept text
    → parse_string (record { pos = pos; rest = escape_string text ++ rest })
      ≡ ok (text, record { pos = pos + length (escape_string text); rest = rest })
unfolding parse_string escape_string next
parse_string-escape_string text pos rest h =
    let moved : pos + 1 + length (escape_loop text) ≡ pos + length (escape_string text) =
      omega arith in
    string_loop-escape_loop text (pos + 1) rest [] h ∙ rw moved refl
