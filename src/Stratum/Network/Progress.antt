-- ===== src/Stratum/Network/Progress.antt =====
-- The bytes that a read of src/stratum_client.cpp takes from its buffer and its connection.
use scrig.Base.{
  ℕ, suc, ◌+◌, ◌<◌, ◌≤◌, Bool-cases, List, [], ◌∷◌, ◌++◌, length, length-append, ◌==◌, ◌≡◌, inl,
  inr, subst, arith,
}
use scrig.Base.Bytes.{Bytes}
use scrig.Stratum.{trim}
use scrig.Stratum.Network.{
  Arrival, silence, received, Scan, found, pending, scan, LineResult, line, timed_out, closed,
  line_loop, arriving,
}
use scrig.Stratum.Network.Lines.{at_line_end, scan-line_end, scan-inside, Scan-cases, line_loop-eq}

-- What is left of `n` bytes behind `m` that the line has already.
abbrev Leaves : Scan → (n m : ℕ) → Type 0
Leaves (found text rest) n m = length rest < n
Leaves (pending rest) n m = length rest ≤ n + m

at_line_end-Leaves :
    (t buffer : Bytes) (m : ℕ)
    → Leaves (scan buffer []) (length buffer) 0
    → Leaves (at_line_end t buffer) (suc (length buffer)) m
at_line_end-Leaves [] buffer m h = wider (scan buffer []) h
  where
    wider : (s : Scan) → Leaves s (length buffer) 0 → Leaves s (suc (length buffer)) m
    wider (found text rest) h = omega arith
    wider (pending rest) h = omega arith
at_line_end-Leaves (d ∷ t) buffer m h = omega arith

scan-Leaves : (buffer acc : Bytes) → Leaves (scan buffer acc) (length buffer) (length acc)
scan-Leaves [] acc = unfold scan in omega arith
scan-Leaves (c ∷ buffer) acc = elim (Bool-cases (c == 10)) [
  | inl end ↦
      rw (scan-line_end c buffer acc end)
        (at_line_end-Leaves (trim acc) buffer (length acc) (scan-Leaves buffer []))
  | inr inside ↦
      rw (scan-inside c buffer acc inside)
        (moved (scan buffer (acc ++ c ∷ [])) (scan-Leaves buffer (acc ++ c ∷ [])))
]
  where
    moved :
        (s : Scan)
        → Leaves s (length buffer) (length (acc ++ c ∷ []))
        → Leaves s (suc (length buffer)) (length acc)
    moved (found text rest) h = omega arith
    moved (pending rest) h = omega (arith, h, length-append acc (c ∷ []))

-- A read that brings a line takes a byte at least.
abbrev pub Takes : LineResult → (after before : ℕ) → Type 0
Takes (line text) after before = after < before
Takes _ after before = Unit

abbrev TakesOf : LineResult × List Arrival × Bytes → (before : ℕ) → Type 0
TakesOf (result, arrivals, rest) before = Takes result (length rest + arriving arrivals) before

TakesOf-more : (r : LineResult × List Arrival × Bytes) (m n : ℕ) → m ≤ n → TakesOf r m → TakesOf r n
TakesOf-more (line text, arrivals, rest) m n le h = omega arith
TakesOf-more (timed_out, arrivals, rest) m n le h = tt
TakesOf-more (closed, arrivals, rest) m n le h = tt

TakesOf-found :
    (arrivals : List Arrival) (rx_buffer text rest : Bytes)
    → scan rx_buffer [] ≡ found text rest
    → TakesOf (line_loop arrivals rx_buffer) (length rx_buffer + arriving arrivals)
TakesOf-found arrivals rx_buffer text rest e =
    let less : length rest < length rx_buffer =
      subst (λ s. Leaves s (length rx_buffer) 0) e (scan-Leaves rx_buffer []) in
    rw (line_loop-eq arrivals rx_buffer _ e) (omega arith)

pub line_loop-Takes :
    (arrivals : List Arrival) (rx_buffer : Bytes)
    → TakesOf (line_loop arrivals rx_buffer) (length rx_buffer + arriving arrivals)
line_loop-Takes [] rx_buffer = elim (Scan-cases (scan rx_buffer [])) [
  | inl (text, rest, e) ↦ TakesOf-found _ rx_buffer text rest e
  | inr (rest, e) ↦ rw (line_loop-eq _ rx_buffer _ e) tt
]
line_loop-Takes (silence ∷ more) rx_buffer = elim (Scan-cases (scan rx_buffer [])) [
  | inl (text, rest, e) ↦ TakesOf-found _ rx_buffer text rest e
  | inr (rest, e) ↦ rw (line_loop-eq _ rx_buffer _ e) tt
]
line_loop-Takes (received [] ∷ more) rx_buffer = elim (Scan-cases (scan rx_buffer [])) [
  | inl (text, rest, e) ↦ TakesOf-found _ rx_buffer text rest e
  | inr (rest, e) ↦ rw (line_loop-eq _ rx_buffer _ e) tt
]
line_loop-Takes (received (c ∷ chunk) ∷ more) rx_buffer = elim (Scan-cases (scan rx_buffer [])) [
  | inl (text, rest, e) ↦ TakesOf-found _ rx_buffer text rest e
  | inr (rest, e) ↦
      let kept : length rest ≤ length rx_buffer + 0 =
        subst (λ s. Leaves s (length rx_buffer) 0) e (scan-Leaves rx_buffer []) in
      rw (line_loop-eq _ rx_buffer _ e) (
        TakesOf-more (line_loop more (rest ++ c ∷ chunk)) _ _
          (omega (arith, kept, length-append rest (c ∷ chunk)))
          (line_loop-Takes more (rest ++ c ∷ chunk)))
]
