-- ===== src/Stratum/Network/Lines.antt =====
-- read_json_line of src/stratum_client.cpp against the stream of bytes that its chunks make up.
use scrig.Base.{
  ℕ, true, false, Bool-cases, List, [], ◌∷◌, ◌++◌, append_assoc, append-nil, ◌==◌, ◌≡◌, ◌⊎◌, inl,
  inr, refl, subst, sym, ap, ◌∙◌,
}
use scrig.Base.Bytes.{Bytes}
use scrig.Stratum.{trim}
use scrig.Stratum.Network.{
  Arrival, silence, received, Scan, found, pending, scan, LineResult, line, timed_out, closed,
  line_loop,
}

-- A scan that goes on with more bytes.
abbrev pub resume : Scan → Bytes → Scan
resume (found text rest) more = found text (rest ++ more)
resume (pending rest) more = scan more rest

-- What a line end does to a scan.
abbrev pub at_line_end : (text buffer : Bytes) → Scan
at_line_end t buffer = elim t [ [] ↦ scan buffer [] | d ∷ text ↦ found (d ∷ text) buffer ]

module _ (c : ℕ) (buffer acc : Bytes) where
  pub scan-line_end : (c == 10) ≡ true → scan (c ∷ buffer) acc ≡ at_line_end (trim acc) buffer
  unfolding scan
  scan-line_end end = rw (end, scan) refl

  pub scan-inside : (c == 10) ≡ false → scan (c ∷ buffer) acc ≡ scan buffer (acc ++ c ∷ [])
  unfolding scan
  scan-inside inside = rw (inside, scan) refl

at_line_end-append :
    (t xs ys : Bytes)
    → scan (xs ++ ys) [] ≡ resume (scan xs []) ys
    → at_line_end t (xs ++ ys) ≡ resume (at_line_end t xs) ys
at_line_end-append [] xs ys h = h
at_line_end-append (d ∷ t) xs ys h = refl

pub scan-append : (xs ys acc : Bytes) → scan (xs ++ ys) acc ≡ resume (scan xs acc) ys
scan-append [] ys acc = unfold scan in refl
scan-append (c ∷ xs) ys acc = elim (Bool-cases (c == 10)) [
  | inl end ↦
      scan-line_end c (xs ++ ys) acc end
      ∙ at_line_end-append (trim acc) xs ys (scan-append xs ys [])
      ∙ sym (ap (λ r. resume r ys) (scan-line_end c xs acc end))
  | inr inside ↦
      scan-inside c (xs ++ ys) acc inside
      ∙ scan-append xs ys (acc ++ c ∷ [])
      ∙ sym (ap (λ r. resume r ys) (scan-inside c xs acc inside))
]

-- A scan leaves no line end behind where it finds no line.
abbrev pub IsRest : Scan → Type 0
IsRest (pending rest) = scan rest [] ≡ pending rest
IsRest (found text rest) = Unit

pub scan-IsRest : (xs acc : Bytes) → scan acc [] ≡ pending acc → IsRest (scan xs acc)
scan-IsRest [] acc h = unfold scan in h
scan-IsRest (c ∷ xs) acc h = elim (Bool-cases (c == 10)) [
  | inl end ↦
      let rest = scan-IsRest xs [] (unfold scan in refl) in
      rw (scan-line_end c xs acc end) (at_end (trim acc) rest)
  | inr inside ↦
      let next : scan (acc ++ c ∷ []) [] ≡ pending (acc ++ c ∷ []) =
        scan-append acc (c ∷ []) []
        ∙ ap (λ r. resume r (c ∷ [])) h
        ∙ scan-inside c [] acc inside
        ∙ unfold scan in refl in
      rw (scan-inside c xs acc inside) (scan-IsRest xs (acc ++ c ∷ []) next)
]
  where
    at_end : (t : Bytes) → IsRest (scan xs []) → IsRest (at_line_end t xs)
    at_end [] rest = rest
    at_end (d ∷ t) rest = tt

pub Scan-cases :
    (s : Scan)
    → ((text : Bytes) × (rest : Bytes) × (s ≡ found text rest))
      ⊎ ((rest : Bytes) × (s ≡ pending rest))
Scan-cases (found text rest) = inl (text, rest, refl)
Scan-cases (pending rest) = inr (rest, refl)

-- What a read does with the arrivals, by the scan of its buffer.
abbrev pub line_step : List Arrival → Scan → LineResult × List Arrival × Bytes
line_step arrivals (found text rest) = (line text, arrivals, rest)
line_step [] (pending rest) = (timed_out, [], rest)
line_step (silence ∷ more) (pending rest) = (timed_out, more, rest)
line_step (received [] ∷ more) (pending rest) = (closed, more, rest)
line_step (received (c ∷ chunk) ∷ more) (pending rest) = line_loop more (rest ++ c ∷ chunk)

pub line_loop-eq :
    (arrivals : List Arrival) (rx_buffer : Bytes) (s : Scan)
    → scan rx_buffer [] ≡ s
    → line_loop arrivals rx_buffer ≡ line_step arrivals s
unfolding line_loop
line_loop-eq [] rx_buffer (found text rest) e = rw (e, line_loop) refl
line_loop-eq [] rx_buffer (pending rest) e = rw (e, line_loop) refl
line_loop-eq (silence ∷ more) rx_buffer (found text rest) e = rw (e, line_loop) refl
line_loop-eq (silence ∷ more) rx_buffer (pending rest) e = rw (e, line_loop) refl
line_loop-eq (received [] ∷ more) rx_buffer (found text rest) e = rw (e, line_loop) refl
line_loop-eq (received [] ∷ more) rx_buffer (pending rest) e = rw (e, line_loop) refl
line_loop-eq (received (c ∷ chunk) ∷ more) rx_buffer (found text rest) e = rw (e, line_loop) refl
line_loop-eq (received (c ∷ chunk) ∷ more) rx_buffer (pending rest) e = rw (e, line_loop) refl

-- The bytes that arrive before the next silence or the end of the connection.
abbrev pub upcoming : List Arrival → Bytes
upcoming [] = []
upcoming (silence ∷ more) = []
upcoming (received [] ∷ more) = []
upcoming (received (c ∷ chunk) ∷ more) = c ∷ chunk ++ upcoming more

-- How a read ends on a stream that scans as it does.
abbrev pub Reads : Scan → LineResult → (arrivals : List Arrival) → (rx_buffer : Bytes) → Type 0
Reads (found text rest) result arrivals rx_buffer =
    (result ≡ line text) × (rx_buffer ++ upcoming arrivals ≡ rest)
Reads (pending rest) result arrivals rx_buffer =
    ((result ≡ timed_out) ⊎ (result ≡ closed)) × (rx_buffer ≡ rest)

-- A read is a scan of the stream, whatever the chunks are: it ends with the stream's first line that
-- is not blank and leaves the stream behind that line, or it ends without one and leaves in its
-- buffer what has come since the last line end.
pub line_loop_lem :
    (arrivals : List Arrival) (rx_buffer : Bytes)
    → let (result, after, rest) = line_loop arrivals rx_buffer in
      Reads (scan (rx_buffer ++ upcoming arrivals) []) result after rest
line_loop_lem [] rx_buffer = elim (Scan-cases (scan rx_buffer [])) [
  | inl (text, rest, e) ↦
      rw (append-nil rx_buffer, e, line_loop-eq _ rx_buffer _ e) (refl, append-nil rest)
  | inr (rest, e) ↦ rw (append-nil rx_buffer, e, line_loop-eq _ rx_buffer _ e) (inl refl, refl)
]
line_loop_lem (silence ∷ more) rx_buffer = elim (Scan-cases (scan rx_buffer [])) [
  | inl (text, rest, e) ↦
      rw (append-nil rx_buffer, e, line_loop-eq _ rx_buffer _ e) (refl, append-nil rest)
  | inr (rest, e) ↦ rw (append-nil rx_buffer, e, line_loop-eq _ rx_buffer _ e) (inl refl, refl)
]
line_loop_lem (received [] ∷ more) rx_buffer = elim (Scan-cases (scan rx_buffer [])) [
  | inl (text, rest, e) ↦
      rw (append-nil rx_buffer, e, line_loop-eq _ rx_buffer _ e) (refl, append-nil rest)
  | inr (rest, e) ↦ rw (append-nil rx_buffer, e, line_loop-eq _ rx_buffer _ e) (inr refl, refl)
]
line_loop_lem (received (c ∷ chunk) ∷ more) rx_buffer =
    let tail : Bytes = c ∷ (chunk ++ upcoming more) in
    let stream = scan-append rx_buffer tail [] in
    elim (Scan-cases (scan rx_buffer [])) [
      | inl (text, rest, e) ↦ rw (stream, e, line_loop-eq _ rx_buffer _ e) (refl, refl)
      | inr (rest, e) ↦
          let clean : scan rest [] ≡ pending rest =
            subst IsRest e (scan-IsRest rx_buffer [] (unfold scan in refl)) in
          let same : scan ((rest ++ c ∷ chunk) ++ upcoming more) [] ≡ scan (rx_buffer ++ tail) [] =
            ap (λ t. scan t []) (append_assoc rest (c ∷ chunk) (upcoming more))
            ∙ scan-append rest tail []
            ∙ ap (λ r. resume r tail) (clean ∙ sym e)
            ∙ sym stream in
          rw (line_loop-eq (received (c ∷ chunk) ∷ more) rx_buffer _ e, ← same)
            (line_loop_lem more (rest ++ c ∷ chunk))
    ]
