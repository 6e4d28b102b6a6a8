-- ===== src/Stratum/Network/Stream.antt =====
-- The lines of a stream of bytes, as read_json_line of src/stratum_client.cpp takes them one by one.
use scrig.Base.{
  true, false, Bool-cases, List, [], ◌∷◌, ◌++◌, append_assoc, ◌==◌, ◌≡◌, inl, inr, refl, subst, sym,
  ap, ◌∙◌,
}
use scrig.Base.Bytes.{Bytes}
use scrig.Stratum.{trim}
use scrig.Stratum.Network.{
  Arrival, silence, received, Scan, found, pending, scan, LineResult, line, timed_out, closed,
  line_loop,
}
use scrig.Stratum.Network.Lines.{
  resume, at_line_end, scan-line_end, scan-inside, scan-append, IsRest, scan-IsRest, Scan-cases,
  line_step, line_loop-eq, upcoming, Reads, line_loop_lem,
}

-- The complete lines of a stream behind the start of a line, trimmed and without the blank ones.
unfoldable pub lines_of : (stream start : Bytes) → List Bytes
unfolding trim
lines_of [] start = []
lines_of (c ∷ stream) start = elim (c == 10) [
  | false ↦ lines_of stream (start ++ c ∷ [])
  | true ↦ elim (trim start) [
    | [] ↦ lines_of stream []
    | d ∷ text ↦ (d ∷ text) ∷ lines_of stream []
  ]
]

-- The lines that a scan starts.
abbrev lines_from : Scan → List Bytes
lines_from (found text rest) = text ∷ lines_of rest []
lines_from (pending rest) = []

lines_of-scan : (stream start : Bytes) → lines_of stream start ≡ lines_from (scan stream start)
unfolding lines_of
lines_of-scan [] start = unfold scan in refl
lines_of-scan (c ∷ stream) start = elim (Bool-cases (c == 10)) [
  | inl end ↦
      rw (end, scan-line_end c stream start end, lines_of)
        (at_end (trim start) (lines_of-scan stream []))
  | inr inside ↦
      rw (inside, scan-inside c stream start inside, lines_of)
        (lines_of-scan stream (start ++ c ∷ []))
]
  where
    at_end :
        (t : Bytes)
        → lines_of stream [] ≡ lines_from (scan stream [])
        → (elim t as (λ _. List Bytes) [
          | [] ↦ lines_of stream []
          | d ∷ text ↦ (d ∷ text) ∷ lines_of stream []
        ])
          ≡ lines_from (at_line_end t stream)
    at_end [] h = h
    at_end (d ∷ text) h = refl

-- A read takes the first line, or none.
abbrev pub Takes1 : (lines : List Bytes) → LineResult → (left : List Bytes) → Type 0
Takes1 lines (line text) left = lines ≡ text ∷ left
Takes1 lines timed_out left = lines ≡ left
Takes1 lines closed left = lines ≡ left

-- A read of a stretch without a silence: it takes the first line, and none only if there is none.
abbrev pub Starts : (lines : List Bytes) → LineResult → (left : List Bytes) → Type 0
Starts lines (line text) left = lines ≡ text ∷ left
Starts lines timed_out left = lines ≡ []
Starts lines closed left = lines ≡ []

pub line_loop-Starts :
    (arrivals : List Arrival) (rx_buffer : Bytes)
    → let (result, after, rest) = line_loop arrivals rx_buffer in
      Starts
        (lines_of (rx_buffer ++ upcoming arrivals) [])
        result
        (lines_of (rest ++ upcoming after) [])
line_loop-Starts arrivals rx_buffer =
    let (result, after, rest) = line_loop arrivals rx_buffer in
    at_scan (scan (rx_buffer ++ upcoming arrivals) []) result after rest
      (lines_of-scan (rx_buffer ++ upcoming arrivals) []) (line_loop_lem arrivals rx_buffer)
  where
    at_scan :
        (s : Scan) (result : LineResult) (after : List Arrival) (rest : Bytes)
        → lines_of (rx_buffer ++ upcoming arrivals) [] ≡ lines_from s
        → Reads s result after rest
        → Starts
            (lines_of (rx_buffer ++ upcoming arrivals) [])
            result
            (lines_of (rest ++ upcoming after) [])
    at_scan (found text left) result after rest e (is_line, h) =
        subst
          (λ r.
            Starts (lines_of (rx_buffer ++ upcoming arrivals) []) r
              (lines_of (rest ++ upcoming after) []))
          (sym is_line) (e ∙ ap (λ b. text ∷ lines_of b []) (sym h))
    at_scan (pending left) result after rest e (inl h, _) =
        subst
          (λ r.
            Starts (lines_of (rx_buffer ++ upcoming arrivals) []) r
              (lines_of (rest ++ upcoming after) []))
          (sym h) e
    at_scan (pending left) result after rest e (inr h, _) =
        subst
          (λ r.
            Starts (lines_of (rx_buffer ++ upcoming arrivals) []) r
              (lines_of (rest ++ upcoming after) []))
          (sym h) e

-- All bytes that arrive, behind silences as well.
abbrev pub everything : List Arrival → Bytes
everything [] = []
everything (silence ∷ more) = everything more
everything (received chunk ∷ more) = chunk ++ everything more

-- More bytes behind a buffer in which no line is complete.
lines_of-pending :
    (buffer rest more : Bytes)
    → scan buffer [] ≡ pending rest
    → lines_of (buffer ++ more) [] ≡ lines_of (rest ++ more) []
lines_of-pending buffer rest more e =
    let clean : scan rest [] ≡ pending rest =
      subst IsRest e (scan-IsRest buffer [] (unfold scan in refl)) in
    let same : scan (buffer ++ more) [] ≡ scan (rest ++ more) [] =
      scan-append buffer more []
      ∙ ap (λ r. resume r more) (e ∙ sym clean)
      ∙ sym (scan-append rest more []) in
    lines_of-scan (buffer ++ more) [] ∙ ap lines_from same ∙ sym (lines_of-scan (rest ++ more) [])

lines_of-found :
    (buffer text rest more : Bytes)
    → scan buffer [] ≡ found text rest
    → lines_of (buffer ++ more) [] ≡ text ∷ lines_of (rest ++ more) []
lines_of-found buffer text rest more e =
    lines_of-scan (buffer ++ more) []
    ∙ ap lines_from (scan-append buffer more [] ∙ ap (λ r. resume r more) e)

-- A read goes by the scan of its buffer.
at_scan :
    (arrivals : List Arrival) (rx_buffer : Bytes)
    → ((rest : Bytes)
        → let (result, after, left) = line_step arrivals (pending rest) in
          Takes1
            (lines_of (rest ++ everything arrivals) [])
            result
            (lines_of (left ++ everything after) []))
    → let (result, after, rest) = line_loop arrivals rx_buffer in
      Takes1
        (lines_of (rx_buffer ++ everything arrivals) [])
        result
        (lines_of (rest ++ everything after) [])
at_scan arrivals rx_buffer pend = elim (Scan-cases (scan rx_buffer [])) [
  | inl (text, rest, e) ↦
      rw (line_loop-eq arrivals rx_buffer _ e)
        (lines_of-found rx_buffer text rest (everything arrivals) e)
  | inr (rest, e) ↦
      rw
        (
          line_loop-eq arrivals rx_buffer _ e,
          lines_of-pending rx_buffer rest (everything arrivals) e,
        )
        (pend rest)
]

-- A read takes the first of all lines that are still to come, or it leaves them all.
pub line_loop-Takes1 :
    (arrivals : List Arrival) (rx_buffer : Bytes)
    → let (result, after, rest) = line_loop arrivals rx_buffer in
      Takes1
        (lines_of (rx_buffer ++ everything arrivals) [])
        result
        (lines_of (rest ++ everything after) [])
line_loop-Takes1 [] rx_buffer = at_scan [] rx_buffer λ rest. refl
line_loop-Takes1 (silence ∷ more) rx_buffer = at_scan (silence ∷ more) rx_buffer λ rest. refl
line_loop-Takes1 (received [] ∷ more) rx_buffer =
    at_scan (received [] ∷ more) rx_buffer λ rest. refl
line_loop-Takes1 (received (c ∷ chunk) ∷ more) rx_buffer =
    at_scan (received (c ∷ chunk) ∷ more) rx_buffer λ rest.
      rw (sym (append_assoc rest (c ∷ chunk) (everything more)))
        (line_loop-Takes1 more (rest ++ c ∷ chunk))
