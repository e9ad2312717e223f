-- ===== src/Wire/Recovery.antt =====
-- A stream of sent packets through the scan: in full, behind noise, and behind a spoiled packet.
use counter_drone_streaming.Base.{
  ℕ, ◌≡◌, ◌≢◌, refl, sym, ◌∙◌, ap, arith, true, false, List, [], ◌∷◌, ◌++◌, drop, All, All-drop,
  some, ◌==◌, append_assoc, append-nil, drop-append, drop-length-append,
}
use counter_drone_streaming.Ring.Valid.{IsByte}
use counter_drone_streaming.Telemetry.{Telemetry}
use counter_drone_streaming.Bytes.BigEndian.{value_be}
use counter_drone_streaming.Payload.Decode.{field}
use counter_drone_streaming.Client.{Outputs, emit}
use counter_drone_streaming.Client.Frame.{Event, bad_crc, payload, next, scan, report, reports}
use counter_drone_streaming.Client.Scan.{scan-some, scan-none}
use counter_drone_streaming.Client.Front.{next_no_header, next_few}
use counter_drone_streaming.Wire.{serialize_payload, build_packet}
use counter_drone_streaming.Wire.RoundTrip.{IsSendable, decode-serialize_payload}
use counter_drone_streaming.Wire.Framing.{
  frame-build_packet, length-build_packet, build_packet-cons, build_packet-All,
}

-- What a sender writes for some records, one after the other.
unfoldable pub packets : List Telemetry → List ℕ
packets [] = []
packets (t ∷ ts) = build_packet t false ++ packets ts

unfoldable pub delivered : List Telemetry → List Event
delivered [] = []
delivered (t ∷ ts) = payload (serialize_payload t) ∷ delivered ts

next-build_packet :
    (t : Telemetry) (rest : List ℕ)
    → IsSendable t
    → next (build_packet t false ++ rest) ≡ some (payload (serialize_payload t) ∷ [], rest)
unfolding next
next-build_packet t rest s =
    rw (frame-build_packet t s false rest, next, ← length-build_packet t false)
      (rw (drop-length-append (build_packet t false) rest))

next-spoiled :
    (t : Telemetry) (rest : List ℕ)
    → IsSendable t
    → next (build_packet t true ++ rest) ≡ some (bad_crc ∷ [], drop 1 (build_packet t true) ++ rest)
unfolding next
next-spoiled t rest s =
    rw (frame-build_packet t s true rest, next)
      (rw (drop-append 1 (build_packet t true) rest (omega (arith, length-build_packet t true))))

-- Packets are found where they stand, each once and in order, and what follows is scanned next.
pub scan-packets :
    (ts : List Telemetry) (rest : List ℕ)
    → All IsSendable ts
    → scan (packets ts ++ rest) ≡ (delivered ts ++ (scan rest).0, (scan rest).1)
unfolding packets delivered
scan-packets [] rest s = refl
scan-packets (t ∷ ts) rest (s, ss) =
    let first =
      scan-some (build_packet t false ++ (packets ts ++ rest)) _ (packets ts ++ rest)
        (next-build_packet t (packets ts ++ rest) s) in
    rw (append_assoc, first, scan-packets ts rest ss)

pub scan-packets_end :
    (ts : List Telemetry) → All IsSendable ts → scan (packets ts) ≡ (delivered ts, [])
scan-packets_end ts s =
    ap scan (sym (append-nil (packets ts)))
    ∙ scan-packets ts [] s
    ∙ rw (scan-none [] (next_few [] (omega arith)), append-nil)

-- A byte that cannot begin a header.
abbrev pub IsNoise : ℕ → Type 0
IsNoise b = b ≢ 0xAA

no_header :
    (b c : ℕ) (bs : List ℕ) → IsNoise b → IsByte c → (field 2 0 (b ∷ c ∷ bs) == 0xAA55) ≡ false
unfolding field value_be
no_header b c bs h k = ground arith

-- Noise before a byte that may begin a header is dropped and reported to nobody.
pub scan-noise :
    (junk rest : List ℕ)
    → All IsNoise junk
    → All IsByte junk
    → scan (junk ++ (0xAA ∷ rest)) ≡ scan (0xAA ∷ rest)
scan-noise [] rest n b = refl
scan-noise (j ∷ []) rest (n, _) (b, _) =
    scan-some (j ∷ 0xAA ∷ rest) [] (0xAA ∷ rest)
      (next_no_header _ (omega arith) (no_header j 0xAA rest n (omega arith)))
scan-noise (j ∷ k ∷ junk) rest (n, ns) (b, bs) =
    scan-some (j ∷ k ∷ (junk ++ (0xAA ∷ rest))) [] (k ∷ (junk ++ (0xAA ∷ rest)))
      (next_no_header _ (omega arith) (no_header j k _ n bs.0))
    ∙ scan-noise (k ∷ junk) rest ns bs

report-delivered :
    (t : Telemetry) (o : Outputs)
    → IsSendable t
    → report (payload (serialize_payload t)) o ≡ emit t o
unfolding report
report-delivered t o s = rw (decode-serialize_payload t s, report)

-- The sent records reach the parsed queue, in order, and nothing else is put out.
pub reports-delivered :
    (ts : List Telemetry) (o : Outputs)
    → All IsSendable ts
    → reports (delivered ts) o ≡ record o { parsed = o.parsed ++ ts }
unfolding reports delivered
reports-delivered [] o s = ap (λ l. record o { parsed = l }) (sym (append-nil o.parsed))
reports-delivered (t ∷ ts) o (s, ss) =
    ap (reports (delivered ts)) (report-delivered t o s)
    ∙ reports-delivered ts (emit t o) ss
    ∙ ap (λ l. record o { parsed = l }) (append_assoc o.parsed (t ∷ []) ts)

packets-cons :
    (t : Telemetry) (ts : List Telemetry)
    → packets (t ∷ ts) ≡ 0xAA ∷ (drop 1 (build_packet t false) ++ packets ts)
unfolding packets
packets-cons t ts = ap (λ l. l ++ packets ts) (build_packet-cons t false)

-- Bytes other than 0xAA before one or more packets change nothing: the packets are delivered,
-- nothing else is reported and nothing is left.
pub scan-junk-packets :
    (junk : List ℕ) (t : Telemetry) (ts : List Telemetry)
    → All IsNoise junk
    → All IsByte junk
    → All IsSendable (t ∷ ts)
    → scan (junk ++ packets (t ∷ ts)) ≡ (delivered (t ∷ ts), [])
scan-junk-packets junk t ts n b s =
    ap (λ l. scan (junk ++ l)) (packets-cons t ts)
    ∙ scan-noise junk _ n b
    ∙ ap scan (sym (packets-cons t ts))
    ∙ scan-packets_end (t ∷ ts) s

-- A packet with a spoiled checksum, of which no byte but the first is 0xAA, is reported once as a
-- failure, and every packet of the one or more behind it is still delivered, nothing else being
-- reported.
pub scan-spoiled-packets :
    (bad t : Telemetry) (ts : List Telemetry)
    → IsSendable bad
    → All IsNoise (drop 1 (build_packet bad true))
    → All IsSendable (t ∷ ts)
    → scan (build_packet bad true ++ packets (t ∷ ts)) ≡ (bad_crc ∷ delivered (t ∷ ts), [])
scan-spoiled-packets bad t ts sb n s =
    let rest = drop 1 (build_packet bad true) in
    let after =
      scan-junk-packets rest t ts n (All-drop IsByte 1 _ (build_packet-All bad true sb)) s in
    scan-some _ (bad_crc ∷ []) (rest ++ packets (t ∷ ts)) (next-spoiled bad (packets (t ∷ ts)) sb)
    ∙ rw after
