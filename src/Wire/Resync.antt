-- ===== src/Wire/Resync.antt =====
-- Packets behind any bytes at all: the parser's search for the next header.
use counter_drone_streaming.Base.{
  ℕ, zero, suc, ◌≡◌, refl, ◌∙◌, ap, List, [], ◌∷◌, ◌++◌, replicate, All,
}
use counter_drone_streaming.Telemetry.{Telemetry}
use counter_drone_streaming.Client.{Outputs, fail, crc_mismatch}
use counter_drone_streaming.Client.Frame.{
  Frame, Event, partial, noise, corrupt, packet, bad_crc, frame, next, scan, report, reports,
}
use counter_drone_streaming.Client.Scan.{scan-some, reports-append}
use counter_drone_streaming.Wire.RoundTrip.{IsSendable}
use counter_drone_streaming.Wire.Recovery.{packets, delivered, scan-packets_end, reports-delivered}

-- A place at which the parser goes on by one byte: no packet whose checksum is right stands there,
-- and none that the stream ends within.
abbrev pub IsPassed : Frame → Type 0
IsPassed partial = ⊥
IsPassed noise = Unit
IsPassed corrupt = Unit
IsPassed (packet p) = ⊥

-- Each byte of the junk is at such a place, before the stream.
abbrev pub IsJunk : List ℕ → List ℕ → Type 0
IsJunk stream [] = Unit
IsJunk stream (b ∷ junk) = IsPassed (frame (b ∷ (junk ++ stream))) × IsJunk stream junk

abbrev pub count_corrupt : Frame → ℕ → ℕ
count_corrupt partial n = n
count_corrupt noise n = n
count_corrupt corrupt n = suc n
count_corrupt (packet p) n = n

-- How many places in the junk look like a packet, by a header and a length in range.
abbrev pub false_starts : List ℕ → List ℕ → ℕ
false_starts stream [] = 0
false_starts stream (b ∷ junk) =
    count_corrupt (frame (b ∷ (junk ++ stream))) (false_starts stream junk)

scan-passed :
    (stream : List ℕ) (b : ℕ) (junk : List ℕ)
    → (f : Frame) → frame (b ∷ (junk ++ stream)) ≡ f
    → IsPassed f
    → scan (b ∷ (junk ++ stream)) ≡ (
      replicate (count_corrupt f 0) bad_crc ++ (scan (junk ++ stream)).0,
      (scan (junk ++ stream)).1,
    )
unfolding next
scan-passed stream b junk partial e h = absurd h
scan-passed stream b junk (packet p) e h = absurd h
scan-passed stream b junk noise e h =
    scan-some (b ∷ (junk ++ stream)) [] (junk ++ stream) (rw (e, next) refl)
scan-passed stream b junk corrupt e h =
    scan-some (b ∷ (junk ++ stream)) (bad_crc ∷ []) (junk ++ stream) (rw (e, next) refl)

count_corrupt-replicate :
    (f : Frame) (n : ℕ) (evs : List Event)
    → replicate (count_corrupt f n) bad_crc ++ evs
      ≡ replicate (count_corrupt f 0) bad_crc ++ (replicate n bad_crc ++ evs)
count_corrupt-replicate partial n evs = refl
count_corrupt-replicate noise n evs = refl
count_corrupt-replicate corrupt n evs = refl
count_corrupt-replicate (packet p) n evs = refl

-- Junk is reported as so many failures, and the stream behind it is scanned as if it stood alone.
pub scan-junk :
    (stream junk : List ℕ)
    → IsJunk stream junk
    → scan (junk ++ stream)
      ≡ (replicate (false_starts stream junk) bad_crc ++ (scan stream).0, (scan stream).1)
scan-junk stream [] h = refl
scan-junk stream (b ∷ junk) (h, hs) =
    scan-passed stream b junk _ refl h
    ∙ rw
        (
          scan-junk stream junk hs,
          count_corrupt-replicate (frame (b ∷ (junk ++ stream))) (false_starts stream junk)
              (scan stream).0,
        )
        refl

-- So many failures by the checksum.
unfoldable pub fail_times : ℕ → Outputs → Outputs
fail_times zero o = o
fail_times (suc n) o = fail_times n (fail crc_mismatch o)

reports-replicate : (n : ℕ) (o : Outputs) → reports (replicate n bad_crc) o ≡ fail_times n o
unfolding reports report fail_times
reports-replicate zero o = refl
reports-replicate (suc n) o = reports-replicate n (fail crc_mismatch o)

pub fail_times-parsed : (n : ℕ) (o : Outputs) → (fail_times n o).parsed ≡ o.parsed
unfolding fail_times
fail_times-parsed zero o = refl
fail_times-parsed (suc n) o = fail_times-parsed n (fail crc_mismatch o)

pub scan-junk_packets :
    (junk : List ℕ) (ts : List Telemetry)
    → IsJunk (packets ts) junk
    → All IsSendable ts
    → scan (junk ++ packets ts)
      ≡ (replicate (false_starts (packets ts) junk) bad_crc ++ delivered ts, [])
scan-junk_packets junk ts h s = scan-junk (packets ts) junk h ∙ rw (scan-packets_end ts s) refl

pub reports-recovered :
    (n : ℕ) (ts : List Telemetry) (o : Outputs)
    → All IsSendable ts
    → reports (replicate n bad_crc ++ delivered ts) o
      ≡ record (fail_times n o) { parsed = o.parsed ++ ts }
reports-recovered n ts o s =
    reports-append (replicate n bad_crc) (delivered ts) o
    ∙ ap (reports (delivered ts)) (reports-replicate n o)
    ∙ reports-delivered ts (fail_times n o) s
    ∙ ap (λ l. record (fail_times n o) { parsed = l ++ ts }) (fail_times-parsed n o)
