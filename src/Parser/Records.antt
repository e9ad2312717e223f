-- ===== src/Parser/Records.antt =====
-- The records that the parser of src/streamingParser.cpp puts out, among what it tells.
use counter_drone_streaming.Base.{
  ℕ, zero, suc, ℤ, List, [], ◌∷◌, ◌++◌, some, none, All, ◌≡◌, refl, sym, ◌∙◌, ap, append_assoc,
  append-nil, replicate, Option-cases, inl, inr,
}
use counter_drone_streaming.Telemetry.{Telemetry}
use counter_drone_streaming.Payload.Decode.{decode}
use counter_drone_streaming.Client.{Outputs}
use counter_drone_streaming.Client.Frame.{Event, bad_crc, payload, report}
use counter_drone_streaming.Parser.Spec.{Notice, saw, gone, overrun, tell, tells}
use counter_drone_streaming.Wire.{serialize_payload}
use counter_drone_streaming.Wire.RoundTrip.{IsSendable, decode-serialize_payload}
use counter_drone_streaming.Wire.Recovery.{delivered}

-- The records among some events, and among all that is told.
unfoldable pub record_of : Event → List Telemetry
record_of bad_crc = []
record_of (payload p) = elim (decode p) [ some t ↦ t ∷ [] | none ↦ [] ]

abbrev pub records_in : List Event → List Telemetry
records_in [] = []
records_in (ev ∷ evs) = record_of ev ++ records_in evs

abbrev pub records_told : List (ℤ × Notice) → List Telemetry
records_told [] = []
records_told ((j, saw ev) ∷ ns) = record_of ev ++ records_told ns
records_told ((j, gone) ∷ ns) = records_told ns
records_told ((j, overrun tried free) ∷ ns) = records_told ns

report-parsed : (ev : Event) (o : Outputs) → (report ev o).parsed ≡ o.parsed ++ record_of ev
unfolding report record_of
report-parsed bad_crc o = sym (append-nil o.parsed)
report-parsed (payload p) o = elim (Option-cases (decode p)) [
  | inl bad ↦ rw (bad, report, record_of) (sym (append-nil o.parsed))
  | inr (t, good) ↦ rw (good, report, record_of) refl
]

pub tells-parsed :
    (ns : List (ℤ × Notice)) (o : Outputs) → (tells ns o).parsed ≡ o.parsed ++ records_told ns
unfolding tells tell
tells-parsed [] o = sym (append-nil o.parsed)
tells-parsed ((j, saw ev) ∷ ns) o =
    tells-parsed ns (report ev o)
    ∙ ap (λ ts. ts ++ records_told ns) (report-parsed ev o)
    ∙ append_assoc o.parsed (record_of ev) (records_told ns)
tells-parsed ((j, gone) ∷ ns) o = tells-parsed ns _
tells-parsed ((j, overrun tried free) ∷ ns) o = tells-parsed ns _

pub records_in-append :
    (es fs : List Event) → records_in (es ++ fs) ≡ records_in es ++ records_in fs
records_in-append [] fs = refl
records_in-append (ev ∷ es) fs =
    ap (λ ts. record_of ev ++ ts) (records_in-append es fs)
    ∙ sym (append_assoc (record_of ev) (records_in es) (records_in fs))

pub records_in-fails : (n : ℕ) → records_in (replicate n bad_crc) ≡ []
unfolding record_of
records_in-fails zero = refl
records_in-fails (suc n) = records_in-fails n

record_of-serialize_payload :
    (t : Telemetry) → IsSendable t → record_of (payload (serialize_payload t)) ≡ t ∷ []
unfolding record_of
record_of-serialize_payload t s = rw (decode-serialize_payload t s, record_of) refl

pub records_in-delivered :
    (ts : List Telemetry) → All IsSendable ts → records_in (delivered ts) ≡ ts
unfolding delivered
records_in-delivered [] s = refl
records_in-delivered (t ∷ ts) (s, ss) =
    rw (record_of-serialize_payload t s) (ap (λ us. t ∷ us) (records_in-delivered ts ss))
