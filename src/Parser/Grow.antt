-- ===== src/Parser/Grow.antt =====
-- What the parser of src/streamingParser.cpp has put out, before and after some notices.
use counter_drone_streaming.Base.{
  ℤ, List, [], ◌∷◌, Extends, Extends-refl, Extends-append, Extends-trans, Option-cases, inl, inr,
}
use counter_drone_streaming.Message.{Message}
use counter_drone_streaming.Client.{Outputs, fail, log, crc_mismatch, malformed_payload}
use counter_drone_streaming.Client.Frame.{Event, bad_crc, payload, report}
use counter_drone_streaming.Payload.Decode.{decode}
use counter_drone_streaming.Parser.Spec.{Notice, saw, gone, overrun, tell, tells}

pub record Grows (o o' : Outputs) : Type 0 where
  pub parsed : Extends o.parsed o'.parsed
  pub logs : Extends o.logs o'.logs

Grows-trans : {o o' o'' : Outputs} → Grows o o' → Grows o' o'' → Grows o o''
Grows-trans g h = record {
  parsed = Extends-trans g.parsed h.parsed;
  logs = Extends-trans g.logs h.logs;
}

pub log-Grows : (m : Message) (o : Outputs) → Grows o (log m o)
log-Grows m o = record { parsed = Extends-refl o.parsed; logs = Extends-append o.logs (m ∷ []) }

fail-Grows : (m : Message) (o : Outputs) → Grows o (fail m o)
fail-Grows m o = record { parsed = Extends-refl o.parsed; logs = Extends-append o.logs (m ∷ []) }

report-Grows : (ev : Event) (o : Outputs) → Grows o (report ev o)
unfolding report
report-Grows bad_crc o = fail-Grows crc_mismatch o
report-Grows (payload p) o = elim (Option-cases (decode p)) [
  | inl fails ↦ rw (fails, report) (fail-Grows malformed_payload o)
  | inr (t, reads) ↦
      rw (reads, report)
        (record { parsed = Extends-append o.parsed (t ∷ []); logs = Extends-refl o.logs })
]

pub tells-Grows : (ns : List (ℤ × Notice)) (o : Outputs) → Grows o (tells ns o)
unfolding tells tell
tells-Grows [] o = record { parsed = Extends-refl o.parsed; logs = Extends-refl o.logs }
tells-Grows ((id, saw ev) ∷ ns) o = Grows-trans (report-Grows ev o) (tells-Grows ns (report ev o))
tells-Grows ((id, gone) ∷ ns) o = Grows-trans (log-Grows _ o) (tells-Grows ns _)
tells-Grows ((id, overrun tried free) ∷ ns) o = Grows-trans (log-Grows _ o) (tells-Grows ns _)
