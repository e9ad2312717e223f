-- ===== src/Wire/Sockets.antt =====
-- From the bytes of a socket to the parser's reports, through src/listener.cpp and
-- src/streamingParser.cpp.
use counter_drone_streaming.Base.{
  ℕ, ℤ, int_eq, Bool, false, List, [], ◌++◌, All, replicate, ◌≡◌, sym, ◌∙◌, ap, subst,
}
use counter_drone_streaming.Telemetry.{Telemetry}
use counter_drone_streaming.Bytes.{Endian}
use counter_drone_streaming.Client.Frame.{bad_crc, scan}
use counter_drone_streaming.Client.Step.{unread}
use counter_drone_streaming.Parser.{Parser, handled, handle_chunks, client_of}
use counter_drone_streaming.Parser.Spec.{Pending, notices, tells}
use counter_drone_streaming.Parser.Refine.{handle_chunks_refines}
use counter_drone_streaming.Parser.Ready.{Holds}
use counter_drone_streaming.Parser.Visits.{IsVisit, visits_are_separate}
use counter_drone_streaming.Parser.Streams.{bytes_of, events_of}
use counter_drone_streaming.Listener.{Listener, Wait, event_loop}
use counter_drone_streaming.Listener.Chunks.{
  FitsWait, IsBounded, IsQueued, event_loop-IsQueued, All-both,
}
use counter_drone_streaming.Listener.Heard.{all_chunks, reached, event_loop-queue}
use counter_drone_streaming.Wire.RoundTrip.{IsSendable}
use counter_drone_streaming.Wire.Recovery.{packets, delivered}
use counter_drone_streaming.Wire.Resync.{IsJunk, false_starts, scan-junk_packets}
use counter_drone_streaming.Listener.Sessions.{sent_by, IsSession, all_chunks-Queued}

-- From an empty queue and a parser in step with its clients' streams, in which nothing waits for
-- this client: if, in the events that the loop comes to, its socket has data until it hangs up or
-- its connection ends, if ever, and has no event behind that, and what recv brings of it is some
-- junk and then the packets that a sender built from records (names of at most 214 bytes, numbers
-- of 64 bits), cut in any way (bytes, no more of them than the buffer holds), where no byte of the
-- junk begins a packet with a right checksum or one that the bytes end within, then the parser
-- handles all that the event loop queues, and what it puts out for this client is one failure for
-- each place in the junk that looks like a packet by its header and length, and then each record
-- once and in order, and no byte of it waits in the end, whatever the other sockets do.
pub packets_cross_the_listener :
    (server event id : ℤ) (rounds : List (Bool × Wait)) (l : Listener)
    → (e : Endian) (junk : List ℕ) (ts : List Telemetry) (p : Parser) (w : Pending)
    → int_eq id server ≡ false
    → l.queue ≡ []
    → All FitsWait rounds
    → IsSession id (reached event rounds)
    → sent_by id (reached event rounds) ≡ junk ++ packets ts
    → IsJunk (packets ts) junk
    → All IsSendable ts
    → Holds p w
    → w id ≡ []
    → let queue = (event_loop server event rounds l).queue in
      let told = notices queue w in
      (p' : Parser) × (handle_chunks e queue p ≡ handled p')
      × (p'.outputs ≡ tells told p.outputs)
      × (events_of id told ≡ replicate (false_starts (packets ts) junk) bad_crc ++ delivered ts)
      × (unread (client_of id p') ≡ [])
packets_cross_the_listener server event id rounds l e junk ts p w client fresh fits session sent
      is_junk sendable holds none_waits =
    let rs = reached event rounds in
    let queue = (event_loop server event rounds l).queue in
    let heard : queue ≡ all_chunks server rs =
      event_loop-queue server event rounds l ∙ ap (λ q. q ++ all_chunks server rs) fresh in
    let start : IsQueued l = subst (All IsBounded) (sym fresh) tt in
    let (bytes, small) = All-both queue (event_loop-IsQueued server event rounds l fits start) in
    let (visit, told) = all_chunks-Queued server id rs client session in
    let (p', is, out, holds') = handle_chunks_refines e queue p w holds bytes in
    let (evs, left) =
      visits_are_separate id queue w (rw (← holds.bytes id) (holds.ready id).waits) small
        (subst (IsVisit id) (sym heard) visit) in
    let whole =
      ap scan (ap (λ bs. bs ++ bytes_of id queue) none_waits ∙ ap (bytes_of id) heard ∙ told ∙ sent)
      ∙ scan-junk_packets junk ts is_junk sendable in
    (p', is, out, evs ∙ ap (λ r. r.0) whole, holds'.bytes id ∙ left (ap (λ r. r.1) whole))
