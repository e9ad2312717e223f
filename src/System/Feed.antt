-- ===== src/System/Feed.antt =====
-- From the bytes of a socket to one drone in the table, through all the threads.
use counter_drone_streaming.Base.{
  ℕ, ℤ, int_eq, false, List, [], ◌++◌, none, All, ◌≡◌, sym, ◌∙◌, subst, Bool, ap,
}
use counter_drone_streaming.Telemetry.{Telemetry}
use counter_drone_streaming.Client.Frame.{next}
use counter_drone_streaming.Wire.RoundTrip.{IsSendable}
use counter_drone_streaming.System.Delivery.{last_of}
use counter_drone_streaming.Parser.Room.{IsSmall}
use counter_drone_streaming.Parser.Visits.{IsVisit, visits_are_separate}
use counter_drone_streaming.Listener.{Listener, Wait, event_loop}
use counter_drone_streaming.Listener.Chunks.{
  FitsWait, IsBounded, IsQueued, event_loop-IsQueued, All-both,
}
use counter_drone_streaming.Listener.Heard.{reached, all_chunks, event_loop-queue}
use counter_drone_streaming.Listener.Sessions.{sent_by, IsSession, all_chunks-Queued}
use counter_drone_streaming.Bytes.{Endian}
use counter_drone_streaming.Parser.{Parser}
use counter_drone_streaming.Parser.Spec.{Pending, notices}
use counter_drone_streaming.Parser.Ready.{Holds}
use counter_drone_streaming.Parser.Streams.{bytes_of}
use counter_drone_streaming.Table.{find?, id_key}
use counter_drone_streaming.Wire.Recovery.{packets}
use counter_drone_streaming.Wire.Resync.{IsJunk}
use counter_drone_streaming.Logic.{Timing, Logic}
use counter_drone_streaming.System.{System, main_returned, launch, Reach}
use counter_drone_streaming.System.Fleet.{Spares, tracked_if_separate}

module _ {e : Endian} {T : Timing} (p₀ : Parser) (l₀ : Logic T) {s : System e T}
    (r : Reach (launch e T p₀ l₀) s) (done : s.main ≡ main_returned) where
  -- Once main has returned, after any interleaving of the threads from a table in step with its
  -- clients' streams, an empty table of drones, no record put out before and nothing that waits
  -- for this client: if the chunks that the parser took are those that the event loop queued from
  -- an empty queue, no record is left in the parsed queue, the client's socket has data until it
  -- hangs up or its connection ends, if ever, and has no event behind that, what recv brings of it
  -- is some junk and then the packets that a sender built from records (names of at most 214
  -- bytes, numbers of 64 bits), cut in any way (bytes, no more of them than the buffer holds), no
  -- byte of the junk begins a packet with a right checksum or one that the bytes end within, and
  -- nothing that the parser tells of another client is a record of this drone, then the table
  -- holds, for this drone, the last record of it that the sender sent, or nothing if there was
  -- none, whatever else the other sockets do.
  pub sockets_reach_the_table :
      (server event id : ℤ) (rounds : List (Bool × Wait)) (l : Listener)
      → (d : List ℕ) (junk : List ℕ) (ts : List Telemetry) (w : Pending)
      → s.raw.popped ≡ (event_loop server event rounds l).queue
      → s.parsed.queue.items ≡ []
      → int_eq id server ≡ false
      → l.queue ≡ []
      → All FitsWait rounds
      → IsSession id (reached event rounds)
      → sent_by id (reached event rounds) ≡ junk ++ packets ts
      → IsJunk (packets ts) junk
      → All IsSendable ts
      → Holds p₀ w
      → w id ≡ []
      → p₀.outputs.parsed ≡ []
      → l₀.drones ≡ []
      → All (Spares id d) (notices s.raw.popped w)
      → find? d s.logic.state.drones ≡ last_of d ts none
  sockets_reach_the_table server event id rounds l d junk ts w took all_taken client new fits
        session sent is_junk sendable h idle fresh no_drones alone =
      let rs = reached event rounds in
      let heard : s.raw.popped ≡ all_chunks server rs =
        took ∙ event_loop-queue server event rounds l ∙ ap (λ q. q ++ all_chunks server rs) new in
      let start : IsQueued l = subst (All IsBounded) (sym new) tt in
      let queued = event_loop-IsQueued server event rounds l fits start in
      let small = subst (All IsSmall) (sym took) (All-both _ queued).1 in
      let (visit, told) = all_chunks-Queued server id rs client session in
      let waits : next (w id) ≡ none = rw (← h.bytes id) ((h.ready id).waits) in
      let (evs, _) =
        visits_are_separate id s.raw.popped w waits small (subst (IsVisit id) (sym heard) visit) in
      tracked_if_separate p₀ l₀ r done id d junk ts w h idle fresh no_drones all_taken evs is_junk
        sendable (ap (bytes_of id) heard ∙ told ∙ sent) alone
