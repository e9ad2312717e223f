-- ===== src/Tests/Life.antt =====
-- The life of the listener and of the logger, from the constructor on.
use counter_drone_streaming.Base.{
  ℕ, ℤ, inl, arith, pos, true, false, List, [], ◌∷◌, ◌++◌, some, none, ◌≡◌, refl, inr, Bool,
}
use counter_drone_streaming.Message.{text}
use counter_drone_streaming.Queue.{empty}
use counter_drone_streaming.Logger.{Round}
use counter_drone_streaming.Logger.Open.{FileCalls, open_logger, Outcome, open_logger-Outcome}
use counter_drone_streaming.Listener.{Listener, Wait, interrupted, ready, log, shutdown, event_loop}
use counter_drone_streaming.Socket.Ownership.{occurs}
use counter_drone_streaming.Listener.Setup.{EpollCalls}
use counter_drone_streaming.Listener.Run.{
  Network, create_network, run, destroy_network, opened, closed, run_closes_all,
}
use counter_drone_streaming.Listener.Wake.{woken_loop_ends}
use counter_drone_streaming.Bytes.{little}
use counter_drone_streaming.Table.{find?, put, int_key}
use counter_drone_streaming.Client.Step.{unread}
use counter_drone_streaming.Parser.{Parser, handled, handle_chunks, client_of}
use counter_drone_streaming.Listener.{
  handle_events, handle_event, handle_accept, accept_client, emplace,
}
use counter_drone_streaming.Listener.Reuse.{Follows, new_clients_start_afresh}
use counter_drone_streaming.Parser.Spec.{waiting}
use counter_drone_streaming.Tests.Samples.{idle_parser}
use counter_drone_streaming.Tests.Streams.{nothing, idle-Holds}
use counter_drone_streaming.Tests.Sockets.{server_calls, new_listener, event_for, network_rounds}

abbrev good_calls : EpollCalls
good_calls = record { epoll_create1 = inr 5; eventfd = inr 4; add_server = none; add_event = none }

-- The listener is destroyed after two connections.
abbrev destroyed : Network
destroyed = destroy_network (run 9000 server_calls good_calls network_rounds create_network).1

run_closes_all_example : occurs 9 (opened destroyed) ≡ occurs 9 (closed destroyed)
run_closes_all_example = run_closes_all 9000 server_calls good_calls network_rounds 9

-- A client's event, then the event of the eventfd.
abbrev quiet_rounds : List (Bool × Wait)
quiet_rounds = (false, interrupted) ∷ (false, ready (event_for (pos 3) ∷ [])) ∷ []

woken_loop_ends_example :
    (l : Listener) × ((after : List (Bool × Wait))
      → event_loop
          (pos 3)
          (pos 4)
          (quiet_rounds ++ ((false, ready (event_for (pos 7) ∷ event_for (pos 4) ∷ [])) ∷ after))
          new_listener
        ≡ log shutdown l)
woken_loop_ends_example =
    woken_loop_ends (pos 3) (pos 4) quiet_rounds (event_for (pos 7) ∷ event_for (pos 4) ∷ [])
      new_listener (refl, ((refl, refl), tt)) refl

abbrev path : List ℕ
path = 108 ∷ 47 ∷ 97 ∷ []

abbrev refused : FileCalls
refused = record {
  has_parent_path = true;
  create_directories = none;
  opening = some (text "Permission denied" ∷ []);
}

abbrev one_line : List Round
one_line =
    record { arrived = (text "line" ∷ []) ∷ []; stop = false; stop' = true }
    ∷ record { arrived = []; stop = true; stop' = true }
    ∷ []

open_logger-Outcome_example :
    Outcome refused path (empty 0) one_line (open_logger refused path (empty 0))
open_logger-Outcome_example =
    open_logger-Outcome refused path (empty 0) one_line (inl (refl, refl))
      ((λ h. refl), ((λ h. refl), tt))

-- The second batch has a client that goes, the eventfd, and another client.
network_rounds-Follows : Follows (pos 3) (pos 4) network_rounds new_listener
unfolding handle_events handle_event handle_accept accept_client emplace find? put
network_rounds-Follows = (
  (inr (inl refl), tt),
  (tt, tt),
  (
    (inr (inr λ e. cc e), (inl refl, (inr (inr λ e. cc e), tt))),
    ((refl, (refl, tt)), ((refl, tt), (tt, tt))),
    tt,
  ),
)

abbrev stopped : Listener
stopped = event_loop (pos 3) (pos 4) network_rounds new_listener

new_clients_start_afresh_example :
    (p : Parser) × (handle_chunks little stopped.queue idle_parser ≡ handled p)
    × ((fd : ℤ) → find? fd stopped.clients ≡ none → unread (client_of fd p) ≡ [])
unfolding waiting
new_clients_start_afresh_example =
    new_clients_start_afresh (pos 3) (pos 4) network_rounds new_listener little idle_parser nothing
      network_rounds-Follows (omega arith) tt idle-Holds (λ fd free. refl)
