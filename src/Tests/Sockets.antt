-- ===== src/Tests/Sockets.antt =====
-- The listener's loop: two clients, one of which sends and goes.
use counter_drone_streaming.Base.{
  All, ℤ, pos, Bool, true, false, List, [], ◌∷◌, ◌++◌, ◌+◌, ◌≡◌, refl, none, some, arith, inr,
}
use counter_drone_streaming.Message.{text}
use counter_drone_streaming.Bytes.{little}
use counter_drone_streaming.Table.{find?, put, remove}
use counter_drone_streaming.Listener.{
  Listener, none_waits, accepted, received, Ready, Wait, interrupted, ready, event_loop, emplace,
  accept_client, handle_accept, handle_client_data, erased, disconnect_client, handle_event,
  handle_events,
}
use counter_drone_streaming.Socket.Ownership.{
  occurs, Handles, HandleOp, resets, releases, takes_over, takes_itself, exchanges, perform,
  perform_all, handles_account,
}
use counter_drone_streaming.Listener.Chunks.{queue_is_handled}
use counter_drone_streaming.Socket.{invalid, destroy}
use counter_drone_streaming.Listener.Setup.{Setup, ServerCalls, EpollCalls, setup}
use counter_drone_streaming.Listener.Setup.Faults.{setup_throws_first_fault}
use counter_drone_streaming.Parser.{Parser, handle_chunks, handled}
use counter_drone_streaming.Parser.Spec.{tells, notices, waiting}
use counter_drone_streaming.Parser.Ready.{Holds}
use counter_drone_streaming.Parser.Room.{IsKept}
use counter_drone_streaming.Tests.Samples.{idle_parser, quiet}
use counter_drone_streaming.Tests.Streams.{nothing, idle-Holds}

abbrev pub new_listener : Listener
new_listener = record {
  clients = [];
  queue = [];
  logs = [];
  watched = [];
  opened = [];
  closed = [];
}

abbrev pub event_for : ℤ → Ready
event_for fd = record {
  source_fd = fd;
  hangup = false;
  readable = true;
  accepts =
      accepted 7 [] none none
      ∷ accepted 8 [] (some (text "error" ∷ [])) none
      ∷ accepted 9 [] none none
      ∷ none_waits
      ∷ [];
  recvs = received (1 ∷ 2 ∷ []) ∷ received (3 ∷ []) ∷ received [] ∷ [];
}

abbrev pub network_rounds : List (Bool × Wait)
network_rounds =
    (false, interrupted)
    ∷ (false, ready (event_for (pos 3) ∷ []))
    ∷ (false, ready (event_for (pos 7) ∷ event_for (pos 4) ∷ event_for (pos 9) ∷ []))
    ∷ []

network_run : (event_loop (pos 3) (pos 4) network_rounds new_listener).closed ≡ pos 8 ∷ pos 7 ∷ []
unfolding event_loop handle_events handle_event handle_accept accept_client emplace
    handle_client_data disconnect_client erased find? put remove
network_run = refl

queue_is_handled_example :
    (p : Parser) × (handle_chunks little
        (event_loop (pos 3) (pos 4) network_rounds new_listener).queue
        idle_parser
      ≡ handled p)
    × (p.outputs
        ≡ tells
            (notices (event_loop (pos 3) (pos 4) network_rounds new_listener).queue nothing)
            quiet)
    × All IsKept (notices (event_loop (pos 3) (pos 4) network_rounds new_listener).queue nothing)
    × Holds p (waiting (event_loop (pos 3) (pos 4) network_rounds new_listener).queue nothing)
queue_is_handled_example =
    queue_is_handled (pos 3) (pos 4) network_rounds new_listener little idle_parser nothing
      (omega arith) tt idle-Holds

-- The set-up fails at the last call but one.
abbrev pub server_calls : ServerCalls
server_calls = record {
  socket = inr 3;
  setsockopt = none;
  get_flags = none;
  set_flags = none;
  bind = none;
  listen = none;
}

abbrev epoll_calls : EpollCalls
epoll_calls = record {
  epoll_create1 = inr 4;
  eventfd = inr 5;
  add_server = some (text "error" ∷ []);
  add_event = none;
}

abbrev no_handles : Setup
no_handles = record {
  server_fd = record { fd = invalid };
  epoll_fd = record { fd = invalid };
  event_fd = record { fd = invalid };
  opened = [];
  closed = [];
  logs = [];
}

setup_throws_first_fault_example :
    (setup 9000 server_calls epoll_calls no_handles).0
    ≡ some (text "epoll_ctl add server_fd failed" ∷ text ": " ∷ text "error" ∷ [])
setup_throws_first_fault_example = setup_throws_first_fault 9000 server_calls epoll_calls no_handles

-- Two handles with a descriptor each.
abbrev two_handles : Handles
two_handles = record {
  first = record { fd = pos 3 };
  second = record { fd = pos 4 };
  acquired = pos 3 ∷ pos 4 ∷ [];
  closed = [];
  released = [];
}

abbrev handle_ops : List HandleOp
handle_ops = resets (pos 5) ∷ exchanges ∷ takes_itself ∷ takes_over ∷ releases ∷ []

-- The first handle closes 3 for 5, which goes over and back; 4 is closed by the assignment.
handle_history : (perform_all handle_ops two_handles).closed ≡ pos 3 ∷ pos 4 ∷ []
unfolding perform_all perform
handle_history = refl

handles_account_example :
    occurs 4 (perform_all handle_ops two_handles).acquired
    ≡ occurs 4 (
        (perform_all handle_ops two_handles).closed
        ++ (destroy (perform_all handle_ops two_handles).second
            ++ destroy (perform_all handle_ops two_handles).first))
      + occurs 4 (perform_all handle_ops two_handles).released
handles_account_example = handles_account handle_ops two_handles (λ n. omega arith) 4
