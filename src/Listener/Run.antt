-- ===== src/Listener/Run.antt =====
-- `NetworkListener` of src/listener.cpp from its constructor to its destructor: `run` is the set-up
-- and then the event loop, in which the stop callback's write to the eventfd shows as an event.
use counter_drone_streaming.Base.{ℕ, ℤ, Bool, List, [], ◌++◌, Option, some, none, ◌≡◌, arith}
use counter_drone_streaming.Message.{Message}
use counter_drone_streaming.Socket.{invalid}
use counter_drone_streaming.Socket.Ownership.{occurs, occurs-append}
use counter_drone_streaming.Listener.{Listener, Wait, event_loop, destroy_listener}
use counter_drone_streaming.Listener.Owned.{
  IsBalanced, event_loop-IsBalanced, destroy_listener-closes,
}
use counter_drone_streaming.Listener.Setup.{
  Setup, Stage, ServerCalls, EpollCalls, setup, destroy_handles,
}
use counter_drone_streaming.Listener.Setup.Kept.{handles_are_closed}

-- All the members: the three handles, and the others.
pub record Network : Type 0 where
  pub handles : Setup
  pub rest : Listener

abbrev pub create_network : Network
create_network = record {
  handles = record {
    server_fd = record { fd = invalid };
    epoll_fd = record { fd = invalid };
    event_fd = record { fd = invalid };
    opened = [];
    closed = [];
    logs = [];
  };
  rest = record { clients = []; queue = []; logs = []; watched = []; opened = []; closed = [] };
}

-- What follows the set-up, on what it threw, if anything. The loop logs behind the set-up.
abbrev pub after_setup : List (Bool × Wait) → Listener → Stage → Option Message × Network
after_setup rounds l (some e, s) =
    (some e, record { handles = s; rest = record l { logs = s.logs } })
after_setup rounds l (none, s) =
    let l₁ = record l { logs = s.logs } in
    (none, record { handles = s; rest = event_loop s.server_fd.fd s.event_fd.fd rounds l₁ })

-- What `run` throws, if anything, and the members.
unfoldable pub run :
    ℕ → ServerCalls → EpollCalls → List (Bool × Wait) → Network → Option Message × Network
run port c d rounds n = after_setup rounds n.rest (setup port c d n.handles)

abbrev pub destroy_network : Network → Network
destroy_network n = record { handles = destroy_handles n.handles; rest = destroy_listener n.rest }

-- The descriptors that the object has opened, and closed.
abbrev pub opened : Network → List ℤ
opened n = n.handles.opened ++ n.rest.opened

abbrev pub closed : Network → List ℤ
closed n = n.handles.closed ++ n.rest.closed

-- Every descriptor that a new listener opens or accepts in its life is closed exactly as often,
-- once it is destroyed, whatever the system calls return, and whether its run throws, ends after
-- an error or is stopped.
pub run_closes_all :
    (port : ℕ) (c : ServerCalls) (d : EpollCalls) (rounds : List (Bool × Wait)) (n : ℕ)
    → let end = destroy_network (run port c d rounds create_network).1 in
      occurs n (opened end) ≡ occurs n (closed end)
unfolding run
run_closes_all port c d rounds n =
    go (setup port c d create_network.handles)
      (handles_are_closed port c d create_network.handles (λ k. omega arith) n)
  where
    both :
        (s : Setup) (l : Listener)
        → occurs n (destroy_handles s).opened ≡ occurs n (destroy_handles s).closed
        → IsBalanced l
        → let end = destroy_network (record { handles = s; rest = l }) in
          occurs n (opened end) ≡ occurs n (closed end)
    both s l k b = omega (
      arith,
      k,
      destroy_listener-closes l b n,
      occurs-append n (destroy_handles s).opened (destroy_listener l).opened,
      occurs-append n (destroy_handles s).closed (destroy_listener l).closed,
    )

    go :
        (stage : Stage)
        → occurs n (destroy_handles stage.1).opened ≡ occurs n (destroy_handles stage.1).closed
        → let end = destroy_network (after_setup rounds create_network.rest stage).1 in
          occurs n (opened end) ≡ occurs n (closed end)
    go (some e, s) k = both s (record create_network.rest { logs = s.logs }) k (λ m. omega arith)
    go (none, s) k =
        both s (event_loop s.server_fd.fd s.event_fd.fd rounds _) k
          (event_loop-IsBalanced s.server_fd.fd s.event_fd.fd rounds _ (λ m. omega arith))
