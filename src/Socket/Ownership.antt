-- ===== src/Socket/Ownership.antt =====
-- `SocketHandle` over any history of its operations: who closes a descriptor.
use counter_drone_streaming.Base.{
  ℕ, ◌+◌, ℤ, pos, int_eq, true, false, List, [], ◌∷◌, ◌++◌, if◌then◌else◌, ◌≡◌, arith,
}
use counter_drone_streaming.Socket.{SocketHandle, destroy, reset, release, move, assign}

-- How often a descriptor stands in a list.
abbrev pub occurs : ℕ → List ℤ → ℕ
occurs n [] = 0
occurs n (k ∷ ks) = (if int_eq k (pos n) then 1 else 0) + occurs n ks

pub occurs-append : (n : ℕ) (xs ys : List ℤ) → occurs n (xs ++ ys) ≡ occurs n xs + occurs n ys
occurs-append n [] ys = omega arith
occurs-append n (x ∷ xs) ys = omega (arith, occurs-append n xs ys)

pub occurs-destroy : (n : ℕ) (h : SocketHandle) → occurs n (destroy h) ≡ occurs n (h.fd ∷ [])
occurs-destroy n h = ground arith

-- Two handles, with the descriptors that were handed to them, those that they closed, and those that
-- they handed back.
pub record Handles : Type 0 where
  pub first : SocketHandle
  pub second : SocketHandle
  pub acquired : List ℤ
  pub closed : List ℤ
  pub released : List ℤ

-- An operation on the first handle, the second being its other; `exchanges` is `std::swap`, by the
-- move constructor and two assignments.
pub data HandleOp : Type 0 where
  resets : ℤ → HandleOp
  releases : HandleOp
  takes_over : HandleOp
  takes_itself : HandleOp
  exchanges : HandleOp

unfoldable pub perform : HandleOp → Handles → Handles
perform (resets fd) s =
    let (h, gone) = reset fd s.first in
    record s { first = h; acquired = s.acquired ++ (fd ∷ []); closed = s.closed ++ gone }
perform releases s =
    let (fd, h) = release s.first in record s { first = h; released = s.released ++ (fd ∷ []) }
perform takes_over s =
    let (h, (other, gone)) = assign false s.first s.second in
    record s { first = h; second = other; closed = s.closed ++ gone }
perform takes_itself s =
    let (h, (_, gone)) = assign true s.first s.first in
    record s { first = h; closed = s.closed ++ gone }
perform exchanges s =
    let (temporary, first) = move s.first in
    let (h, (second, gone)) = assign false first s.second in
    let (other, (last, gone')) = assign false second temporary in
    record s { first = h; second = other; closed = s.closed ++ (gone ++ (gone' ++ destroy last)) }

unfoldable pub perform_all : List HandleOp → Handles → Handles
perform_all [] s = s
perform_all (op ∷ ops) s = perform_all ops (perform op s)

-- Each descriptor was closed or handed back as often as acquired, or a handle owns it.
abbrev pub IsAccounted : Handles → Type 0
IsAccounted s =
    (n : ℕ)
    → occurs n s.acquired
      ≡ occurs n s.closed + occurs n s.released + occurs n (s.first.fd ∷ s.second.fd ∷ [])

perform-IsAccounted : (op : HandleOp) (s : Handles) → IsAccounted s → IsAccounted (perform op s)
unfolding perform
perform-IsAccounted (resets fd) s h n = omega (
  arith,
  h n,
  occurs-append n s.acquired (fd ∷ []),
  occurs-append n s.closed (destroy s.first),
  occurs-destroy n s.first,
)
perform-IsAccounted releases s h n =
    omega (arith, h n, occurs-append n s.released (s.first.fd ∷ []))
perform-IsAccounted takes_over s h n =
    omega (arith, h n, occurs-append n s.closed (destroy s.first), occurs-destroy n s.first)
perform-IsAccounted takes_itself s h n = omega (arith, h n, occurs-append n s.closed [])
perform-IsAccounted exchanges s h n = omega (arith, h n, occurs-append n s.closed [])

-- Over any history of reset, release, move assignment, self-assignment and swap on two socket
-- handles: if at the start each descriptor was closed or handed back as often as it was acquired,
-- or was owned by one of the two instead, then once both are destroyed each descriptor was closed
-- or handed back exactly as often as it was acquired.
pub handles_account :
    (ops : List HandleOp) (s : Handles)
    → IsAccounted s
    → (n : ℕ)
    → let s' = perform_all ops s in
      occurs n s'.acquired
      ≡ occurs n (s'.closed ++ (destroy s'.second ++ destroy s'.first)) + occurs n s'.released
unfolding perform_all
handles_account [] s h n = omega (
  arith,
  h n,
  occurs-append n s.closed (destroy s.second ++ destroy s.first),
  occurs-append n (destroy s.second) (destroy s.first),
  occurs-destroy n s.first,
  occurs-destroy n s.second,
)
handles_account (op ∷ ops) s h n = handles_account ops (perform op s) (perform-IsAccounted op s h) n
