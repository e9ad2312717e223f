-- ===== src/Socket.antt =====
-- `SocketHandle` of include/listener.h and src/listener.cpp: the owner of a file descriptor. What an
-- operation passes to `::close` is part of its result.
pub mod Ownership
use counter_drone_streaming.Base.{ℤ, pos, negsuc, Bool, true, false, List, [], ◌∷◌, if◌then◌else◌}

pub record SocketHandle : Type 0 where
  pub fd : ℤ

abbrev pub invalid : ℤ
invalid = negsuc 0

abbrev pub valid : SocketHandle → Bool
valid h = elim h.fd [ pos n ↦ true | negsuc n ↦ false ]

-- The destructor: what it closes.
abbrev pub destroy : SocketHandle → List ℤ
destroy h = if valid h then h.fd ∷ [] else []

-- The handle, and what is closed.
abbrev pub reset : ℤ → SocketHandle → SocketHandle × List ℤ
reset fd h = (record { fd = fd }, destroy h)

-- The descriptor, and the handle that has given it up.
abbrev pub release : SocketHandle → ℤ × SocketHandle
release h = (h.fd, record { fd = invalid })

-- The move constructor: the new handle, and the old one.
abbrev pub move : SocketHandle → SocketHandle × SocketHandle
move other = (record { fd = other.fd }, record { fd = invalid })

-- Move assignment to `h`, for `this == &other` or not: both handles, and what is closed.
abbrev pub assign : Bool → SocketHandle → SocketHandle → SocketHandle × (SocketHandle × List ℤ)
assign true h other = (h, (other, []))
assign false h other = ((reset other.fd h).0, (record { fd = invalid }, (reset other.fd h).1))
