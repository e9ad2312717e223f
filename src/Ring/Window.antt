-- ===== src/Ring/Window.antt =====
-- The unread bytes of a circular array, index by index, and what `memcpy` does to one index.
use counter_drone_streaming.Base.{
  ℕ, ◌+◌, ◌-◌, ◌≤◌, ◌≡◌, List, ◌++◌, arith, length, take, drop, none, get_elem?, ltb, if◌then◌else◌,
  get_elem?-append, get_elem?-take, get_elem?-drop, length-append, length-take, length-drop,
}
use counter_drone_streaming.Ring.{memcpy}

-- The `n` bytes from index `t` on, going round at the end of the array.
abbrev pub window : List ℕ → ℕ → ℕ → List ℕ
window buf t n = take n (drop t buf ++ buf)

pub length-window :
    (buf : List ℕ) (t n : ℕ) → t ≤ length buf → n ≤ length buf → length (window buf t n) ≡ n
length-window buf t n h k =
    omega
      (arith, length-take n (drop t buf ++ buf), length-append (drop t buf) buf, length-drop t buf)

pub get_elem?-window :
    (buf : List ℕ) (t n i : ℕ)
    → t ≤ length buf
    → get_elem? (window buf t n) i ≡ (
        if ltb i n
        then if ltb (t + i) (length buf)
          then get_elem? buf (t + i)
          else get_elem? buf (t + i - length buf)
        else none)
get_elem?-window buf t n i h = ground (
  arith,
  get_elem?-take n (drop t buf ++ buf) i,
  get_elem?-append (drop t buf) buf i,
  get_elem?-drop t buf i,
  length-drop t buf,
)

pub length-memcpy :
    (dest : List ℕ) (at : ℕ) (src : List ℕ) (n : ℕ)
    → at + n ≤ length dest
    → n ≤ length src
    → length (memcpy dest at src n) ≡ length dest
length-memcpy dest at src n h k = omega (
  arith,
  length-append (take at dest) (take n src ++ drop (at + n) dest),
  length-append (take n src) (drop (at + n) dest),
  length-take at dest,
  length-take n src,
  length-drop (at + n) dest,
)

pub get_elem?-memcpy :
    (dest : List ℕ) (at : ℕ) (src : List ℕ) (n i : ℕ)
    → at + n ≤ length dest
    → n ≤ length src
    → get_elem? (memcpy dest at src n) i ≡ (
        if ltb i at
        then get_elem? dest i
        else if ltb i (at + n)
        then get_elem? src (i - at)
        else get_elem? dest i)
get_elem?-memcpy dest at src n i h k = ground (
  arith,
  get_elem?-append (take at dest) (take n src ++ drop (at + n) dest) i,
  get_elem?-append (take n src) (drop (at + n) dest) (i - length (take at dest)),
  get_elem?-take at dest i,
  get_elem?-take n src (i - at),
  get_elem?-drop (at + n) dest (i - at - n),
  length-take at dest,
  length-take n src,
)
