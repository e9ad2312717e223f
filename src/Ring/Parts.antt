-- ===== src/Ring/Parts.antt =====
-- The two-part copies of `push` and `peek` over plain lists, and the window they read and extend.
use counter_drone_streaming.Base.{
  ℕ, ◌+◌, ◌-◌, ◌%◌, ◌≤◌, ◌<◌, ◌≡◌, List, ◌++◌, arith, length, take, drop, min, none, get_elem?, ltb,
  if◌then◌else◌, get_elem?-append, get_elem?-drop, All, get_elem?_beyond, length-drop, list_ext,
  All-append, All-take, All-drop,
}
use counter_drone_streaming.Ring.{memcpy}
use counter_drone_streaming.Ring.Valid.{IsByte, mod_wrap}
use counter_drone_streaming.Ring.Window.{
  window, length-window, get_elem?-window, length-memcpy, get_elem?-memcpy,
}

-- A copy into `dest` in two parts, `f` bytes of it before the end of the array.
unfoldable pub copied_parts : List ℕ → ℕ → List ℕ → ℕ → List ℕ
copied_parts buf t dest f =
    let dest' = memcpy dest 0 (drop t buf) f in
    if ltb f (length dest) then memcpy dest' f buf (length dest - f) else dest'

pub copied_parts_lem :
    (buf : List ℕ) (t : ℕ) (dest : List ℕ) (f i : ℕ)
    → t < length buf
    → length dest ≤ length buf
    → f ≡ min (length dest) (length buf - t)
    → get_elem? (copied_parts buf t dest f) i ≡ get_elem? (window buf t (length dest)) i
unfolding copied_parts
copied_parts_lem buf t dest f i h k e = ground (
  arith,
  length-drop t buf,
  length-memcpy dest 0 (drop t buf) f,
  get_elem?-memcpy dest 0 (drop t buf) f i,
  get_elem?-memcpy (memcpy dest 0 (drop t buf) f) f buf (length dest - f) i,
  get_elem?-drop t buf i,
  get_elem?-window buf t (length dest) i,
  get_elem?_beyond dest i,
)

unfoldable pub stored_parts : List ℕ → ℕ → List ℕ → ℕ → List ℕ
stored_parts buf h bytes f =
    let buf' = memcpy buf h bytes f in
    if ltb f (length bytes) then memcpy buf' 0 (drop f bytes) (length bytes - f) else buf'

-- What a two-part write leaves at index `j` of the array.
get_elem?-stored_parts :
    (buf : List ℕ) (h : ℕ) (bytes : List ℕ) (f j : ℕ)
    → h < length buf
    → length bytes ≤ length buf
    → f ≡ min (length bytes) (length buf - h)
    → get_elem? (stored_parts buf h bytes f) j ≡ (
        if ltb j h
        then (if ltb (j + length buf) (h + length bytes)
            then get_elem? bytes (j + length buf - h)
            else get_elem? buf j)
        else if ltb j (h + length bytes)
        then (if ltb j (length buf) then get_elem? bytes (j - h) else none)
        else get_elem? buf j)
unfolding stored_parts
get_elem?-stored_parts buf h bytes f j p k e = ground (
  arith,
  length-drop f bytes,
  length-memcpy buf h bytes f,
  get_elem?-memcpy buf h bytes f j,
  get_elem?-memcpy (memcpy buf h bytes f) 0 (drop f bytes) (length bytes - f) j,
  get_elem?-drop f bytes j,
  get_elem?_beyond buf j,
)

pub length-stored_parts :
    (buf : List ℕ) (h : ℕ) (bytes : List ℕ) (f : ℕ)
    → h < length buf
    → length bytes ≤ length buf
    → f ≡ min (length bytes) (length buf - h)
    → length (stored_parts buf h bytes f) ≡ length buf
unfolding stored_parts
length-stored_parts buf h bytes f p k e = ground (
  arith,
  length-drop f bytes,
  length-memcpy buf h bytes f,
  length-memcpy (memcpy buf h bytes f) 0 (drop f bytes) (length bytes - f),
)

module _ (buf : List ℕ) (t n h : ℕ) (bytes : List ℕ) (f : ℕ) (p : t < length buf)
    (q : n + length bytes ≤ length buf)
    (e : h ≡ (if ltb (t + n) (length buf) then t + n else t + n - length buf))
    (g : f ≡ min (length bytes) (length buf - h)) where
  stored_old :
      (i : ℕ)
      → i < n
      → get_elem? (window (stored_parts buf h bytes f) t (n + length bytes)) i
        ≡ get_elem? (window buf t n) i
  stored_old i l = ground (
    arith,
    length-stored_parts buf h bytes f,
    get_elem?-window (stored_parts buf h bytes f) t (n + length bytes) i,
    get_elem?-window buf t n i,
    get_elem?-stored_parts buf h bytes f (t + i),
    get_elem?-stored_parts buf h bytes f (t + i - length buf),
  )

  stored_new :
      (i : ℕ)
      → n ≤ i
      → i < n + length bytes
      → get_elem? (window (stored_parts buf h bytes f) t (n + length bytes)) i
        ≡ get_elem? bytes (i - n)
  stored_new i l k = ground (
    arith,
    length-stored_parts buf h bytes f,
    get_elem?-window (stored_parts buf h bytes f) t (n + length bytes) i,
    get_elem?-stored_parts buf h bytes f (t + i),
    get_elem?-stored_parts buf h bytes f (t + i - length buf),
  )

  stored_beyond :
      (i : ℕ)
      → n + length bytes ≤ i
      → get_elem? (window (stored_parts buf h bytes f) t (n + length bytes)) i ≡ none
  stored_beyond i l = ground (
    arith,
    length-stored_parts buf h bytes f,
    get_elem?-window (stored_parts buf h bytes f) t (n + length bytes) i,
  )

  -- Writing behind the window extends it.
  pub window-stored_parts :
      window (stored_parts buf h bytes f) t (n + length bytes) ≡ window buf t n ++ bytes
  window-stored_parts = list_ext _ _ λ i. ground (
    arith,
    stored_old i,
    stored_new i,
    stored_beyond i,
    get_elem?-append (window buf t n) bytes i,
    length-window buf t n,
    get_elem?_beyond bytes (i - n),
  )

pub window-suffix :
    (buf : List ℕ) (t n k : ℕ)
    → t < length buf
    → n ≤ length buf
    → k ≤ n
    → window buf ((t + k) % length buf) (n - k) ≡ drop k (window buf t n)
window-suffix buf t n k p q l = list_ext _ _ λ i. ground (
  arith,
  mod_wrap t k (length buf),
  get_elem?-window buf ((t + k) % length buf) (n - k) i,
  get_elem?-drop k (window buf t n) i,
  get_elem?-window buf t n (k + i),
)

pub All-memcpy :
    (dest : List ℕ) (at : ℕ) (src : List ℕ) (n : ℕ)
    → All IsByte dest
    → All IsByte src
    → All IsByte (memcpy dest at src n)
All-memcpy dest at src n h k =
    All-append IsByte (take at dest) _ (All-take IsByte at dest h)
      (All-append IsByte (take n src) _ (All-take IsByte n src k) (All-drop IsByte (at + n) dest h))
