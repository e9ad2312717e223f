-- ===== src/Main.antt =====
-- `main` of src/main.cpp: the arguments of the command line. `atoi` is the library's; a string is its
-- bytes.
pub mod Program
use counter_drone_streaming.Base.{
  ℕ, ◌-◌, ◌%◌, ℤ, pos, negsuc, List, [], ◌∷◌, ◌++◌, if◌then◌else◌, All,
}
use counter_drone_streaming.Base.{false, ◌≡◌, refl}
use counter_drone_streaming.Table.{bytes_eq}

pub record Options : Type 0 where
  pub port : ℕ
  pub log_file_path : List ℕ

-- "log/counter_drone.log"
abbrev pub defaults : Options
defaults = record {
  port = 9000;
  log_file_path =
      108 ∷ 111 ∷ 103 ∷ 47 ∷ 99 ∷ 111 ∷ 117 ∷ 110 ∷ 116 ∷ 101 ∷ 114 ∷ 95 ∷ 100 ∷ 114 ∷ 111 ∷ 110
      ∷ 101 ∷ 46 ∷ 108 ∷ 111 ∷ 103 ∷ [];
}

-- "--log-file"
abbrev pub log_file : List ℕ
log_file = 45 ∷ 45 ∷ 108 ∷ 111 ∷ 103 ∷ 45 ∷ 102 ∷ 105 ∷ 108 ∷ 101 ∷ []

-- `static_cast<uint16_t>` of an int.
abbrev pub to_uint16 : ℤ → ℕ
to_uint16 (pos n) = n % 65536
to_uint16 (negsuc n) = 65535 - n % 65536

-- What a user writes: a port, or a log file behind the flag.
pub data Argument : Type 0 where
  a_port : List ℕ → Argument
  a_file : List ℕ → Argument

abbrev pub words : List Argument → List (List ℕ)
words [] = []
words (a_port a ∷ args) = a ∷ words args
words (a_file b ∷ args) = log_file ∷ b ∷ words args

abbrev pub IsPlain : Argument → Type 0
IsPlain (a_port a) = bytes_eq a log_file ≡ false
IsPlain (a_file b) = Unit

module _ (atoi : List ℕ → ℤ) where
  abbrev pub set_port : List ℕ → Options → Options
  set_port a o = record o { port = to_uint16 (atoi a) }

  -- The loop over `argv`, from `argv[1]` on.
  unfoldable pub parse_arguments : List (List ℕ) → Options → Options
  parse_arguments [] o = o
  parse_arguments (a ∷ []) o = set_port a o
  parse_arguments (a ∷ b ∷ rest) o =
      let as_flag = parse_arguments rest (record o { log_file_path = b }) in
      let as_port = parse_arguments (b ∷ rest) (set_port a o) in
      if bytes_eq a log_file then as_flag else as_port

  -- Each argument sets its option, so that the last of a kind counts.
  abbrev pub apply : List Argument → Options → Options
  apply [] o = o
  apply (a_port a ∷ args) o = apply args (set_port a o)
  apply (a_file b ∷ args) o = apply args (record o { log_file_path = b })

  -- A port that is not the flag itself sets the port, wherever it stands.
  parse-port :
      (a : List ℕ) (rest : List (List ℕ)) (o : Options)
      → bytes_eq a log_file ≡ false
      → parse_arguments (a ∷ rest) o ≡ parse_arguments rest (set_port a o)
  unfolding parse_arguments
  parse-port a [] o h = refl
  parse-port a (b ∷ rest) o h = rw h refl

  -- Ports and flags with their files, in any order and number, are read as what they say: the last
  -- port and the last file count. A flag that stands last, with no file behind it, is read as a port.
  pub parse_arguments-words :
      (args : List Argument) (o : Options)
      → All IsPlain args
      → (parse_arguments (words args) o ≡ apply args o)
        × (parse_arguments (words args ++ (log_file ∷ [])) o ≡ set_port log_file (apply args o))
  unfolding parse_arguments
  parse_arguments-words [] o h = (refl, refl)
  parse_arguments-words (a_port a ∷ args) o (h, hs) =
      let (plain, flag) = parse_arguments-words args (set_port a o) hs in
      rw (parse-port a (words args) o h, parse-port a (words args ++ (log_file ∷ [])) o h)
        (plain, flag)
  parse_arguments-words (a_file b ∷ args) o (h, hs) =
      parse_arguments-words args (record o { log_file_path = b }) hs
