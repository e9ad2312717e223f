-- ===== src/Tests/Arguments.antt =====
-- The command line.
use counter_drone_streaming.Base.{ℕ, ℤ, pos, ◌+◌, ◌*◌, ◌-◌, List, [], ◌∷◌, ◌≡◌, refl}
use counter_drone_streaming.Main.{
  defaults, log_file, parse_arguments, parse_arguments-words, Argument, a_port, a_file, set_port,
  apply,
}

-- Decimal digits.
abbrev digits : ℕ → List ℕ → ℕ
digits n [] = n
digits n (c ∷ cs) = digits (n * 10 + (c - 48)) cs

abbrev decimal : List ℕ → ℤ
decimal cs = pos (digits 0 cs)

-- 80 --log-file x 81
abbrev typed : List Argument
typed = a_port (56 ∷ 48 ∷ []) ∷ a_file (120 ∷ []) ∷ a_port (56 ∷ 49 ∷ []) ∷ []

parse_arguments-words_example :
    (parse_arguments decimal ((56 ∷ 48 ∷ []) ∷ log_file ∷ (120 ∷ []) ∷ (56 ∷ 49 ∷ []) ∷ []) defaults
      ≡ record { port = 81; log_file_path = 120 ∷ [] })
    × (parse_arguments decimal
          ((56 ∷ 48 ∷ []) ∷ log_file ∷ (120 ∷ []) ∷ (56 ∷ 49 ∷ []) ∷ log_file ∷ [])
          defaults
        ≡ set_port decimal log_file (apply decimal typed defaults))
parse_arguments-words_example =
    parse_arguments-words decimal typed defaults (refl, (tt, (refl, tt)))
