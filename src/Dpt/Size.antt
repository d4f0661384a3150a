-- ===== src/Dpt/Size.antt =====
-- ParseFileSize of pkg/utils/parse.go; a text of a size is in upper case when it gets to the units.
use oadp_operator.Prelude.{ℕ, String, List, [], ◌∷◌, Option, none, some}
use oadp_operator.Prelude.Int.{ℤ}
use oadp_operator.Prelude.Text.{strip_suffix, trim_space}
use oadp_operator.Dpt.{Lab}

-- `some (some n)` is a size, `some none` an invalid number, `none` no unit.
abbrev pub Parse : Type 0
Parse = Option (Option ℤ)

abbrev pub units : List (String × ℕ)
units =
    ("TIB", 1099511627776)
    ∷ ("TB", 1099511627776)
    ∷ ("GIB", 1073741824)
    ∷ ("GB", 1073741824)
    ∷ ("MIB", 1048576)
    ∷ ("MB", 1048576)
    ∷ ("KIB", 1024)
    ∷ ("KB", 1024)
    ∷ ("B", 1)
    ∷ []

module _ (c : Lab) where
  -- The loop over the units: the first that the text ends with.
  unfoldable pub parse_unit : List (String × ℕ) → String → Parse
  parse_unit [] text = none
  parse_unit ((suffix, unit) ∷ rest) text =
      let later = parse_unit rest text in
      elim (strip_suffix text suffix) [ none ↦ later | some number ↦ some (c.scale number unit) ]

  unfoldable pub parse_file_size : String → Parse
  unfolding parse_unit
  parse_file_size text = parse_unit units (trim_space (c.to_upper text))
