-- ===== src/Forwarder/Lines.antt =====
-- rdp_forwarder.c: `trim`, and how `load_config` reads one line. A C string is the list of its
-- characters without the final 0.
pub mod Trim
pub mod Reading
use remote_trans.Base.{
  ℕ, Bool, true, false, ◌&&◌, ◌||◌, Option, none, some, List, [], ◌∷◌, ◌==◌, if◌then◌else◌,
}

-- ' ' and '\t'
abbrev pub is_blank : ℕ → Bool
is_blank c = (c == 32) || (c == 9)

-- with '\n' and '\r'
abbrev pub is_white : ℕ → Bool
is_white c = is_blank c || ((c == 10) || (c == 13))

abbrev pub is_empty : List ℕ → Bool
is_empty [] = true
is_empty (c ∷ cs) = false

-- `while (*str == ' ' || *str == '\t') str++`
unfoldable pub skip_blanks : List ℕ → List ℕ
skip_blanks [] = []
skip_blanks (c ∷ cs) = let rest = skip_blanks cs in if is_blank c then rest else c ∷ cs

-- The backward loop, on the characters behind the first.
unfoldable pub cut_white : List ℕ → List ℕ
cut_white [] = []
cut_white (c ∷ cs) = let rest = cut_white cs in if is_empty rest && is_white c then [] else c ∷ rest

-- `end > str` keeps the first character whatever it is.
abbrev pub cut_end : List ℕ → List ℕ
cut_end [] = []
cut_end (c ∷ cs) = c ∷ cut_white cs

unfoldable pub trim : List ℕ → List ℕ
trim str = cut_end (skip_blanks str)

-- `strchr(trimmed, '=')`: what stands before the first one, and behind it.
unfoldable pub split_at_equals : List ℕ → Option (List ℕ × List ℕ)
split_at_equals [] = none
split_at_equals (c ∷ cs) =
    let rest = split_at_equals cs in
    if c == 61
    then some ([], cs)
    else elim rest [ none ↦ none | some (key, value) ↦ some (c ∷ key, value) ]

-- What a line is: skipped, logged as invalid, or a setting.
pub data Line : Type 0 where
  skipped invalid : Line
  setting : List ℕ → List ℕ → Line

abbrev pub starts_comment : List ℕ → Bool
starts_comment [] = false
starts_comment (c ∷ cs) = c == 35

unfoldable pub read_trimmed : List ℕ → Line
read_trimmed trimmed =
    if is_empty trimmed || starts_comment trimmed then skipped else elim (split_at_equals trimmed) [
      | none ↦ invalid
      | some (key, value) ↦ setting (trim key) (trim value)
    ]

unfoldable pub read_line : List ℕ → Line
read_line line = read_trimmed (trim line)
