-- ===== src/Prelude/Text.antt =====
-- `str.strip`, `str.splitlines`, `in` on texts, and texts put together.
use Prim.Native.Char.{Char, code}
use digital_fte_agent.Prelude.{
  ℕ, String, ◌≡◌, refl, Bool, true, false, not, ◌&&◌, ◌||◌, List, [], ◌∷◌, arith, leb, ◌==◌,
  if◌then◌else◌,
}
use digital_fte_agent.Prelude.Values.{is_space}

-- `s + t`
abbrev pub append_text : String → String → String
append_text String.[] t = t
append_text (String.◌∷◌ c s) t = String.◌∷◌ c (append_text s t)

-- `str.rstrip` and `str.strip`
abbrev pub keep_char : Char → String → String
keep_char c String.[] = if is_space (code c) then String.[] else String.◌∷◌ c String.[]
keep_char c (String.◌∷◌ d s) = String.◌∷◌ c (String.◌∷◌ d s)

unfoldable pub strip_end : String → String
unfolding is_space
strip_end String.[] = String.[]
strip_end (String.◌∷◌ c s) = keep_char c (strip_end s)

unfoldable pub strip : String → String
unfolding strip_end
strip String.[] = String.[]
strip (String.◌∷◌ c s) = if is_space (code c) then strip s else strip_end (String.◌∷◌ c s)

-- What `str.splitlines` ends a line at.
unfoldable pub is_boundary : ℕ → Bool
is_boundary c =
    (leb 10 c && leb c 13) || (leb 28 c && leb c 30) || c == 133 || (leb 8232 c && leb c 8233)

abbrev pub starts_feed : String → Bool
starts_feed String.[] = false
starts_feed (String.◌∷◌ c s) = code c == 10

abbrev pub add_char : Char → List String → List String
add_char c [] = String.◌∷◌ c String.[] ∷ []
add_char c (line ∷ lines) = String.◌∷◌ c line ∷ lines

-- A carriage return before a line feed is one end of a line with it.
unfoldable pub split_lines : String → List String
unfolding is_boundary
split_lines String.[] = []
split_lines (String.◌∷◌ c s) =
    let lines = split_lines s in
    if code c == 13 && starts_feed s
    then lines
    else if is_boundary (code c)
    then "" ∷ lines
    else add_char c lines

-- No end of a line inside.
abbrev pub one_line : String → Bool
one_line String.[] = true
one_line (String.◌∷◌ c s) = not (is_boundary (code c)) && one_line s

-- `"".join(f"{line}\n" for line in lines)`
abbrev pub end_lines : List String → String
end_lines [] = ""
end_lines (line ∷ lines) = append_text line (append_text "\n" (end_lines lines))

pub split_lines-nil : split_lines "" ≡ []
unfolding split_lines
split_lines-nil = refl

split_lines-feed : (s : String) → split_lines (append_text "\n" s) ≡ "" ∷ split_lines s
unfolding split_lines
split_lines-feed s = refl

is_boundary-return : (c : ℕ) → is_boundary c ≡ false → (c == 13) ≡ false
unfolding is_boundary
is_boundary-return c h = ground arith

-- A line that has no end inside comes back when it was ended.
pub split_lines-append :
    (line s : String)
    → one_line line ≡ true
    → split_lines (append_text line (append_text "\n" s)) ≡ line ∷ split_lines s
unfolding split_lines
split_lines-append String.[] s h = split_lines-feed s
split_lines-append (String.◌∷◌ c line) s h =
    ground (arith, split_lines-append line s, is_boundary-return (code c))

-- `needle in text`
abbrev pub starts_with : String → String → Bool
starts_with String.[] s = true
starts_with (String.◌∷◌ c t) String.[] = false
starts_with (String.◌∷◌ c t) (String.◌∷◌ d s) = code c == code d && starts_with t s

unfoldable pub is_in : String → String → Bool
is_in needle String.[] = starts_with needle String.[]
is_in needle (String.◌∷◌ c s) = starts_with needle (String.◌∷◌ c s) || is_in needle s
