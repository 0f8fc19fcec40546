-- ===== src/Text.antt =====
-- The texts that src/agent.rs and src/repl.rs read and write: a `str` is the list of its characters'
-- codes. What the standard library does with them is written out.
pub mod Decimal
pub mod Lines
use Prim.Native.Char.{code}
use Prim.Native.String.{String}
use mathlib.Core.Logic.{◌↔◌}
use babilonia.Prelude.{
  ℕ, ◌+◌, ◌*◌, ◌-◌, ◌≡◌, refl, ap, Bool, true, false, ◌&&◌, ◌||◌, Bool-cases, inl, inr, Option,
  none, some, List, [], ◌∷◌, leb, ltb, ◌==◌, ==_iff, if◌then◌else◌, arith,
}

abbrev pub Text : Type 0
Text = List ℕ

abbrev pub codes : String → Text
codes String.[] = []
codes (String.◌∷◌ c s) = code c ∷ codes s

infix 50 ◌=ᵗ◌
unfoldable pub ◌=ᵗ◌ : Text → Text → Bool
[] =ᵗ [] = true
[] =ᵗ (y ∷ ys) = false
(x ∷ xs) =ᵗ [] = false
(x ∷ xs) =ᵗ (y ∷ ys) = x == y && xs =ᵗ ys

-- `char::is_whitespace`.
unfoldable pub is_whitespace : ℕ → Bool
is_whitespace c =
    leb 9 c && leb c 13
    || c == 32
    || c == 0x85
    || c == 0xa0
    || c == 0x1680
    || leb 0x2000 c && leb c 0x200a
    || c == 0x2028
    || c == 0x2029
    || c == 0x202f
    || c == 0x205f
    || c == 0x3000

-- `trim`.
unfoldable pub trim_start : Text → Text
trim_start [] = []
trim_start (c ∷ cs) = let rest = trim_start cs in if is_whitespace c then rest else c ∷ cs

abbrev keep_end : ℕ → Text → Text
keep_end c [] = if is_whitespace c then [] else c ∷ []
keep_end c (d ∷ ds) = c ∷ d ∷ ds

unfoldable pub trim_end : Text → Text
trim_end [] = []
trim_end (c ∷ cs) = keep_end c (trim_end cs)

unfoldable pub trim : Text → Text
unfolding trim_start trim_end
trim t = trim_end (trim_start t)

-- `split_once(sep)`.
abbrev add_front : ℕ → Option (Text × Text) → Option (Text × Text)
add_front c none = none
add_front c (some (a, b)) = some (c ∷ a, b)

unfoldable pub split_once : ℕ → Text → Option (Text × Text)
split_once sep [] = none
split_once sep (c ∷ cs) =
    let rest = split_once sep cs in if c == sep then some ([], cs) else add_front c rest

-- The pieces so far, with a character in front of the first.
abbrev pub push_front : ℕ → List Text → List Text
push_front c [] = (c ∷ []) ∷ []
push_front c (l ∷ ls) = (c ∷ l) ∷ ls

abbrev pub starts_newline : Text → Bool
starts_newline [] = false
starts_newline (c ∷ cs) = c == b'\n'

-- `lines`: a line ends at "\n" or "\r\n", and the last one needs no end.
unfoldable pub lines : Text → List Text
lines [] = []
lines (c ∷ cs) =
    let rest = lines cs in
    if c == b'\n'
    then [] ∷ rest
    else if c == b'\r' && starts_newline cs
    then rest
    else push_front c rest

-- `split_whitespace`: the first flag says that a word is open at the front of the rest.
abbrev pub starts_word : Text → Bool
starts_word [] = false
starts_word (c ∷ cs) = if is_whitespace c then false else true

unfoldable pub split_whitespace : Text → List Text
split_whitespace [] = []
split_whitespace (c ∷ cs) =
    let rest = split_whitespace cs in
    if is_whitespace c then rest else if starts_word cs then push_front c rest else (c ∷ []) ∷ rest

pub =ᵗ_iff : (s t : Text) → ((s =ᵗ t) ≡ true) ↔ (s ≡ t)
unfolding ◌=ᵗ◌
=ᵗ_iff [] [] = ground arith
=ᵗ_iff [] (y ∷ ys) = ground arith
=ᵗ_iff (x ∷ xs) [] = ground arith
=ᵗ_iff (x ∷ xs) (y ∷ ys) = ground (arith, =ᵗ_iff xs ys)

pub =ᵗ_refl : (s : Text) → (s =ᵗ s) ≡ true
=ᵗ_refl s = (=ᵗ_iff s s).1 refl
