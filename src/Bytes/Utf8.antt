-- ===== src/Bytes/Utf8.antt =====
-- The test of `String::from_utf8` (the table of well-formed UTF-8 of the Unicode standard), as an
-- automaton whose state is what the next byte may be.
use babilonia.Prelude.{
  ℕ, ◌≡◌, refl, Bool, true, false, ◌&&◌, Option, none, some, List, [], ◌∷◌, leb, if◌then◌else◌,
}

pub data Need : Type 0 where
  start : Need
  -- One, two or three continuation bytes are to come.
  tail1 tail2 tail3 : Need
  -- The byte after E0, ED, F0 and F4 has a narrower range.
  after_e0 after_ed after_f0 after_f4 : Need

abbrev within : ℕ → ℕ → ℕ → Need → Option Need → Option Need
within lo hi b s other = if leb lo b && leb b hi then some s else other

abbrev next : Need → ℕ → Option Need
next start b = within 0x00 0x7f b start (
    within 0xc2 0xdf b tail1 (
      within 0xe0 0xe0 b after_e0 (
        within 0xe1 0xec b tail2 (
          within 0xed 0xed b after_ed (
            within 0xee 0xef b tail2 (
              within 0xf0 0xf0 b after_f0
                (within 0xf1 0xf3 b tail3 (within 0xf4 0xf4 b after_f4 none))))))))
next tail1 b = within 0x80 0xbf b start none
next tail2 b = within 0x80 0xbf b tail1 none
next tail3 b = within 0x80 0xbf b tail2 none
next after_e0 b = within 0xa0 0xbf b tail1 none
next after_ed b = within 0x80 0x9f b tail1 none
next after_f0 b = within 0x90 0xbf b tail2 none
next after_f4 b = within 0x80 0x8f b tail2 none

abbrev is_start : Need → Bool
is_start start = true
is_start _ = false

from_state : List ℕ → Need → Bool
from_state [] s = is_start s
from_state (b ∷ bs) s = elim (next s b) [ none ↦ false | some s' ↦ from_state bs s' ]

unfoldable pub is_utf8 : List ℕ → Bool
unfolding from_state
is_utf8 bs = from_state bs start

-- "é€" is accepted, an overlong "/" and a lone surrogate are not.
is_utf8_accepts : is_utf8 (0xc3 ∷ 0xa9 ∷ 0xe2 ∷ 0x82 ∷ 0xac ∷ []) ≡ true
unfolding is_utf8
is_utf8_accepts = refl

is_utf8_rejects : (is_utf8 (0xc0 ∷ 0xaf ∷ []) ≡ false) × (is_utf8 (0xed ∷ 0xa0 ∷ 0x80 ∷ []) ≡ false)
unfolding is_utf8
is_utf8_rejects = (refl, refl)
