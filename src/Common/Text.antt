-- ===== src/Common/Text.antt =====
-- Python's `str.strip` and `len` on texts, by code points.
use Prim.Native.Nat.{ℕ, zero, suc, ◌+◌, ◌≤◌}
use Prim.Native.Char.{Char, code}
use Prim.Native.String.{String, [], ◌∷◌, ◌++◌}
use mathlib.Core.Bool.{Bool, true, false, ◌&&◌, ◌||◌}
use mathlib.Core.Option.{none, some}
use mathlib.Core.Path.{◌≡◌, refl, sym}
use mathlib.Core.Logic.{inl, inr}
use native.Mathlib.Omega.{arith}
use text.Mathlib.Text.{find?, ◌==◌ as text_eq}
use text.Mathlib.TextEquality.{eq_iff}
use zero_agent_dev_telegram.Common.Tests.{◌==◌, leb, ltb, if◌then◌else◌, Bool-cases}

-- `str.isspace` of one character.
abbrev pub is_space : ℕ → Bool
is_space c =
    (leb 0x09 c && leb c 0x0d)
    || (leb 0x1c c && leb c 0x20)
    || c == 0x85
    || c == 0xa0
    || c == 0x1680
    || (leb 0x2000 c && leb c 0x200a)
    || c == 0x2028
    || c == 0x2029
    || c == 0x202f
    || c == 0x205f
    || c == 0x3000

abbrev pub is_empty_text : String → Bool
is_empty_text [] = true
is_empty_text (c ∷ s) = false

-- `not s or not s.strip()`: nothing but white space.
unfoldable pub is_blank : String → Bool
is_blank [] = true
is_blank (c ∷ s) = is_space (code c) && is_blank s

lstrip : String → String
lstrip [] = []
lstrip (c ∷ s) = let rest = lstrip s in if is_space (code c) then rest else c ∷ s

keep_before : Char → String → String
keep_before c rest = if is_space (code c) && is_empty_text rest then [] else c ∷ rest

rstrip : String → String
unfolding keep_before
rstrip [] = []
rstrip (c ∷ s) = keep_before c (rstrip s)

unfoldable pub strip : String → String
unfolding lstrip rstrip
strip s = rstrip (lstrip s)

-- The lower case of a character, as far as a comparison with ASCII words can tell: the capitals, and
-- the Kelvin sign, the one other character whose lower case is an ASCII letter.
abbrev lower_code : ℕ → ℕ
lower_code c = if leb 0x41 c && leb c 0x5a then c + 32 else if c == 0x212a then 0x6b else c

-- `s.lower() == word`, for a lower-case ASCII word.
unfoldable pub lower_is : String → String → Bool
lower_is [] [] = true
lower_is [] (d ∷ word) = false
lower_is (c ∷ s) [] = false
lower_is (c ∷ s) (d ∷ word) = lower_code (code c) == code d && lower_is s word

-- `len(s)`.
unfoldable pub text_length : String → ℕ
text_length [] = 0
text_length (c ∷ s) = suc (text_length s)

-- `"part" in text`.
abbrev pub contains_text : String → String → Bool
contains_text part text = elim (find? text part) [ none ↦ false | some i ↦ true ]

unfoldable pub text_take : ℕ → String → String
text_take zero s = []
text_take (suc n) [] = []
text_take (suc n) (c ∷ s) = c ∷ text_take n s

-- `s[:n] + " [truncated]"` where the text is longer than n.
unfoldable pub truncate : ℕ → String → String
unfolding text_take text_length
truncate n s = if ltb n (text_length s) then text_take n s ++ " [truncated]" else s

pub text_take-length : (n : ℕ) (s : String) → text_length (text_take n s) ≤ n
unfolding text_take text_length
text_take-length zero s = omega arith
text_take-length (suc n) [] = omega arith
text_take-length (suc n) (c ∷ s) = omega (arith, text_take-length n s)

rstrip-IsBlank :
    (c : Char) (s : String) → is_space (code c) ≡ false → is_blank (rstrip (c ∷ s)) ≡ false
unfolding rstrip keep_before is_blank
rstrip-IsBlank c s solid = rw (solid, solid) refl

-- What `strip` leaves is empty or begins with a character that is no white space.
pub strip-IsBlank : (s : String) → text_eq (strip s) "" ≡ false → is_blank (strip s) ≡ false
unfolding strip lstrip
strip-IsBlank [] = λ h. absurd (cc)
strip-IsBlank (c ∷ s) = elim (Bool-cases (is_space (code c))) [
  | inl space ↦ rw space (strip-IsBlank s)
  | inr solid ↦ rw solid (λ h. rstrip-IsBlank c s solid)
]

pub text_eq_sym : (a b : String) → text_eq a b ≡ false → text_eq b a ≡ false
text_eq_sym a b differ = elim (Bool-cases (text_eq b a)) [
  | inl same ↦ absurd (ground (arith, differ, (eq_iff a b).1 (sym ((eq_iff b a).0 same))))
  | inr other ↦ other
]
