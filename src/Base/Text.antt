-- ===== src/Base/Text.antt =====
-- `strings.TrimSpace` of Go: the runes that `unicode.IsSpace` accepts are cut off at both ends.
-- A text is a sequence of code points, so a Go string that is not valid UTF-8 has no counterpart.
use Prim.Native.Char.{Char, code}
use Prim.Native.String.{String, [], ◌∷◌}
use mathlib.Core.Path.{◌≡◌, refl}
use mathlib.Core.Logic.{inl, inr}
use mathlib.Core.Bool.{Bool, true, false, ◌&&◌, ◌||◌}
use native.Mathlib.Omega.{arith}
use hate_sentry.Base.Tests.{leb, ◌==◌, str_eq, Bool-cases, if◌then◌else◌}

-- `unicode.IsSpace`.
unfoldable pub is_space : Char → Bool
is_space ch =
    let c = code ch in
    (leb 9 c && leb c 13)
    || (c == 32)
    || (c == 0x85)
    || (c == 0xa0)
    || (c == 0x1680)
    || (leb 0x2000 c && leb c 0x200a)
    || (c == 0x2028)
    || (c == 0x2029)
    || (c == 0x202f)
    || (c == 0x205f)
    || (c == 0x3000)

unfoldable pub trim_left : String → String
trim_left [] = []
trim_left (c ∷ s) = if is_space c then trim_left s else c ∷ s

unfoldable pub trim_cons : Char → String → String
trim_cons c [] = if is_space c then [] else c ∷ []
trim_cons c (d ∷ s) = c ∷ d ∷ s

unfoldable pub trim_right : String → String
unfolding trim_cons
trim_right [] = []
trim_right (c ∷ s) = trim_cons c (trim_right s)

-- `strings.TrimSpace`.
unfoldable pub trim_space : String → String
unfolding trim_left trim_right
trim_space s = trim_right (trim_left s)

trim_right-trim_cons :
    (c : Char) (t : String) → trim_right t ≡ t → trim_right (trim_cons c t) ≡ trim_cons c t
unfolding trim_right
trim_right-trim_cons c [] h = elim (Bool-cases (is_space c)) [
  | inl space ↦ rw space
  | inr other ↦ rw (other, trim_cons, trim_right) (rw other)
]
trim_right-trim_cons c (d ∷ s) h = rw (h, trim_cons) refl

pub trim_right_idem : (s : String) → trim_right (trim_right s) ≡ trim_right s
unfolding trim_right
trim_right_idem [] = refl
trim_right_idem (c ∷ s) = trim_right-trim_cons c (trim_right s) (trim_right_idem s)

-- A text that does not begin with a space keeps its first rune.
trim_left-trim_cons :
    (c : Char) (t : String) → is_space c ≡ false → trim_left (trim_cons c t) ≡ trim_cons c t
unfolding trim_cons trim_left
trim_left-trim_cons c [] h = ground (arith)
trim_left-trim_cons c (d ∷ s) h = ground (arith)

trim_left-trim_space : (s : String) → trim_left (trim_space s) ≡ trim_space s
unfolding trim_left trim_right trim_space
trim_left-trim_space [] = refl
trim_left-trim_space (c ∷ s) = elim (Bool-cases (is_space c)) [
  | inl space ↦ rw space (trim_left-trim_space s)
  | inr other ↦ rw other (trim_left-trim_cons c (trim_right s) other)
]

-- Trimming twice is trimming once.
pub trim_space_idem : (s : String) → trim_space (trim_space s) ≡ trim_space s
unfolding trim_space
trim_space_idem s = rw (trim_left-trim_space s) (trim_right_idem (trim_left s))

-- `strings.HasPrefix`.
unfoldable pub has_prefix : String → String → Bool
has_prefix s [] = true
has_prefix [] (d ∷ prefix) = false
has_prefix (c ∷ s) (d ∷ prefix) = (code c == code d) && has_prefix s prefix

-- `strings.Contains`.
unfoldable pub has_text : String → String → Bool
unfolding has_prefix
has_text [] part = has_prefix [] part
has_text (c ∷ s) part = has_prefix (c ∷ s) part || has_text s part

-- `strings.HasSuffix`.
unfoldable pub has_suffix : String → String → Bool
has_suffix [] suffix = str_eq [] suffix
has_suffix (c ∷ s) suffix = str_eq (c ∷ s) suffix || has_suffix s suffix

-- `strings.TrimSuffix`.
unfoldable pub trim_suffix : String → String → String
trim_suffix [] suffix = []
trim_suffix (c ∷ s) suffix = if str_eq (c ∷ s) suffix then [] else c ∷ trim_suffix s suffix
