-- ===== src/Base/Texts.antt =====
-- Python text that the program takes apart, as a list of code points. The operations are those of
-- Python's `str` on ASCII text.
use Prim.Native.Nat.{ℕ, ◌+◌}
use Prim.Native.String.{String}
use Prim.Native.Char.{code}
use mathlib.Core.Bool.{Bool, true, false, ◌&&◌, ◌||◌}
use mathlib.Core.List.{List, [], ◌∷◌, map, reverse}
use mathlib.Core.Path.{◌≡◌, refl}
use mathlib.Core.Logic.{inl, inr}
use native.Mathlib.Omega.{arith}
use oss_us_web_design_system.Base.Tests.{leb, ◌==◌, if◌then◌else◌, Bool-cases, ==_refl}

abbrev pub Text : Type 0
Text = List ℕ

abbrev pub codes : String → Text
codes String.[] = []
codes (String.◌∷◌ c s) = code c ∷ codes s

abbrev pub text_eq : Text → Text → Bool
text_eq [] [] = true
text_eq (a ∷ s) (b ∷ t) = a == b && text_eq s t
text_eq [] (_ ∷ _) = false
text_eq (_ ∷ _) [] = false

pub text_eq_sound : (s t : Text) → text_eq s t ≡ true → s ≡ t
text_eq_sound [] [] h = refl
text_eq_sound [] (b ∷ t) h = cc
text_eq_sound (a ∷ s) [] h = cc
text_eq_sound (a ∷ s) (b ∷ t) h = elim (Bool-cases (a == b)) [
  | inl e ↦
      let q : a ≡ b = ground arith in
      let r : s ≡ t = text_eq_sound s t (rw e at h) in rw (q, r) refl
  | inr e ↦ absurd (ground arith)
]

pub text_eq_refl : (s : Text) → text_eq s s ≡ true
text_eq_refl [] = refl
text_eq_refl (a ∷ s) = rw (==_refl a) (text_eq_refl s)

abbrev pub text_elem : Text → List Text → Bool
text_elem s [] = false
text_elem s (t ∷ ts) = text_eq s t || text_elem s ts

-- `str.lower`.
unfoldable pub lower_code : ℕ → ℕ
lower_code c = if leb b'A' c && leb c b'Z' then c + 32 else c

unfoldable pub lower : Text → Text
unfolding lower_code
lower s = map lower_code s

-- The code points that `str.split` and `str.strip` treat as white space.
unfoldable pub is_space : ℕ → Bool
is_space c = c == 32 || leb 9 c && leb c 13 || leb 28 c && leb c 31

-- A finished word is put in front of the words that follow, unless it is empty.
unfoldable pub push_word : Text → List Text → List Text
push_word [] ws = ws
push_word (c ∷ w) ws = (c ∷ w) ∷ ws

-- The word that the text begins with, and the words after it.
unfoldable pub split_from : Text → Text × List Text
unfolding is_space push_word
split_from [] = ([], [])
split_from (c ∷ s) =
    let (w, ws) = split_from s in if is_space c then ([], push_word w ws) else (c ∷ w, ws)

-- `str.split()`.
unfoldable pub split : Text → List Text
unfolding split_from push_word
split s = let (w, ws) = split_from s in push_word w ws

-- `str.startswith`, and `part in text`.
unfoldable pub has_prefix : Text → Text → Bool
has_prefix [] s = true
has_prefix (_ ∷ _) [] = false
has_prefix (a ∷ p) (b ∷ s) = a == b && has_prefix p s

unfoldable pub contains_text : Text → Text → Bool
unfolding has_prefix
contains_text part [] = has_prefix part []
contains_text part (c ∷ s) = has_prefix part (c ∷ s) || contains_text part s

-- `str.strip()`.
unfoldable pub drop_spaces : Text → Text
unfolding is_space
drop_spaces [] = []
drop_spaces (c ∷ s) = if is_space c then drop_spaces s else c ∷ s

unfoldable pub strip : Text → Text
unfolding drop_spaces
strip s = reverse (drop_spaces (reverse (drop_spaces s)))
