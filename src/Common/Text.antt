-- ===== src/Common/Text.antt =====
-- Texts are compared whole (statuses, roles, names), or walked byte by byte (patterns, paths).
use Prim.Native.Char.{code}
use Prim.Native.Nat.{ℕ}
use Prim.Native.String.{String}
use mathlib.Core.Path.{◌≡◌, refl, sym}
use mathlib.Core.Logic.{◌≢◌, ◌↔◌, inl, inr}
use mathlib.Core.Bool.{Bool, true, false, ◌||◌}
use kaos_control.Common.Tests.{Bool-cases}
use mathlib.Core.List.{List, [], ◌∷◌, ◌++◌, Memᴰ}
use native.Mathlib.Omega.{arith}
use text.Mathlib.TextEquality.{eq_iff as text_eq_iff}
unfoldable pub use text.Mathlib.Text.{◌==◌ as str_eq}
pub use text.Mathlib.TextEquality.{eq_iff as str_eq_iff}
pub use text.Mathlib.TextPositions.{eq_refl as str_eq_refl}

pub str_eq-eq : (s t : String) → str_eq s t ≡ true → s ≡ t
str_eq-eq s t = (text_eq_iff s t).0

pub str_eq_ne : (s t : String) → s ≢ t → str_eq s t ≡ false
str_eq_ne s t h = ground (arith, text_eq_iff s t)

pub ne_str_eq : (s t : String) → str_eq s t ≡ false → s ≢ t
ne_str_eq s t h = ground (arith, text_eq_iff s t)

-- The code points of a text: its bytes, if it is ASCII. `String` has its own `[]` and `∷`.
abbrev pub codes : String → List ℕ
codes String.[] = []
codes (String.◌∷◌ c s) = code c ∷ codes s

-- The loop `for _, x := range xs { if x == s { return true } }`.
unfoldable pub has : String → List String → Bool
has s [] = false
has s (x ∷ xs) = str_eq x s || has s xs

pub has→Memᴰ : (s : String) (xs : List String) → has s xs ≡ true → Memᴰ s xs
unfolding has
has→Memᴰ s [] h = cc
has→Memᴰ s (x ∷ xs) h = elim (Bool-cases (str_eq x s)) [
  | inl e ↦ Memᴰ.head (sym (str_eq-eq x s e))
  | inr e ↦ Memᴰ.tail (has→Memᴰ s xs (rw e at h))
]

pub Memᴰ→has : (s : String) (xs : List String) → Memᴰ s xs → has s xs ≡ true
unfolding has
Memᴰ→has s [] m = elim m [ ]
Memᴰ→has s (x ∷ xs) (Memᴰ.head e) = ground (arith, text_eq_iff x s)
Memᴰ→has s (x ∷ xs) (Memᴰ.tail m) = ground (arith, Memᴰ→has s xs m)

pub has_iff : (s : String) (xs : List String) → (has s xs ≡ true) ↔ Memᴰ s xs
has_iff s xs = (has→Memᴰ s xs, Memᴰ→has s xs)

pub has-append : (s : String) (xs ys : List String) → has s (xs ++ ys) ≡ (has s xs || has s ys)
unfolding has
has-append s [] ys = refl
has-append s (x ∷ xs) ys = ground (arith, has-append s xs ys)
