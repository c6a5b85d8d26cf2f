-- ===== src/Common/Texts.antt =====
-- The equality test on texts.
use mathlib.Core.Path.{◌≡◌, sym, ◌∙◌}
use mathlib.Core.Logic.{◌≢◌, inl, inr}
use mathlib.Core.Bool.{false}
use Prim.Native.String.{String}
use text.Mathlib.Text.{◌==◌ as str_eq}
use text.Mathlib.TextEquality.{eq_iff}
use native.Mathlib.Omega.{arith}
use lytecache.Common.Tests.{Bool-cases}

pub str_eq-same : (a b c d : String) → (a ≡ b → c ≡ d) → (c ≡ d → a ≡ b) → str_eq a b ≡ str_eq c d
str_eq-same a b c d f g = elim (Bool-cases (str_eq a b)) [
  | inl x ↦ x ∙ sym ((eq_iff c d).1 (f ((eq_iff a b).0 x)))
  | inr x ↦ elim (Bool-cases (str_eq c d)) [
    | inl y ↦ (eq_iff a b).1 (g ((eq_iff c d).0 y)) ∙ sym y
    | inr y ↦ x ∙ sym y
  ]
]

pub str_eq-other : (a b : String) → a ≢ b → str_eq a b ≡ false
str_eq-other a b n = elim (Bool-cases (str_eq a b)) [
  | inl x ↦ ground (arith, n, (eq_iff a b).0 x)
  | inr x ↦ x
]
