-- ===== src/Prelude/Text.antt =====
-- Redis keys are texts put together by f-strings: when two of them are the same.
use Prim.Native.String.{String, [], ◌∷◌, ◌++◌, count}
use Prim.Native.String.append
use Prim.Native.Char.{Char}
use mathlib.Core.Path.{◌≡◌, refl, sym, ◌∙◌, ap, ap₂}
use mathlib.Core.Logic.{inl, inr}
use mathlib.Core.Bool.{true, false}
use mathlib.Core.List.{List}
use mathlib.Core.List as L
use text.Mathlib.Text.{◌==◌}
use text.Mathlib.TextLemmas.{append_assoc, length-append}
use text.Mathlib.TextEquality.{eq_iff}
use kit_api_optimization.Prelude.Tests.{Bool-cases, ltb}
use native.Mathlib.Omega.{arith}

tail_of : String → String
tail_of [] = []
tail_of (c ∷ s) = s

-- A common beginning can be taken off.
pub append_cancel : (p s t : String) → p ++ s ≡ p ++ t → s ≡ t
unfolding tail_of
append_cancel [] s t h = sym (append.nil s) ∙ h ∙ append.nil t
append_cancel (c ∷ p) s t h =
    append_cancel p s t (ap tail_of (sym (append.cons c p s) ∙ h ∙ append.cons c p t))

head_of : Char → String → Char
head_of d [] = d
head_of d (c ∷ s) = c

-- Texts that go on with another character after a common beginning are different.
append_apart :
    (p : String) (c d : Char) (s t : String)
    → ((c ∷ []) == (d ∷ [])) ≡ false
    → ((p ++ (c ∷ s)) == (p ++ (d ∷ t))) ≡ false
unfolding head_of
append_apart p c d s t differ = elim (Bool-cases ((p ++ (c ∷ s)) == (p ++ (d ∷ t)))) [
  | inl h ↦
      let same : c ≡ d =
        ap (head_of c)
          (append_cancel p (c ∷ s) (d ∷ t) ((eq_iff (p ++ (c ∷ s)) (p ++ (d ∷ t))).0 h)) in
      cc ((eq_iff (c ∷ []) (d ∷ [])).1 (ap (λ x. x ∷ []) same), differ)
  | inr h ↦ h
]

append_split : (p : String) (c : Char) (q s : String) → (p ++ (c ∷ q)) ++ s ≡ p ++ (c ∷ (q ++ s))
append_split p c q s = append_assoc p (c ∷ q) s ∙ ap (λ t. p ++ t) (append.cons c q s)

-- So keys are different whose prefixes differ after a common beginning `p`.
pub prefixes_apart :
    (p : String) (c d : Char) (q r s t : String)
    → ((c ∷ []) == (d ∷ [])) ≡ false
    → (((p ++ (c ∷ q)) ++ s) == ((p ++ (d ∷ r)) ++ t)) ≡ false
prefixes_apart p c d q r s t differ =
    ap₂ ◌==◌ (append_split p c q s) (append_split p d r t)
    ∙ append_apart p c d (q ++ s) (r ++ t) differ

-- And keys are different whose middles have different lengths.
pub middles_apart :
    (p m n s : String)
    → ltb (count n) (count m) ≡ true
    → ((p ++ (m ++ s)) == (p ++ (n ++ s))) ≡ false
middles_apart p m n s longer = elim (Bool-cases ((p ++ (m ++ s)) == (p ++ (n ++ s)))) [
  | inl h ↦
      let same : m ++ s ≡ n ++ s =
        append_cancel p (m ++ s) (n ++ s) ((eq_iff (p ++ (m ++ s)) (p ++ (n ++ s))).0 h) in
      absurd (ground (arith, ap count same, length-append m s, length-append n s, longer))
  | inr h ↦ h
]

pub eq-append_left : (p s t : String) → ((p ++ s) == (p ++ t)) ≡ (s == t)
eq-append_left p s t = elim (Bool-cases (s == t)) [
  | inl same ↦ rw (same, (eq_iff s t).0 same) ((eq_iff (p ++ t) (p ++ t)).1 refl)
  | inr differ ↦ elim (Bool-cases ((p ++ s) == (p ++ t))) [
    | inl h ↦ cc ((eq_iff s t).1 (append_cancel p s t ((eq_iff (p ++ s) (p ++ t)).0 h)))
    | inr h ↦ rw (h, differ)
  ]
]

-- An f-string: its pieces, one after another.
abbrev pub join : List String → String
join L.[] = []
join (L.◌∷◌ s L.[]) = s
join (L.◌∷◌ s (L.◌∷◌ t rest)) = s ++ join (L.◌∷◌ t rest)
