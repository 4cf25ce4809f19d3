-- ===== src/Prelude/Texts.antt =====
-- Python's texts as lists of code points, for the parts that look inside them.
use Prim.Native.Nat.{ℕ}
use Prim.Native.Char.{code}
use Prim.Native.String.{String}
use mathlib.Core.Path.{◌≡◌, refl}
use mathlib.Core.Logic.{◌↔◌, inl, inr}
use mathlib.Core.Bool.{Bool, true, false, ◌&&◌, ◌||◌}
use mathlib.Core.List.{List, [], ◌∷◌, ◌++◌}
use native.Mathlib.Omega.{arith}
use dawn_kestrel.Prelude.Tests.{Bool-cases}
use dawn_kestrel.Prelude.EqClass.{Eq, ◌==◌, nat_eq}

abbrev pub Text : Type 0
Text = List ℕ

abbrev pub codes : String → Text
codes String.[] = []
codes (String.◌∷◌ c s) = code c ∷ codes s

module _ {ℓ} {A : Type ℓ} ⦃e : Eq A⦄ where
  abbrev pub list_beq : List A → List A → Bool
  list_beq [] [] = true
  list_beq (x ∷ xs) (y ∷ ys) = x == y && list_beq xs ys
  list_beq _ _ = false

  pub list_beq_iff : (xs ys : List A) → (list_beq xs ys ≡ true) ↔ (xs ≡ ys)
  list_beq_iff [] [] = (λ h. refl, λ h. refl)
  list_beq_iff [] (y ∷ ys) = (λ h. cc, λ h. cc)
  list_beq_iff (x ∷ xs) [] = (λ h. cc, λ h. cc)
  list_beq_iff (x ∷ xs) (y ∷ ys) = (
    λ h. ground (arith, e.same_iff x y, list_beq_iff xs ys),
    λ h. ground (arith, e.same_iff x y, list_beq_iff xs ys),
  )

  instance abbrev pub list_eq : Eq (List A)
  list_eq = record { same = list_beq; same_iff = list_beq_iff }

-- `s.startswith(prefix)` and `s.endswith(suffix)`
abbrev pub starts_with : Text → Text → Bool
starts_with s [] = true
starts_with [] (c ∷ prefix) = false
starts_with (a ∷ s) (c ∷ prefix) = a == c && starts_with s prefix

abbrev pub ends_with : Text → Text → Bool
ends_with [] suffix = list_beq [] suffix
ends_with (a ∷ s) suffix = list_beq (a ∷ s) suffix || ends_with s suffix

pub starts_with-append :
    (s prefix : Text) → starts_with s prefix ≡ true → (rest : Text) × (s ≡ prefix ++ rest)
starts_with-append s [] h = (s, refl)
starts_with-append [] (c ∷ prefix) h = cc h
starts_with-append (a ∷ s) (c ∷ prefix) h =
    let (rest, e) = starts_with-append s prefix (ground arith) in
    (rest, ground (arith, nat_eq.same_iff a c))

pub append-starts_with : (prefix rest : Text) → starts_with (prefix ++ rest) prefix ≡ true
append-starts_with [] rest = refl
append-starts_with (c ∷ prefix) rest = ground (arith, append-starts_with prefix rest)

pub ends_with-append :
    (s suffix : Text) → ends_with s suffix ≡ true → (front : Text) × (s ≡ front ++ suffix)
ends_with-append [] suffix h = ([], (list_beq_iff [] suffix).0 h)
ends_with-append (a ∷ s) suffix h = elim (Bool-cases (list_beq (a ∷ s) suffix)) [
  | inl whole ↦ ([], (list_beq_iff (a ∷ s) suffix).0 whole)
  | inr part ↦
      let (front, e) = ends_with-append s suffix (rw part at h) in (a ∷ front, ground arith)
]

pub append-ends_with : (front suffix : Text) → ends_with (front ++ suffix) suffix ≡ true
append-ends_with [] [] = refl
append-ends_with [] (c ∷ suffix) = rw ((list_beq_iff (c ∷ suffix) (c ∷ suffix)).1 refl) refl
append-ends_with (a ∷ front) suffix = ground (arith, append-ends_with front suffix)
