-- ===== src/Core/Result/Laws.antt =====
-- Results compose as a monad, and `fold` and `unwrap` see through the composition.
use dawn_kestrel.Prelude.{String, ◌≡◌, refl, Option, none, some, Message}
use mathlib.Core.Option
use dawn_kestrel.Core.Result.{Result, ok, err, pass, bind, map_result, fold}

module _ {ℓ} {A B C : Type ℓ} where
  -- `bind` is associative with unit `Ok` on both sides, whatever the three kinds of result.
  pub bind_laws :
      (r : Result A) (f : A → Result B) (g : B → Result C) (a : A)
      → (bind (bind r f) g ≡ bind r (λ x. bind (f x) g)) × (bind (ok a) f ≡ f a) × (bind r ok ≡ r)
  unfolding bind
  bind_laws (ok x) f g a = (refl, refl, refl)
  bind_laws (err e) f g a = (refl, refl, refl)
  bind_laws (pass m) f g a = (refl, refl, refl)

  -- Folding a mapped result is folding the result with the functions composed: `map_result`
  -- touches the value of an `Ok` alone, and a `Pass` without `on_pass` still hands over `None`.
  pub fold-map_result :
      (r : Result A) (f : A → B) (on_ok : Option B → C) (on_err : Message → C)
      (on_pass : Option (Option String → C))
      → fold (map_result r f) on_ok on_err on_pass
        ≡ fold r (λ o. on_ok (Option.map f o)) on_err on_pass
  unfolding fold map_result
  fold-map_result (ok x) f on_ok on_err on_pass = refl
  fold-map_result (err e) f on_ok on_err on_pass = refl
  fold-map_result (pass m) f on_ok on_err none = refl
  fold-map_result (pass m) f on_ok on_err (some g) = refl
