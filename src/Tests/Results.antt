-- ===== src/Tests/Results.antt =====
-- dawn_kestrel/core/result.py
use dawn_kestrel.Prelude.{ℕ, ◌+◌, ◌≡◌, refl, text, raises}
use dawn_kestrel.Core.Result.{Result, ok, err_code, bind, map_result, unwrap, unwrap_or}

abbrev ten : Result ℕ
ten = ok 10

abbrev double : ℕ → Result ℕ
double n = ok (n + n)

abbrev refuse : ℕ → Result ℕ
refuse n = err_code (text "refused") "NO"

-- the examples of the docstrings
docstrings :
    (bind ten (λ x. double x) ≡ ok 20)
    × (map_result ten (λ x. x + x) ≡ ok 20)
    × (unwrap (refuse 1) ≡ raises (text "refused"))
    × (unwrap_or (refuse 1) 5 ≡ 5)
unfolding bind map_result unwrap unwrap_or
docstrings = (refl, refl, refl, refl)
