-- ===== src/Tests/Units.antt =====
-- dawn_kestrel/core/unit_of_work.py and dawn_kestrel/core/strategies.py
use dawn_kestrel.Prelude.{ℕ, ◌≡◌, ◌⊎◌, refl, some, List, [], ◌∷◌, text, raises}
use dawn_kestrel.Core.Result.{Error, ok, err, err_code}
use dawn_kestrel.Core.UnitOfWork.{
  UnitOfWork, Repositories, new_unit, begin, commit, register_session, register_message,
}
use dawn_kestrel.Core.UnitOfWork.Commit.{creations, create_each, StopsAt, commit_cases}
use dawn_kestrel.Core.Strategies.{select_in_turn, select_cheapest}

-- The world is what was created; messages cannot be.
abbrev repos : Repositories ℕ ℕ ℕ (List ℕ)
repos = record {
  create_session = λ s w. (ok s, s ∷ w);
  create_message = λ m w. (err_code (text "disk full") "STORAGE_ERROR", w);
  create_part = λ id p w. (ok p, p ∷ w);
}

abbrev unit : UnitOfWork ℕ ℕ ℕ
unit = (register_message 2 (register_session 1 (begin new_unit).1).1).1

commit_cases_example :
    ((w' : List ℕ) × (create_each repos (creations repos unit) [] ≡ (ok tt, w'))
      × (commit repos unit [] ≡ (ok tt, new_unit, w')))
    ⊎ ((e : Error) × (w' : List ℕ) × StopsAt repos (creations repos unit) [] e w'
        × (commit repos unit [] ≡ (err e, unit, w')))
unfolding new_unit begin register_session register_message
commit_cases_example = commit_cases repos unit [] refl

-- the session stays although the commit fails
leaves_the_session : (commit repos unit []).2 ≡ 1 ∷ []
unfolding commit register_message register_session begin
leaves_the_session = refl

-- the list shrinks between two requests
past_the_end :
    (select_in_turn {P = ℕ} (5 ∷ []) (select_in_turn {P = ℕ} (5 ∷ 6 ∷ []) 0).1).0
    ≡ raises (text "list index out of range")
unfolding select_in_turn
past_the_end = refl

chooses_20 : select_cheapest (λ p. p) (9 ∷ 8 ∷ []) (some 100) (30 ∷ 20 ∷ 25 ∷ []) ≡ ok 20
unfolding select_cheapest
chooses_20 = refl
