-- ===== src/Policy/Todos/First.antt =====
-- Which TODO comes first.
use dawn_kestrel.Prelude.{
  ◌≤◌, ◌<◌, ◌≡◌, refl, ap, ◌⊎◌, inl, inr, true, false, Option, none, some, List, [], ◌∷◌, ◌++◌, leb,
  if◌then◌else◌, All, All-append, Bool-cases, leb→le, arith,
}
use dawn_kestrel.Policy.{TodoItem}
use dawn_kestrel.Policy.Todos.{
  is_pending, pending_todos, rank, insert_todo, sort, head, get_first_pending_todo,
}

-- `u` does not come before `t`: it is not pending, or ranks no higher; strictly so in `Later`
abbrev pub NotBefore : TodoItem → TodoItem → Type 0
NotBefore t u = (is_pending u.status ≡ false) ⊎ (rank t.priority ≤ rank u.priority)

abbrev pub Later : TodoItem → TodoItem → Type 0
Later t u = (is_pending u.status ≡ false) ⊎ (rank t.priority < rank u.priority)

abbrev pub IsFirst : TodoItem → List TodoItem → Type 0
IsFirst t todos =
    (front back : List TodoItem) × (todos ≡ front ++ t ∷ back)
    × (is_pending t.status ≡ true)
    × All (Later t) front
    × All (NotBefore t) back

-- what is chosen from some TODOs
abbrev pub Chosen : List TodoItem → Option TodoItem → Type 0
Chosen todos none = All (λ u. is_pending u.status ≡ false) todos
Chosen todos (some t) = IsFirst t todos

-- the better of one and what was chosen after it
better : TodoItem → Option TodoItem → Option TodoItem
better t none = some t
better t (some u) = if leb (rank t.priority) (rank u.priority) then some t else some u

head-insert_todo :
    (t : TodoItem) (us : List TodoItem) → head (insert_todo t us) ≡ better t (head us)
unfolding insert_todo better
head-insert_todo t [] = refl
head-insert_todo t (u ∷ us) = ground arith

All-Later :
    (t u : TodoItem) (l : List TodoItem)
    → rank t.priority ≤ rank u.priority
    → All (Later u) l
    → All (NotBefore t) l
All-Later t u [] r h = tt
All-Later t u (v ∷ l) r (inl off, h) = (inl off, All-Later t u l r h)
All-Later t u (v ∷ l) r (inr less, h) = (inr (omega arith), All-Later t u l r h)

All-NotBefore :
    (t u : TodoItem) (l : List TodoItem)
    → rank t.priority ≤ rank u.priority
    → All (NotBefore u) l
    → All (NotBefore t) l
All-NotBefore t u [] r h = tt
All-NotBefore t u (v ∷ l) r (inl off, h) = (inl off, All-NotBefore t u l r h)
All-NotBefore t u (v ∷ l) r (inr less, h) = (inr (omega arith), All-NotBefore t u l r h)

All-idle :
    (t : TodoItem) (l : List TodoItem)
    → All (λ u. is_pending u.status ≡ false) l
    → All (NotBefore t) l
All-idle t [] h = tt
All-idle t (v ∷ l) (off, h) = (inl off, All-idle t l h)

skip_idle :
    (t : TodoItem) (ts : List TodoItem) (o : Option TodoItem)
    → is_pending t.status ≡ false
    → Chosen ts o
    → Chosen (t ∷ ts) o
skip_idle t ts none off c = (off, c)
skip_idle t ts (some u) off (front, back, e, p, before, after) =
    (t ∷ front, back, ap (◌∷◌ t) e, p, (inl off, before), after)

choose :
    (t : TodoItem) (ts : List TodoItem) (o : Option TodoItem)
    → is_pending t.status ≡ true
    → Chosen ts o
    → Chosen (t ∷ ts) (better t o)
unfolding better
choose t ts none on c = ([], ts, refl, on, tt, All-idle t ts c)
choose t ts (some u) on (front, back, e, p, before, after) =
    elim (Bool-cases (leb (rank t.priority) (rank u.priority))) [
      | inl first ↦
          let r : rank t.priority ≤ rank u.priority = leb→le _ _ first in
          rw first (
            [],
            ts,
            refl,
            on,
            tt,
            rw e (
                All-append (NotBefore t) front (u ∷ back) (All-Later t u front r before)
                  (inr r, All-NotBefore t u back r after)),
          )
      | inr second ↦
          rw second (t ∷ front, back, ap (◌∷◌ t) e, p, (inr (ground arith), before), after)
    ]

-- The TODO that both policies pick is pending; every pending one before it in the list has a strictly
-- lower priority and every one after it no higher one. None is picked exactly when none is pending.
pub get_first_pending_todo-Chosen :
    (todos : List TodoItem) → Chosen todos (get_first_pending_todo todos)
unfolding get_first_pending_todo pending_todos sort
get_first_pending_todo-Chosen [] = tt
get_first_pending_todo-Chosen (t ∷ ts) = elim (Bool-cases (is_pending t.status)) [
  | inl on ↦ rw on (
      rw (head-insert_todo t (sort (pending_todos ts)))
        (choose t ts _ on (get_first_pending_todo-Chosen ts)))
  | inr off ↦ rw off (skip_idle t ts _ off (get_first_pending_todo-Chosen ts))
]
