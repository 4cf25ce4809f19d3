-- ===== src/Policy/Todos.antt =====
-- `_get_first_pending_todo`, which policy/rules_policy.py and policy/plan_execute_policy.py both have.
pub mod First
use dawn_kestrel.Prelude.{
  ℕ, Bool, true, false, Option, none, some, List, [], ◌∷◌, leb, if◌then◌else◌,
}
use dawn_kestrel.Policy.{TodoItem, TodoStatus, Priority}

abbrev pub is_pending : TodoStatus → Bool
is_pending TodoStatus.pending = true
is_pending _ = false

unfoldable pub pending_todos : List TodoItem → List TodoItem
pending_todos [] = []
pending_todos (t ∷ ts) =
    let rest = pending_todos ts in if is_pending t.status then t ∷ rest else rest

-- `priority_order`
abbrev pub rank : Priority → ℕ
rank Priority.high = 0
rank Priority.medium = 1
rank Priority.low = 2

-- `list.sort` by the rank, which is stable: one goes before the first that does not rank higher
unfoldable pub insert_todo : TodoItem → List TodoItem → List TodoItem
insert_todo t [] = t ∷ []
insert_todo t (u ∷ us) =
    if leb (rank t.priority) (rank u.priority) then t ∷ u ∷ us else u ∷ insert_todo t us

unfoldable pub sort : List TodoItem → List TodoItem
unfolding insert_todo
sort [] = []
sort (t ∷ ts) = insert_todo t (sort ts)

abbrev pub head : List TodoItem → Option TodoItem
head [] = none
head (t ∷ ts) = some t

unfoldable pub get_first_pending_todo : List TodoItem → Option TodoItem
unfolding pending_todos sort
get_first_pending_todo todos = head (sort (pending_todos todos))
