-- ===== src/Core/Fsm/Builder/Known.antt =====
-- Which states the transitions of an `FSMBuilder` (dawn_kestrel/core/fsm.py) mention.
use dawn_kestrel.Prelude.{
  String, ◌≡◌, refl, inl, inr, true, some, List, [], ◌∷◌, arith, Dict, lookup, insert, contains,
  add, Bool-cases, string_eq, ◌==◌, contains-add, ==_refl, All, All-append, subst,
}
use dawn_kestrel.Core.Fsm.Builder.{undefined_targets, undefined_states, new}

-- names that are all among the states
abbrev pub AllIn : List String → List String → Type 0
AllIn states = All (λ t. contains t states ≡ true)

-- every state and target of a map is among the states
abbrev pub Known : List String → Dict String (List String) → Type 0
Known states = All (λ e. (contains e.0 states ≡ true) × AllIn states e.1)

abbrev pub Within : List String → List String → Type 0
Within xs ys = (t : String) → contains t xs ≡ true → contains t ys ≡ true

pub Within-add : (s : String) (xs : List String) → Within xs (add s xs)
Within-add s xs t h = rw contains-add (ground arith)

pub contains-add_self : (s : String) (xs : List String) → contains s (add s xs) ≡ true
contains-add_self s xs = rw (contains-add, ==_refl {A = String} s) refl

pub AllIn-Within :
    (xs ys : List String) → Within xs ys → (ts : List String) → AllIn xs ts → AllIn ys ts
AllIn-Within xs ys w [] h = tt
AllIn-Within xs ys w (t ∷ ts) h = (w t h.0, AllIn-Within xs ys w ts h.1)

pub Known-Within :
    (xs ys : List String) → Within xs ys → (d : Dict String (List String)) → Known xs d → Known ys d
Known-Within xs ys w [] h = tt
Known-Within xs ys w ((s, ts) ∷ d) h =
    ((w s h.0.0, AllIn-Within xs ys w ts h.0.1), Known-Within xs ys w d h.1)

pub AllIn-add :
    (xs : List String) (t : String) (ts : List String)
    → contains t xs ≡ true
    → AllIn xs ts
    → AllIn xs (add t ts)
unfolding add
AllIn-add xs t ts k h = elim (Bool-cases (contains t ts)) [
  | inl old ↦ rw old h
  | inr fresh ↦ rw fresh (All-append _ ts (t ∷ []) h (k, tt))
]

pub Known-insert :
    (xs : List String) (s : String) (ts : List String) (d : Dict String (List String))
    → contains s xs ≡ true
    → AllIn xs ts
    → Known xs d
    → Known xs (insert s ts d)
unfolding insert
Known-insert xs s ts [] k a h = ((k, a), tt)
Known-insert xs s ts ((r, us) ∷ d) k a h = elim (Bool-cases (r == s)) [
  | inl same ↦ rw same ((h.0.0, a), h.1)
  | inr other ↦ rw other (h.0, Known-insert xs s ts d k a h.1)
]

pub AllIn-lookup :
    (xs : List String) (s : String) (d : Dict String (List String)) (ts : List String)
    → Known xs d
    → lookup s d ≡ some ts
    → AllIn xs ts
unfolding lookup
AllIn-lookup xs s [] ts h e = cc
AllIn-lookup xs s ((r, us) ∷ d) ts h e = elim (Bool-cases (r == s)) [
  | inl same ↦
      let here : some us ≡ some ts = rw same at e in
      let q : us ≡ ts = cc in subst (AllIn xs) q h.0.1
  | inr other ↦ AllIn-lookup xs s d ts h.1 (rw other at e)
]

pub AllIn-contains :
    (xs : List String) (t : String) (ts : List String)
    → AllIn xs ts
    → contains t ts ≡ true
    → contains t xs ≡ true
unfolding contains
AllIn-contains xs t [] h e = cc
AllIn-contains xs t (u ∷ ts) h e = elim (Bool-cases (u == t)) [
  | inl same ↦ rw (← (string_eq.same_iff u t).0 same) h.0
  | inr other ↦ AllIn-contains xs t ts h.1 (rw other at e)
]

pub undefined_targets-AllIn :
    (xs ts us : List String) → AllIn xs ts → undefined_targets xs ts us ≡ us
unfolding undefined_targets
undefined_targets-AllIn xs [] us h = refl
undefined_targets-AllIn xs (t ∷ ts) us h = rw h.0 (undefined_targets-AllIn xs ts us h.1)

pub undefined_states-Known :
    (xs : List String) (d : Dict String (List String)) (us : List String)
    → Known xs d
    → undefined_states xs d us ≡ us
unfolding undefined_states
undefined_states-Known xs [] us h = refl
undefined_states-Known xs ((s, ts) ∷ d) us h =
    rw h.0.0 (rw (undefined_targets-AllIn xs ts us h.0.1) (undefined_states-Known xs d us h.1))

pub new-Known : (W : Type 0) → Known (new {W = W}).states (new {W = W}).transitions
unfolding new
new-Known W = tt
