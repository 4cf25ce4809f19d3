-- ===== src/Tools/Rulesets/Equality.antt =====
-- The matching of evaluate.py is equality, and its search finds the last rule.
use mathlib.Core.List.{reverse, reverse-cons}
use dawn_kestrel.Prelude.{
  ℕ, ◌≡◌, refl, sym, ◌∙◌, ap, inl, inr, true, false, ◌&&◌, Option, none, some, List, [], ◌∷◌, ◌++◌,
  if◌then◌else◌, Bool-cases, Text, nat_eq, nat_beq, nat_beq_iff, list_beq_iff, list_eq, All, ◌==◌,
  arith,
}
use dawn_kestrel.Tools.Rulesets.{
  PermissionRule, ask, asterisk, onto_first, split, parts_match, same_length, matches_pattern,
  first_match, search_rulesets, evaluate,
}

-- `"*".join(parts)`
join : List Text → Text
join [] = []
join (w ∷ []) = w
join (w ∷ v ∷ ws) = w ++ b'*' ∷ join (v ∷ ws)

join-onto_first :
    (c : ℕ) (w : Text) (ws : List Text) → join (onto_first c (w ∷ ws)) ≡ c ∷ join (w ∷ ws)
unfolding join
join-onto_first c w [] = refl
join-onto_first c w (v ∷ ws) = refl

split_nonempty : (s : Text) → (w : Text) × (ws : List Text) × (split s ≡ w ∷ ws)
unfolding split
split_nonempty [] = ([], [], refl)
split_nonempty (c ∷ s) =
    let (w, ws, e) = split_nonempty s in
    elim (Bool-cases (nat_beq c b'*')) [
      | inl at_star ↦ ([], split s, rw at_star refl)
      | inr other ↦ (c ∷ w, ws, rw other (rw e refl))
    ]

join-split : (s : Text) → join (split s) ≡ s
unfolding split join
join-split [] = refl
join-split (c ∷ s) =
    let (w, ws, e) = split_nonempty s in
    let joined : join (w ∷ ws) ≡ s = ap join (sym e) ∙ join-split s in
    elim (Bool-cases (nat_beq c b'*')) [
      | inl at_star ↦ rw at_star (rw e (ground (arith, joined, nat_beq_iff c b'*')))
      | inr other ↦ rw other (rw e (join-onto_first c w ws ∙ ap (◌∷◌ c) joined))
    ]

-- no part of a split is a star
star_free : (s : Text) → All (λ w. (w == asterisk) ≡ false) (split s)
unfolding split
star_free [] = (refl, tt)
star_free (c ∷ s) =
    let (w, ws, e) = split_nonempty s in
    let free : All (λ w. (w == asterisk) ≡ false) (w ∷ ws) = rw e at (star_free s) in
    elim (Bool-cases (nat_beq c b'*')) [
      | inl at_star ↦ rw at_star (refl, star_free s)
      | inr other ↦ rw other (rw e (ground (arith, other), free.1))
    ]

equal_parts :
    (ps ns : List Text)
    → same_length ps ns ≡ true
    → All (λ w. (w == asterisk) ≡ false) ps
    → parts_match ps ns ≡ true
    → ps ≡ ns
unfolding same_length parts_match
equal_parts [] [] l free h = refl
equal_parts [] (n ∷ ns) l free h = cc l
equal_parts (p ∷ ps) [] l free h = cc l
equal_parts (p ∷ ps) (n ∷ ns) l (whole, free) h =
    ground (arith, equal_parts ps ns l free, list_beq_iff p n)

parts_match_self : (ps : List Text) → (same_length ps ps ≡ true) × (parts_match ps ps ≡ true)
unfolding same_length parts_match
parts_match_self [] = (refl, refl)
parts_match_self (p ∷ ps) =
    let (l, h) = parts_match_self ps in (l, ground (arith, list_beq_iff p p))

-- A pattern matches nothing but itself: a star in it is no wildcard.
pub matches_pattern_eq :
    (needle pattern : Text) → matches_pattern needle pattern ≡ (needle == pattern)
unfolding matches_pattern
matches_pattern_eq needle pattern = ground (
  arith,
  equal_parts (split pattern) (split needle),
  star_free pattern,
  parts_match_self (split pattern),
  join-split pattern,
  join-split needle,
  list_beq_iff needle pattern,
)

-- the last of some rules that is equal in both
pub last_equal : Text → Text → List PermissionRule → Option PermissionRule → Option PermissionRule
last_equal permission pattern [] last = last
last_equal permission pattern (rule ∷ rules) last =
    last_equal permission pattern rules
      (if permission == rule.permission && pattern == rule.pattern then some rule else last)

pub all_rules : List (List PermissionRule) → List PermissionRule
all_rules [] = []
all_rules (rules ∷ rulesets) = rules ++ all_rules rulesets

-- the default when there is none
abbrev pub or_ask : Option PermissionRule → PermissionRule
or_ask none = record { permission = asterisk; pattern = asterisk; action = ask }
or_ask (some rule) = rule

or_else : Option PermissionRule → Option PermissionRule → Option PermissionRule
or_else none other = other
or_else (some rule) other = some rule

or_else_assoc : (o p q : Option PermissionRule) → or_else (or_else o p) q ≡ or_else o (or_else p q)
unfolding or_else
or_else_assoc none p q = refl
or_else_assoc (some rule) p q = refl

or_else-none : (o : Option PermissionRule) → or_else o none ≡ o
unfolding or_else
or_else-none none = refl
or_else-none (some rule) = refl

module _ (permission pattern : Text) where
  first_match-append :
      (xs ys : List PermissionRule)
      → first_match permission pattern (xs ++ ys)
        ≡ or_else (first_match permission pattern xs) (first_match permission pattern ys)
  unfolding first_match or_else
  first_match-append [] ys = refl
  first_match-append (x ∷ xs) ys = ground (arith, first_match-append xs ys)

  last_equal-first_match :
      (rules : List PermissionRule) (last : Option PermissionRule)
      → last_equal permission pattern rules last
        ≡ or_else (first_match permission pattern (reverse rules)) last
  unfolding last_equal first_match or_else
  last_equal-first_match [] last = refl
  last_equal-first_match (rule ∷ rules) last =
      rw (reverse-cons rule rules, first_match-append (reverse rules) (rule ∷ []))
        (ground (
          arith,
          last_equal-first_match rules last,
          last_equal-first_match rules (some rule),
          matches_pattern_eq permission rule.permission,
          matches_pattern_eq pattern rule.pattern,
        ))

  -- the search, before its default
  found : List (List PermissionRule) → Option PermissionRule
  unfolding or_else
  found [] = none
  found (rules ∷ rulesets) =
      or_else (first_match permission pattern (reverse rules)) (found rulesets)

  search_rulesets-found :
      (rulesets : List (List PermissionRule))
      → search_rulesets permission pattern rulesets ≡ or_ask (found rulesets)
  unfolding search_rulesets found or_else
  search_rulesets-found [] = refl
  search_rulesets-found (rules ∷ rulesets) = ground (arith, search_rulesets-found rulesets)

  found-append :
      (xs ys : List (List PermissionRule)) → found (xs ++ ys) ≡ or_else (found xs) (found ys)
  unfolding found
  found-append [] ys = unfold or_else in refl
  found-append (x ∷ xs) ys = rw (found-append xs ys) (sym (or_else_assoc _ (found xs) (found ys)))

  last_equal-append :
      (xs ys : List PermissionRule) (last : Option PermissionRule)
      → last_equal permission pattern (xs ++ ys) last
        ≡ last_equal permission pattern ys (last_equal permission pattern xs last)
  unfolding last_equal
  last_equal-append [] ys last = refl
  last_equal-append (x ∷ xs) ys last = last_equal-append xs ys _

  found-reverse :
      (rules : List PermissionRule) (rulesets : List (List PermissionRule))
      → found (reverse (rules ∷ rulesets))
        ≡ or_else (found (reverse rulesets)) (first_match permission pattern (reverse rules))
  unfolding found
  found-reverse rules rulesets =
      ap found (reverse-cons rules rulesets)
      ∙ found-append (reverse rulesets) (rules ∷ [])
      ∙ ap (or_else (found (reverse rulesets))) (or_else-none _)

  last_equal-found :
      (rulesets : List (List PermissionRule)) (last : Option PermissionRule)
      → last_equal permission pattern (all_rules rulesets) last
        ≡ or_else (found (reverse rulesets)) last
  unfolding all_rules
  last_equal-found [] last = unfold last_equal or_else found in refl
  last_equal-found (rules ∷ rulesets) last =
      last_equal-append rules (all_rules rulesets) last
      ∙ last_equal-found rulesets (last_equal permission pattern rules last)
      ∙ ap (or_else (found (reverse rulesets))) (last_equal-first_match rules last)
      ∙ sym (or_else_assoc (found (reverse rulesets)) _ last)
      ∙ ap (λ o. or_else o last) (sym (found-reverse rules rulesets))

-- Among all rules of all rulesets in order, the last one decides whose permission and pattern are
-- those asked for, letter by letter; when there is none, the answer is to ask.
pub evaluate-last_equal :
    (permission pattern : Text) (rulesets : List (List PermissionRule))
    → evaluate permission pattern rulesets
      ≡ or_ask (last_equal permission pattern (all_rules rulesets) none)
unfolding evaluate
evaluate-last_equal permission pattern rulesets =
    search_rulesets-found permission pattern (reverse rulesets)
    ∙ ap or_ask (sym (last_equal-found permission pattern rulesets none ∙ or_else-none _))
