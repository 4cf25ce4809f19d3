-- ===== src/Tools/Permissions/Patterns.antt =====
-- What the patterns of permission_filter.py match, without the code's tests.
use dawn_kestrel.Prelude.{
  ◌≡◌, refl, ◌⊎◌, inl, inr, ◌↔◌, true, false, [], ◌∷◌, ◌++◌, Bool-cases, Text, starts_with,
  ends_with, starts_with-append, append-starts_with, ends_with-append, append-ends_with, list_beq,
  list_beq_iff, list_eq, nat_eq, arith,
}
use dawn_kestrel.Tools.Permissions.{star, butlast, tail, matches_pattern}

butlast-append : (s : Text) (c : _) → butlast (s ++ c ∷ []) ≡ s
butlast-append [] c = refl
butlast-append (a ∷ []) c = refl
butlast-append (a ∷ b ∷ s) c = ground (arith, butlast-append (b ∷ s) c)

-- a pattern that ends with a star, one that only begins with one, and the text itself
abbrev pub Matches : Text → Text → Type 0
Matches needle pattern =
    (needle ≡ pattern)
    ⊎ ((prefix rest : Text) × (pattern ≡ prefix ++ star) × (needle ≡ prefix ++ rest))
    ⊎ ((suffix front : Text) × (pattern ≡ star ++ suffix)
        × (ends_with pattern star ≡ false)
        × (needle ≡ front ++ suffix))

sound : (needle pattern : Text) → matches_pattern needle pattern ≡ true → Matches needle pattern
unfolding matches_pattern
sound needle pattern h = elim (Bool-cases (list_beq pattern star)) [
  | inl any ↦ inr (inl ([], needle, (list_beq_iff pattern star).0 any, refl))
  | inr some_other ↦ elim (Bool-cases (list_beq needle pattern)) [
    | inl same ↦ inl ((list_beq_iff needle pattern).0 same)
    | inr differs ↦ elim (Bool-cases (ends_with pattern star)) [
      | inl ends ↦
          let (prefix, at_end) = ends_with-append pattern star ends in
          let short : butlast pattern ≡ prefix = rw at_end (butlast-append prefix _) in
          let starts : starts_with needle (butlast pattern) ≡ true =
            rw (some_other, differs, ends) at h in
          let (rest, e) = starts_with-append needle prefix (rw short at starts) in
          inr (inl (prefix, rest, at_end, e))
      | inr open_end ↦ elim (Bool-cases (starts_with pattern star)) [
        | inl begins ↦
            let (suffix, at_start) = starts_with-append pattern star begins in
            let short : tail pattern ≡ suffix = rw at_start refl in
            let ends : ends_with needle (tail pattern) ≡ true =
              rw (some_other, differs, open_end, begins) at h in
            let (front, e) = ends_with-append needle suffix (rw short at ends) in
            inr (inr (suffix, front, at_start, open_end, e))
        | inr plain ↦ cc (rw (some_other, differs, open_end, plain) at h)
      ]
    ]
  ]
]

complete : (needle pattern : Text) → Matches needle pattern → matches_pattern needle pattern ≡ true
unfolding matches_pattern
complete needle pattern (inl same) = ground (arith, list_beq_iff needle pattern)
complete needle pattern (inr (inl (prefix, rest, at_end, e))) =
    let ends : ends_with pattern star ≡ true = rw at_end (append-ends_with prefix star) in
    let short : butlast pattern ≡ prefix = rw at_end (butlast-append prefix _) in
    let starts : starts_with needle (butlast pattern) ≡ true =
      rw (short, e) (append-starts_with prefix rest) in
    ground (arith, ends, starts)
complete needle pattern (inr (inr (suffix, front, at_start, open_end, e))) =
    let begins : starts_with pattern star ≡ true = rw at_start (append-starts_with star suffix) in
    let short : tail pattern ≡ suffix = rw at_start refl in
    let ends : ends_with needle (tail pattern) ≡ true =
      rw (short, e) (append-ends_with front suffix) in
    ground (arith, begins, ends, open_end)

-- A tool matches a pattern exactly when it is the pattern, or the pattern is a prefix with a star
-- after it and the tool begins with that prefix, or the pattern is a star before a suffix, with no
-- star at its end, and the tool ends with that suffix. A star anywhere else stands for itself.
pub matches_pattern-Matches :
    (needle pattern : Text) → (matches_pattern needle pattern ≡ true) ↔ Matches needle pattern
matches_pattern-Matches needle pattern = (sound needle pattern, complete needle pattern)
