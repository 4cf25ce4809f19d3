-- ===== src/Policy/Gate/Accepts.antt =====
-- What the gate accepts, and why it rejects.
use dawn_kestrel.Prelude.{
  ◌≡◌, refl, ◌↔◌, ◌⊎◌, inl, inr, Bool, true, false, List, [], ◌∷◌, contains, is_empty,
  if◌then◌else◌, Bool-cases, All, Text, arith,
}
use dawn_kestrel.Policy.{
  ActionType, type_eq, type_beq_iff, TodoCompletionClaim, StepProposal, get_action_types, any,
}
use dawn_kestrel.Policy.Words.{lower, strip, is_infix, Occurs, is_infix-Occurs}
use dawn_kestrel.Policy.Validator.{ValidationResult}
use dawn_kestrel.Policy.Gate.{
  is_verification, needs_approval, verify_before_done, approval_required, budget_exhausted,
  budget_exhausted_markers, enforce, rejected, no_budget, unverified_completion, unapproved,
  Rejection,
}

-- one of a list
abbrev pub Some {ℓ} : {A : Type ℓ} → (A → Type 0) → List A → Type 0
Some P [] = ⊥
Some P (x ∷ xs) = P x ⊎ Some P xs

any-Some {ℓ} :
    {A : Type ℓ} (p : A → Bool) (xs : List A) → (any p xs ≡ true) ↔ Some (λ x. p x ≡ true) xs
any-Some p [] = (λ h. cc h, λ h. absurd h)
any-Some p (x ∷ xs) = (
  λ h. elim (Bool-cases (p x)) [
    | inl here ↦ inl here
    | inr off ↦ inr ((any-Some p xs).0 (rw off at h))
  ],
  λ s. elim s [ inl here ↦ rw here refl | inr later ↦ rw ((any-Some p xs).1 later) (ground arith) ],
)

Some-map {ℓ} :
    {A : Type ℓ} {P Q : A → Type 0} (f : (x : A) → P x → Q x) (xs : List A) → Some P xs → Some Q xs
Some-map f [] s = absurd s
Some-map f (x ∷ xs) (inl here) = inl (f x here)
Some-map f (x ∷ xs) (inr later) = inr (Some-map f xs later)

-- the notes, in lower case and stripped, speak of an exhausted budget
abbrev pub SaysExhausted : StepProposal → Type 0
SaysExhausted p = Some (λ m. Occurs m (strip (lower p.notes))) budget_exhausted_markers

-- nothing is claimed, or one claim has evidence of the kinds that verify
abbrev pub IsVerified : StepProposal → Type 0
IsVerified p =
    (p.completion_claims ≡ [])
    ⊎ Some (λ c. is_verification c.evidence_type ≡ true) p.completion_claims

-- no action edits a file or runs tests, or approval is requested somewhere among them
abbrev pub IsApproved : StepProposal → Type 0
IsApproved p =
    All (λ t. needs_approval t ≡ false) (get_action_types p)
    ⊎ Some (λ t. t ≡ ActionType.request_approval) (get_action_types p)

occurring :
    (notes : Text) (ms : List Text)
    → (any (λ m. is_infix m notes) ms ≡ true) ↔ Some (λ m. Occurs m notes) ms
occurring notes ms = (
  λ h. Some-map (λ m. (is_infix-Occurs m notes).0) ms ((any-Some _ ms).0 h),
  λ s. (any-Some _ ms).1 (Some-map (λ m. (is_infix-Occurs m notes).1) ms s),
)

no_words :
    (notes : Text)
    → is_empty notes ≡ true
    → any (λ m. is_infix m notes) budget_exhausted_markers ≡ false
unfolding is_infix budget_exhausted_markers
no_words [] h = refl
no_words (c ∷ notes) h = cc h

verified :
    (l : List TodoCompletionClaim)
    → ((if is_empty l then true else any (λ c. is_verification c.evidence_type) l) ≡ true)
      ↔ ((l ≡ []) ⊎ Some (λ c. is_verification c.evidence_type ≡ true) l)
verified [] = (λ h. inl refl, λ h. refl)
verified (c ∷ l) = (
  λ h. inr ((any-Some _ (c ∷ l)).0 h),
  λ s. elim s [ inl none_claimed ↦ cc none_claimed | inr one ↦ (any-Some _ (c ∷ l)).1 one ],
)

none_needs :
    (ts : List ActionType)
    → (any needs_approval ts ≡ false) ↔ All (λ t. needs_approval t ≡ false) ts
none_needs [] = (λ h. tt, λ h. refl)
none_needs (t ∷ ts) = (
  λ h. (ground arith, (none_needs ts).0 (ground arith)),
  λ (first, h). rw first ((none_needs ts).1 h),
)

contains-Some :
    (a : ActionType) (ts : List ActionType) → (contains a ts ≡ true) ↔ Some (λ t. t ≡ a) ts
unfolding contains
contains-Some a [] = (λ h. cc h, λ s. absurd s)
contains-Some a (t ∷ ts) = (
  λ h. elim (Bool-cases (type_eq.same t a)) [
    | inl here ↦ inl ((type_beq_iff t a).0 here)
    | inr off ↦ inr ((contains-Some a ts).0 (rw off at h))
  ],
  λ s. elim s [
    | inl here ↦ rw ((type_beq_iff t a).1 here) refl
    | inr later ↦ rw ((contains-Some a ts).1 later) (ground arith)
  ],
)

budget_exhausted-SaysExhausted : (p : StepProposal) → (budget_exhausted p ≡ true) ↔ SaysExhausted p
unfolding budget_exhausted
budget_exhausted-SaysExhausted p =
    let notes = strip (lower p.notes) in
    let (there, back) = occurring notes budget_exhausted_markers in
    elim (Bool-cases (is_empty notes)) [
      | inl blank ↦ (λ h. cc (rw blank at h), λ s. cc (back s, no_words notes blank))
      | inr full ↦ (λ h. there (rw full at h), λ s. rw full (back s))
    ]

verify_before_done-IsVerified : (p : StepProposal) → (verify_before_done p ≡ true) ↔ IsVerified p
unfolding verify_before_done
verify_before_done-IsVerified p = verified p.completion_claims

approval_required-IsApproved : (p : StepProposal) → (approval_required p ≡ true) ↔ IsApproved p
unfolding approval_required
approval_required-IsApproved p =
    let types = get_action_types p in
    let (none_of, back) = none_needs types in
    let (found, again) = contains-Some ActionType.request_approval types in
    elim (Bool-cases (any needs_approval types)) [
      | inl needed ↦ (
        λ h. inr (found (rw needed at h)),
        λ s. elim s [ inl calm ↦ rw (back calm) refl | inr asked ↦ rw needed (again asked) ],
      )
      | inr calm ↦ (λ h. inl (none_of calm), λ s. rw calm refl)
    ]

-- the first reason that applies, if any
abbrev pub Verdict : StepProposal → ValidationResult Rejection → Type 0
Verdict p r =
    ((r.valid ≡ true) × (r.errors ≡ []) × (¬ SaysExhausted p) × IsVerified p × IsApproved p)
    ⊎ ((e : Rejection) × (r.valid ≡ false)
        × (r.errors ≡ e ∷ [])
        × (((e.reason_code ≡ no_budget) × SaysExhausted p)
            ⊎ ((e.reason_code ≡ unverified_completion) × (¬ SaysExhausted p) × (¬ IsVerified p))
            ⊎ ((e.reason_code ≡ unapproved)
                × (¬ SaysExhausted p)
                × IsVerified p
                × (¬ IsApproved p))))

refuted {ℓ} : {b : Bool} {P : Type ℓ} → ((b ≡ true) ↔ P) → b ≡ false → P → ⊥
refuted (there, back) off p = cc (back p, off)

-- The gate accepts a proposal exactly when its notes do not speak of an exhausted budget, it claims no
-- completion or at least one of its claims has evidence that verifies, and it neither edits nor runs
-- tests or requests an approval. Otherwise it rejects with one error, whose reason is the first of the
-- three, in this order, that is violated.
pub enforce-Verdict : (p : StepProposal) → Verdict p (enforce p)
unfolding enforce rejected
enforce-Verdict p =
    let exhausted = budget_exhausted-SaysExhausted p in
    let claims = verify_before_done-IsVerified p in
    let approval = approval_required-IsApproved p in
    elim (Bool-cases (budget_exhausted p)) [
      | inl spent ↦ rw spent (inr (_, refl, refl, inl (refl, exhausted.0 spent)))
      | inr left ↦ elim (Bool-cases (verify_before_done p)) [
        | inr open_claim ↦
            rw (left, open_claim)
              (inr (
                _,
                refl,
                refl,
                inr (inl (refl, refuted exhausted left, refuted claims open_claim)),
              ))
        | inl done ↦ elim (Bool-cases (approval_required p)) [
          | inr missing ↦
              rw (left, done, missing)
                (inr (
                  _,
                  refl,
                  refl,
                  inr (inr (refl, refuted exhausted left, claims.0 done, refuted approval missing)),
                ))
          | inl fine ↦
              rw (left, done, fine)
                (inl (refl, refl, refuted exhausted left, claims.0 done, approval.0 fine))
        ]
      ]
    ]
