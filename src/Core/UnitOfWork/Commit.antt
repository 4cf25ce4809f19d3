-- ===== src/Core/UnitOfWork/Commit.antt =====
-- What a commit does to the repositories, and what it leaves when one of them fails.
use dawn_kestrel.Prelude.{
  ◌≡◌, refl, sym, ap, ◌∙◌, ◌⊎◌, inl, inr, String, true, List, [], ◌∷◌, ◌++◌, map,
}
use dawn_kestrel.Core.Result.{Result, ok, err, pass, Error}
use dawn_kestrel.Core.UnitOfWork.{
  UnitOfWork, Repositories, new_unit, after_create, create_all, then_next, create_pending, ended,
  commit,
}

-- one creation
pub data Creation (S M P : Type 0) : Type 0 where
  session : S → Creation S M P
  message : M → Creation S M P
  part : String → P → Creation S M P

-- a result, without its value
abbrev pub outcome : {A : Type 0} → Result A → Result (Unit {0})
outcome (err e) = err e
outcome _ = ok tt

module _ {W : Type 0} where
  then_next_assoc :
      (p : Result (Unit {0}) × W) (f g : W → Result (Unit {0}) × W)
      → then_next (then_next p f) g ≡ then_next p (λ w. then_next (f w) g)
  unfolding then_next
  then_next_assoc (ok t, w) f g = refl
  then_next_assoc (err e, w) f g = refl
  then_next_assoc (pass m, w) f g = refl

  same_next :
      (p : Result (Unit {0}) × W) (f g : W → Result (Unit {0}) × W)
      → ((w : W) → f w ≡ g w)
      → then_next p f ≡ then_next p g
  unfolding then_next
  same_next (ok t, w) f g h = h w
  same_next (err e, w) f g h = refl
  same_next (pass m, w) f g h = h w

  same_step :
      {A : Type 0} (r : Result A) (w : W) (rest : Result (Unit {0}) × W)
      (next : W → Result (Unit {0}) × W)
      → rest ≡ next w
      → after_create r w rest ≡ then_next (outcome r, w) next
  unfolding after_create then_next
  same_step (ok a) w rest next h = h
  same_step (err e) w rest next h = refl
  same_step (pass m) w rest next h = h

module _ {S M P W : Type 0} (repos : Repositories S M P W) where
  pub create : Creation S M P → W → Result (Unit {0}) × W
  create (session s) w = let (r, w') = repos.create_session s w in (outcome r, w')
  create (message m) w = let (r, w') = repos.create_message m w in (outcome r, w')
  create (part message_id p) w = let (r, w') = repos.create_part message_id p w in (outcome r, w')

  -- the creations one after the other, up to the first error
  pub create_each : List (Creation S M P) → W → Result (Unit {0}) × W
  create_each [] w = (ok tt, w)
  create_each (c ∷ cs) w = then_next (create c w) (create_each cs)

  -- sessions first, then messages, then parts, each in the order of registration
  pub creations : UnitOfWork S M P → List (Creation S M P)
  creations u =
      map session u.pending_sessions
      ++ (map message u.pending_messages ++ map (λ p. part p.0 p.1) u.pending_parts)

  create_each-append :
      (cs ds : List (Creation S M P)) (w : W)
      → create_each (cs ++ ds) w ≡ then_next (create_each cs w) (create_each ds)
  unfolding create_each
  create_each-append [] ds w = unfold then_next in refl
  create_each-append (c ∷ cs) ds w =
      same_next (create c w) _ _ (create_each-append cs ds) ∙ sym (then_next_assoc (create c w) _ _)

  all_sessions :
      (l : List S) (w : W) → create_all repos.create_session l w ≡ create_each (map session l) w
  unfolding create_all create_each create
  all_sessions [] w = refl
  all_sessions (s ∷ l) w =
      same_step (repos.create_session s w).0 _ _ (create_each (map session l))
        (all_sessions l (repos.create_session s w).1)

  all_messages :
      (l : List M) (w : W) → create_all repos.create_message l w ≡ create_each (map message l) w
  unfolding create_all create_each create
  all_messages [] w = refl
  all_messages (m ∷ l) w =
      same_step (repos.create_message m w).0 _ _ (create_each (map message l))
        (all_messages l (repos.create_message m w).1)

  all_parts :
      (l : List (String × P)) (w : W)
      → create_all (λ p. repos.create_part p.0 p.1) l w ≡ create_each (map (λ p. part p.0 p.1) l) w
  unfolding create_all create_each create
  all_parts [] w = refl
  all_parts (p ∷ l) w =
      same_step (repos.create_part p.0 p.1 w).0 _ _ (create_each (map (λ p. part p.0 p.1) l))
        (all_parts l (repos.create_part p.0 p.1 w).1)

  create_pending-create_each :
      (u : UnitOfWork S M P) (w : W) → create_pending repos u w ≡ create_each (creations u) w
  unfolding create_pending creations
  create_pending-create_each u w = rw all_sessions (
      same_next (create_each (map session u.pending_sessions) w) _ _ (λ w'. rw all_messages (
        same_next (create_each (map message u.pending_messages) w') _ _ (all_parts u.pending_parts)
        ∙ sym (create_each-append (map message u.pending_messages) _ w')))
      ∙ sym (create_each-append (map session u.pending_sessions) _ w))

  -- where a sequence of creations stops
  abbrev pub StopsAt : List (Creation S M P) → W → Error → W → Type 0
  StopsAt cs w e w' =
      (front back : List (Creation S M P)) × (c : Creation S M P) × (before : W) × (cs
        ≡ front ++ c ∷ back)
      × (create_each front w ≡ (ok tt, before))
      × (create c before ≡ (err e, w'))

  -- all succeed, or one of them fails
  abbrev Ending : List (Creation S M P) → W → Type 0
  Ending cs w =
      ((w' : W) × (create_each cs w ≡ (ok tt, w')))
      ⊎ ((e : Error) × (w' : W) × StopsAt cs w e w' × (create_each cs w ≡ (err e, w')))

  goes_on :
      (c : Creation S M P) (cs : List (Creation S M P)) (w w1 : W)
      → create_each (c ∷ cs) w ≡ create_each cs w1
      → ((front : List (Creation S M P)) → create_each (c ∷ front) w ≡ create_each front w1)
      → Ending cs w1
      → Ending (c ∷ cs) w
  goes_on c cs w w1 step all (inl (w', good)) = inl (w', step ∙ good)
  goes_on c cs w w1 step all (inr (e, w', (front, back, d, before, split, made, failed), bad)) =
      inr (
        e,
        w',
        (c ∷ front, back, d, before, ap (◌∷◌ c) split, all front ∙ made, failed),
        step ∙ bad,
      )

  ending_from :
      (c : Creation S M P) (cs : List (Creation S M P)) (w : W) (p : Result (Unit {0}) × W)
      → create c w ≡ p
      → ((w1 : W) → Ending cs w1)
      → Ending (c ∷ cs) w
  unfolding create_each then_next
  ending_from c cs w (ok t, w1) made rest =
      goes_on c cs w w1 (ap (λ p. then_next p (create_each cs)) made)
        (λ front. ap (λ p. then_next p (create_each front)) made) (rest w1)
  ending_from c cs w (pass m, w1) made rest =
      goes_on c cs w w1 (ap (λ p. then_next p (create_each cs)) made)
        (λ front. ap (λ p. then_next p (create_each front)) made) (rest w1)
  ending_from c cs w (err e, w1) made rest =
      inr (e, w1, ([], cs, c, w, refl, refl, made), ap (λ p. then_next p (create_each cs)) made)

  ending : (cs : List (Creation S M P)) (w : W) → Ending cs w
  unfolding create_each
  ending [] w = inl (w, refl)
  ending (c ∷ cs) w = ending_from c cs w (create c w) refl (ending cs)

  -- A commit in a transaction makes the registered creations one after the other, sessions before
  -- messages before parts. When all succeed, the unit is empty and outside of a transaction. At the
  -- first error it stops and answers with it: what was created before stays in the repositories, and
  -- the unit, still in its transaction, keeps all that was registered.
  pub commit_cases :
      (u : UnitOfWork S M P) (w : W)
      → u.in_transaction ≡ true
      → ((w' : W) × (create_each (creations u) w ≡ (ok tt, w'))
          × (commit repos u w ≡ (ok tt, new_unit, w')))
        ⊎ ((e : Error) × (w' : W) × StopsAt (creations u) w e w'
            × (commit repos u w ≡ (err e, u, w')))
  unfolding commit
  commit_cases u w h = elim (ending (creations u) w) [
    | inl (w', good) ↦
        let made : create_pending repos u w ≡ (ok tt, w') = create_pending-create_each u w ∙ good in
        inl (w', good, rw h (rw made (unfold ended in refl)))
    | inr (e, w', stops, bad) ↦
        let made : create_pending repos u w ≡ (err e, w') = create_pending-create_each u w ∙ bad in
        inr (e, w', stops, rw h (rw made (unfold ended in refl)))
  ]
