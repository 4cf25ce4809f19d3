-- ===== src/Tools/Cache/Herd/Stuck.antt =====
-- What a cancelled executor leaves behind.
use dawn_kestrel.Prelude.{
  ℕ, suc, ◌≡◌, refl, String, Bool, true, false, Option, none, some, List, [], ◌∷◌, length,
  Bool-cases, inl, inr, string_eq, nat_eq, ◌==◌, subst, sym, All, arith,
}
use dawn_kestrel.Tools.Cache.{CacheEntry, ToolResultCache, is_cacheable, is_expired, evict, store}
use dawn_kestrel.Tools.Cache.Herd.{
  Caller, Request, Future, Reply, Phase, asking, claiming, waiting, executing, direct, leaving,
  done, Event, look, claim, finish, fail, cancel, leave, wake, Herd, with_phase, set_future, woken,
  key_of, hit, after_look, after_claim, first_check, second_check, settle, stored, entry_of, act_in,
  act, run, unset, result, cancelled,
}
use dawn_kestrel.Tools.Cache.Herd.Watch.{is_cancel}

module _ {Args Value : Type 0} where
  abbrev pub is_over : Phase Args Value → Bool
  is_over (leaving _) = true
  is_over (done _) = true
  is_over _ = false

  -- `i` waits for `f`, which is over and has not set its future
  abbrev pub IsStuck : Caller → Caller → Herd Args Value → Type 0
  IsStuck i f h = (h.phase i ≡ waiting f) × (h.futures f ≡ unset) × (is_over (h.phase f) ≡ true)

  -- the step of another caller that is not over, and so is not `f`
  moves :
      (i f j : Caller) (p : Phase Args Value) (h : Herd Args Value)
      → (j == i) ≡ false
      → is_over (h.phase j) ≡ false
      → IsStuck i f h
      → IsStuck i f (with_phase j p h)
  unfolding with_phase
  moves i f j p h n o s = ground (arith, nat_eq.same_iff j f)

  -- the end of a caller that is over
  ends :
      (i f j : Caller) (reply : Reply Args Value) (h : Herd Args Value)
      → (j == i) ≡ false
      → IsStuck i f h
      → IsStuck i f (with_phase j (done reply) h)
  unfolding with_phase
  ends i f j reply h n s = ground arith

  settle-IsStuck :
      (i f j : Caller) (reply : Reply Args Value) (r : Option (CacheEntry Args Value))
      (h : Herd Args Value)
      → (j == i) ≡ false
      → is_over (h.phase j) ≡ false
      → IsStuck i f h
      → IsStuck i f (settle j reply r h)
  unfolding settle with_phase set_future
  settle-IsStuck i f j reply r h n o s = ground (arith, nat_eq.same_iff j f)

  stored-IsStuck :
      (i f j : Caller) (entry : CacheEntry Args Value) (h : Herd Args Value)
      (o : Option (ToolResultCache Args Value))
      → (j == i) ≡ false
      → is_over (h.phase j) ≡ false
      → IsStuck i f h
      → IsStuck i f (stored j entry h o)
  unfolding stored
  stored-IsStuck i f j entry h none n o s = s
  stored-IsStuck i f j entry h (some cache) n o s =
      settle-IsStuck i f j _ _ (record h { cache = cache }) n o s

  woken-IsStuck :
      (i f j : Caller) (h : Herd Args Value) (v : Future Args Value)
      → (j == i) ≡ false
      → is_over (h.phase j) ≡ false
      → IsStuck i f h
      → IsStuck i f (woken j h v)
  unfolding woken
  woken-IsStuck i f j h unset n o s = s
  woken-IsStuck i f j h (result none) n o s = moves i f j _ h n o s
  woken-IsStuck i f j h (result (some entry)) n o s = moves i f j _ h n o s
  woken-IsStuck i f j h cancelled n o s = moves i f j _ h n o s

module _ {Args Value : Type 0} (make_key : String → Args → String)
    (requests : Caller → Request Args) where
  after_look-IsStuck :
      (i f j : Caller) (h : Herd Args Value) (o : Option Caller)
      → (j == i) ≡ false
      → is_over (h.phase j) ≡ false
      → IsStuck i f h
      → IsStuck i f (after_look make_key requests j h o)
  unfolding after_look
  after_look-IsStuck i f j h none n o s = moves i f j _ h n o s
  after_look-IsStuck i f j h (some g) n o s = moves i f j _ h n o s

  after_claim-IsStuck :
      (i f j : Caller) (h : Herd Args Value) (o : Option Caller)
      → (j == i) ≡ false
      → is_over (h.phase j) ≡ false
      → IsStuck i f h
      → IsStuck i f (after_claim make_key requests j h o)
  unfolding after_claim
  after_claim-IsStuck i f j h none n o s = moves i f j _ h n o s
  after_claim-IsStuck i f j h (some g) n o s = moves i f j _ h n o s

  checks-IsStuck :
      (i f j : Caller) (now : ℕ) (h : Herd Args Value) (o : Option (CacheEntry Args Value))
      → (j == i) ≡ false
      → is_over (h.phase j) ≡ false
      → IsStuck i f h
      → IsStuck i f (first_check make_key requests j now h o)
        × IsStuck i f (second_check make_key requests j now h o)
  unfolding first_check second_check hit
  checks-IsStuck i f j now h none n o s =
      (after_look-IsStuck i f j h _ n o s, after_claim-IsStuck i f j h _ n o s)
  checks-IsStuck i f j now h (some entry) n o s = elim (Bool-cases (is_expired entry now)) [
    | inl old ↦ rw old (
      after_look-IsStuck i f j (record h { cache = evict (key_of make_key requests j) h.cache }) _ n
          o s,
      after_claim-IsStuck i f j h _ n o s,
    )
    | inr fresh ↦ let s' = moves i f j (done _) h n o s in rw fresh (s', s')
  ]

  act_in-IsStuck :
      (p : Phase Args Value) (i f j : Caller) (e : Event Value) (h : Herd Args Value)
      → h.phase j ≡ p
      → (j == i) ≡ false
      → is_cancel e ≡ false
      → IsStuck i f h
      → IsStuck i f (act_in make_key requests p j e h)
  unfolding act_in
  act_in-IsStuck asking i f j (look now) h at_p n k s =
      elim (Bool-cases (is_cacheable h.cache (requests j).tool_name)) [
        | inl cacheable ↦ rw cacheable ((checks-IsStuck i f j now h _ n (rw at_p refl) s).0)
        | inr other ↦ rw other (moves i f j direct h n (rw at_p refl) s)
      ]
  act_in-IsStuck claiming i f j (claim now) h at_p n k s =
      (checks-IsStuck i f j now h _ n (rw at_p refl) s).1
  act_in-IsStuck (waiting g) i f j wake h at_p n k s =
      woken-IsStuck i f j h (h.futures g) n (rw at_p refl) s
  act_in-IsStuck executing i f j (finish out now) h at_p n k s =
      stored-IsStuck i f j (entry_of make_key requests j h out now) h
        (store (suc (length h.cache.cache)) h.cache (key_of make_key requests j)
          (entry_of make_key requests j h out now))
        n (rw at_p refl) s
  act_in-IsStuck executing i f j fail h at_p n k s = settle-IsStuck i f j _ _ h n (rw at_p refl) s
  act_in-IsStuck direct i f j (finish out now) h at_p n k s =
      moves i f j (done _) h n (rw at_p refl) s
  act_in-IsStuck direct i f j fail h at_p n k s = moves i f j (done _) h n (rw at_p refl) s
  act_in-IsStuck (leaving reply) i f j leave h at_p n k s = ends i f j reply h n s
  act_in-IsStuck _ i f j cancel h at_p n k s = cc k
  act_in-IsStuck _ i f j e h at_p n k s = s

  -- the waiter itself has nothing to wake it
  own_step :
      (i f : Caller) (e : Event Value) (h : Herd Args Value)
      → h.futures f ≡ unset
      → is_cancel e ≡ false
      → act_in make_key requests (waiting f) i e h ≡ h
  unfolding act_in woken
  own_step i f wake h at_f k = rw at_f refl
  own_step i f (look _) h at_f k = refl
  own_step i f (claim _) h at_f k = refl
  own_step i f (finish _ _) h at_f k = refl
  own_step i f fail h at_f k = refl
  own_step i f cancel h at_f k = cc k
  own_step i f leave h at_f k = refl

  -- When a caller waits for one that is over without having set its future, as after the
  -- cancellation of an executor, it waits for good: no interleaving without further cancellations
  -- moves it.
  pub run-IsStuck :
      (es : List (Caller × Event Value)) (i f : Caller) (h : Herd Args Value)
      → All (λ e. is_cancel e.1 ≡ false) es
      → IsStuck i f h
      → IsStuck i f (run make_key requests es h)
  unfolding run act
  run-IsStuck [] i f h n s = s
  run-IsStuck ((j, e) ∷ es) i f h (n, ns) s = elim (Bool-cases (j == i)) [
    | inl self ↦
        let same = (nat_eq.same_iff j i).0 self in
        let stays : act_in make_key requests (h.phase j) j e h ≡ h =
          rw same (rw (s.0) (own_step i f e h (s.1) n)) in
        run-IsStuck es i f _ ns (subst (IsStuck i f) (sym stays) s)
    | inr off ↦ run-IsStuck es i f _ ns (act_in-IsStuck (h.phase j) i f j e h refl off n s)
  ]
