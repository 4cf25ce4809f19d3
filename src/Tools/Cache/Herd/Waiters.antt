-- ===== src/Tools/Cache/Herd/Waiters.antt =====
-- Who waits: as long as nobody is cancelled, each caller that waits will be woken; a cancelled
-- executor leaves those who wait for it waiting.
use dawn_kestrel.Prelude.{
  ℕ, suc, ◌≡◌, refl, String, true, false, Option, none, some, List, [], ◌∷◌, lookup, ◌⊎◌, ==_refl,
  length, Bool-cases, inl, inr, string_eq, nat_eq, All,
}
use dawn_kestrel.Tools.Cache.{CacheEntry, ToolResultCache, is_cacheable, is_expired, store}
use dawn_kestrel.Tools.Cache.Herd.{
  Caller, Request, Future, Phase, asking, claiming, waiting, executing, direct, leaving, done,
  Event, look, claim, finish, fail, cancel, leave, wake, Herd, with_phase, woken, key_of, hit,
  after_look, after_claim, first_check, second_check, stored, entry_of, act_in, act, run, new_herd,
  unset, result, cancelled, answers,
}
use dawn_kestrel.Tools.Cache.Herd.Watch.{
  is_cancel, is_executing, is_set, IsServed, goes_on, recached, waits_for, claims, settles, frees,
  new_herd-IsServed, executing_now,
}

module _ {Args Value : Type 0} (make_key : String → Args → String)
    (requests : Caller → Request Args) where
  after_look-IsServed :
      (i : Caller) (h : Herd Args Value) (o : Option Caller)
      → is_executing (h.phase i) ≡ false
      → lookup (key_of make_key requests i) h.pending ≡ o
      → IsServed h
      → IsServed (after_look make_key requests i h o)
  unfolding after_look
  after_look-IsServed i h none e held s = goes_on i claiming h e refl s
  after_look-IsServed i h (some f) e held s = waits_for i f h e (s.pended _ f held) s

  hit-IsServed :
      (i : Caller) (entry : CacheEntry Args Value) (h : Herd Args Value)
      → is_executing (h.phase i) ≡ false
      → IsServed h
      → IsServed (hit make_key requests i entry h)
  unfolding hit
  hit-IsServed i entry h e s = goes_on i (done _) (record h { cache = _ }) e refl (recached h _ s)

  first_check-IsServed :
      (i : Caller) (now : ℕ) (h : Herd Args Value) (o : Option (CacheEntry Args Value))
      → is_executing (h.phase i) ≡ false
      → IsServed h
      → IsServed (first_check make_key requests i now h o)
  unfolding first_check
  first_check-IsServed i now h none e s = after_look-IsServed i h _ e refl s
  first_check-IsServed i now h (some entry) e s = elim (Bool-cases (is_expired entry now)) [
    | inl old ↦ rw old (after_look-IsServed i (record h { cache = _ }) _ e refl (recached h _ s))
    | inr fresh ↦ rw fresh (hit-IsServed i entry h e s)
  ]

  after_claim-IsServed :
      (i : Caller) (h : Herd Args Value) (o : Option Caller)
      → is_executing (h.phase i) ≡ false
      → lookup (key_of make_key requests i) h.pending ≡ o
      → IsServed h
      → IsServed (after_claim make_key requests i h o)
  unfolding after_claim
  after_claim-IsServed i h none e held s = claims i _ (record h { cache = _ }) (recached h _ s)
  after_claim-IsServed i h (some f) e held s = waits_for i f h e (s.pended _ f held) s

  second_check-IsServed :
      (i : Caller) (now : ℕ) (h : Herd Args Value) (o : Option (CacheEntry Args Value))
      → is_executing (h.phase i) ≡ false
      → IsServed h
      → IsServed (second_check make_key requests i now h o)
  unfolding second_check
  second_check-IsServed i now h none e s = after_claim-IsServed i h _ e refl s
  second_check-IsServed i now h (some entry) e s = elim (Bool-cases (is_expired entry now)) [
    | inl old ↦ rw old (after_claim-IsServed i h _ e refl s)
    | inr fresh ↦ rw fresh (hit-IsServed i entry h e s)
  ]

  woken-IsServed :
      (i : Caller) (h : Herd Args Value) (v : Future Args Value)
      → is_executing (h.phase i) ≡ false
      → IsServed h
      → IsServed (woken i h v)
  unfolding woken
  woken-IsServed i h unset e s = s
  woken-IsServed i h (result none) e s = goes_on i (done _) h e refl s
  woken-IsServed i h (result (some entry)) e s =
      goes_on i (done _) (record h { cache = _ }) e refl (recached h _ s)
  woken-IsServed i h cancelled e s = goes_on i (done _) h e refl s

  stored-IsServed :
      (i : Caller) (entry : CacheEntry Args Value) (h : Herd Args Value)
      (o : Option (ToolResultCache Args Value))
      → IsServed h
      → IsServed (stored i entry h o)
  unfolding stored
  stored-IsServed i entry h none s = s
  stored-IsServed i entry h (some cache) s =
      settles i _ _ (record h { cache = cache }) (recached h cache s)

  act_in-IsServed :
      (p : Phase Args Value) (i : Caller) (e : Event Value) (h : Herd Args Value)
      → h.phase i ≡ p
      → is_cancel e ≡ false
      → IsServed h
      → IsServed (act_in make_key requests p i e h)
  unfolding act_in
  act_in-IsServed asking i (look now) h at_p n s =
      elim (Bool-cases (is_cacheable h.cache (requests i).tool_name)) [
        | inl cacheable ↦ rw cacheable (first_check-IsServed i now h _ (rw at_p refl) s)
        | inr other ↦ rw other (goes_on i direct h (rw at_p refl) refl s)
      ]
  act_in-IsServed claiming i (claim now) h at_p n s =
      second_check-IsServed i now h _ (rw at_p refl) s
  act_in-IsServed (waiting f) i wake h at_p n s = woken-IsServed i h _ (rw at_p refl) s
  act_in-IsServed executing i (finish out now) h at_p n s =
      stored-IsServed i (entry_of make_key requests i h out now) h
        (store (suc (length h.cache.cache)) h.cache (key_of make_key requests i)
          (entry_of make_key requests i h out now))
        s
  act_in-IsServed executing i fail h at_p n s = settles i _ _ h s
  act_in-IsServed direct i (finish out now) h at_p n s = goes_on i (done _) h (rw at_p refl) refl s
  act_in-IsServed direct i fail h at_p n s = goes_on i (done _) h (rw at_p refl) refl s
  act_in-IsServed (leaving reply) i leave h at_p n s = frees i _ reply h (rw at_p refl) s
  act_in-IsServed _ i cancel h at_p n s = cc n
  act_in-IsServed _ i e h at_p n s = s

  run-IsServed :
      (es : List (Caller × Event Value)) (h : Herd Args Value)
      → All (λ e. is_cancel e.1 ≡ false) es
      → IsServed h
      → IsServed (run make_key requests es h)
  unfolding run act
  run-IsServed [] h n s = s
  run-IsServed ((i, e) ∷ es) h (n, ns) s =
      run-IsServed es _ ns (act_in-IsServed (h.phase i) i e h refl n s)

  wake_answers :
      (i f : Caller) (h : Herd Args Value) (v : Future Args Value)
      → h.futures f ≡ v
      → is_set v ≡ true
      → h.phase i ≡ waiting f
      → (r : Option (CacheEntry Args Value)) × (h.futures f ≡ result r)
        × ((act make_key requests (i, wake) h).phase i ≡ done (answers r true))
  unfolding act act_in woken with_phase
  wake_answers i f h (result none) at_f n there =
      (none, at_f, rw there (rw at_f (rw (==_refl i) refl)))
  wake_answers i f h (result (some entry)) at_f n there =
      (some entry, at_f, rw there (rw at_f (rw (==_refl i) refl)))
  wake_answers i f h unset at_f n there = cc n
  wake_answers i f h cancelled at_f n there = cc n

  -- However the callers of a new cache are interleaved and made to fail, as long as nobody is
  -- cancelled, a caller that waits for another is never forgotten: either the other still executes,
  -- or its future is set, and the waiter goes on at once with the entry, or without one when the
  -- execution failed.
  pub run-served :
      (cache : ToolResultCache Args Value) (es : List (Caller × Event Value)) (i f : Caller)
      → All (λ e. is_cancel e.1 ≡ false) es
      → (run make_key requests es (new_herd cache)).phase i ≡ waiting f
      → let h = run make_key requests es (new_herd cache) in
        (h.phase f ≡ executing)
        ⊎ ((r : Option (CacheEntry Args Value)) × (h.futures f ≡ result r)
            × ((act make_key requests (i, wake) h).phase i ≡ done (answers r true)))
  run-served cache es i f n there =
      let h = run make_key requests es (new_herd cache) in
      let served = run-IsServed es (new_herd cache) n (new_herd-IsServed cache) in
      elim (Bool-cases (is_set (h.futures f))) [
        | inl set ↦ inr (wake_answers i f h (h.futures f) refl set there)
        | inr open_yet ↦ inl (executing_now (h.phase f) (rw open_yet at (served.waits i f there)))
      ]
