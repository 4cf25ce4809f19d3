-- ===== src/Tools/Cache/Herd/Alone.antt =====
-- Who executes: no two callers at once for one key.
use dawn_kestrel.Prelude.{
  ℕ, ◌≡◌, ◌≢◌, refl, String, Bool, true, false, Option, none, some, List, [], ◌∷◌, lookup, insert,
  delete, lookup-insert, lookup-delete_other, Bool-cases, inl, inr, string_eq, nat_eq, ◌==◌, arith,
}
use dawn_kestrel.Tools.Cache.{CacheEntry, ToolResultCache, is_cacheable, is_expired, evict}
use dawn_kestrel.Tools.Cache.Herd.{
  Caller, Request, Future, Reply, Phase, asking, claiming, waiting, executing, direct, leaving,
  done, Event, look, claim, finish, fail, cancel, leave, wake, Herd, with_phase, set_future, woken,
  key_of, hit, after_look, after_claim, first_check, second_check, settle, stored, act_in, act, run,
  new_herd, unset, result, cancelled,
}

module _ {Args Value : Type 0} where
  -- from the claim of its key until the key is free again
  abbrev pub is_owner : Phase Args Value → Bool
  is_owner executing = true
  is_owner (leaving _) = true
  is_owner _ = false

module _ {Args Value : Type 0} (make_key : String → Args → String)
    (requests : Caller → Request Args) where
  -- whoever executes is the one under whose name its key is pending
  abbrev Claimed : Herd Args Value → Type 0
  Claimed h =
      (j : Caller)
      → is_owner (h.phase j) ≡ true
      → lookup (key_of make_key requests j) h.pending ≡ some j

  others_go_on :
      (i : Caller) (p : Phase Args Value) (h : Herd Args Value)
      → is_owner p ≡ false
      → Claimed h
      → Claimed (with_phase i p h)
  unfolding with_phase
  others_go_on i p h n c j own = elim (Bool-cases (i == j)) [
    | inl self ↦ cc (rw self at own)
    | inr off ↦ c j (rw off at own)
  ]

  owner_goes_on :
      (i : Caller) (p : Phase Args Value) (h : Herd Args Value)
      → is_owner (h.phase i) ≡ true
      → Claimed h
      → Claimed (with_phase i p h)
  unfolding with_phase
  owner_goes_on i p h o c j own = elim (Bool-cases (i == j)) [
    | inl self ↦ rw (← (nat_eq.same_iff i j).0 self) (c i o)
    | inr off ↦ c j (rw off at own)
  ]

  claims :
      (i : Caller) (h : Herd Args Value)
      → lookup (key_of make_key requests i) h.pending ≡ none
      → Claimed h
      → Claimed (
          with_phase i executing
            (record h { pending = insert (key_of make_key requests i) i h.pending }))
  unfolding with_phase
  claims i h free c j own = elim (Bool-cases (i == j)) [
    | inl self ↦
        let same = (nat_eq.same_iff i j).0 self in
        ground (
          arith,
          lookup-insert (key_of make_key requests i) (key_of make_key requests j) i h.pending,
          string_eq.same_iff (key_of make_key requests i) (key_of make_key requests j),
          same,
        )
    | inr off ↦ ground (
      arith,
      lookup-insert (key_of make_key requests i) (key_of make_key requests j) i h.pending,
      string_eq.same_iff (key_of make_key requests i) (key_of make_key requests j),
      c j (rw off at own),
      free,
    )
  ]

  frees :
      (i : Caller) (h : Herd Args Value) (reply : Reply Args Value)
      → is_owner (h.phase i) ≡ true
      → Claimed h
      → Claimed (
          with_phase i
            (done reply)
            (record h { pending = delete (key_of make_key requests i) h.pending }))
  unfolding with_phase
  frees i h reply o c j own = elim (Bool-cases (i == j)) [
    | inl self ↦ cc (rw self at own)
    | inr off ↦
        let mine = c i o in
        let theirs = c j (rw off at own) in
        ground (
          arith,
          lookup-delete_other (key_of make_key requests j) (key_of make_key requests i) h.pending,
          string_eq.same_iff (key_of make_key requests i) (key_of make_key requests j),
          nat_eq.same_iff i j,
          mine,
          theirs,
        )
  ]

  after_look-Claimed :
      (i : Caller) (h : Herd Args Value) (o : Option Caller)
      → Claimed h
      → Claimed (after_look make_key requests i h o)
  unfolding after_look
  after_look-Claimed i h none c = others_go_on i claiming h refl c
  after_look-Claimed i h (some f) c = others_go_on i (waiting f) h refl c

  first_check-Claimed :
      (i : Caller) (now : ℕ) (h : Herd Args Value) (o : Option (CacheEntry Args Value))
      → Claimed h
      → Claimed (first_check make_key requests i now h o)
  unfolding first_check hit
  first_check-Claimed i now h none c = after_look-Claimed i h _ c
  first_check-Claimed i now h (some entry) c = elim (Bool-cases (is_expired entry now)) [
    | inl old ↦
        rw old (
          after_look-Claimed i (record h { cache = evict (key_of make_key requests i) h.cache }) _
            c)
    | inr fresh ↦ rw fresh (others_go_on i (done _) h refl c)
  ]

  after_claim-Claimed :
      (i : Caller) (h : Herd Args Value) (o : Option Caller)
      → lookup (key_of make_key requests i) h.pending ≡ o
      → Claimed h
      → Claimed (after_claim make_key requests i h o)
  unfolding after_claim
  after_claim-Claimed i h none free c = claims i h free c
  after_claim-Claimed i h (some f) _ c = others_go_on i (waiting f) h refl c

  second_check-Claimed :
      (i : Caller) (now : ℕ) (h : Herd Args Value) (o : Option (CacheEntry Args Value))
      → Claimed h
      → Claimed (second_check make_key requests i now h o)
  unfolding second_check hit
  second_check-Claimed i now h none c = after_claim-Claimed i h _ refl c
  second_check-Claimed i now h (some entry) c = elim (Bool-cases (is_expired entry now)) [
    | inl old ↦ rw old (after_claim-Claimed i h _ refl c)
    | inr fresh ↦ rw fresh (others_go_on i (done _) h refl c)
  ]

  woken-Claimed :
      (i : Caller) (h : Herd Args Value) (v : Future Args Value) → Claimed h → Claimed (woken i h v)
  unfolding woken
  woken-Claimed i h unset c = c
  woken-Claimed i h (result none) c = others_go_on i (done _) h refl c
  woken-Claimed i h (result (some entry)) c = others_go_on i (done _) h refl c
  woken-Claimed i h cancelled c = others_go_on i (done _) h refl c

  stored-Claimed :
      (i : Caller) (entry : CacheEntry Args Value) (h : Herd Args Value)
      (o : Option (ToolResultCache Args Value))
      → is_owner (h.phase i) ≡ true
      → Claimed h
      → Claimed (stored i entry h o)
  unfolding stored settle set_future
  stored-Claimed i entry h none own c = c
  stored-Claimed i entry h (some cache) own c = owner_goes_on i (leaving _) h own c

  act_in-Claimed :
      (p : Phase Args Value) (i : Caller) (e : Event Value) (h : Herd Args Value)
      → h.phase i ≡ p
      → Claimed h
      → Claimed (act_in make_key requests p i e h)
  unfolding act_in settle set_future
  act_in-Claimed asking i (look now) h at_p c =
      elim (Bool-cases (is_cacheable h.cache (requests i).tool_name)) [
        | inl cacheable ↦ rw cacheable (first_check-Claimed i now h _ c)
        | inr other ↦ rw other (others_go_on i direct h refl c)
      ]
  act_in-Claimed asking i cancel h at_p c = others_go_on i (done _) h refl c
  act_in-Claimed claiming i (claim now) h at_p c = second_check-Claimed i now h _ c
  act_in-Claimed claiming i cancel h at_p c = others_go_on i (done _) h refl c
  act_in-Claimed (waiting f) i wake h at_p c = woken-Claimed i h _ c
  act_in-Claimed (waiting f) i cancel h at_p c = others_go_on i (done _) h refl c
  act_in-Claimed executing i (finish out now) h at_p c = stored-Claimed i _ h _ (rw at_p refl) c
  act_in-Claimed executing i fail h at_p c = owner_goes_on i (leaving _) h (rw at_p refl) c
  act_in-Claimed executing i cancel h at_p c = owner_goes_on i (leaving _) h (rw at_p refl) c
  act_in-Claimed direct i (finish out now) h at_p c = others_go_on i (done _) h refl c
  act_in-Claimed direct i fail h at_p c = others_go_on i (done _) h refl c
  act_in-Claimed direct i cancel h at_p c = others_go_on i (done _) h refl c
  act_in-Claimed (leaving reply) i leave h at_p c = frees i h reply (rw at_p refl) c
  act_in-Claimed (leaving reply) i cancel h at_p c = others_go_on i (done _) h refl c
  act_in-Claimed _ i e h at_p c = c

  run-Claimed :
      (es : List (Caller × Event Value)) (h : Herd Args Value)
      → Claimed h
      → Claimed (run make_key requests es h)
  unfolding run act
  run-Claimed [] h c = c
  run-Claimed ((i, e) ∷ es) h c = run-Claimed es _ (act_in-Claimed (h.phase i) i e h refl c)

  -- However the callers of a new cache are interleaved, cancelled and made to fail, no two of them
  -- execute the same tool with the same arguments at once: while one is between its claim and the
  -- end of its `finally`, no other one with an equal key is.
  pub run-alone :
      (cache : ToolResultCache Args Value) (es : List (Caller × Event Value)) (i j : Caller)
      → let h = run make_key requests es (new_herd cache) in
        is_owner (h.phase i) ≡ true
        → key_of make_key requests i ≡ key_of make_key requests j
        → i ≢ j
        → is_owner (h.phase j) ≡ false
  unfolding new_herd
  run-alone cache es i j own_i same differ =
      let claimed = run-Claimed es (new_herd cache) (λ k own. cc own) in
      let h = run make_key requests es (new_herd cache) in
      elim (Bool-cases (is_owner (h.phase j))) [
        | inl own_j ↦ absurd (differ (cc (claimed i own_i, claimed j own_j, same)))
        | inr free ↦ free
      ]
