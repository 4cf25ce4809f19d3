-- ===== src/Tools/Cache/Herd/Watch.antt =====
-- What every step of a caller keeps, as long as nobody is cancelled: a future that somebody waits for
-- is set, or its owner executes.
use dawn_kestrel.Prelude.{
  ◌≡◌, refl, String, Bool, true, false, ◌||◌, Option, some, Dict, lookup, insert, delete,
  lookup-insert, lookup-delete_other, lookup-delete_self, Distinct, insert-Distinct,
  delete-Distinct, subst, Bool-cases, inl, inr, string_eq, nat_eq, ◌==◌, arith,
}
use dawn_kestrel.Tools.Cache.{CacheEntry, ToolResultCache}
use dawn_kestrel.Tools.Cache.Herd.{
  Caller, Future, Reply, Phase, asking, claiming, waiting, executing, direct, leaving, done, Event,
  cancel, Herd, with_phase, set_future, set_result, settle, new_herd, unset, result, cancelled,
}

still_pending :
    (j k : String) (d : Dict String Caller) {f : Caller}
    → Distinct d
    → lookup j (delete k d) ≡ some f
    → lookup j d ≡ some f
still_pending j k d distinct h =
    ground
      (arith, lookup-delete_other j k d, lookup-delete_self k d, string_eq.same_iff k j, distinct)

abbrev pub is_cancel : {Value : Type 0} → Event Value → Bool
is_cancel cancel = true
is_cancel _ = false

module _ {Args Value : Type 0} where
  abbrev pub is_executing : Phase Args Value → Bool
  is_executing executing = true
  is_executing _ = false

  abbrev pub is_set : Future Args Value → Bool
  is_set (result _) = true
  is_set _ = false

  abbrev pub is_cancelled : Future Args Value → Bool
  is_cancelled cancelled = true
  is_cancelled _ = false

  abbrev pub is_waiting : Phase Args Value → Bool
  is_waiting (waiting _) = true
  is_waiting _ = false

  -- its future is set, or will be
  abbrev pub live : Herd Args Value → Caller → Bool
  live h f = is_executing (h.phase f) || is_set (h.futures f)

  pub record IsServed (h : Herd Args Value) : Type 0 where
    pub clean : (f : Caller) → is_cancelled (h.futures f) ≡ false
    pub distinct : Distinct h.pending
    pub pended : (k : String) (f : Caller) → lookup k h.pending ≡ some f → live h f ≡ true
    pub waits : (i f : Caller) → h.phase i ≡ waiting f → live h f ≡ true

  live_kept :
      (i f : Caller) (p : Phase Args Value) (h : Herd Args Value)
      → is_executing (h.phase i) ≡ false
      → live h f ≡ true
      → live (with_phase i p h) f ≡ true
  unfolding with_phase
  live_kept i f p h e l = ground (arith, nat_eq.same_iff i f)

  set_result-is_set :
      (v : Future Args Value) (r : Option (CacheEntry Args Value))
      → is_cancelled v ≡ false
      → (is_set (set_result v r) ≡ true) × (is_cancelled (set_result v r) ≡ false)
  unfolding set_result
  set_result-is_set unset r h = (refl, refl)
  set_result-is_set (result x) r h = (refl, refl)
  set_result-is_set cancelled r h = cc

  pub goes_on :
      (i : Caller) (p : Phase Args Value) (h : Herd Args Value)
      → is_executing (h.phase i) ≡ false
      → is_waiting p ≡ false
      → IsServed h
      → IsServed (with_phase i p h)
  unfolding with_phase
  goes_on i p h e n s = record {
    clean = s.clean;
    distinct = s.distinct;
    pended = λ k f held. live_kept i f p h e (s.pended k f held);
    waits = λ j f there. elim (Bool-cases (i == j)) [
      | inl self ↦ cc (rw self at there)
      | inr off ↦ live_kept i f p h e (s.waits j f (rw off at there))
    ];
  }

  pub recached :
      (h : Herd Args Value) (c : ToolResultCache Args Value)
      → IsServed h
      → IsServed (record h { cache = c })
  recached h c s = record {
    clean = s.clean;
    distinct = s.distinct;
    pended = s.pended;
    waits = s.waits;
  }

  pub waits_for :
      (i g : Caller) (h : Herd Args Value)
      → is_executing (h.phase i) ≡ false
      → live h g ≡ true
      → IsServed h
      → IsServed (with_phase i (waiting g) h)
  unfolding with_phase
  waits_for i g h e l s = record {
    clean = s.clean;
    distinct = s.distinct;
    pended = λ k f held. live_kept i f (waiting g) h e (s.pended k f held);
    waits = λ j f there. elim (Bool-cases (i == j)) [
      | inl self ↦
          let same : g ≡ f = cc (rw self at there) in
          subst (λ t. live (with_phase i (waiting g) h) t ≡ true) same
            (live_kept i g (waiting g) h e l)
      | inr off ↦ live_kept i f (waiting g) h e (s.waits j f (rw off at there))
    ];
  }

  pub claims :
      (i : Caller) (k : String) (h : Herd Args Value)
      → IsServed h
      → IsServed (with_phase i executing (record h { pending = insert k i h.pending }))
  unfolding with_phase
  claims i k h s = record {
    clean = s.clean;
    distinct = insert-Distinct k i h.pending s.distinct;
    pended = λ j f held.
        ground (arith, lookup-insert k j i h.pending, s.pended j f, nat_eq.same_iff i f);
    waits = λ j f there. elim (Bool-cases (i == j)) [
      | inl self ↦ cc (rw self at there)
      | inr off ↦ let l = s.waits j f (rw off at there) in ground (arith, l)
    ];
  }

  pub settles :
      (i : Caller) (reply : Reply Args Value) (r : Option (CacheEntry Args Value))
      (h : Herd Args Value)
      → IsServed h
      → IsServed (settle i reply r h)
  unfolding settle with_phase set_future
  settles i reply r h s =
      let set_now = set_result-is_set (h.futures i) r (s.clean i) in
      record {
        clean = λ f. ground (arith, set_now, s.clean f, nat_eq.same_iff i f);
        distinct = s.distinct;
        pended = λ k f held.
            let l = s.pended k f held in ground (arith, l, set_now, nat_eq.same_iff i f);
        waits = λ j f there. elim (Bool-cases (i == j)) [
          | inl self ↦ cc (rw self at there)
          | inr off ↦
              let l = s.waits j f (rw off at there) in
              ground (arith, l, set_now, nat_eq.same_iff i f)
        ];
      }

  pub frees :
      (i : Caller) (k : String) (reply : Reply Args Value) (h : Herd Args Value)
      → is_executing (h.phase i) ≡ false
      → IsServed h
      → IsServed (with_phase i (done reply) (record h { pending = delete k h.pending }))
  unfolding with_phase
  frees i k reply h e s =
      let on = goes_on i (done reply) h e refl s in
      record {
        clean = s.clean;
        distinct = delete-Distinct k h.pending s.distinct;
        pended = λ j f held. on.pended j f (still_pending j k h.pending s.distinct held);
        waits = on.waits;
      }

  pub new_herd-IsServed : (cache : ToolResultCache Args Value) → IsServed (new_herd cache)
  unfolding new_herd lookup
  new_herd-IsServed cache = record {
    clean = λ f. refl;
    distinct = tt;
    pended = λ k f held. cc held;
    waits = λ i f there. cc there;
  }

  pub executing_now : (p : Phase Args Value) → (is_executing p || false) ≡ true → p ≡ executing
  executing_now executing h = refl
  executing_now asking h = cc h
  executing_now claiming h = cc h
  executing_now (waiting f) h = cc h
  executing_now direct h = cc h
  executing_now (leaving reply) h = cc h
  executing_now (done reply) h = cc h
