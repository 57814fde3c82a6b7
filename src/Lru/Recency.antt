-- ===== src/Lru/Recency.antt =====
-- The order of replacement, against a clock: every call gets a time, and an account is kept of when
-- each key was last used. A use is an insertion, an access, or the unpinning of a pinned key.
use hscfs.Base.{
  ℕ, suc, ◌<◌, ◌≡◌, ◌≢◌, List, [], ◌∷◌, ◌++◌, Bool, true, false, Option, none, some, arith, Eq,
  count, count-erase, erase, put, ◌>>=◌, >>=-eq-some, some_inj, subst, =?_refl, Option-cases, inl,
  inr,
}
use hscfs.Lru
use hscfs.Lru.Stamps.{
  Before, Ascending, Ascending-erase, Before-erase, Before-later, Ascending-use, Before-use,
  After-count, Ascending-put, Before-put,
}
use hscfs.Lru.{Lru}
use hscfs.Lru.Invariant.{
  IsConsistent, empty-IsConsistent, add-IsConsistent, pin-IsConsistent, unpin-IsConsistent,
  access-IsConsistent, remove-IsConsistent, pop_replaced-IsConsistent,
}

pub data Call (K : Type 0) : Type 0 where
  adds pins unpins accesses removes : K → Call K
  pops : Call K

pub record Clocked (K : Type 0) : Type 0 where
  pub now : ℕ
  pub last_use : K → ℕ
  pub replacer : Lru K

module _ {K : Type 0} ⦃e : Eq K⦄ where
  abbrev pub used : Clocked K → K → Lru K → Clocked K
  used c k r = record { now = suc c.now; last_use = put c.last_use k c.now; replacer = r }

  abbrev pub unused : Clocked K → Lru K → Clocked K
  unused c r = record c { now = suc c.now; replacer = r }

  abbrev pub unpinned : Clocked K → K → Option Bool → Lru K → Clocked K
  unpinned c k (some true) r = used c k r
  unpinned c k (some false) r = unused c r
  unpinned c k none r = unused c r

  unfoldable pub step : Clocked K → Call K → Option (Clocked K)
  step c (adds k) = do r ← Lru.add c.replacer k; some (used c k r)
  step c (pins k) = do r ← Lru.pin c.replacer k; some (unused c r)
  step c (unpins k) = do r ← Lru.unpin c.replacer k; some (unpinned c k (c.replacer.key_states k) r)
  step c (accesses k) = do r ← Lru.access c.replacer k; some (used c k r)
  step c (removes k) = do r ← Lru.remove c.replacer k; some (unused c r)
  step c pops = do (k, r) ← Lru.pop_replaced c.replacer; some (unused c r)

  unfoldable pub run : Clocked K → List (Call K) → Option (Clocked K)
  run c [] = some c
  run c (call ∷ calls) = do c' ← step c call; run c' calls

  unfoldable pub start : Clocked K
  start = record { now = 0; last_use = λ _. 0; replacer = Lru.empty }

  record Tracks (c : Clocked K) : Type 0 where
    valid : IsConsistent c.replacer
    ascending : Ascending c.last_use c.replacer.lru_list
    before : Before c.last_use c.now c.replacer.lru_list

  start-Tracks : Tracks start
  unfolding start Lru.empty
  start-Tracks = record { valid = empty-IsConsistent; ascending = tt; before = tt }

  -- A list that is unchanged, or that has lost keys, at the next moment.
  keep-Tracks :
      (c : Clocked K) {r : Lru K}
      → Tracks c
      → IsConsistent r
      → r.lru_list ≡ c.replacer.lru_list
      → Tracks (unused c r)
  keep-Tracks c t v h = record {
    valid = v;
    ascending = rw h t.ascending;
    before = rw h (Before-later c.last_use c.now _ t.before);
  }

  erase-Tracks :
      (c : Clocked K) (k : K) {r : Lru K}
      → Tracks c
      → IsConsistent r
      → r.lru_list ≡ erase k c.replacer.lru_list
      → Tracks (unused c r)
  erase-Tracks c k t v h = record {
    valid = v;
    ascending = rw h (Ascending-erase c.last_use k _ t.ascending);
    before = rw h (Before-later c.last_use c.now _ (Before-erase c.last_use c.now k _ t.before));
  }

  -- A list that gets a used key at its end.
  use-Tracks :
      (c : Clocked K) (k : K) {r : Lru K}
      → Tracks c
      → IsConsistent r
      → count k c.replacer.lru_list ≡ 0
      → r.lru_list ≡ c.replacer.lru_list ++ k ∷ []
      → Tracks (used c k r)
  use-Tracks c k t v absent h = record {
    valid = v;
    ascending = rw h (Ascending-use c.last_use c.now k _ absent t.ascending t.before);
    before = rw h (Before-use c.last_use c.now k _ absent t.before);
  }

  reuse-Tracks :
      (c : Clocked K) (k : K) {r : Lru K}
      → Tracks c
      → IsConsistent r
      → count k (erase k c.replacer.lru_list) ≡ 0
      → r.lru_list ≡ erase k c.replacer.lru_list ++ k ∷ []
      → Tracks (used c k r)
  reuse-Tracks c k t v absent h = record {
    valid = v;
    ascending = rw h (
        Ascending-use c.last_use c.now k _ absent (Ascending-erase c.last_use k _ t.ascending)
          (Before-erase c.last_use c.now k _ t.before));
    before =
        rw h (Before-use c.last_use c.now k _ absent (Before-erase c.last_use c.now k _ t.before));
  }

  restamp-Tracks :
      (c : Clocked K) (k : K) {r : Lru K}
      → Tracks c
      → IsConsistent r
      → count k c.replacer.lru_list ≡ 0
      → r.lru_list ≡ c.replacer.lru_list
      → Tracks (used c k r)
  restamp-Tracks c k t v absent h = record {
    valid = v;
    ascending = rw h (Ascending-put c.last_use c.now k _ absent t.ascending);
    before = rw h (
        Before-later (put c.last_use k c.now) c.now _
          (Before-put c.last_use c.now c.now k _ absent t.before));
  }

  module _ (c : Clocked K) (k : K) {r : Lru K} (t : Tracks c) where
    add-Tracks : Lru.add c.replacer k ≡ some r → Tracks (used c k r)
    unfolding Lru.add
    add-Tracks h =
        use-Tracks c k t (add-IsConsistent c.replacer k t.valid h) (ground (arith, t.valid.lru k))
          (ground arith)

    pin-Tracks : Lru.pin c.replacer k ≡ some r → Tracks (unused c r)
    unfolding Lru.pin
    pin-Tracks h =
        let v = pin-IsConsistent c.replacer k t.valid h in
        elim (Option-cases (c.replacer.key_states k)) [
          | inl e0 ↦ absurd (ground arith)
          | inr (true, e0) ↦ keep-Tracks c t v (ground arith)
          | inr (false, e0) ↦ erase-Tracks c k t v (ground arith)
        ]

    unpin-Tracks :
        Lru.unpin c.replacer k ≡ some r → Tracks (unpinned c k (c.replacer.key_states k) r)
    unfolding Lru.unpin
    unpin-Tracks h =
        let v = unpin-IsConsistent c.replacer k t.valid h in
        elim (Option-cases (c.replacer.key_states k)) [
          | inl e0 ↦ absurd (ground arith)
          | inr (true, e0) ↦
              rw e0 (use-Tracks c k t v (ground (arith, t.valid.lru k)) (ground arith))
          | inr (false, e0) ↦ rw e0 (keep-Tracks c t v (ground arith))
        ]

    access-Tracks : Lru.access c.replacer k ≡ some r → Tracks (used c k r)
    unfolding Lru.access
    access-Tracks h =
        let v = access-IsConsistent c.replacer k t.valid h in
        elim (Option-cases (c.replacer.key_states k)) [
          | inl e0 ↦ absurd (ground arith)
          | inr (true, e0) ↦ restamp-Tracks c k t v (ground (arith, t.valid.lru k)) (ground arith)
          | inr (false, e0) ↦
              reuse-Tracks c k t v
                (ground (arith, t.valid.lru k, =?_refl k, count-erase k k c.replacer.lru_list))
                (ground arith)
        ]

    remove-Tracks : Lru.remove c.replacer k ≡ some r → Tracks (unused c r)
    unfolding Lru.remove
    remove-Tracks h =
        let v = remove-IsConsistent c.replacer k t.valid h in
        elim (Option-cases (c.replacer.key_states k)) [
          | inl e0 ↦ absurd (ground arith)
          | inr (true, e0) ↦ keep-Tracks c t v (ground arith)
          | inr (false, e0) ↦ erase-Tracks c k t v (ground arith)
        ]

    pop-Tracks : Lru.pop_replaced c.replacer ≡ some (k, r) → Tracks (unused c r)
    unfolding Lru.pop_replaced
    pop-Tracks h =
        let v = pop_replaced-IsConsistent c.replacer k t.valid h in
        erase-Tracks c k t v (ground (arith, =?_refl k))

  step-Tracks :
      (c : Clocked K) (call : Call K) {c' : Clocked K}
      → Tracks c
      → step c call ≡ some c'
      → Tracks c'
  unfolding step
  step-Tracks c (adds k) t h =
      let (r, done, e0) = >>=-eq-some (Lru.add c.replacer k) _ h in
      subst Tracks (some_inj e0) (add-Tracks c k t done)
  step-Tracks c (pins k) t h =
      let (r, done, e0) = >>=-eq-some (Lru.pin c.replacer k) _ h in
      subst Tracks (some_inj e0) (pin-Tracks c k t done)
  step-Tracks c (unpins k) t h =
      let (r, done, e0) = >>=-eq-some (Lru.unpin c.replacer k) _ h in
      subst Tracks (some_inj e0) (unpin-Tracks c k t done)
  step-Tracks c (accesses k) t h =
      let (r, done, e0) = >>=-eq-some (Lru.access c.replacer k) _ h in
      subst Tracks (some_inj e0) (access-Tracks c k t done)
  step-Tracks c (removes k) t h =
      let (r, done, e0) = >>=-eq-some (Lru.remove c.replacer k) _ h in
      subst Tracks (some_inj e0) (remove-Tracks c k t done)
  step-Tracks c pops t h =
      let ((k, r), done, e0) = >>=-eq-some (Lru.pop_replaced c.replacer) _ h in
      subst Tracks (some_inj e0) (pop-Tracks c k t done)

  run-Tracks :
      (c : Clocked K) (calls : List (Call K)) {c' : Clocked K}
      → Tracks c
      → run c calls ≡ some c'
      → Tracks c'
  unfolding run
  run-Tracks c [] t h = subst Tracks (some_inj h) t
  run-Tracks c (call ∷ calls) t h =
      let (d, stepped, rest) = >>=-eq-some (step c call) _ h in
      run-Tracks d calls (step-Tracks c call t stepped) rest

  -- After any history of calls that meets no failed assertion, the key that is replaced is unpinned,
  -- and every other key that could have been replaced was used later.
  pub pop_replaced-least_recent :
      (calls : List (Call K)) {c : Clocked K} {k : K} {r : Lru K}
      → run start calls ≡ some c
      → Lru.pop_replaced c.replacer ≡ some (k, r)
      → (c.replacer.key_states k ≡ some false)
        × ((j : K) → j ≢ k → c.replacer.key_states j ≡ some false → c.last_use k < c.last_use j)
  unfolding Lru.pop_replaced
  pop_replaced-least_recent calls {c} {k} {r} ran popped =
      let t = run-Tracks start calls start-Tracks ran in
      (
        ground arith,
        λ j ne free. ground (
          arith,
          t.valid.lru j,
          e.beq_iff k j,
          After-count c.last_use (c.last_use k) j r.lru_list,
        ),
      )
