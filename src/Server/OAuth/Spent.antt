-- ===== src/Server/OAuth/Spent.antt =====
-- src/server/oauth.rs: a state is good for one callback, and for ten minutes.
use isabelle_core.Prelude.{
  ltb, leb, Bool-cases, Option-cases, ◌==◌, nat_Eq, string_Eq, Map, lookup, insert, remove, retain,
  lookup-insert, lookup-remove, beq_refl, Distinct, insert-Distinct, remove-Distinct, length, ℕ,
  zero, suc, ◌-◌, ◌<◌, String, ◌≡◌, refl, sym, ap, ◌∙◌, subst, inl, inr, Bool, true, false, Option,
  none, some, [], ◌∷◌, arith, eq_iff,
}
use isabelle_core.Server.OAuth.{
  flow_ttl_secs, max_flows, PendingFlow, PendingFlows, prune, oldest, without_oldest, make_room,
  insert_flow, take_flow, Step, starts, comes_back, Reachable, at_start, after,
}

module _ {V : Type 0} (p : String → V → Bool) where
  lookup-retain_absent :
      (k : String) (m : Map String V) → lookup k m ≡ none → lookup k (retain p m) ≡ none
  unfolding lookup retain
  lookup-retain_absent k [] h = refl
  lookup-retain_absent k ((j, v) ∷ m) h =
      let rest = lookup-retain_absent k m (ground arith) in
      elim (Bool-cases (p j v)) [ inl kept ↦ rw kept (ground arith) | inr gone ↦ rw gone rest ]

  retain-Distinct : (m : Map String V) → Distinct m → Distinct (retain p m)
  unfolding retain
  retain-Distinct [] d = tt
  retain-Distinct ((j, v) ∷ m) (absent, d) = elim (Bool-cases (p j v)) [
    | inl kept ↦ rw kept (lookup-retain_absent j m absent, retain-Distinct m d)
    | inr gone ↦ rw gone (retain-Distinct m d)
  ]

  lookup-retain_kept :
      (k : String) (v : V) (m : Map String V)
      → Distinct m
      → lookup k (retain p m) ≡ some v
      → (lookup k m ≡ some v) × (p k v ≡ true)
  unfolding lookup retain
  lookup-retain_kept k v [] d h = absurd (ground arith)
  lookup-retain_kept k v ((j, w) ∷ m) (absent, d) h = elim (Bool-cases (j == k)) [
    | inl same ↦
        let key : j ≡ k = (eq_iff j k).0 same in
        let gone : lookup k (retain p m) ≡ none =
          lookup-retain_absent k m (subst (λ x. lookup x m ≡ none) key absent) in
        elim (Bool-cases (p j w)) [
          | inl kept ↦
              let value : w ≡ v = ground arith in
              let passes : p k w ≡ true = subst (λ x. p x w ≡ true) key kept in
              (rw same (ap some value), subst (λ x. p k x ≡ true) value passes)
          | inr dropped ↦ absurd (ground arith)
        ]
    | inr other ↦
        let rest = lookup-retain_kept k v m d in
        rw other (elim (Bool-cases (p j w)) [
          | inl kept ↦ rest (ground arith)
          | inr dropped ↦ rest (ground arith)
        ])
  ]

-- What survives the removal of any key survives the eviction.
module _ (P : PendingFlows → Type 0)
    (closed : (k : String) (m : PendingFlows) → P m → P (remove k m)) where
  without_oldest-preserves :
      (loop : PendingFlows → Option PendingFlows) (flows room : PendingFlows)
      (o : Option (String × PendingFlow))
      → ((m : PendingFlows) → P m → loop m ≡ some room → P room)
      → P flows
      → without_oldest loop flows o ≡ some room
      → P room
  unfolding without_oldest
  without_oldest-preserves loop flows room none h d e = subst P (ground (arith, e)) d
  without_oldest-preserves loop flows room (some (k, f)) h d e =
      h (remove k flows) (closed k flows d) e

  make_room-preserves :
      (fuel : ℕ) (flows room : PendingFlows) → P flows → make_room fuel flows ≡ some room → P room
  unfolding make_room
  make_room-preserves zero flows room d e = cc e
  make_room-preserves (suc fuel) flows room d e = elim (Bool-cases (leb max_flows (length flows))) [
    | inl full ↦
        without_oldest-preserves (make_room fuel) flows room (oldest flows)
          (λ m. make_room-preserves fuel m room) d (sym (rw full refl) ∙ e)
    | inr small ↦ subst P (ground arith) d
  ]

  insert_flow-room :
      (flows next : PendingFlows) (state : String) (flow : PendingFlow) (now : ℕ)
      → P (prune flows now)
      → insert_flow flows state flow now ≡ some next
      → (room : PendingFlows) × P room × (next ≡ insert state flow room)
  unfolding insert_flow
  insert_flow-room flows next state flow now d e =
      let pruned = prune flows now in
      elim (Option-cases (make_room (suc (length pruned)) pruned)) [
        | inl stuck ↦ absurd (ground arith)
        | inr (room, made) ↦
            (room, make_room-preserves (suc (length pruned)) pruned room d made, ground arith)
      ]

Step-Distinct : {flows next : PendingFlows} → Distinct flows → Step flows next → Distinct next
unfolding take_flow prune
Step-Distinct {flows} {next} d (starts state flow now e) =
    let fresh : String → PendingFlow → Bool = λ k f. ltb (now - f.started_at) flow_ttl_secs in
    let (room, ok, made) =
      insert_flow-room Distinct (λ k m. remove-Distinct k m) flows next state flow now
        (retain-Distinct fresh flows d) e in
    subst Distinct (sym made) (insert-Distinct state flow room ok)
Step-Distinct {flows} d (comes_back state now) =
    remove-Distinct state (prune flows now)
      (retain-Distinct (λ k f. ltb (now - f.started_at) flow_ttl_secs) flows d)

Reachable-Distinct : {flows : PendingFlows} → Reachable flows → Distinct flows
Reachable-Distinct at_start = tt
Reachable-Distinct (after r step) = Step-Distinct (Reachable-Distinct r) step

-- Steps that do not start a sign-in under `state`.
pub data WithoutStart (state : String) : PendingFlows → PendingFlows → Type 0 where
  nothing : {flows : PendingFlows} → WithoutStart state flows flows
  another :
      {flows between next : PendingFlows} (other : String) (flow : PendingFlow) (now : ℕ)
      → (other == state) ≡ false
      → insert_flow flows other flow now ≡ some between
      → WithoutStart state between next
      → WithoutStart state flows next
  callback :
      {flows next : PendingFlows} (other : String) (now : ℕ)
      → WithoutStart state (take_flow flows other now).0 next
      → WithoutStart state flows next

abbrev Absent : String → PendingFlows → Type 0
Absent k m = lookup k m ≡ none

remove-Absent : (k j : String) (m : PendingFlows) → Absent k m → Absent k (remove j m)
remove-Absent k j m h = rw lookup-remove (ground arith)

WithoutStart-Absent :
    (state : String) {flows next : PendingFlows}
    → Absent state flows
    → WithoutStart state flows next
    → Absent state next
unfolding take_flow prune
WithoutStart-Absent state h nothing = h
WithoutStart-Absent state {flows} h (another {between = between} other flow now ne e more) =
    let (room, ok, made) =
      insert_flow-room (Absent state) (λ k m. remove-Absent state k m) flows between other flow now
        (lookup-retain_absent (λ k f. ltb (now - f.started_at) flow_ttl_secs) state flows h) e in
    WithoutStart-Absent state (subst (Absent state) (sym made) (rw (lookup-insert, ne) ok)) more
WithoutStart-Absent state {flows} h (callback other now more) =
    WithoutStart-Absent state
      (remove-Absent state other (prune flows now)
        (lookup-retain_absent (λ k f. ltb (now - f.started_at) flow_ttl_secs) state flows h))
      more

-- A callback finds a flow only if one was started under its state less than ten minutes ago; and
-- then no later callback with that state finds one, whatever other sign-ins start and come back in
-- between, until a sign-in is started under that state again.
pub take_flow-once :
    {flows : PendingFlows} (state : String) (now : ℕ) (f : PendingFlow)
    → Reachable flows
    → (take_flow flows state now).1 ≡ some f
    → (lookup state flows ≡ some f)
      × (now - f.started_at < flow_ttl_secs)
      × ((next : PendingFlows) (later : ℕ)
          → WithoutStart state (take_flow flows state now).0 next
          → (take_flow next state later).1 ≡ none)
unfolding take_flow prune
take_flow-once {flows} state now f r e =
    let fresh : String → PendingFlow → Bool = λ k g. ltb (now - g.started_at) flow_ttl_secs in
    let (found, young) = lookup-retain_kept fresh state f flows (Reachable-Distinct r) e in
    (
      found,
      ground arith,
      λ next later quiet.
          lookup-retain_absent (λ k g. ltb (later - g.started_at) flow_ttl_secs) state next
            (WithoutStart-Absent state (rw lookup-remove (ground (arith, beq_refl state))) quiet),
    )
