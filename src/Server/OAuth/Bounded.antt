-- ===== src/Server/OAuth/Bounded.antt =====
-- src/server/oauth.rs: the flows in flight are bounded, and what is dropped is the oldest.
use isabelle_core.Prelude.{
  ltb, leb, Bool-cases, ◌==◌, nat_Eq, string_Eq, any, Map, lookup, insert, remove, retain,
  lookup-insert, beq_refl, length, ℕ, zero, suc, ◌-◌, ◌≤◌, ◌<◌, String, ◌≡◌, refl, sym, ap, ◌∙◌,
  subst, ◌⊎◌, inl, inr, Bool, true, Option, none, some, [], ◌∷◌, arith, eq_refl,
}
use isabelle_core.Server.OAuth.{
  flow_ttl_secs, max_flows, PendingFlow, PendingFlows, prune, older, oldest, without_oldest,
  make_room, insert_flow, take_flow, Step, starts, comes_back, Reachable, at_start, after,
}

module _ {V : Type 0} where
  pub length-remove-le : (k : String) (m : Map String V) → length (remove k m) ≤ length m
  unfolding remove
  length-remove-le k [] = omega arith
  length-remove-le k ((j, v) ∷ m) = ground (arith, length-remove-le k m)

  pub length-retain-le : (p : String → V → Bool) (m : Map String V) → length (retain p m) ≤ length m
  unfolding retain
  length-retain-le p [] = omega arith
  length-retain-le p ((j, v) ∷ m) = ground (arith, length-retain-le p m)

  length-insert-le :
      (k : String) (v : V) (m : Map String V) → length (insert k v m) ≤ suc (length m)
  unfolding insert
  length-insert-le k v [] = omega arith
  length-insert-le k v ((j, w) ∷ m) = ground (arith, length-insert-le k v m)

  -- Removing a key that is there leaves fewer.
  length-remove-lt :
      (k : String) (m : Map String V)
      → any (λ e. e.0 == k) m ≡ true
      → length (remove k m) < length m
  unfolding remove
  length-remove-lt k [] h = cc h
  length-remove-lt k ((j, v) ∷ m) h =
      let fewer = length-remove-le k m in
      elim (Bool-cases (j == k)) [
        | inl same ↦ rw same (omega (arith, fewer))
        | inr other ↦ rw other (omega (arith, length-remove-lt k m (ground arith)))
      ]

older-cases :
    (e x : String × PendingFlow) (o : Option (String × PendingFlow))
    → older e o ≡ x
    → (e ≡ x) ⊎ (o ≡ some x)
unfolding older
older-cases (k, f) x none h = inl h
older-cases (k, f) x (some (j, g)) h = elim (Bool-cases (leb f.started_at g.started_at)) [
  | inl before ↦ inl (sym (rw before refl) ∙ h)
  | inr behind ↦ inr (ap some (sym (rw behind refl) ∙ h))
]

-- The oldest flow is one of the flows.
oldest-any :
    (flows : PendingFlows) (x : String × PendingFlow)
    → oldest flows ≡ some x
    → any (λ e. e.0 == x.0) flows ≡ true
unfolding oldest
oldest-any [] x h = cc h
oldest-any (e ∷ flows) x h = elim (older-cases e x (oldest flows) (ground (arith, h))) [
  | inl here ↦ rw (ap (λ y. y.0) here, eq_refl x.0) refl
  | inr there ↦ let rest = oldest-any flows x there in ground arith
]

-- One round of the loop, where it ends for every smaller map.
without_oldest-total :
    (loop : PendingFlows → Option PendingFlows) (flows : PendingFlows)
    (o : Option (String × PendingFlow))
    → ((m : PendingFlows)
        → length m < length flows
        → (room : PendingFlows) × (loop m ≡ some room) × (length room < max_flows))
    → oldest flows ≡ o
    → (room : PendingFlows) × (without_oldest loop flows o ≡ some room) × (length room < max_flows)
unfolding without_oldest oldest
without_oldest-total loop [] none h e = ([], refl, omega arith)
without_oldest-total loop (x ∷ flows) none h e = absurd (ground arith)
without_oldest-total loop flows (some x) h e =
    h (remove x.0 flows) (length-remove-lt x.0 flows (oldest-any flows x e))

-- Evicting ends with room for one more, however full the map is.
make_room-total :
    (fuel : ℕ) (flows : PendingFlows)
    → length flows < fuel
    → (room : PendingFlows) × (make_room fuel flows ≡ some room) × (length room < max_flows)
unfolding make_room
make_room-total zero flows h = absurd (omega arith)
make_room-total (suc fuel) flows h = elim (Bool-cases (leb max_flows (length flows))) [
  | inl full ↦ rw full (
      without_oldest-total (make_room fuel) flows (oldest flows)
        (λ m less. make_room-total fuel m (omega (arith, h, less))) refl)
  | inr room ↦ rw room (flows, refl, ground arith)
]

-- Starting a sign-in always succeeds: it leaves at most 512 flows in flight, with the new flow
-- among them under its state, whatever the map held and however many flows were started at once.
pub insert_flow-total :
    (flows : PendingFlows) (state : String) (flow : PendingFlow) (now : ℕ)
    → (next : PendingFlows) × (insert_flow flows state flow now ≡ some next)
      × (length next ≤ max_flows)
      × (lookup state next ≡ some flow)
unfolding insert_flow
insert_flow-total flows state flow now =
    let (room, made, small) =
      make_room-total (suc (length (prune flows now))) (prune flows now) (omega arith) in
    (
      insert state flow room,
      rw made refl,
      omega (arith, small, length-insert-le state flow room),
      rw lookup-insert (ground (arith, beq_refl state)),
    )

Step-bounded :
    {flows next : PendingFlows}
    → length flows ≤ max_flows
    → Step flows next
    → length next ≤ max_flows
unfolding take_flow prune
Step-bounded {flows} {next} h (starts state flow now e) =
    let (made, found, small, kept) = insert_flow-total flows state flow now in
    let same : made ≡ next = ground (arith, found, e) in
    subst (λ m. length m ≤ max_flows) same small
Step-bounded {flows} h (comes_back state now) = omega (
  arith,
  h,
  length-remove-le state (prune flows now),
  length-retain-le (λ k f. ltb (now - f.started_at) flow_ttl_secs) flows,
)

-- However many sign-ins anybody starts and whatever callbacks come, this process never holds more
-- than 512 flows.
pub Reachable-bounded : {flows : PendingFlows} → Reachable flows → length flows ≤ max_flows
Reachable-bounded at_start = omega arith
Reachable-bounded (after r step) = Step-bounded (Reachable-bounded r) step
