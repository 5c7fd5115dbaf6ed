-- ===== src/Server/OAuth.antt =====
-- src/server/oauth.rs: signing in with an identity provider. This file has the sign-ins in flight
-- and the addresses; Server/OAuth/Callback.antt has what a callback does with them. The clock is an
-- argument.
pub mod Bounded
pub mod Spent
pub mod Paths
pub mod Callback
pub mod Start
pub mod Handled
pub mod Admitted
pub mod Redirects
use isabelle_core.Prelude.{
  ltb, leb, nat_eq, if◌then◌else◌, nat_eq_iff, Bool-cases, Option-cases, ◌>>=◌, Eq, ◌==◌, nat_Eq,
  string_Eq, u64_max, saturating_add, saturating_mul, is_some, any, all, contains, nat_eq_refl, Map,
  or_else, lookup, insert, remove, retain, contains_key, lookup-insert, lookup-remove, beq_refl,
  Distinct, insert-Distinct, remove-Distinct, is_empty, starts_with, append, contains_text,
  any_char, ends_with_char, first_part, split_on, is_whitespace, is_control, trim_start, trim_end,
  trim, to_ascii_lowercase, eq_ignore_ascii_case, rsplit_once, trim_start_matches, trim_end_matches,
  ends_with, split_when, utf8, as_bytes, as_bytes_injective, Casing, to_lowercase, to_lowercase,
  length, take, drop, length-take-le, window-append, All, All-take, All-drop, ℕ, zero, suc, ◌+◌,
  ◌-◌, ◌*◌, ◌/◌, ◌%◌, ◌^◌, ◌≤◌, ◌<◌, min, max, String, ◌≡◌, refl, sym, ap, ◌∙◌, subst, ◌≢◌, ◌↔◌,
  ◌⊎◌, inl, inr, Bool, true, false, ◌&&◌, ◌||◌, not, Option, none, some, get_or, List, [], ◌∷◌,
  ◌++◌, map, arith, eq_iff, eq_refl,
}
use isabelle_core.Util.Oidc.{Provider, provider_id}

abbrev pub flow_ttl_secs : ℕ
flow_ttl_secs = 600

abbrev pub max_flows : ℕ
max_flows = 512

-- A sign-in that has been started and not yet come back.
pub record PendingFlow : Type 0 where
  pub provider : Provider
  pub nonce : String
  pub verifier : String
  pub next : String
  pub binding : String
  pub started_at : ℕ

-- The sign-ins in flight, by their `state` parameter.
abbrev pub PendingFlows : Type 0
PendingFlows = Map String PendingFlow

unfoldable pub prune : PendingFlows → ℕ → PendingFlows
prune flows now = retain (λ state f. ltb (now - f.started_at) flow_ttl_secs) flows

-- `min_by_key` on the start of the flows: the first of the least.
unfoldable pub older : String × PendingFlow → Option (String × PendingFlow) → String × PendingFlow
older (k, f) none = (k, f)
older (k, f) (some (j, g)) = if leb f.started_at g.started_at then (k, f) else (j, g)

unfoldable pub oldest : PendingFlows → Option (String × PendingFlow)
unfolding older
oldest [] = none
oldest (e ∷ flows) = some (older e (oldest flows))

-- The loop that drops the oldest flow as long as there is no room. `none` is out of fuel.
unfoldable pub without_oldest :
    (PendingFlows → Option PendingFlows)
    → PendingFlows
    → Option (String × PendingFlow)
    → Option PendingFlows
without_oldest loop flows none = some flows
without_oldest loop flows (some (k, f)) = loop (remove k flows)

unfoldable pub make_room : ℕ → PendingFlows → Option PendingFlows
unfolding oldest without_oldest
make_room zero flows = none
make_room (suc fuel) flows =
    let rest = without_oldest (make_room fuel) flows (oldest flows) in
    if leb max_flows (length flows) then rest else some flows

-- `PendingFlows::insert`: the loop runs at most once for each flow.
unfoldable pub insert_flow : PendingFlows → String → PendingFlow → ℕ → Option PendingFlows
unfolding prune make_room
insert_flow flows state flow now = do
  room ← make_room (suc (length (prune flows now))) (prune flows now)
  some (insert state flow room)

-- `PendingFlows::take`
unfoldable pub take_flow : PendingFlows → String → ℕ → PendingFlows × Option PendingFlow
unfolding prune
take_flow flows state now = (remove state (prune flows now), lookup state (prune flows now))

-- What an unauthenticated caller can do to the flows.
pub data Step : PendingFlows → PendingFlows → Type 0 where
  starts :
      {flows after : PendingFlows} (state : String) (flow : PendingFlow) (now : ℕ)
      → insert_flow flows state flow now ≡ some after
      → Step flows after
  comes_back :
      {flows : PendingFlows} (state : String) (now : ℕ) → Step flows (take_flow flows state now).0

pub data Reachable : PendingFlows → Type 0 where
  at_start : Reachable []
  after : {flows next : PendingFlows} → Reachable flows → Step flows next → Reachable next

unfoldable pub safe_next : String → String
safe_next next =
    if starts_with (trim next) "/"
      && not (starts_with (trim next) "//")
      && not (starts_with (trim next) "/\\")
      && not (contains_text (trim next) "\\")
      && not (any_char is_control (trim next))
    then trim next
    else "/"

unfoldable pub subject_key : Provider → String
subject_key provider = append "oauth_" (append (provider_id provider) "_subject")

-- A path on this site, as an address the browser can be sent to.
unfoldable pub site_url : String → String → String
unfolding safe_next
site_url public_url path = append (trim_end_matches b'/' public_url) (safe_next path)
