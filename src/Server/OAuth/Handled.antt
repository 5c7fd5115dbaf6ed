-- ===== src/Server/OAuth/Handled.antt =====
-- src/server/oauth.rs: what the handlers do to the flows in flight.
use isabelle_core.Prelude.{
  Bool-cases, Option-cases, nat_Eq, string_Eq, is_some, Casing, length, ℕ, ◌≤◌, String, ◌≡◌, refl,
  sym, subst, inl, inr, Option, none, some,
}
use isabelle_core.Item.{ItemApi}
use isabelle_core.Util.Oidc.{Provider, from_id, ProviderConfig, check, WebApi}
use isabelle_core.Util.Oidc.Tokens.{JwtApi}
use isabelle_core.State.Store.{Store}
use isabelle_core.Server.Hooks.{PostEditApi}
use isabelle_core.Server.OAuth.{
  max_flows, PendingFlow, PendingFlows, insert_flow, starts, comes_back, Reachable, after,
  safe_next,
}
use isabelle_core.Server.OAuth.Bounded.{Reachable-bounded}
use isabelle_core.Server.OAuth.Callback.{Server, Callback, Browser, finish, finish_at}
use isabelle_core.Server.OAuth.Redirects.{finish-IsProper}
use isabelle_core.Server.OAuth.Start.{
  Drawn, with_flows, start_flow, start_with, start_at, auth_start,
}

module _ ⦃api : ItemApi⦄ ⦃web : WebApi⦄ {S : Type 0} (digest : String → String) where
  with_flows-Reachable :
      (srv : Server S) (state : String) (flow : PendingFlow) (now : ℕ) (o : Option PendingFlows)
      → insert_flow srv.flows state flow now ≡ o
      → Reachable srv.flows
      → Reachable (with_flows srv o).flows
  with_flows-Reachable srv state flow now none e r = r
  with_flows-Reachable srv state flow now (some next) e r = after r (starts state flow now e)

  start_with-Reachable :
      (srv : Server S) (provider : Provider) (next : String) (drawn : Drawn) (now : ℕ)
      (o : Option ProviderConfig)
      → Reachable srv.flows
      → Reachable ((start_with digest srv provider next drawn now o).0).flows
  unfolding start_with start_flow
  start_with-Reachable srv provider next drawn now none r = r
  start_with-Reachable srv provider next drawn now (some cfg) r =
      elim (Bool-cases (is_some (check cfg provider))) [
        | inl missing ↦ rw missing r
        | inr complete ↦ rw complete (with_flows-Reachable srv drawn.state _ now _ refl r)
      ]

  start_at-Reachable :
      (srv : Server S) (o : Option Provider) (next : String) (drawn : Drawn) (now : ℕ)
      → Reachable srv.flows
      → Reachable ((start_at digest srv o next drawn now).0).flows
  unfolding start_at
  start_at-Reachable srv none next drawn now r = r
  start_at-Reachable srv (some provider) next drawn now r =
      start_with-Reachable srv provider (safe_next next) drawn now _ r

module _ ⦃api : ItemApi⦄ ⦃web : WebApi⦄ ⦃jwt : JwtApi⦄ ⦃c : Casing⦄ {S : Type 0} ⦃st : Store S⦄
    ⦃hooks : PostEditApi S⦄ where
  -- A request to start a sign-in, or a callback, whatever it holds.
  pub data Handled (digest : String → String) : Server S → Server S → Type 0 where
    started :
        {srv : Server S} (id next : String) (drawn : Drawn) (now : ℕ)
        → Handled digest srv (auth_start digest srv id next drawn now).0
    called_back :
        {srv : Server S} (id : String) (cb : Callback) (browser : Browser) (now : ℕ)
        → Handled digest srv (finish srv id cb browser now).server

  finish-Reachable :
      (srv : Server S) (id : String) (cb : Callback) (browser : Browser) (now : ℕ)
      → Reachable srv.flows
      → Reachable ((finish srv id cb browser now).server).flows
  unfolding finish finish_at
  finish-Reachable srv id cb browser now r = elim (Option-cases (from_id id)) [
    | inl other ↦ rw other r
    | inr (provider, is) ↦
        subst Reachable (sym (finish-IsProper srv id provider cb browser now is).has_flows)
          (after r (comes_back cb.state now))
  ]

  -- Whatever a request to start a sign-in or a callback holds, and however it ends, it takes the
  -- flows from a state that can be reached to one that can be reached, with at most 512 in flight.
  pub Handled-Reachable :
      (digest : String → String) {srv next : Server S}
      → Reachable srv.flows
      → Handled digest srv next
      → Reachable next.flows × (length next.flows ≤ max_flows)
  unfolding auth_start
  Handled-Reachable digest {srv} r (started id next drawn now) =
      let reached = start_at-Reachable digest srv (from_id id) next drawn now r in
      (reached, Reachable-bounded reached)
  Handled-Reachable digest {srv} r (called_back id cb browser now) =
      let reached = finish-Reachable srv id cb browser now r in (reached, Reachable-bounded reached)
