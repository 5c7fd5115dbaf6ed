-- ===== src/Tests/SignIn.antt =====
-- Runs of signing in with a provider, and of registering.
use isabelle_core.Prelude.{
  nat_Eq, string_Eq, lookup, insert, retain, append, any_char, trim, to_ascii_lowercase,
  eq_ignore_ascii_case, trim_end_matches, as_bytes, length, ℕ, ◌≤◌, ◌<◌, String, ◌≡◌, refl, ◌↔◌,
  true, false, none, some, [], ◌∷◌, arith,
}
use isabelle_core.Item.{Item}
use isabelle_core.State.StoreMemory.{StoreMemory, memory, get_item, set_item, find_user}
use isabelle_core.State.StoreMemory.Users.{memory_laws}
use isabelle_core.State.Secrets.{SecretStore, get_by_name}
use isabelle_core.Util.Oidc.{google, WebApi, ProviderConfig, from_id, secret_name, provider_id}
use isabelle_core.Util.Oidc.Tokens.{JwtApi, Identity, flag, verify_id_token, exchange_code}
use isabelle_core.Util.Oidc.Identities.{IsVouched, verify_id_token-IsVouched}
use isabelle_core.Server.Login.Register.{Registration, register}
use isabelle_core.Server.Login.Register.Free.{Outcome, register-Outcome}
use isabelle_core.Server.Guards.{Session, cleared}
use isabelle_core.Server.SignIn.{sign_in, resolve_identity, linked_item, record_for}
use isabelle_core.Server.SignIn.Linking.{
  IsAccountOf, resolve_identity-IsAccountOf, record_for-one_subject,
}
use isabelle_core.Server.OAuth.{
  max_flows, PendingFlow, PendingFlows, insert_flow, take_flow, starts, Reachable, at_start, after,
  subject_key,
}
use isabelle_core.Server.OAuth.Bounded.{insert_flow-total}
use isabelle_core.Server.OAuth.Spent.{WithoutStart, take_flow-once}
use isabelle_core.Server.OAuth.Callback.{Server, Callback, Browser, finish}
use isabelle_core.Server.OAuth.Admitted.{IsEarned, finish-IsEarned}
use isabelle_core.Server.OAuth.Redirects.{IsProper, finish-IsProper}
use isabelle_core.Util.Crypto.{constant_time_eq}
use isabelle_core.Server.UserControl.{get_user, login_has_bad_symbols, session_generation}
use isabelle_core.Server.OAuth.Start.{Drawn, auth_start}
use isabelle_core.Server.OAuth.Handled.{started, Handled-Reachable}
use isabelle_core.Tests.Fixtures.{items, caseless, users, no_routes, alice, blank}
use isabelle_core.Tests.Items.{quiet_hooks}

-- A provider with one key, whose tokens all name Alice.
instance abbrev one_key : WebApi
one_key = record {
  parse_with_params = λ url params. some url;
  post_form = λ url form. some (200, "token");
  read_token = λ body. some body;
  get_keys = λ url. some (record { kid = "k"; kty = "RSA"; n = "n"; e = "e"; x = ""; y = "" } ∷ []);
}

instance abbrev names_alice : JwtApi
names_alice = record {
  Key = Unit;
  from_rsa_components = λ n e. some tt;
  from_ec_components = λ x y. some tt;
  encode_es256 = λ kid claims key. some "signed";
  decode_header = λ token. some (record { alg = "RS256"; kid = some "k" });
  decode = λ token key validation. some (record {
    sub = "sub-1";
    email = "a@b.c";
    email_verified = some (flag true);
    name = "Alice";
    nonce = "nonce";
  });
}

abbrev alice_there : Identity
alice_there = record { subject = "sub-1"; email = "a@b.c"; email_verified = true; name = "Alice" }

abbrev pub app : ProviderConfig
app = record { client_id = "id"; client_secret = "s"; team_id = ""; key_id = ""; private_key = "" }

alice_vouched : (verify_id_token [] google app "token" "nonce" 5).1 ≡ some alice_there
unfolding verify_id_token lookup trim
alice_vouched = refl

verify_id_token-IsVouched_example : IsVouched [] google app "token" "nonce" 5 alice_there
verify_id_token-IsVouched_example =
    verify_id_token-IsVouched [] google app "token" "nonce" 5 alice_there alice_vouched

resolve_identity-IsAccountOf_example :
    (resolve_identity (some alice) "a@b.c" true "sub-1" "oauth_google_subject" false ≡ sign_in 3)
    ↔ ((u : Item) × (some alice ≡ some u)
        × (u.id ≡ 3)
        × IsAccountOf "a@b.c" "sub-1" "oauth_google_subject" true u)
resolve_identity-IsAccountOf_example =
    resolve_identity-IsAccountOf (some alice) "a@b.c" true "sub-1" "oauth_google_subject" false 3

abbrev linked_subject : String
linked_subject = "sub-1"

link_stored : (set_item users "user" (linked_item alice.id "g" "sub-1") true).1 ≡ 3
unfolding set_item linked_item
link_stored = refl

alice_known : get_item users "user" alice.id ≡ some alice
unfolding get_item lookup set_item insert
alice_known = refl

again :
    resolve_identity
      (get_item
        (record_for users no_routes (sign_in alice.id) (some alice) "a@b.c" "" "sub-1" "g").0
        "user"
        alice.id)
      "a@b.c"
      true
      "sub-1"
      "g"
      false
    ≡ sign_in 3
unfolding resolve_identity trim get_item lookup record_for set_item insert eq_ignore_ascii_case
    to_ascii_lowercase
again = refl

record_for-one_subject_example : alice_there.subject ≡ linked_subject
record_for-one_subject_example =
    record_for-one_subject ⦃laws = memory_laws⦄ users no_routes alice "a@b.c" "" "sub-1" "g"
      (λ e. omega (arith, e)) (λ e. omega (arith, e, link_stored)) alice_known (λ e. cc e) "sub-1"
      "a@b.c" true false 3 again

-- One flow, started at the second 5 and back at the second 65.
abbrev flow : PendingFlow
flow = record {
  provider = google;
  nonce = "nonce";
  verifier = "verifier";
  next = "/tasks";
  binding = "cookie";
  started_at = 5;
}

abbrev in_flight : PendingFlows
in_flight = ("state", flow) ∷ []

flow_started : insert_flow [] "state" flow 5 ≡ some in_flight
unfolding insert_flow retain insert
flow_started = refl

flow_Reachable : Reachable in_flight
flow_Reachable = after at_start (starts "state" flow 5 flow_started)

insert_flow-total_example :
    (next : PendingFlows) × (insert_flow in_flight "other" flow 9 ≡ some next)
    × (length next ≤ max_flows)
    × (lookup "other" next ≡ some flow)
insert_flow-total_example = insert_flow-total in_flight "other" flow 9

flow_taken : (take_flow in_flight "state" 65).1 ≡ some flow
unfolding take_flow lookup retain
flow_taken = refl

take_flow-once_example :
    (lookup "state" in_flight ≡ some flow)
    × (60 < 600)
    × ((next : PendingFlows) (later : ℕ)
        → WithoutStart "state" (take_flow in_flight "state" 65).0 next
        → (take_flow next "state" later).1 ≡ none)
take_flow-once_example = take_flow-once "state" 65 flow flow_Reachable flow_taken

-- Alice comes back from the provider.
abbrev vault : SecretStore
vault = record {
  entries =
      (1, record blank { id = 1; strs = ("client_id", "id") ∷ ("client_secret", "s") ∷ [] }) ∷ [];
  name_index = ("global.oauth_google", 1) ∷ [];
  next_id = 2;
}

abbrev pub server : Server StoreMemory
server = record {
  store = users;
  flows = in_flight;
  keys = [];
  secrets = some vault;
  routes = no_routes;
  public_url = "https://lab.test/";
}

abbrev back : Callback
back = record { code = "code"; state = "state"; error = "" }

abbrev browser : Browser
browser = record { cookie = some "cookie"; session = cleared; attaches = true; stamps = true }

abbrev alice_in : Session
alice_in = record { identity = some "a@b.c"; sgen = some 2 }

alice_signed_in : (finish server "google" back browser 65).session ≡ some alice_in
unfolding finish from_id take_flow lookup retain constant_time_eq as_bytes get_by_name secret_name
    exchange_code verify_id_token trim resolve_identity get_user login_has_bad_symbols any_char
    find_user set_item insert eq_ignore_ascii_case to_ascii_lowercase subject_key append provider_id
    record_for session_generation
alice_signed_in = refl

finish-IsEarned_example : IsEarned server "google" back browser 65 alice_in
finish-IsEarned_example = finish-IsEarned server "google" back browser 65 alice_in alice_signed_in

google_known : from_id "google" ≡ some google
unfolding from_id
google_known = refl

finish-IsProper_example :
    IsProper "https://lab.test"
      (take_flow in_flight "state" 65).0
      (finish server "google" back browser 65)
unfolding trim_end_matches
finish-IsProper_example = finish-IsProper server "google" google back browser 65 google_known

-- Bob starts another sign-in while Alice is away.
abbrev drawn : Drawn
drawn = record { state = "other"; nonce = "nonce-2"; verifier = "verifier-2"; binding = "cookie-2" }

Handled-Reachable_example :
    Reachable (auth_start (λ s. s) server "google" "/" drawn 20).0.flows
    × (length (auth_start (λ s. s) server "google" "/" drawn 20).0.flows ≤ max_flows)
Handled-Reachable_example =
    Handled-Reachable (λ s. s) flow_Reachable (started "google" "/" drawn 20)

abbrev carol : Registration
carol = record { login = "carol"; email = "carol@lab.test"; dry = "" }

register-Outcome_example : Outcome users no_routes carol (register users no_routes carol)
register-Outcome_example = register-Outcome users no_routes carol
