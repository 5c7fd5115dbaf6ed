-- ===== src/Lib.antt =====
-- isabelle-core: the server behind an Isabelle application, which keeps accounts, records and
-- secrets and answers requests about them.
--
-- The parts and the files that model them (paths from the repository's root):
-- - Prelude: shared names; `HashMap` as an association list, text, lists and numbers.
--   Prelude.Decimals prints and reads a `u64`, with fuel for the twenty digits that the largest has.
-- - Item: the record that everything is stored as. Its type and methods are those of the crate
--   `isabelle_dm`, which is not in the repository: the fields are the ones that
--   src/util/bson_wrapper.rs copies, without `root_node`, and the methods are an interface with
--   their documented behaviour. Item.Merging is about merging a record that holds one number.
-- - Util.Crypto: src/util/crypto.rs, the comparison of byte strings and of passwords. The crate
--   `argon2` is an interface.
-- - State.Store: the trait `Store` of src/state/store.rs as a record of operations, and the laws
--   that callers rely on. State.StoreMemory: its implementation in src/state/store_memory.rs.
-- - State.StoreLocal: the store in files of src/state/store_local.rs; a directory is a map of the
--   files that can be read, under the names that the code builds for them, and
--   State.StoreLocal.Connecting is `connect`. State.Paging: what both stores promise of a page, whose
--   records are a map without an order that anyone sees.
-- - State.CoreTask: how src/state/core_task.rs writes a record for a plugin or a handler;
--   State.CoreTask.SystemSecrets and State.CoreTask.Messages: the messages about records,
--   settings, roles and secrets.
-- - State.Secrets: the store of secrets in src/state/secrets.rs. For the operations the cipher and
--   the disk are one interface, which says whether a state could be written; a `HashMap` that is
--   iterated to be masked is visited in the order of its list. State.Secrets.Opening writes and
--   opens the file in either format, over a cipher, a coding and a disk of their own;
--   State.Secrets.Adoption: the entries that are adopted at the start.
-- - Server.UserControl, Server.Guards, Server.Login: accounts, the guard that drops revoked
--   sessions, and signing in and out, in src/server/user_control.rs, src/server/guards.rs and
--   src/server/login.rs. They use a store through the interface of State.Store only.
--   Server.Login.Register and Server.Login.Directory: `register` and `directory_login`.
-- - Util.Ldap: src/util/ldap.rs, the checks before a directory is asked; Util.Ldap.Escaping: the
--   names that are
--   sent to it, against a reader of RFC 4514 and RFC 4515 (Util.Ldap.Escaping.Readers).
-- - Util.Fs: src/util/fs.rs, how a file is replaced; each call may fail, and a write may stop halfway.
-- - Util.Multipart: src/util/multipart.rs, the reading of bodies; a stream is a list of what it
--   yields, each with the time it takes.
-- - Server.Owner: src/server/owner.rs, whose record it is.
-- - Server.ApiToken: src/server/api_token.rs, the credentials of programs; the hash and the coding
--   of the list of scopes are an interface. Server.ApiToken.Wire: the text of a token and the
--   header that carries it; Server.ApiToken.Managing: the endpoints that issue, list and revoke.
-- - Server.TokenGuard: `accept_api_token` of src/server/guards.rs, on requests whose header and
--   query have been read.
-- - Server.Secret: the handlers of src/server/secret.rs for one secret.
-- - State.RouteCache: the tables of src/state/route_cache.rs, which say what hooks run and which
--   scope a token needs.
-- - Server.ListFilter: src/server/list_filter.rs, what a client may ask a listing about, and what is
--   withheld from it. Server.ListFilter.Grammar states the same as a grammar.
-- - Server.Hooks: the hooks that are called after an edit, by items and by sign-ins alike.
-- - Server.PublicRead: src/server/public_read.rs, what a visitor may read.
-- - Server.Itm: `itm_edit` and `itm_del` of src/server/itm.rs; Server.Itm.Pages and Server.Itm.Listing:
--   `itm_list`. They use accounts, owners, filters, public reading and the table of hooks.
-- - Server.SignIn: src/server/signin.rs, which account an identity is.
-- - Util.Oidc: src/util/oidc.rs, the providers; Util.Oidc.Tokens: from a code to an identity.
-- - Server.OAuth: src/server/oauth.rs, the sign-ins in flight; Server.OAuth.Callback: `finish`, which
--   turns a callback into a session or a refusal by way of Util.Oidc and Server.SignIn;
--   Server.OAuth.Start: the start of a sign-in, and what a login screen is told.
-- - Server.AuthConfig: src/server/auth_config.rs, the configuration of the ways to sign in: what a
--   screen shows (Server.AuthConfig), and how it is saved and forgotten (Server.AuthConfig.Saving).
-- - Tests: concrete runs.
--
-- Asynchronous methods are functions from a state to the next state and the answer; a lock held
-- for the length of an operation makes it one step. Numbers are natural numbers; `saturating_add`
-- stops at the largest `u64`. Loops are by recursion on a list, except the eviction of old sign-ins
-- (`make_room`), which takes one more unit of fuel than there are flows: each round drops one.
--
-- Not modelled: cookies and the writing of responses, the database driver, the search in a
-- directory, mail and calendars, and the dispatch to plugins, which are calls of libraries or of
-- code outside the repository: what a plugin answers is an interface, and so are the crates that
-- fetch pages and decode tokens. The disk budget, the features of the state, the remaining guards
-- and the endpoints for settings and the description of the interface are left for later.
mod Prelude
pub mod Item
pub mod Util
pub mod State
pub mod Server
mod Tests
