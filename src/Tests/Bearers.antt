-- ===== src/Tests/Bearers.antt =====
-- Runs of the endpoints of the tokens, from the form to the header.
use isabelle_core.Prelude.{
  leb, ◌==◌, nat_Eq, string_Eq, lookup, insert, append, any_char, trim_end, trim, to_decimal, ◌≡◌,
  refl, ◌≢◌, ◌↔◌, ◌⊎◌, false, ◌&&◌, not, some, arith,
}
use isabelle_core.Item.{Item}
use isabelle_core.Util.Multipart.{read}
use isabelle_core.State.Store.{at_id}
use isabelle_core.State.StoreMemory.{memory, set_item, find_user, next_id}
use isabelle_core.Server.UserControl.{get_user, login_has_bad_symbols}
use isabelle_core.Server.ApiToken.{
  Presented, accepted, resolve, revoke, expiry, token_record, issue,
}
use isabelle_core.Server.ApiToken.Wire.{assemble, from_header}
use isabelle_core.Server.ApiToken.Managing.{
  token_made, token_ended, api_token_issue, api_token_revoke, subject,
}
use isabelle_core.Server.ApiToken.Managed.{
  MayRevoke, api_token_revoke_iff, api_token_issue-accepted,
}
use isabelle_core.Tests.Fixtures.{items, caseless, users}
use isabelle_core.Tests.Tokens.{tokens, request, with_token}

api_token_revoke_iff_example :
    (((api_token_revoke with_token "alice" (read 1)).1 ≡ token_ended)
      ↔ MayRevoke with_token "alice" 1)
    × ((((api_token_revoke with_token "alice" (read 1)).1 ≡ token_ended)
          × ((api_token_revoke with_token "alice" (read 1)).0 ≡ revoke with_token 1))
        ⊎ (((api_token_revoke with_token "alice" (read 1)).1 ≢ token_ended)
            × ((api_token_revoke with_token "alice" (read 1)).0 ≡ with_token)))
api_token_revoke_iff_example = api_token_revoke_iff with_token "alice" 1

token_handed_out :
    (api_token_issue users "alice" (read request) "s3cret" 100).1 ≡ token_made 1 "mid_1_s3cret"
unfolding to_decimal api_token_issue subject get_user login_has_bad_symbols any_char find_user
    lookup set_item insert issue trim token_record assemble next_id append
token_handed_out = refl

secret_tidy : trim_end "s3cret" ≡ "s3cret"
unfolding trim_end
secret_tidy = refl

not_expired :
    (not (expiry 100 request.expires_days == 0) && leb (expiry 100 request.expires_days) 200)
    ≡ false
unfolding expiry
not_expired = refl

api_token_issue-accepted_example :
    (me : Item) × (presented : Presented) × (get_user users "alice" ≡ some me)
    × (from_header (append "Bearer " "mid_1_s3cret") ≡ some presented)
    × (resolve (api_token_issue users "alice" (read request) "s3cret" 100).0 presented 200
        ≡ accepted (at_id (token_record me.id request "s3cret" 100) 1))
api_token_issue-accepted_example =
    api_token_issue-accepted users "alice" request "s3cret" 100 200 1 "mid_1_s3cret" refl
      secret_tidy (omega arith) not_expired token_handed_out
