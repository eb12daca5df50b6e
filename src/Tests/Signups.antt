-- ===== src/Tests/Signups.antt =====
-- The signups of the server on concrete tables.
use iaas_platform.Base.{◌≡◌, refl, true, false, none, some, [], ◌∷◌, ◌++◌}
use mathlib.Core.Option.{some-injective}
use mathlib.Core.Path.{subst}
use iaas_platform.Base.Text.{Text, lit, text_eq}
use iaas_platform.Base.Text.Laws.{text_eq_refl}
use iaas_platform.Server.{Lookup, found, missing}
use iaas_platform.Server.Auth.{done, login}
use iaas_platform.Server.Auth.Signup.{
  Registry, Faults, SignupRequest, AuthResponse, Claims, ok, refused, internal, email_taken, signup,
  find_account, find_by_slug, resolve, key_of, create_user, add_join_request, middleware,
  login_tables,
}
use iaas_platform.Server.Auth.Joined.{acts_as, signup_then_requests}
use iaas_platform.Server.Auth.Kept.{here, signs}
use iaas_platform.Server.Auth.Stuck.{signup_stuck}
use iaas_platform.Server.Auth.Newcomer.{
  all_calls, all_org_calls, directory, new_member, newcomer_joins,
}
use iaas_platform.Server.Orgs.{Organization, OrgMember, has_request, find_member, find_member_any}
use iaas_platform.Server.Orgs.Service
use iaas_platform.Server.Orgs.Service.{accept_join_request}
use iaas_platform.Tests.Accounts.{toy, none_fails}

abbrev no_faults : Faults
no_faults = record {
  find_user = false;
  find_org = false;
  insert = false;
  join = false;
  token = false;
  find_key = false;
}

abbrev acme : Organization
acme = record { id = 4; name = lit "Acme"; slug = lit "acme" }

abbrev registry : Registry
registry = record { accounts = []; organizations = acme ∷ []; requests = []; next_user = 1 }

abbrev request : SignupRequest
request = record { email = lit "eve@acme.test"; password = lit "password"; org_slug = lit "acme" }

abbrev answer : AuthResponse
answer = record {
  api_key = key_of (lit "00ff");
  user = record {
    id = 1;
    email = lit "eve@acme.test";
    password_hash = lit "password";
    role = lit "user";
    api_key = 35 ∷ key_of (lit "00ff");
  };
  org_join_pending = true;
}

signup-answer : (signup toy no_faults 7 (some (lit "00ff")) request registry).1 ≡ ok answer
unfolding signup create_user add_join_request find_account resolve find_by_slug has_request text_eq
    lit
signup-answer = refl

-- No JWT is accepted.
abbrev no_jwt : Text → Lookup Claims
no_jwt t = missing

signup_then_requests_example :
    (login toy none_fails
        (lit "eve@acme.test")
        (lit "password")
        (login_tables (signup toy no_faults 7 (some (lit "00ff")) request registry).0)
      ≡ done)
    × (middleware toy no_jwt no_faults
          (lit "Bearer " ++ answer.api_key)
          []
          (signup toy no_faults 7 (some (lit "00ff")) request registry).0
        ≡ found (acts_as answer))
    × (middleware toy no_jwt no_faults [] answer.api_key
          (signup toy no_faults 7 (some (lit "00ff")) request registry).0
        ≡ found (acts_as answer))
    × (answer.user.email ≡ request.email)
    × (answer.user.role ≡ lit "user")
signup_then_requests_example =
    signup_then_requests toy no_jwt no_faults no_faults none_fails 7 (some (lit "00ff")) request
      registry answer []
      (λ s p h e. subst (λ z. text_eq z p ≡ true) (some-injective p h e) (text_eq_refl p)) refl refl
      refl signup-answer

abbrev join_fails : Faults
join_fails = record no_faults { join = true }

acme-found : resolve join_fails (lit "acme") registry ≡ found (some acme)
unfolding resolve find_by_slug text_eq lit
acme-found = refl

nobody-found : find_account request.email registry.accounts ≡ none
unfolding find_account
nobody-found = refl

-- The account of the first signup, and one more signup before the next try.
abbrev stuck : Registry
stuck = (signup toy join_fails 7 (some (lit "00ff")) request registry).0

abbrev other_request : SignupRequest
other_request = record request { email = lit "bob@acme.test" }

abbrev crowded : Registry
crowded = (signup toy no_faults 8 (some (lit "11ee")) other_request stuck).0

signup_stuck_example :
    ((signup toy join_fails 7 (some (lit "00ff")) request registry).1 ≡ refused internal)
    × (has_request 4 1 crowded.requests ≡ false)
    × (signup toy no_faults 9 (some (lit "22dd")) request crowded ≡ (crowded, refused email_taken))
unfolding has_request
signup_stuck_example =
    signup_stuck toy join_fails no_faults 7 9 (lit "00ff") (lit "password") (some (lit "22dd"))
      request request registry acme refl nobody-found acme-found refl refl refl refl
      (signs here no_faults 8 (some (lit "11ee")) other_request) refl

abbrev ann : OrgMember
ann = record { organization_id = 4; user_id = 9; role = lit "admin"; suspended_until = none }

acme-resolved : resolve all_calls (lit "acme") registry ≡ found (some acme)
unfolding resolve find_by_slug text_eq lit
acme-resolved = refl

ann-found : find_member 4 9 50 (ann ∷ []) ≡ some ann
unfolding find_member
ann-found = refl

eve-missing : find_member_any 4 1 (ann ∷ []) ≡ none
unfolding find_member_any
eve-missing = refl

registry-has_request : has_request 4 1 registry.requests ≡ false
unfolding has_request
registry-has_request = refl

newcomer_joins_example :
    let v = (signup toy all_calls 7 (some (lit "00ff")) request registry).0 in
    let d = accept_join_request all_org_calls 4 1 9 (directory (ann ∷ []) 5 50 v) in
    (d.1 ≡ Service.done)
    × (find_member 4 1 60 d.0.members ≡ some (new_member 4 1))
    × (has_request 4 1 d.0.requests ≡ false)
unfolding text_eq lit
newcomer_joins_example =
    newcomer_joins toy 7 (lit "00ff") (lit "password") request registry acme (ann ∷ []) 5 50 10 9
      ann nobody-found acme-resolved refl refl registry-has_request eve-missing ann-found refl
