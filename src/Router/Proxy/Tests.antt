-- ===== src/Router/Proxy/Tests.antt =====
-- The theorems on waits, at a router with one route; and hosts with ports.
use mikrom.Prelude.{
  ℕ, ◌+◌, ◌*◌, ◌≡◌, refl, String, true, false, none, some, List, [], ◌∷◌, inr, if◌then◌else◌, same,
  ltb, is_some, arith,
}
use mikrom.Prelude.Chars.{chars, of_chars}
use mikrom.Prelude.Maps.{get, insert}
use mikrom.Router.State.{Libraries, State}
use mikrom.Router.Proxy.{
  MikromProxy, canonical_host, bracketed, before_port, split_once, rsplit_once, contains_char,
  wait_for_route, lookup_acme_key_auth,
}
use mikrom.Router.Proxy.Breaker.{Attempt, is_open, attempts, fail_to_connect}
use mikrom.Router.Proxy.Breaker.Sequential.{attempts_never_open}
use mikrom.Router.Proxy.Waiting.{wait_for_route_ends}

abbrev plain_lists : Libraries
plain_lists = record {
  LoadBalancer = List String;
  X509 = String;
  PKey = String;
  try_from_iter = λ (ts : List String). inr ts;
  set_health_check = λ (lb : List String). lb;
  stack_from_pem = λ (pem : String). none;
  private_key_from_pem = λ (pem : String). none;
}

abbrev proxy : MikromProxy plain_lists
proxy = record {
  api_host = "api";
  api_upstream = "[::1]:1" ∷ [];
  web_host = "web";
  web_upstream = "[::1]:2" ∷ [];
  route_wait = 500;
}

abbrev routeless : State plain_lists
routeless = record { routes = []; acme_tokens = []; certificates = [] }

abbrev routed : State plain_lists
routed = record routeless {
  routes =
      (
        "app",
        record {
          host = "app";
          targets = "[::1]:3" ∷ [];
          lb = "[::1]:3" ∷ [];
          use_tls = false;
          tls_alternative_cn = none;
        },
      )
      ∷ [];
  acme_tokens = ("t", "a") ∷ [];
}

-- The route comes after two reads.
abbrev appearing : ℕ → State plain_lists
appearing n = if ltb n 2 then routeless else routed

abbrev ticking : ℕ → ℕ
ticking n = 1000 + 200 * n

host_with_port : canonical_host "app:8080" ≡ "app"
unfolding canonical_host bracketed before_port split_once rsplit_once contains_char chars of_chars
host_with_port = refl

address_with_port : canonical_host "[fd00::1]:443" ≡ "[fd00::1]"
unfolding canonical_host bracketed before_port split_once rsplit_once contains_char chars of_chars
address_with_port = refl

token_found : lookup_acme_key_auth plain_lists 2 appearing "t" 0 ≡ some "a"
unfolding lookup_acme_key_auth get same
token_found = refl

wait_for_route_ends_example :
    is_some (wait_for_route plain_lists proxy 4 appearing ticking 1500 "app" 0) ≡ true
wait_for_route_ends_example =
    wait_for_route_ends proxy appearing ticking "app" 1000 (λ n. omega arith) 3 (omega arith)

-- A machine that refuses every connection.
abbrev refused : Attempt
refused = record { made_at = 1; host = "app"; selected = some "[::1]:3"; failed_at = some 2 }

attempts_never_open_example :
    is_open 3 "app" (attempts (refused ∷ refused ∷ refused ∷ []) []) ≡ false
attempts_never_open_example = attempts_never_open (refused ∷ refused ∷ refused ∷ []) 3 "app"

-- Three failures of attempts that overlap do open it.
overlapping_open :
    is_open 3 "app" (fail_to_connect 2 "app" (fail_to_connect 2 "app" (fail_to_connect 2 "app" [])))
    ≡ true
unfolding is_open fail_to_connect get insert same
overlapping_open = refl
