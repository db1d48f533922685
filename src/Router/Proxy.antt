-- ===== src/Router/Proxy.antt =====
-- How the proxy finds the balancer of a request: mikrom-router/src/application/proxy/mod.rs and host.rs.
-- Other parts of the router change the state while the proxy waits, so a wait takes the state at each of its
-- reads and the clock at each of its looks at it, in milliseconds.
pub mod Breaker
mod Tests
mod Waiting
use Prim.Native.Char.{Char, code}
use mikrom.Prelude.Chars.{chars, of_chars}
use mikrom.Prelude.{
  ℕ, zero, suc, ◌+◌, ◌*◌, String, Bool, true, false, Option, none, some, List, [], ◌∷◌, ◌++◌, not,
  ◌&&◌, ◌||◌, if◌then◌else◌, same, leb, ◌==◌, is_some,
}
use mikrom.Prelude.Maps.{get}
use mikrom.Router.State.{Libraries, Route, State}

-- `split_once(d)` and `rsplit_once(d)`, with the code of the character
pub split_once : ℕ → List Char → Option (List Char × List Char)
split_once d [] = none
split_once d (c ∷ cs) =
    let rest = split_once d cs in
    if code c == d then some ([], cs) else elim rest [ none ↦ none | some (a, b) ↦ some (c ∷ a, b) ]

pub rsplit_once : ℕ → List Char → Option (List Char × List Char)
rsplit_once d [] = none
rsplit_once d (c ∷ cs) = elim (rsplit_once d cs) [
  | some (a, b) ↦ some (c ∷ a, b)
  | none ↦ if code c == d then some ([], cs) else none
]

pub contains_char : ℕ → List Char → Bool
contains_char d [] = false
contains_char d (c ∷ cs) = (code c == d) || contains_char d cs

abbrev pub begins_with : ℕ → List Char → Bool
begins_with d [] = false
begins_with d (c ∷ cs) = code c == d

abbrev pub is_empty : List Char → Bool
is_empty [] = true
is_empty (c ∷ cs) = false

-- The first `if let` of `canonical_host`: an address in brackets, with a port or not.
pub bracketed : List Char → Option (List Char)
bracketed [] = none
bracketed (c ∷ rest) =
    if code c == 91
    then elim (split_once 93 rest) [
      | none ↦ none
      | some (ipv6, suffix) ↦
          if is_empty suffix || begins_with 58 suffix
          then some ("[" ∷ (ipv6 ++ ("]" ∷ [])))
          else none
    ]
    else none

-- The second: one colon, and what stands before it.
pub before_port : List Char → Option (List Char)
before_port host = elim (rsplit_once 58 host) [
  | none ↦ none
  | some (name, port) ↦
      if not (contains_char 58 name) && not (contains_char 58 port) then some name else none
]

pub canonical_host : String → String
canonical_host host = elim (bracketed (chars host)) [
  | some h ↦ of_chars h
  | none ↦ elim (before_port (chars host)) [ some h ↦ of_chars h | none ↦ host ]
]

module _ (L : Libraries) where
  -- What `get_lb_and_tls` answers: a balancer, whether to use TLS, and the name to expect.
  pub record Upstream : Type 0 where
    pub lb : L.LoadBalancer
    pub use_tls : Bool
    pub alternative_cn : Option String

  -- The hosts and balancers that the proxy is built with.
  pub record MikromProxy : Type 0 where
    pub api_host : String
    pub api_upstream : L.LoadBalancer
    pub web_host : String
    pub web_upstream : L.LoadBalancer
    pub route_wait : ℕ

  abbrev pub builtin : L.LoadBalancer → Upstream
  builtin lb = record { lb = lb; use_tls = false; alternative_cn = none }

  abbrev pub upstream_of : Option (Route L) → Option Upstream
  upstream_of none = none
  upstream_of (some r) =
      some (record { lb = r.lb; use_tls = r.use_tls; alternative_cn = r.tls_alternative_cn })

  abbrev pub or_else : {A : Type 0} → Option A → Option A → Option A
  or_else none o = o
  or_else (some a) o = some a

  module _ (p : MikromProxy) where
    -- `get_lb_and_tls`; none stands for the error 404.
    pub get_lb_and_tls : String → State L → Option Upstream
    get_lb_and_tls raw_host state =
        let host : String = canonical_host raw_host in
        if same host p.api_host
        then some (builtin p.api_upstream)
        else if same host p.web_host
        then some (builtin p.web_upstream)
        else upstream_of (or_else (get host state.routes) (get raw_host state.routes))

    pub has_route : String → State L → Bool
    has_route raw_host state =
        let host : String = canonical_host raw_host in
        same host p.api_host || same host p.web_host || is_some (get host state.routes)

    pub data Answer : Type 0 where
      served : Upstream → Answer
      -- The errors 404 and 503.
      not_found starting_up : Answer

    -- `wait_for_route`, from its n-th turn on, with fuel: a turn reads the state twice and the clock once.
    pub wait_for_route : ℕ → (ℕ → State L) → (ℕ → ℕ) → ℕ → String → ℕ → Option Answer
    wait_for_route zero state_at now_at deadline host n = none
    wait_for_route (suc fuel) state_at now_at deadline host n =
        let later = wait_for_route fuel state_at now_at deadline host (suc n) in
        elim (get_lb_and_tls host (state_at (2 * n))) [
          | some u ↦ some (served u)
          | none ↦
              if has_route host (state_at (2 * n + 1))
              then some not_found
              else if leb deadline (now_at n)
              then some starting_up
              else later
        ]

  -- `lookup_acme_key_auth`: from its n-th attempt on, with so many retries left.
  pub lookup_acme_key_auth : ℕ → (ℕ → State L) → String → ℕ → Option String
  lookup_acme_key_auth zero state_at token n = get token (state_at n).acme_tokens
  lookup_acme_key_auth (suc retries) state_at token n =
      let later = lookup_acme_key_auth retries state_at token (suc n) in
      elim (get token (state_at n).acme_tokens) [ some key_auth ↦ some key_auth | none ↦ later ]
