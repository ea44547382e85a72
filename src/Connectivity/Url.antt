-- ===== src/Connectivity/Url.antt =====
-- The target of a probe: `validate_loopback_probe_url` of connectivity/probe.py. `urllib` and the
-- reading of `time.perf_counter` are a parameter.
use tradingchassis_ops_lab.Base.{
  ℕ, String, ◌<>◌, Bool, true, false, not, ◌||◌, Option, none, some, List, [], ◌∷◌, contains,
  is_empty, if◌then◌else◌, ◌==◌,
}
use tradingchassis_ops_lab.Base.Search.{occurs}
use tradingchassis_ops_lab.Base.Json.{decimal}
use tradingchassis_ops_lab.World.Effects.{Result, ok, raised, probe_invalid_target}

-- `urllib.parse.SplitResult`; reading `port` may raise.
pub record SplitUrl : Type 0 where
  pub scheme : String
  pub username : Option String
  pub password : Option String
  pub hostname : Option String
  pub port : Result (Option ℕ)
  pub path : String
  pub query : String
  pub fragment : String

-- How `urlopen` ends: a response or an `HTTPError` with its status, a `URLError`, whose reason is a
-- timeout or not, a timeout, or another exception.
pub data Reply : Type 0 where
  response http_error : ℕ → Reply
  url_error : Bool → Reply
  timed_out failed : Reply

-- A latency is the bits of `round((time.perf_counter() - started) * 1000.0, 3)`.
pub record Urllib : Type 0 where
  pub lower : String → String  -- `str.lower`
  pub urlsplit : String → Result SplitUrl
  pub urlunsplit : String → String → String → String → String → String
  pub urlopen : String → ℕ → Reply × ℕ  -- for a timeout in milliseconds, with the latency
  pub float_text : ℕ → String

abbrev pub allowed_hosts : List String
allowed_hosts = "localhost" ∷ "127.0.0.1" ∷ "::1" ∷ []

abbrev pub is_none : Option String → Bool
is_none none = true
is_none (some _) = false

-- `f"{host}:{port}" if port is not None else host`
abbrev pub netloc : String → Option ℕ → String
netloc host none = host
netloc host (some port) = host <> ":" <> decimal port

-- `f"[{host}]" if ":" in host else host`
abbrev pub bracketed : String → String
bracketed host = if occurs ":" host then "[" <> host <> "]" else host

-- `parsed.hostname`, where it is neither `None` nor empty.
abbrev pub host_of : Option String → Result String
host_of none = raised probe_invalid_target
host_of (some host) = if is_empty host then raised probe_invalid_target else ok host

abbrev pub after_ok : {A B : Type 0} → Result A → (A → Result B) → Result B
after_ok (ok a) f = f a
after_ok (raised e) f = raised e

-- From the host on.
unfoldable pub normalized_url : Urllib → SplitUrl → String → Result String
unfolding occurs decimal
normalized_url lib parsed host =
    if contains allowed_hosts host
    then after_ok parsed.port (λ port. ok (
        lib.urlunsplit "http" (netloc (bracketed host) port)
          (if is_empty parsed.path then "/" else parsed.path) "" ""))
    else raised probe_invalid_target

unfoldable pub validate_split_url : Urllib → SplitUrl → Result String
unfolding normalized_url
validate_split_url lib parsed =
    if not (lib.lower parsed.scheme == "http")
    then raised probe_invalid_target
    else if not (is_none parsed.username) || not (is_none parsed.password)
    then raised probe_invalid_target
    else if not (is_empty parsed.query)
    then raised probe_invalid_target
    else if not (is_empty parsed.fragment)
    then raised probe_invalid_target
    else after_ok (host_of parsed.hostname)
        (λ hostname. normalized_url lib parsed (lib.lower hostname))

unfoldable pub validate_loopback_probe_url : Urllib → String → Result String
unfolding validate_split_url
validate_loopback_probe_url lib url = after_ok (lib.urlsplit url) (validate_split_url lib)
