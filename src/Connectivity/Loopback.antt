-- ===== src/Connectivity/Loopback.antt =====
-- What a probe may call, and what it reports.
use tradingchassis_ops_lab.Base.{
  ℕ, String, Bool, true, false, Option, none, some, List, [], ◌∷◌, ◌≡◌, refl, sym, contains,
  is_empty, if◌then◌else◌, ◌==◌, not, ◌||◌, eq_iff, arith,
}
use tradingchassis_ops_lab.World.Effects.{Result, ok, raised, Exception, World, lift}
use tradingchassis_ops_lab.World.Post.{Post, Post-bind, Post-pure, ok-injective}
use tradingchassis_ops_lab.Runs.Spec.{RunSpec}
use tradingchassis_ops_lab.Connectivity.Url.{
  Urllib, SplitUrl, Reply, response, http_error, url_error, timed_out, failed, allowed_hosts,
  bracketed, netloc, is_none, host_of, after_ok, validate_split_url, normalized_url,
  validate_loopback_probe_url,
}
use tradingchassis_ops_lab.Connectivity.Probe.{verdict_of, evaluate_connectivity_probe}

-- A guard that did not raise.
passed :
    {A : Type 0} (e : Exception) (b : Bool) (x : Result A) {v : A}
    → (if b then raised e else x) ≡ ok v
    → (b ≡ false) × (x ≡ ok v)
passed e true x h = cc
passed e false x h = (refl, h)

passed_in :
    {A : Type 0} (e : Exception) (b : Bool) (x : Result A) {v : A}
    → (if b then x else raised e) ≡ ok v
    → (b ≡ true) × (x ≡ ok v)
passed_in e true x h = (refl, h)
passed_in e false x h = cc

-- A first step that returned.
returned :
    {A B : Type 0} (r : Result A) (f : A → Result B) {v : B}
    → after_ok r f ≡ ok v
    → (a : A) × ((r ≡ ok a) × (f a ≡ ok v))
returned (ok a) f h = (a, (refl, h))
returned (raised e) f h = cc

named_host : (o : Option String) {h : String} → host_of o ≡ ok h → o ≡ some h
named_host none e = cc
named_host (some s) e = ground arith

none_of : (o : Option String) → not (is_none o) ≡ false → o ≡ none
none_of none h = refl
none_of (some s) h = cc

none_of_or :
    (o p : Option String) → (not (is_none o) || not (is_none p)) ≡ false → (o ≡ none) × (p ≡ none)
none_of_or none p h = (refl, none_of p h)
none_of_or (some s) p h = cc

true_of : (b : Bool) → not b ≡ false → b ≡ true
true_of true h = refl
true_of false h = cc

module _ (lib : Urllib) where
  -- The text `url` is read as an http URL without user information, query and fragment whose host is a
  -- loopback name, and `normal` is put together from its host, port and path.
  pub record IsLoopback (url normal : String) : Type 0 where
    pub parsed : SplitUrl
    pub split : lib.urlsplit url ≡ ok parsed
    pub http : lib.lower parsed.scheme ≡ "http"
    pub no_user : (parsed.username ≡ none) × (parsed.password ≡ none)
    pub no_query : is_empty parsed.query ≡ true
    pub no_fragment : is_empty parsed.fragment ≡ true
    pub host : String
    pub named : parsed.hostname ≡ some host
    pub loopback : contains allowed_hosts (lib.lower host) ≡ true
    pub port : Option ℕ
    pub ported : parsed.port ≡ ok port
    pub rebuilt :
        normal
        ≡ lib.urlunsplit "http"
            (netloc (bracketed (lib.lower host)) port)
            (if is_empty parsed.path then "/" else parsed.path)
            ""
            ""

  validate_split_url-IsLoopback :
      (url normal : String) (u : SplitUrl)
      → lib.urlsplit url ≡ ok u
      → validate_split_url lib u ≡ ok normal
      → IsLoopback url normal
  unfolding validate_split_url normalized_url
  validate_split_url-IsLoopback url normal u s h =
      let (scheme, h1) = passed _ (not (lib.lower u.scheme == "http")) _ h in
      let (user, h2) = passed _ (not (is_none u.username) || not (is_none u.password)) _ h1 in
      let (query, h3) = passed _ (not (is_empty u.query)) _ h2 in
      let (fragment, h4) = passed _ (not (is_empty u.fragment)) _ h3 in
      let (host, (named, h5)) = returned (host_of u.hostname) _ h4 in
      let (loopback, h6) = passed_in _ (contains allowed_hosts (lib.lower host)) _ h5 in
      let (port, (ported, h7)) = returned u.port _ h6 in
      record {
        parsed = u;
        split = s;
        http = (eq_iff (lib.lower u.scheme) "http").0 (true_of _ scheme);
        no_user = none_of_or u.username u.password user;
        no_query = true_of _ query;
        no_fragment = true_of _ fragment;
        host = host;
        named = named_host u.hostname named;
        loopback = loopback;
        port = port;
        ported = ported;
        rebuilt = sym (ok-injective _ _ h7);
      }

  -- An accepted URL is a loopback one.
  pub validate_loopback_probe_url-IsLoopback :
      (url normal : String)
      → validate_loopback_probe_url lib url ≡ ok normal
      → IsLoopback url normal
  unfolding validate_loopback_probe_url
  validate_loopback_probe_url-IsLoopback url normal h =
      let (u, (s, k)) = returned (lib.urlsplit url) (validate_split_url lib) h in
      validate_split_url-IsLoopback url normal u s k

-- The error class that belongs to a state.
abbrev pub class_of : String → Option String
class_of state =
    if state == "probe_ok"
    then none
    else if state == "probe_http_error"
    then some "http_error"
    else if state == "probe_timeout"
    then some "timeout"
    else if state == "probe_unreachable"
    then some "connection_error"
    else some "unknown"

abbrev pub as_list : Option String → List String
as_list none = []
as_list (some s) = s ∷ []

abbrev pub has_status : Option ℕ → Bool
has_status none = false
has_status (some _) = true

-- What the fields of a probe say of each other.
pub record IsConsistent (state : String) (status : Option ℕ) (error_class : Option String)
    (errors : List String) : Type 0 where
  pub classified : error_class ≡ class_of state
  pub listed : errors ≡ as_list error_class
  pub answered : has_status status ≡ (state == "probe_ok" || state == "probe_http_error")

IsConsistent-verdict_of :
    (r : Reply) → let v = verdict_of r in IsConsistent v.state v.http_status v.error_class v.errors
unfolding verdict_of
IsConsistent-verdict_of (response n) = record { classified = refl; listed = refl; answered = refl }
IsConsistent-verdict_of (http_error n) = record {
  classified = refl;
  listed = refl;
  answered = refl;
}
IsConsistent-verdict_of (url_error true) = record {
  classified = refl;
  listed = refl;
  answered = refl;
}
IsConsistent-verdict_of (url_error false) = record {
  classified = refl;
  listed = refl;
  answered = refl;
}
IsConsistent-verdict_of timed_out = record { classified = refl; listed = refl; answered = refl }
IsConsistent-verdict_of failed = record { classified = refl; listed = refl; answered = refl }

-- A probe that is evaluated was of an http URL without user information, query and fragment whose
-- host is a loopback name, and its payload has the URL that is put together from that host. Its
-- error class is the one that belongs to its state, its errors are that class, and it has a status
-- exactly if the state is `probe_ok` or `probe_http_error`.
pub evaluate_connectivity_probe-IsLoopback :
    (lib : Urllib) (spec : RunSpec) (url : String) (timeout_ms : ℕ) (now : Option String)
    (w : World)
    → Post (evaluate_connectivity_probe lib spec url timeout_ms now w) (λ p w'.
      IsLoopback lib url p.url × IsConsistent p.state p.http_status p.error_class p.errors)
unfolding evaluate_connectivity_probe lift
evaluate_connectivity_probe-IsLoopback lib spec url timeout_ms now w = Post-bind _ _ w _ λ normal h.
    Post-bind _ _ _ _ λ ts _. Post-pure _ _ _ (
      validate_loopback_probe_url-IsLoopback lib url normal h,
      IsConsistent-verdict_of (lib.urlopen normal timeout_ms).0,
    )
