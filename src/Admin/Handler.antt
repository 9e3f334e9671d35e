-- ===== src/Admin/Handler.antt =====
-- `_admin_handler` of _admin.py: the order of its checks, from the request to the kind of answer.
pub mod Access
use credential_proxy.Prelude.{
  ℕ, ◌+◌, Bool, true, false, ◌&&◌, ◌||◌, not, Option, none, some, List, [], ◌∷◌, ◌++◌, Text, Dict,
  ◌==◌, leb, codes, all, any, if◌then◌else◌, text_eq, truthy, starts_with, lookup,
}
use credential_proxy.Admin.Limit.{
  RateLimiter, Verdict, allowed, refused, index_error, allow, cleanup,
}
use credential_proxy.Admin.Streams.{try_acquire, release}

pub record Request : Type 0 where
  pub method : Text
  pub path : Text
  -- `request.remote`, which may be missing
  pub peer : Option Text
  -- the header X-Admin-Token, empty when missing
  pub header : Text
  pub cookies : Dict Text
  -- the query's access_token, empty when missing
  pub access_token : Text
  pub scheme : Text

-- An address as `ipaddress` parses it: the IPv4 address mapped into it, if any, says for itself.
pub record Parsed : Type 0 where
  pub version : ℕ
  pub mapped_is_loopback : Option Bool
  pub is_loopback : Bool

-- What the handler reads around it: the environment, the page and the library functions.
pub record Surroundings : Type 0 where
  pub obs_token : Text
  pub env : Text
  pub allow_loopback_no_token : Text
  pub has_page : Bool
  pub sha256 : Text → Text
  pub ip_address : Text → Option Parsed

-- `_is_loopback`
unfoldable pub is_loopback : (Text → Option Parsed) → Text → Bool
is_loopback ip_address remote = elim (ip_address remote) [
  | none ↦ false
  | some ip ↦ elim ip.mapped_is_loopback [
    | none ↦ ip.is_loopback
    | some b ↦ if ip.version == 6 then b else ip.is_loopback
  ]
]

-- `cookies.get(name, '')`
unfoldable pub cookie : Text → Dict Text → Text
cookie name cookies = elim (lookup name cookies) [ none ↦ [] | some v ↦ v ]

-- `_cookie_token`
unfoldable pub cookie_token : Dict Text → Text
unfolding cookie
cookie_token cookies =
    let v = cookie (codes "__Host-admin_token") cookies in
    if truthy v then v else cookie (codes "admin_token") cookies

abbrev pub stream_path : Text
stream_path = codes "/_admin/events/stream"

abbrev pub health_path : Text
health_path = codes "/_admin/health"

-- `request.remote or 'unknown'`
abbrev pub remote_of : Option Text → Text
remote_of none = codes "unknown"
remote_of (some r) = if truthy r then r else codes "unknown"

abbrev pub is_get : Request → Bool
is_get q = text_eq q.method (codes "GET")

abbrev pub is_stream : Request → Bool
is_stream q = text_eq q.path stream_path

-- `is_loopback_grace`
unfoldable pub loopback_grace : Surroundings → Request → Bool
unfolding is_loopback
loopback_grace e q =
    text_eq e.env (codes "dev")
    && (text_eq e.allow_loopback_no_token (codes "1")
        && (is_get q && is_loopback e.ip_address (remote_of q.peer)))

-- Whether the call is counted by the limiter.
unfoldable pub is_counted : Surroundings → Request → Bool
unfolding loopback_grace
is_counted e q = not (is_stream q) && (not (text_eq q.path health_path) && not (loopback_grace e q))

-- The token that a request shows: of the header, of a cookie, and for the stream of the query.
unfoldable pub shown_token : Request → Text
unfolding cookie_token
shown_token q =
    if truthy q.header
    then q.header
    else if truthy (cookie_token q.cookies)
    then cookie_token q.cookies
    else if is_stream q
    then q.access_token
    else []

-- The checks ① to ③: the token to go on with, or none for the 401.
unfoldable pub authenticate : Surroundings → Request → Option Text
unfolding loopback_grace shown_token
authenticate e q =
    if loopback_grace e q
    then some []
    else if truthy q.access_token && not (is_stream q)
    then none
    else if not (truthy (shown_token q))
    then none
    else if not (truthy e.obs_token)
    then none
    else if text_eq (e.sha256 (shown_token q)) (e.sha256 e.obs_token)
    then some (shown_token q)
    else none

-- The characters that the expression `[A-Za-z0-9._~+/=-]` lets through.
unfoldable pub is_cookie_octet : ℕ → Bool
is_cookie_octet c =
    (leb 48 c && leb c 57)
    || ((leb 65 c && leb c 90) || ((leb 97 c && leb c 122) || any (λ x. x == c) (codes "._~+/=-")))

-- The Set-Cookie header of a login.
unfoldable pub login_cookie : Text → Text → Text
login_cookie scheme tok =
    if text_eq scheme (codes "https")
    then codes "__Host-admin_token="
      ++ (tok ++ codes "; HttpOnly; Secure; SameSite=Strict; Path=/; Max-Age=3600")
    else codes "admin_token=" ++ (tok ++ codes "; HttpOnly; SameSite=Strict; Path=/; Max-Age=3600")

pub data Endpoint : Type 0 where
  metrics : Endpoint
  series : Endpoint
  events : Endpoint
  health : Endpoint

-- The kinds of answer; `served` carries the Set-Cookie header, if one is sent.
pub data Answer : Type 0 where
  page : Answer
  unavailable : Answer
  not_found : Answer
  method_not_allowed : Answer
  too_many : ℕ → Answer
  unauthorized : Answer
  server_error : Answer
  stream : Answer
  served : Endpoint → Option Text → Answer

pub record Admin : Type 0 where
  pub rate : RateLimiter
  pub max_concurrent : ℕ
  pub conns : Dict ℕ

unfoldable pub endpoint_of : Text → Option Endpoint
unfolding text_eq
endpoint_of path =
    if text_eq path (codes "/_admin/metrics")
    then some metrics
    else if text_eq path (codes "/_admin/series")
    then some series
    else if text_eq path (codes "/_admin/events")
    then some events
    else if text_eq path health_path
    then some health
    else none

unfoldable pub serve_endpoint : Option Endpoint → Option Text → Answer
serve_endpoint none set_cookie = not_found
serve_endpoint (some p) set_cookie = served p set_cookie

-- The part behind the checks: the login cookie, then the stream or one of the endpoints.
unfoldable pub serve : Request → Text → Admin → Admin × Answer
unfolding is_cookie_octet login_cookie try_acquire serve_endpoint endpoint_of
serve q tok s =
    let from_header = truthy q.header && truthy tok in
    if is_stream q
    then (let (conns, ok) = try_acquire s.max_concurrent (remote_of q.peer) s.conns in
        if ok then (record s { conns = conns }, stream) else (s, too_many 60))
    else if from_header && not (all is_cookie_octet tok)
    then (s, unauthorized)
    else (
      s,
      serve_endpoint (endpoint_of q.path)
          (if from_header then some (login_cookie q.scheme tok) else none),
    )

unfoldable pub serve_if : Request → Option Text → Admin → Admin × Answer
unfolding serve
serve_if q none s = (s, unauthorized)
serve_if q (some tok) s = if is_get q then serve q tok s else (s, method_not_allowed)

unfoldable pub after_limit : Surroundings → Request → Verdict → Admin → Admin × Answer
unfolding authenticate serve_if
after_limit e q allowed s = serve_if q (authenticate e q) s
after_limit e q (refused n) s = (s, too_many n)
after_limit e q index_error s = (s, server_error)

-- `_admin_handler` up to the answer, or to the start of a stream.
unfoldable pub admin_handler : Surroundings → ℕ → Request → Admin → Admin × Answer
unfolding is_counted after_limit allow text_eq starts_with
admin_handler e now q s =
    if text_eq q.path (codes "/_admin/") || text_eq q.path (codes "/_admin")
    then (s, if is_get q then (if e.has_page then page else unavailable) else method_not_allowed)
    else if not (starts_with q.path (codes "/_admin/"))
    then (s, not_found)
    else if is_counted e q
    then (let (rate, verdict) = allow (remote_of q.peer) now s.rate in
        after_limit e q verdict (record s { rate = rate }))
    else after_limit e q allowed s

-- The end of a stream: `finally`.
unfoldable pub stream_ended : Text → Admin → Admin
unfolding release cleanup
stream_ended remote s = record s { conns = release remote s.conns; rate = cleanup remote s.rate }
