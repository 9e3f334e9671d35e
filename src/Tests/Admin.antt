-- ===== src/Tests/Admin.antt =====
-- The dashboard of _admin.py: its limits and one request with a token.
use credential_proxy.Prelude.{
  ℕ, ◌+◌, ◌≡◌, ◌≤◌, refl, Bool, true, false, Option, none, some, List, [], ◌∷◌, Text, Dict, codes,
  lookup, leb, if◌then◌else◌, arith,
}
use credential_proxy.Admin.Limit.Refine.{
  Event, call, disconnect, answers, log_answers, rate_limiter, rate_limiter-refines,
}
use credential_proxy.Admin.Streams
use credential_proxy.Admin.Streams.{run-counts}
use credential_proxy.Admin.Handler.{Request, Surroundings, Admin, served, metrics, admin_handler}
use credential_proxy.Admin.Handler.Access.{IsDue, admin_handler-IsDue}

abbrev visits : List Event
visits =
    call (codes "a") 1
    ∷ call (codes "a") 2
    ∷ call (codes "b") 2
    ∷ call (codes "a") 3
    ∷ call (codes "a") 61
    ∷ disconnect (codes "b")
    ∷ call (codes "b") 62
    ∷ []

-- Two calls in a minute: the third is refused, and the first no longer counts at 61.
visits-answers : answers visits (rate_limiter 2 60) ≡ true ∷ true ∷ true ∷ false ∷ true ∷ true ∷ []
unfolding answers lookup credential_proxy.Prelude.insert credential_proxy.Prelude.text_eq
    credential_proxy.Prelude.erase
visits-answers = refl

rate_limiter-refines_example :
    answers visits (rate_limiter 2 60) ≡ log_answers 2 60 visits (λ key. [])
rate_limiter-refines_example = rate_limiter-refines visits 2 60 (omega arith) (
  (omega arith),
  ((omega arith), ((omega arith), ((omega arith), ((omega arith), ((omega arith), tt))))),
)

abbrev streams : List Streams.Event
streams =
    Streams.ask (codes "a")
    ∷ Streams.ask (codes "a")
    ∷ Streams.ask (codes "b")
    ∷ Streams.end (codes "a")
    ∷ Streams.end (codes "b")
    ∷ []

abbrev surroundings : Surroundings
surroundings = record {
  obs_token = codes "0123abcd";
  env = codes "prod";
  allow_loopback_no_token = [];
  has_page = true;
  sha256 = λ t. t;
  ip_address = λ t. none;
}

abbrev login : Request
login = record {
  method = codes "GET";
  path = codes "/_admin/metrics";
  peer = some (codes "10.0.0.7");
  header = codes "0123abcd";
  cookies = [];
  access_token = [];
  scheme = codes "http";
}

abbrev quiet : Admin
quiet = record { rate = rate_limiter 60 60; max_concurrent = 5; conns = [] }

login_answer :
    (admin_handler surroundings 5 login quiet).1
    ≡ served metrics
        (some (codes "admin_token=0123abcd; HttpOnly; SameSite=Strict; Path=/; Max-Age=3600"))
unfolding admin_handler lookup
login_answer = refl

admin_handler-IsDue_example : IsDue surroundings login (admin_handler surroundings 5 login quiet).1
admin_handler-IsDue_example = admin_handler-IsDue surroundings 5 login quiet
