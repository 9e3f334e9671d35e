-- ===== src/Admin/Handler/Access.antt =====
-- Who gets an answer with data from `_admin_handler` of _admin.py.
use credential_proxy.Prelude.{
  ℕ, ◌≡◌, sym, subst, true, false, ◌&&◌, ◌||◌, not, Option, none, some, [], Text, all, text_eq,
  text_eq_iff, truthy, arith, Bool-cases, Option-cases, inl, inr, ◌⊎◌, starts_with, if_both, codes,
}
use credential_proxy.Admin.Limit.{Verdict, allowed, refused, index_error, allow}
use credential_proxy.Admin.Streams.{try_acquire}
use credential_proxy.Admin.Handler.{
  Request, Surroundings, Answer, page, unavailable, not_found, method_not_allowed, too_many,
  unauthorized, server_error, stream, served, Admin, Endpoint, loopback_grace, is_stream, is_get,
  shown_token, authenticate, is_cookie_octet, login_cookie, serve, serve_if, serve_endpoint,
  after_limit, admin_handler, endpoint_of, is_counted, remote_of,
}

-- The token that is shown has the digest of the configured one, which is not empty.
abbrev pub ShowsToken : Surroundings → Request → Type 0
ShowsToken e q =
    (truthy e.obs_token ≡ true)
    × ((truthy (shown_token q) ≡ true) × (e.sha256 (shown_token q) ≡ e.sha256 e.obs_token))

-- From the machine itself in development, or with the token, which is not in the query of a plain
-- request.
abbrev pub IsEntitled : Surroundings → Request → Type 0
IsEntitled e q =
    (loopback_grace e q ≡ true)
    ⊎ (ShowsToken e q × (truthy q.access_token && not (is_stream q) ≡ false))

authenticate-IsEntitled :
    (e : Surroundings) (q : Request) (tok : Text)
    → authenticate e q ≡ some tok
    → IsEntitled e q × ((tok ≡ []) ⊎ ((tok ≡ shown_token q) × ShowsToken e q))
unfolding authenticate
authenticate-IsEntitled e q tok h =
    ground (arith, text_eq_iff (e.sha256 (shown_token q)) (e.sha256 e.obs_token))

-- What an answer gives away: nothing, unless the request is entitled to it, and a cookie only with
-- the token that was shown.
pub data IsDue (e : Surroundings) (q : Request) : Answer → Type 0 where
  due_page : IsDue e q page
  due_unavailable : IsDue e q unavailable
  due_not_found : IsDue e q not_found
  due_method : IsDue e q method_not_allowed
  due_too_many : {n : ℕ} → IsDue e q (too_many n)
  due_unauthorized : IsDue e q unauthorized
  due_error : IsDue e q server_error
  due_stream : IsEntitled e q → is_get q ≡ true → is_stream q ≡ true → IsDue e q stream
  due_served :
      {p : Endpoint}
      → IsEntitled e q
      → is_get q ≡ true
      → is_stream q ≡ false
      → IsDue e q (served p none)
  due_login :
      {p : Endpoint}
      → ShowsToken e q
      → is_get q ≡ true
      → all is_cookie_octet (shown_token q) ≡ true
      → IsDue e q (served p (some (login_cookie q.scheme (shown_token q))))

endpoint-IsDue :
    (e : Surroundings) (q : Request) (o : Option Endpoint) (c : Option Text)
    → ((p : Endpoint) → IsDue e q (served p c))
    → IsDue e q (serve_endpoint o c)
unfolding serve_endpoint
endpoint-IsDue e q none c h = due_not_found
endpoint-IsDue e q (some p) c h = h p

serve-IsDue :
    (e : Surroundings) (q : Request) (tok : Text) (s : Admin)
    → is_get q ≡ true
    → IsEntitled e q
    → (tok ≡ []) ⊎ ((tok ≡ shown_token q) × ShowsToken e q)
    → IsDue e q (serve q tok s).1
unfolding serve
serve-IsDue e q tok s g i t = elim (Bool-cases (is_stream q)) [
  | inl st ↦ rw st (
      if_both (λ (r : Admin × Answer). IsDue e q r.1)
        (try_acquire s.max_concurrent (remote_of q.peer) s.conns).1 (due_stream i g st)
        due_too_many)
  | inr st ↦ rw st (elim (Bool-cases (truthy q.header && truthy tok)) [
    | inr h ↦ rw h (endpoint-IsDue e q (endpoint_of q.path) none (λ p. due_served i g st))
    | inl h ↦ rw h (elim (Bool-cases (all is_cookie_octet tok)) [
      | inr bad ↦ rw bad due_unauthorized
      | inl ok ↦ rw ok (elim t [
        | inl empty ↦ absurd (ground arith)
        | inr (same, shows) ↦
            endpoint-IsDue e q (endpoint_of q.path) (some (login_cookie q.scheme tok)) (λ p.
              subst (λ k. IsDue e q (served p (some (login_cookie q.scheme k)))) (sym same)
                (due_login shows g (subst (λ k. all is_cookie_octet k ≡ true) same ok)))
      ])
    ])
  ])
]

after_limit-IsDue :
    (e : Surroundings) (q : Request) (v : Verdict) (s : Admin) → IsDue e q (after_limit e q v s).1
unfolding after_limit serve_if
after_limit-IsDue e q (refused n) s = due_too_many
after_limit-IsDue e q index_error s = due_error
after_limit-IsDue e q allowed s = elim (Option-cases (authenticate e q)) [
  | inl n ↦ rw n due_unauthorized
  | inr (tok, a) ↦
      let (i, t) = authenticate-IsEntitled e q tok a in
      rw a (elim (Bool-cases (is_get q)) [
        | inl g ↦ rw g (serve-IsDue e q tok s g i t)
        | inr g ↦ rw g due_method
      ])
]

-- `_admin_handler` opens a stream or answers with data only for a GET, and only if the request
-- comes from the machine itself in development or shows a token with the digest of the configured
-- one, which is not empty, and not in the query of a plain request. It sets a cookie only with the
-- token that was shown, and only if each of its characters may stand in a cookie.
pub admin_handler-IsDue :
    (e : Surroundings) (now : ℕ) (q : Request) (s : Admin) → IsDue e q (admin_handler e now q s).1
unfolding admin_handler
admin_handler-IsDue e now q s =
    if_both P (text_eq q.path (codes "/_admin/") || text_eq q.path (codes "/_admin"))
      (if_both (IsDue e q) (is_get q) (if_both (IsDue e q) e.has_page due_page due_unavailable)
        due_method)
      (if_both P (not (starts_with q.path (codes "/_admin/"))) due_not_found (
        if_both P (is_counted e q)
          (after_limit-IsDue e q (allow (remote_of q.peer) now s.rate).1
            (record s { rate = (allow (remote_of q.peer) now s.rate).0 }))
          (after_limit-IsDue e q allowed s)))
  where
    P : Admin × Answer → Type 0
    P r = IsDue e q r.1
