-- ===== src/Credential/Serve.antt =====
-- `/credential` from the request to the answer: `_handle_auto_approve` with the whole of
-- `_auto_unlock`, and `handle_credential` with `_query_and_return` behind it.
pub mod Revealed
use credential_proxy.Prelude.{
  ℕ, Bool, true, false, not, Option, none, some, Text, strip, if◌then◌else◌,
}
use credential_proxy.Registry.Store.{Caller}
use credential_proxy.Registry.{Registry, check_auto_rate_limit}
use credential_proxy.Proxy.{Proxy}
use credential_proxy.Unlock.{AutoStart, wait, unseal, auto_unlock_start, auto_unlock_end}
use credential_proxy.Credential.Reply.{Response, Error, fail}
use credential_proxy.Credential.{Config, CredentialQuery}
use credential_proxy.Credential.Query.{Library, Search, query_and_return}
use credential_proxy.Credential.Flow.{
  Surroundings, Outcome, reply, auto_approve, release, handle_credential,
}

-- What the rest of the handler gets from outside: the database, the clock, the unsealed
-- password (`none`: unsealing raised) and what other tasks do while the proxy is unsealed.
pub record Backend : Type 0 where
  pub configured : Bool
  pub library : Library
  pub search : Search
  pub monotonic : ℕ
  pub unsealed : Option Text
  pub unsealing : Proxy → Proxy

module _ (back : Backend) where
  -- `_auto_unlock`, and whether it returned; one that waits for another ends without a result.
  unfoldable pub auto_unlock : Proxy → Proxy × Bool
  auto_unlock p =
      let (q, start) = auto_unlock_start p in
      let held = back.unsealing q in
      elim start [
        | wait e ↦ (held, true)
        | unseal generation done ↦ auto_unlock_end generation done back.unsealed held
      ]

  -- The unlocking that an automatic approval may need; `none` goes on to the query.
  unfoldable pub unlock_for : Caller → Proxy → Proxy × Option Response
  unfolding auto_unlock
  unlock_for c p = elim p.master_password [
    | some m ↦ (p, none)
    | none ↦
        if c.can_auto_unlock
        then (let (q, ok) = auto_unlock p in
            (q, if ok then none else some (fail 500 Error.auto_unlock_failed)))
        else (p, some (fail 403 Error.proxy_locked))
  ]

  unfoldable pub query : CredentialQuery → Proxy → Proxy × Response
  unfolding query_and_return
  query q p =
      query_and_return back.configured back.library back.search (strip q.entry) (strip q.field)
        q.use_token p

  -- `_handle_auto_approve`
  unfoldable pub handle_auto_approve : CredentialQuery → Caller → Proxy → Proxy × Response
  unfolding unlock_for query
  handle_auto_approve q c p =
      let (r, ok) = check_auto_rate_limit back.monotonic c.name p.registry in
      let passed : Proxy = record p { registry = r } in
      if not ok
      then (passed, fail 429 Error.too_frequent)
      else let (ready, stop) = unlock_for c passed in
        elim stop [ some r' ↦ (ready, r') | none ↦ query q ready ]

  -- The whole handler, from the parsed request to the answer.
  unfoldable pub serve : Surroundings → Config → CredentialQuery → Proxy → Proxy × Response
  unfolding handle_auto_approve
  serve env cfg q p =
      let (s, next) = handle_credential env cfg q p in
      elim next [
        | reply r ↦ (s, r)
        | auto_approve c ↦ handle_auto_approve q c s
        | release ↦ query q s
      ]
