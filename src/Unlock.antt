-- ===== src/Unlock.antt =====
-- The unlock tasks: `_do_unlock` of _tpm.py (started by a reaction) and `_auto_unlock` of
-- _credential.py (started by an automatic approval). Each function is one critical section;
-- `pw` is what `_tpm_unseal` returned, `none` where it raised.
pub mod Wake
use credential_proxy.Prelude.{
  ℕ, suc, ◌+◌, Bool, true, false, Option, none, some, List, [], ◌∷◌, Text, truthy, ◌==◌,
  if◌then◌else◌, not, ltb, length,
}
use credential_proxy.Proxy.{Proxy, set_event, wake_unlock, drop_unlock}

-- The checks of `_tpm_unseal` on the output of `tpm2_unseal`, of which the trailing newlines
-- are gone: an empty password and one below four characters raise.
unfoldable pub accept_unsealed : Text → Option Text
accept_unsealed pw = if not (truthy pw) then none else if ltb (length pw) 4 then none else some pw

-- `_do_unlock`, the handler of an exception.
unfoldable pub do_unlock_failed : Proxy → Proxy
unfolding drop_unlock
do_unlock_failed p = drop_unlock (record p { unlock_in_progress = false })

-- `_do_unlock` when the unsealing ended.
unfoldable pub do_unlock : ℕ → Option Text → Proxy → Proxy
unfolding do_unlock_failed
do_unlock generation none p = do_unlock_failed p
do_unlock generation (some pw) p =
    if not (truthy pw)
    then do_unlock_failed p
    else if not (p.unlock_generation == generation)
    then record p { unlock_in_progress = false }
    else wake_unlock (record p {
      master_password = some pw;
      kp_cached = false;
      unlock_in_progress = false;
      unlock_msg_id = none;
    })

-- What the first section of `_auto_unlock` decides: wait for an event, or unseal under a
-- generation and set the event at the end.
pub data AutoStart : Type 0 where
  wait : ℕ → AutoStart
  unseal : ℕ → ℕ → AutoStart

unfoldable pub auto_unlock_start : Proxy → Proxy × AutoStart
auto_unlock_start p =
    let done = p.next_event in
    let q : Proxy = record p { next_event = p.next_event + 1 } in
    if p.unlock_in_progress
    then elim p.auto_unlock_event [
      | some e ↦ (q, wait e)
      | none ↦ elim p.unlock_event [
        | some e ↦ (q, wait e)
        | none ↦ (record q { next_event = q.next_event + 1 }, wait q.next_event)
      ]
    ]
    else (
      record q {
        unlock_in_progress = true;
        unlock_generation = p.unlock_generation + 1;
        auto_unlock_event = some done;
      },
      unseal (p.unlock_generation + 1) done,
    )

-- The handler of an exception; the exception goes on to the caller.
unfoldable pub auto_unlock_failed : ℕ → Proxy → Proxy
unfolding drop_unlock
auto_unlock_failed done p =
    set_event done (drop_unlock (record p { unlock_in_progress = false; auto_unlock_event = none }))

-- The end of `_auto_unlock`, and whether it returned (`false`: it raised).
unfoldable pub auto_unlock_end : ℕ → ℕ → Option Text → Proxy → Proxy × Bool
unfolding auto_unlock_failed wake_unlock
auto_unlock_end generation done none p = (auto_unlock_failed done p, false)
auto_unlock_end generation done (some pw) p =
    if not (truthy pw)
    then (auto_unlock_failed done p, false)
    else if not (p.unlock_generation == generation)
    then (p, true)
    else (
      set_event done
          (record (wake_unlock (record p { master_password = some pw; kp_cached = false })) {
            unlock_in_progress = false;
            auto_unlock_event = none;
          }),
      true,
    )
