-- ===== src/Server/Forward/Ready.antt =====
-- From Discord's READY to the one that a client gets.
use gateway_proxy.Prelude.{ℕ, ◌≡◌, refl, false, some, if◌then◌else◌, Bool-cases, inl, inr}
use gateway_proxy.Text.{Text}
use gateway_proxy.Text.Words.{text_eq, text_eq_iff}
use gateway_proxy.Model.{string, array, values, JsonObject, get, insert, get-insert}
use gateway_proxy.Cache.{ready_guilds, get_ready_payload}
use gateway_proxy.Dispatch.{guilds_key, resume_url_key, blank_ready}
use gateway_proxy.Dispatch.Session.{blank_ready-IsBlank}
use gateway_proxy.Server.Forward.{Env, session_id_key, new_ready}

get-blank_ready :
    (url : Text) (d : JsonObject) (key : Text)
    → text_eq guilds_key key ≡ false
    → get (blank_ready url d) key
      ≡ (if text_eq resume_url_key key then some (string url) else get d key)
get-blank_ready url d key not_guilds = elim (Bool-cases (text_eq resume_url_key key)) [
  | inl e ↦ rw (e, ← (text_eq_iff resume_url_key key).0 e) (blank_ready-IsBlank url d).0.url_is
  | inr e ↦ rw e ((blank_ready-IsBlank url d).1 key not_guilds e)
]

-- The READY of a client has its own session ID, the guilds of the cache and the URL of the proxy, and is
-- what Discord sent in every other key.
pub new_ready-blank_ready :
    (env : Env) (url : Text) (d : JsonObject) (session_id : Text) (seq : ℕ) (key : Text)
    → env.ready_payload ≡ blank_ready url d
    → get (new_ready env session_id seq).0.d key ≡ (
        if text_eq session_id_key key
        then some (string session_id)
        else if text_eq guilds_key key
        then some (array (values (ready_guilds env.ready_cache)))
        else if text_eq resume_url_key key
        then some (string url)
        else get d key)
unfolding new_ready get_ready_payload
new_ready-blank_ready env url d session_id seq key stored =
    let guilds = array (values (ready_guilds env.ready_cache)) in
    rw
      (
        get-insert (insert env.ready_payload guilds_key guilds) session_id_key key
            (string session_id),
        get-insert env.ready_payload guilds_key key guilds,
      )
      (elim (Bool-cases (text_eq session_id_key key)) [
        | inl e ↦ rw e refl
        | inr e ↦ rw e (elim (Bool-cases (text_eq guilds_key key)) [
          | inl e' ↦ rw e' refl
          | inr e' ↦ rw (e', stored) (get-blank_ready url d key e')
        ])
      ])
