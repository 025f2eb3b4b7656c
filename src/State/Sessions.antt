-- ===== src/State/Sessions.antt =====
-- The sessions of src/state.rs.
use gateway_proxy.Prelude.{ℕ, zero, suc, ◌≡◌, refl, ap, some, if◌then◌else◌, length}
use gateway_proxy.Text.{Text}
use gateway_proxy.Text.Words.{text_eq}
use gateway_proxy.Model.{get-insert}
use gateway_proxy.State.{Inner, Session, take_samples, get_session, create_session}

length-take_samples : (sample : ℕ → ℕ) (n : ℕ) → length (take_samples sample n) ≡ n
length-take_samples sample zero = refl
length-take_samples sample (suc n) = ap suc (length-take_samples (λ i. sample (suc i)) n)

module _ {Cache : Type 0} (sample : ℕ → ℕ) (state : Inner Cache) (session : Session) where
  -- A new session has an ID of 32 characters, is found under this ID, hides a session that had the
  -- same ID, and leaves every other session, the shards and the shard count as they were.
  pub get_session-create_session :
      (other : Text)
      → let (state', id) = create_session sample state session in
        (length id ≡ 32)
        × (get_session state' other
            ≡ (if text_eq id other then some session else get_session state other))
        × (state'.shards ≡ state.shards)
        × (state'.shard_count ≡ state.shard_count)
  unfolding get_session create_session
  get_session-create_session other = (
    length-take_samples sample 32,
    get-insert state.sessions (take_samples sample 32) other session,
    refl,
    refl,
  )
