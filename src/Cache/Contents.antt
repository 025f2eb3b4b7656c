-- ===== src/Cache/Contents.antt =====
-- The contents of a GUILD_CREATE against the cache.
use gateway_proxy.Prelude.{
  ℕ, ◌≡◌, subst, Bool, true, false, Option, none, some, List, [], ◌∷◌, ◌++◌, arith, if◌then◌else◌,
  ◌>>=◌, >>=-elim, Option-cases, Bool-cases, inl, inr, filter_map, All, All-filter_map, Occurs,
  Occurs-filter_map,
}
use mathlib.Core.List.{Perm, perm_middle}
use mathlib.Core.List.Perm
use mathlib.Core.Option
use gateway_proxy.Cache.Records.{Member, CachedMember, InMemoryCache}
use gateway_proxy.Cache.InGuild.{
  collect, channels_in_guild, threads_in_guild, member, members_in_guild, voice_states_in_guild,
}

module _ {A B : Type 0} (f : A → Option B) (test : B → Bool) where
  pub filter_map_parts :
      (xs : List A)
      → Perm
          (filter_map (λ x. f x >>= λ y. if test y then none else some y) xs
            ++ filter_map (λ x. f x >>= λ y. if test y then some y else none) xs)
          (filter_map f xs)
  unfolding filter_map
  filter_map_parts [] = Perm.refl []
  filter_map_parts (x ∷ xs) = go _ _ _ (f x) (filter_map_parts xs)
    where
      go :
          (ds bs cs : List B) (o : Option B)
          → Perm (ds ++ bs) cs
          → Perm
              (elim (o >>= λ y. if test y then none else some y) [ none ↦ ds | some y ↦ y ∷ ds ]
                ++ elim (o >>= λ y. if test y then some y else none) [
                  | none ↦ bs
                  | some y ↦ y ∷ bs
                ])
              (elim o [ none ↦ cs | some y ↦ y ∷ cs ])
      go ds bs cs none p = p
      go ds bs cs (some y) p = elim (Bool-cases (test y)) [
        | inl e ↦ rw e (Perm.trans (perm_middle ds bs) (Perm.cons y p))
        | inr e ↦ rw e (Perm.cons y p)
      ]

All-collect :
    {B : Type 0} {f : ℕ → Option B} (P : B → Type 0) (ids : Option (List ℕ))
    → ((id : ℕ) (y : B) → f id ≡ some y → P y)
    → All P (collect ids f)
unfolding collect
All-collect P none h = tt
All-collect {f = f} P (some ids) h = All-filter_map f P ids (λ id y _. h id y)

-- The member, if there is one, is in the list.
abbrev pub Listed : List Member → Option Member → Type 0
Listed ms none = Unit
Listed ms (some m) = Occurs m ms

module _ (cache : InMemoryCache) where
  -- The channels and the threads of a guild are all channels that the cache has for it, each in the
  -- one list or the other by its kind.
  pub channels_in_guild-threads_in_guild :
      (guild_id : ℕ)
      → Perm
          (channels_in_guild cache guild_id ++ threads_in_guild cache guild_id)
          (collect (cache.guild_channels guild_id) cache.channel)
        × All (λ c. c.is_thread ≡ false) (channels_in_guild cache guild_id)
        × All (λ c. c.is_thread ≡ true) (threads_in_guild cache guild_id)
  unfolding channels_in_guild threads_in_guild collect
  channels_in_guild-threads_in_guild guild_id = go (cache.guild_channels guild_id)
    where
      go :
          (ids : Option (List ℕ))
          → Perm
              (collect ids (λ id. cache.channel id >>= λ c. if c.is_thread then none else some c)
                ++ collect ids
                    (λ id. cache.channel id >>= λ c. if c.is_thread then some c else none))
              (collect ids cache.channel)
            × All
                (λ c. c.is_thread ≡ false)
                (collect ids (λ id. cache.channel id >>= λ c. if c.is_thread then none else some c))
            × All
                (λ c. c.is_thread ≡ true)
                (collect ids (λ id. cache.channel id >>= λ c. if c.is_thread then some c else none))
      go none = (Perm.refl [], tt, tt)
      go (some ids) = (
        filter_map_parts cache.channel (λ c. c.is_thread) ids,
        All-filter_map _ _ ids (λ id c _ e.
            >>=-elim (cache.channel id) (λ c'. if c'.is_thread then none else some c') e
              λ c' _ kept. ground arith),
        All-filter_map _ _ ids (λ id c _ e.
            >>=-elim (cache.channel id) (λ c'. if c'.is_thread then some c' else none) e
              λ c' _ kept. ground arith),
      )

  Listed-member :
      (guild_id : ℕ) (ids : List ℕ)
      → cache.guild_members guild_id ≡ some ids
      → ((user_id : ℕ) (m : CachedMember)
          → cache.cached_member guild_id user_id ≡ some m
          → Occurs user_id ids)
      → (user_id : ℕ) → Listed (members_in_guild cache guild_id) (member cache guild_id user_id)
  unfolding members_in_guild collect member
  Listed-member guild_id ids has complete user_id =
      elim (Option-cases (member cache guild_id user_id)) [
        | inl e ↦ rw e tt
        | inr (m, e) ↦
            rw (e, has) (Occurs-filter_map (member cache guild_id) ids user_id m (known e) e)
      ]
    where
      known : {m : Member} → member cache guild_id user_id ≡ some m → Occurs user_id ids
      known e = >>=-elim (cache.cached_member guild_id user_id) _ e λ m is _. complete user_id m is

  -- Where the cache lists each cached member of the guild, the member that a voice state comes with is
  -- one of the members of the same payload.
  pub voice_states_in_guild-members_in_guild :
      (guild_id : ℕ) (ids : List ℕ)
      → cache.guild_members guild_id ≡ some ids
      → ((user_id : ℕ) (m : CachedMember)
          → cache.cached_member guild_id user_id ≡ some m
          → Occurs user_id ids)
      → All
          (λ v. Listed (members_in_guild cache guild_id) v.member)
          (voice_states_in_guild cache guild_id)
  unfolding voice_states_in_guild collect
  voice_states_in_guild-members_in_guild guild_id ids has complete =
      All-collect (λ v. Listed (members_in_guild cache guild_id) v.member)
        (cache.guild_voice_states guild_id)
        (λ user_id v e. >>=-elim (cache.voice_state user_id guild_id) _ e λ cached _ built.
          subst (λ v. Listed (members_in_guild cache guild_id) v.member) (Option.some_inj.0 built)
            (Listed-member guild_id ids has complete user_id))
