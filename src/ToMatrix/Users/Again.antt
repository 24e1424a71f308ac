-- ===== src/ToMatrix/Users/Again.antt =====
-- A Mattermost user keeps its ghost user: `CreateOrGetGhostUser` (server/sync_to_matrix.go).
use mattermost_plugin_matrix.Prelude.{
  ℕ, ◌≡◌, refl, sym, ◌∙◌, ap, subst, ◌⊎◌, false, Option, none, some, Option-cases, inl, inr, [],
  ◌∷◌, Text, ◌==◌, eq_iff, eq_refl, arith,
}
use mattermost_plugin_matrix.Event.{or_empty}
use mattermost_plugin_matrix.Store.{KvStore, IsKvStore, IsReliable, build_ghost_user_key}
use mattermost_plugin_matrix.Mapping.{look_up}
use mattermost_plugin_matrix.Mapping.RoundTrip.{IsReady, look_up-cache_room}
use mattermost_plugin_matrix.Mapping.Cached.{
  Agrees, look_up-IsReady, look_up-Agrees, cache_room-IsReady,
}
use mattermost_plugin_matrix.Mattermost.{MattermostServer}
use mattermost_plugin_matrix.ToMatrix.{MatrixServer, MatrixBridge, MatrixSettings}
use mattermost_plugin_matrix.ToMatrix.Users.{
  with_store, get_ghost_user, keep_ghost_user, create_ghost, create_or_get_ghost_user,
}

some_inj : {x y : Text} → some x ≡ some y → x ≡ y
some_inj h = ap or_empty h

module _ {S : Type 0} (kv : KvStore S) (stored : IsKvStore kv) (mm : MattermostServer S)
    (mx : MatrixServer S) (reliable : IsReliable kv stored.contents)
    (settings : MatrixSettings) where
  -- The store has a ghost user for a user, and the cache of ghost users, if there is one, has room for
  -- entries and agrees with it.
  record IsKept (user ghost : Text) (b : MatrixBridge S) : Type 0 where
    ready : IsReady b.ghost_user_cache
    agrees : Agrees (build_ghost_user_key user) ghost b.ghost_user_cache
    entry : stored.contents (build_ghost_user_key user) b.bridge.store ≡ ghost

  -- A ghost user that is kept is found, and it stays so.
  get_ghost_user-IsKept :
      (now : ℕ) (user ghost : Text) (b : MatrixBridge S)
      → IsKept user ghost b
      → (ghost == []) ≡ false
      → ((get_ghost_user kv mm mx settings now user b).1 ≡ some ghost)
        × IsKept user ghost (get_ghost_user kv mm mx settings now user b).0
  unfolding get_ghost_user
  get_ghost_user-IsKept now user ghost b kept named =
      let key = build_ghost_user_key user in
      let looked = (look_up now key b.ghost_user_cache).0 in
      let ready = look_up-IsReady now key b.ghost_user_cache kept.ready in
      let read : or_empty (kv.get key b.bridge.store) ≡ ghost =
        ap or_empty (reliable.reads key b.bridge.store) ∙ kept.entry in
      elim (kept.agrees now) [
        | inr hit ↦
            rw (hit, get_ghost_user)
              (
                refl,
                record {
                  ready = ready;
                  agrees = look_up-Agrees now key ghost b.ghost_user_cache kept.ready kept.agrees;
                  entry = kept.entry;
                },
              )
        | inl missed ↦
            rw (missed, get_ghost_user)
              (rw read (
                rw named (
                  refl,
                  record {
                    ready = cache_room-IsReady now key ghost looked ready;
                    agrees = λ t. look_up-cache_room kv stored now t key ghost looked ready;
                    entry = kept.entry;
                  },
                )))
      ]

  -- Without one, nothing is found, or the empty text in the cache.
  get_ghost_user-empty :
      (now : ℕ) (user : Text) (b : MatrixBridge S)
      → IsKept user [] b
      → ((get_ghost_user kv mm mx settings now user b).1 ≡ some [])
        ⊎ (get_ghost_user kv mm mx settings now user b ≡ (
          record b {
            ghost_user_cache = (look_up now (build_ghost_user_key user) b.ghost_user_cache).0;
          },
          none,
        ))
  unfolding get_ghost_user ◌==◌
  get_ghost_user-empty now user b kept =
      let key = build_ghost_user_key user in
      let read : or_empty (kv.get key b.bridge.store) ≡ [] =
        ap or_empty (reliable.reads key b.bridge.store) ∙ kept.entry in
      elim (kept.agrees now) [
        | inr hit ↦ inl (rw (hit, get_ghost_user) refl)
        | inl missed ↦ inr (rw (missed, get_ghost_user) (rw read refl))
      ]

  keep_ghost_user-IsKept :
      (now : ℕ) (user ghost : Text) (b : MatrixBridge S)
      → IsReady b.ghost_user_cache
      → IsKept user ghost (keep_ghost_user kv mm mx settings now user ghost b)
  unfolding keep_ghost_user
  keep_ghost_user-IsKept now user ghost b ready =
      let key = build_ghost_user_key user in
      let (after, e) = reliable.writes key ghost b.bridge.store in
      record {
        ready = cache_room-IsReady now key ghost b.ghost_user_cache ready;
        agrees = λ t. look_up-cache_room kv stored now t key ghost b.ghost_user_cache ready;
        entry =
            rw e (
              ground
                (arith, stored.contents-set key key ghost b.bridge.store after e, eq_refl key));
      }

  create_ghost-IsKept :
      (now : ℕ) (user ghost : Text) (b : MatrixBridge S)
      → IsReady b.ghost_user_cache
      → (create_ghost kv mm mx settings now user b).1 ≡ some ghost
      → IsKept user ghost (create_ghost kv mm mx settings now user b).0
  unfolding create_ghost
  create_ghost-IsKept now user ghost b ready =
      elim (Option-cases (mm.get_user user b.bridge.store)) [
        | inl e ↦ rw (e, create_ghost) (λ h. absurd (ground arith))
        | inr (u, e) ↦
            let made =
              mx.create_ghost_user user (settings.display_name_of u)
                (mm.get_profile_image user b.bridge.store) b.bridge.store in
            rw (e, create_ghost)
              (elim (Option-cases made.1) [
                | inl f ↦ rw (f, create_ghost) (λ h. absurd (ground arith))
                | inr (id, f) ↦
                    rw (f, create_ghost)
                      (λ h.
                        let same : id ≡ ghost = ground arith in
                        rw (← same)
                          (keep_ghost_user-IsKept now user id (with_store made.0 b) ready))
              ])
      ]

  -- `CreateOrGetGhostUser` after the first look.
  abbrev after_look : ℕ → Text → MatrixBridge S × Option Text → MatrixBridge S × Option Text
  after_look now user looked = elim looked.1 [
    | some id ↦ (looked.0, some id)
    | none ↦ create_ghost kv mm mx settings now user looked.0
  ]

  -- What a ghost user that was returned leaves behind.
  abbrev Kept : Text → Text → MatrixBridge S × Option Text → Type 0
  Kept user ghost result = result.1 ≡ some ghost → IsKept user ghost result.0

  after_look-found :
      (now : ℕ) (user ghost : Text) (looked : MatrixBridge S × Option Text)
      → looked.1 ≡ some ghost
      → after_look now user looked ≡ (looked.0, some ghost)
  after_look-found now user ghost looked e = rw e refl

  create_or_get_ghost_user-found :
      (now : ℕ) (user ghost : Text) (b : MatrixBridge S)
      → (get_ghost_user kv mm mx settings now user b).1 ≡ some ghost
      → create_or_get_ghost_user kv mm mx settings now user b
        ≡ ((get_ghost_user kv mm mx settings now user b).0, some ghost)
  unfolding create_or_get_ghost_user
  create_or_get_ghost_user-found now user ghost b e =
      after_look-found now user ghost (get_ghost_user kv mm mx settings now user b) e

  create_or_get_ghost_user-IsKept :
      (now : ℕ) (user entry ghost : Text) (b : MatrixBridge S)
      → IsKept user entry b
      → (ghost == []) ≡ false
      → Kept user ghost (create_or_get_ghost_user kv mm mx settings now user b)
  unfolding create_or_get_ghost_user
  create_or_get_ghost_user-IsKept now user [] ghost b kept named =
      elim (get_ghost_user-empty now user b kept) [
        | inl hit ↦
            subst (Kept user ghost) (sym (create_or_get_ghost_user-found now user [] b hit))
              (λ h. absurd (ground (arith, (eq_iff ghost []).1 (sym (some_inj h)))))
        | inr missed ↦ subst (Kept user ghost) (sym (ap (after_look now user) missed)) (
            create_ghost-IsKept now user ghost _
              (look_up-IsReady now (build_ghost_user_key user) b.ghost_user_cache kept.ready))
      ]
  create_or_get_ghost_user-IsKept now user (c ∷ rest) ghost b kept named =
      let (found, still) = get_ghost_user-IsKept now user (c ∷ rest) b kept (unfold ◌==◌ in refl) in
      subst (Kept user ghost) (sym (create_or_get_ghost_user-found now user (c ∷ rest) b found))
        (λ h.
          subst (λ id. IsKept user id (get_ghost_user kv mm mx settings now user b).0) (some_inj h)
            still)

  -- If the store does not fail, and the cache of ghost users, if there is one, has room for entries and
  -- gives nothing for the user but what the store has, as a new cache does, then a Mattermost user for
  -- which a ghost user was returned, that is not the empty text, gets the same one on the next call, at
  -- any time, whether the cache still has it or not.
  pub create_or_get_ghost_user_again :
      (now later : ℕ) (user ghost : Text) (b : MatrixBridge S)
      → IsReady b.ghost_user_cache
      → Agrees
          (build_ghost_user_key user)
          (stored.contents (build_ghost_user_key user) b.bridge.store)
          b.ghost_user_cache
      → (create_or_get_ghost_user kv mm mx settings now user b).1 ≡ some ghost
      → (ghost == []) ≡ false
      → (create_or_get_ghost_user kv mm mx settings later user
          (create_or_get_ghost_user kv mm mx settings now user b).0).1
        ≡ some ghost
  create_or_get_ghost_user_again now later user ghost b ready agrees got named =
      let after = (create_or_get_ghost_user kv mm mx settings now user b).0 in
      let kept =
        create_or_get_ghost_user-IsKept now user _ ghost b
          (record { ready = ready; agrees = agrees; entry = refl }) named got in
      let (found, still) = get_ghost_user-IsKept later user ghost after kept named in
      ap (λ x. x.1) (create_or_get_ghost_user-found later user ghost after found)
