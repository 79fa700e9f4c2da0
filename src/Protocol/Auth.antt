-- ===== src/Protocol/Auth.antt =====
-- TUIC's two ways to authenticate: tokens or users (protocol/compile_modules.go).
use m_ui.Base.{
  Bool, true, false, List, [], ◌∷◌, none, some, Text, codes, ◌==◌, text_eq, ◌≡◌, refl, ◌∙◌,
  Bool-cases, ◌⊎◌, inl, inr, ap,
}
use m_ui.Json.{
  Value, str, strs, Fields, end, field, get, put, remove, get-put, get-put_other, get-remove,
  get-remove_other,
}
use m_ui.Protocol.Input.{CompileInput, base_map, managed_keys, is_skipped}
use m_ui.Protocol.Users.{as_users_map_uuid}
use m_ui.Protocol.Tokens.{all_string_tokens}
use m_ui.Protocol.Compile.{tuic_started, tuic_auth, tuic_compile, is_v4, or_token, put_users_map}
use m_ui.Protocol.Keep.{get-copy_skipped, put_default_other, text_to_strs_other}
use m_ui.Protocol.Fixed.{base_map_row, row_fields-absent}
use m_ui.Protocol.Passthrough.{HasUniqueKeys, get-copy_kept}

skips_users : is_skipped managed_keys (codes "users") ≡ true
unfolding is_skipped managed_keys
skips_users = refl

pub keeps_token : is_skipped managed_keys (codes "token") ≡ false
unfolding is_skipped managed_keys
keeps_token = refl

module _ (sprint : Value → Text) (token : Text) (in' : CompileInput) where
  -- What the two defaults of `alpn` and `congestion-controller` leave alone.
  pub get-tuic_compile :
      (p : Text → Bool) (k kd : Text)
      → p k ≡ true
      → p (codes "alpn") ≡ false
      → p (codes "congestion-controller") ≡ false
      → get k (tuic_compile sprint token kd in')
        ≡ get k (tuic_auth sprint token kd in' (tuic_started sprint token in'))
  unfolding tuic_compile
  get-tuic_compile p k kd h a c =
      put_default_other p k (codes "congestion-controller") _ _ h c
      ∙ put_default_other p k (codes "alpn") _ _ h a

  get-users_map_token :
      (us m : Fields) → get (codes "token") (put_users_map us m) ≡ get (codes "token") m
  get-users_map_token end m = refl
  get-users_map_token (field j v us) m =
      get-put_other (λ k. k == codes "token") _ (codes "users") _ m refl refl

  pub tuic_auth_v4 :
      (kd : Text) (m : Fields)
      → is_v4 kd m ≡ true
      → (get (codes "users") (tuic_auth sprint token kd in' m) ≡ none)
        × (get (codes "token") (tuic_auth sprint token kd in' m)
            ≡ some (strs (or_token sprint token (all_string_tokens (get (codes "token") m)))))
  unfolding tuic_auth
  tuic_auth_v4 kd m h = rw h (
    rw (get-remove (codes "users") (codes "users") _),
    get-remove_other (λ k. k == codes "token") _ (codes "users") _ refl refl
        ∙ rw (get-put (codes "token") (codes "token") _ m),
  )

  tuic_auth_v5 :
      (kd : Text) (m : Fields)
      → is_v4 kd m ≡ false
      → get (codes "token") (tuic_auth sprint token kd in' m) ≡ none
  unfolding tuic_auth
  tuic_auth_v5 kd m h = rw h (
      get-users_map_token (as_users_map_uuid sprint in'.config in'.users in'.has_credential_state)
        (remove (codes "token") m)
      ∙ rw (get-remove (codes "token") (codes "token") m))

  some_tokens :
      (ts : List Text) → (u : Text) × (us : List Text) × (or_token sprint token ts ≡ (u ∷ us))
  some_tokens [] = (token, [], refl)
  some_tokens (t ∷ ts) = (t, ts, refl)

  -- A TUIC listener never has both ways to authenticate: it has no tokens, or it has no users and at
  -- least one token.
  pub tuic_compile-exclusive :
      (kd : Text)
      → (get (codes "token") (tuic_compile sprint token kd in') ≡ none)
        ⊎ ((t : Text) × (ts : List Text) × (get (codes "token") (tuic_compile sprint token kd in')
              ≡ some (strs (t ∷ ts)))
            × (get (codes "users") (tuic_compile sprint token kd in') ≡ none))
  tuic_compile-exclusive kd = elim (Bool-cases (is_v4 kd (tuic_started sprint token in'))) [
    | inl v4 ↦
        let h = tuic_auth_v4 kd (tuic_started sprint token in') v4 in
        let g =
          some_tokens (all_string_tokens (get (codes "token") (tuic_started sprint token in'))) in
        inr (g.0, g.1, token_kept ∙ h.1 ∙ ap (λ us. some (strs us)) g.2, users_kept ∙ h.0)
    | inr v5 ↦ inl (token_kept ∙ tuic_auth_v5 kd (tuic_started sprint token in') v5)
  ]
    where
      token_kept :
          get (codes "token") (tuic_compile sprint token kd in')
          ≡ get (codes "token") (tuic_auth sprint token kd in' (tuic_started sprint token in'))
      token_kept = get-tuic_compile (λ k. k == codes "token") _ kd refl refl refl

      users_kept :
          get (codes "users") (tuic_compile sprint token kd in')
          ≡ get (codes "users") (tuic_auth sprint token kd in' (tuic_started sprint token in'))
      users_kept = get-tuic_compile (λ k. k == codes "users") _ kd refl refl refl

  -- `users` is a managed key: it is not copied, so it is not there to be looked at.
  pub tuic_started-users : get (codes "users") (tuic_started sprint token in') ≡ none
  unfolding tuic_started
  tuic_started-users =
      text_to_strs_other (λ k. k == codes "users") _ (codes "token") _ _ refl refl
      ∙ get-copy_skipped managed_keys (codes "users") _ in'.config skips_users
      ∙ get-put_other (λ k. k == codes "users") _ (codes "type") _ (base_map in') refl refl
      ∙ base_map_row (λ k. k == codes "users") _ in' refl refl refl refl
      ∙ row_fields-absent (λ k. k == codes "users") _ in' refl refl refl refl refl

  pub tuic_started-token :
      (t : Text)
      → HasUniqueKeys in'.config
      → get (codes "token") in'.config ≡ some (str t)
      → get (codes "token") (tuic_started sprint token in') ≡ some (strs (t ∷ []))
  unfolding tuic_started
  tuic_started-token t u h =
      rw
        (
          get-copy_kept managed_keys (codes "token")
              (put (codes "type") (str (codes "tuic")) (base_map in')) in'.config keeps_token u,
          h,
        )
        (rw (get-put (codes "token") (codes "token") _ _))
