-- ===== src/Api/Authorised.antt =====
-- Which requests server/api.go lets through to the transactions.
use mattermost_plugin_matrix.Prelude.{
  ℕ, ◌≡◌, ◌⊎◌, inl, inr, refl, Bool, true, false, ◌&&◌, not, Option, none, some, List, [], ◌++◌,
  Text, ◌==◌, lit, arith, if◌then◌else◌, Bool-cases,
}
use mattermost_plugin_matrix.Event.{MatrixEvent}
use mattermost_plugin_matrix.Webhook.{Request, Webhook, handle_matrix_transaction}
use mattermost_plugin_matrix.Api.{
  Configuration, get_configuration, matrix_authorization_required, serve_transaction,
}

-- The synchronisation is enabled, and the header has the token of the Matrix server, which is set.
abbrev pub is_authorised : Configuration → Text → Bool
is_authorised config auth_header =
    config.enable_sync
    && not (config.matrix_hs_token == [])
    && auth_header == lit "Bearer " ++ config.matrix_hs_token

-- How a request is refused, if it is.
abbrev Refused : Bool → Option ℕ → Type 0
Refused b o = if b then o ≡ none else (o ≡ some 401) ⊎ (o ≡ some 503)

matrix_authorization_required-is_authorised :
    (config : Configuration) (auth_header : Text)
    → Refused (is_authorised config auth_header) (matrix_authorization_required config auth_header)
unfolding matrix_authorization_required
matrix_authorization_required-is_authorised config auth_header = ground arith

module _ (parse : Text → Option (List MatrixEvent)) (max_file_size : Option ℕ)
    (active : Option Configuration) (now : ℕ) (auth_header : Text) (r : Request) (w : Webhook) where
  -- What a response has to do with the refusal.
  abbrev Answered : Bool → Webhook × ℕ → Type 0
  Answered b response =
      if b
      then response ≡ handle_matrix_transaction parse max_file_size now r w
      else (response.0 ≡ w) × ((response.1 ≡ 401) ⊎ (response.1 ≡ 503))

  answered :
      (b : Bool) (o : Option ℕ)
      → Refused b o
      → Answered b (elim o [
        | some status ↦ (w, status)
        | none ↦ handle_matrix_transaction parse max_file_size now r w
      ])
  answered true o h = rw h refl
  answered false o (inl h) = rw h (refl, inl refl)
  answered false o (inr h) = rw h (refl, inr refl)

  -- A request with the method PUT is handled as a transaction if the synchronisation is enabled, a
  -- token is configured, and the request has that token; without these it changes nothing and is
  -- answered with 401 or 503. A request with another method changes nothing and is answered with 405,
  -- whatever token it has.
  pub serve_transaction-is_authorised :
      if r.method == lit "PUT"
      then if is_authorised (get_configuration active) auth_header
        then serve_transaction parse max_file_size active now auth_header r w
          ≡ handle_matrix_transaction parse max_file_size now r w
        else ((serve_transaction parse max_file_size active now auth_header r w).0 ≡ w)
          × (((serve_transaction parse max_file_size active now auth_header r w).1 ≡ 401)
              ⊎ ((serve_transaction parse max_file_size active now auth_header r w).1 ≡ 503))
      else serve_transaction parse max_file_size active now auth_header r w ≡ (w, 405)
  unfolding serve_transaction
  serve_transaction-is_authorised =
      let config = get_configuration active in
      elim (Bool-cases (r.method == lit "PUT")) [
        | inl is_put ↦ rw is_put (
            answered (is_authorised config auth_header)
              (matrix_authorization_required config auth_header)
              (matrix_authorization_required-is_authorised config auth_header))
        | inr other ↦ rw other refl
      ]
