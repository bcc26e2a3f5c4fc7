-- ===== src/Startup/Tls.antt =====
-- With which identity `run_server` of src/grpc/mod.rs serves.
use app_center_ratings.Prelude.{
  ◌≡◌, refl, ◌⊎◌, inl, inr, Option, none, some, Option-cases, Text, ok, err,
}
use app_center_ratings.Auth.Jwt.{JsonWebToken}
use app_center_ratings.Startup.Settings.{
  Identity, Outside, StartError, tls_refused, io, panicked, Process,
}
use app_center_ratings.Startup.Refusal.{
  RefusesTls, lone_keychain, lone_key, unread_keychain, unread_key, unaccepted,
}
use app_center_ratings.Startup.Server.{builder}

-- The identity is of the two files, which the TLS layer accepts, or there is none and neither path.
pub data HasTls (o : Outside) : Option Text → Option Text → Option Identity → Type 0 where
  plain : HasTls o none none none
  secured :
      {keychain_path key_path : Text}
      → (identity : Identity) → o.read_to_string keychain_path ≡ some identity.keychain
      → o.read_to_string key_path ≡ some identity.key
      → o.tls_config identity ≡ some tt
      → HasTls o (some keychain_path) (some key_path) (some identity)

module _ (lib : JsonWebToken) (o : Outside) (p : Process) where
  abbrev Builds : Option Text → Option Text → Type 0
  Builds keychain_path key_path =
      ((identity : Option Identity) × (builder lib o keychain_path key_path p ≡ (ok identity, p))
        × HasTls o keychain_path key_path identity)
      ⊎ ((e : StartError) × (builder lib o keychain_path key_path p ≡ (err e, p))
          × RefusesTls o keychain_path key_path)

  builder_tls : (keychain_path key_path : Text) → Builds (some keychain_path) (some key_path)
  unfolding builder
  builder_tls keychain_path key_path = elim (Option-cases (o.read_to_string keychain_path)) [
    | inl missing ↦
        inr (io keychain_path, rw missing refl, unread_keychain keychain_path key_path missing)
    | inr (keychain, read) ↦ elim (Option-cases (o.read_to_string key_path)) [
      | inl missing ↦
          inr (io key_path, rw (read, missing) refl, unread_key keychain_path key_path missing)
      | inr (key, read_key) ↦
          let identity : Identity = record { keychain = keychain; key = key } in
          elim (Option-cases (o.tls_config identity)) [
            | inl bad ↦ inr (
              tls_refused,
              rw (read, read_key, bad) refl,
              unaccepted keychain_path key_path identity bad,
            )
            | inr (tt, good) ↦
                inl (
                  some identity,
                  rw (read, read_key, good) refl,
                  secured identity read read_key good,
                )
          ]
    ]
  ]

  -- Building the server leaves the process as it is.
  pub builder_cases : (keychain_path key_path : Option Text) → Builds keychain_path key_path
  unfolding builder
  builder_cases none none = inl (none, refl, plain)
  builder_cases none (some b) = inr (panicked, refl, lone_key b)
  builder_cases (some a) none = inr (panicked, refl, lone_keychain a)
  builder_cases (some a) (some b) = builder_tls a b
