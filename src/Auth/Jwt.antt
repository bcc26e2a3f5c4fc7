-- ===== src/Auth/Jwt.antt =====
-- src/jwt.rs: claims, the encoder and the verifier. The signatures are the library's: an argument.
use app_center_ratings.Prelude.{ℕ, ◌+◌, ◌*◌, ◌<◌, ◌≡◌, Text, text, Result, ok, map_err}
use app_center_ratings.Prelude.Int.{pos, as_u64}
use app_center_ratings.Auth.Status.{Failure, status, unauthenticated, internal}

-- `jwt::Error`; what other libraries put into an error is left out.
pub data JwtError : Type 0 where
  decode_secret_error envy erased invalid_shape invalid_header reqwest : JwtError
  tonic_status : Failure → JwtError

-- `impl From<Error> for Status`.
unfoldable pub status_from_error : JwtError → Failure
status_from_error decode_secret_error = status unauthenticated (text "invalid JWT token")
status_from_error invalid_header = status unauthenticated (text "invalid authz header")
status_from_error (tonic_status s) = s
status_from_error _ = status internal (text "Internal Server Error")

pub record Claims : Type 0 where
  pub sub : Text
  pub exp : ℕ

-- `Duration::days(JWT_EXPIRY_DAYS)`, in seconds.
abbrev pub jwt_expiry : ℕ
jwt_expiry = 1 * 86400

-- `Claims::new`, at a time in seconds since the epoch; the sum is cast to usize.
unfoldable pub new_claims : ℕ → Text → Claims
new_claims now sub = record { sub = sub; exp = as_u64 (pos (now + jwt_expiry)) }

-- jsonwebtoken with a key: `encode` under the default header, and `decode` under the default
-- validation at a time. `EncodingKey::from_base64_secret` and its fellow read the same secrets.
pub record JsonWebToken : Type 1 where
  pub Key : Type 0
  pub LibError : Type 0
  pub from_base64_secret : Text → Result LibError Key
  pub encode : Key → Claims → Result LibError Text
  pub decode : ℕ → Key → Text → Result LibError Claims

module _ (lib : JsonWebToken) where
  -- `JwtEncoder::from_secret` and `JwtVerifier::from_secret`.
  unfoldable pub encoder_from_secret : Text → Result JwtError lib.Key
  encoder_from_secret secret = map_err (λ _. decode_secret_error) (lib.from_base64_secret secret)

  unfoldable pub verifier_from_secret : Text → Result JwtError lib.Key
  verifier_from_secret secret = map_err (λ _. decode_secret_error) (lib.from_base64_secret secret)

  -- `JwtEncoder::encode`.
  unfoldable pub encode_token : ℕ → lib.Key → Text → Result JwtError Text
  encode_token now encoding_key sub =
      map_err (λ _. erased) (lib.encode encoding_key (new_claims now sub))

  -- `JwtVerifier::decode`.
  unfoldable pub decode_token : ℕ → lib.Key → Text → Result JwtError Claims
  decode_token now decoding_key token =
      map_err (λ _. invalid_shape) (lib.decode now decoding_key token)

  -- What the program relies on: the key reads back the claims of its own tokens until they expire.
  abbrev pub ReadsBack : Type 0
  ReadsBack =
      (now : ℕ) (k : lib.Key) (c : Claims) (token : Text)
      → lib.encode k c ≡ ok token
      → now < c.exp
      → lib.decode now k token ≡ ok c
