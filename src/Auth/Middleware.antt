-- ===== src/Auth/Middleware.antt =====
-- src/middleware.rs: `AuthMiddleware::call`.
use app_center_ratings.Prelude.{
  Bool, not, Option, none, some, List, [], ◌∷◌, ◌==◌, if◌then◌else◌, any, length, Text, text,
  Result, ok, err, ◌>>=◌,
}
use app_center_ratings.Auth.Status.{Failure, status, panic, unauthenticated}
use app_center_ratings.Auth.Jwt.{Claims, JwtError}
use app_center_ratings.Auth.Header.{split_whitespace, ends_with}

-- The paths which are accessible without authentication.
abbrev pub public_paths : List Text
public_paths = text "ratings.features.user.User/Authenticate" ∷ []

-- A request: its path, the header `authorization`, the claims among its extensions and its body.
pub record Request (H B : Type 0) : Type 0 where
  pub path : Text
  pub authorization : Option H
  pub claims : Option Claims
  pub body : B

unfoldable pub is_public : Text → Bool
is_public path = any (ends_with path) public_paths

-- `parts[1]`, of two parts.
abbrev pub second : List Text → Text
second (a ∷ b ∷ rest) = b
second _ = []

-- `to_str` of a header value gives no text where it holds other bytes than visible ASCII, and
-- `decode` is the verifier's.
module _ {H B : Type 0} (to_str : H → Option Text) (decode : Text → Result JwtError Claims) where
  abbrev unauthenticated_with : Text → Result Failure (Request H B)
  unauthenticated_with message = err (status unauthenticated message)

  abbrev pub insert_claims : Request H B → Result JwtError Claims → Result Failure (Request H B)
  insert_claims req (ok claims) = ok (record req { claims = some claims })
  insert_claims req (err e) = unauthenticated_with (text "invalid auth header")

  abbrev check_text : Request H B → Option Text → Result Failure (Request H B)
  check_text req none = err panic
  check_text req (some header) =
      let parts = split_whitespace header in
      if not (length parts == 2)
      then unauthenticated_with (text "malformed auth header")
      else insert_claims req (decode (second parts))

  abbrev check_header : Request H B → Option H → Result Failure (Request H B)
  check_header req none = unauthenticated_with (text "missing auth header")
  check_header req (some h) = check_text req (to_str h)

  -- The request as it is passed on to the inner service, or the failure.
  unfoldable pub admit : Request H B → Result Failure (Request H B)
  admit req = if not (is_public req.path) then check_header req req.authorization else ok req

  unfoldable pub call {ℓ} :
      {A : Type ℓ} → (Request H B → Result Failure A) → Request H B → Result Failure A
  unfolding admit
  call inner req = do passed ← admit req; inner passed
