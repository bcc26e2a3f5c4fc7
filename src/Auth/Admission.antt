-- ===== src/Auth/Admission.antt =====
-- Which requests the layer of src/middleware.rs passes on, and with which claims.
use app_center_ratings.Prelude.{
  ◌≡◌, ◌⊎◌, refl, true, Option, some, List, [], ◌∷◌, arith, ◌==◌, length, Text, Result, ok, err,
  inl, inr, Bool-cases, Option-cases,
}
use app_center_ratings.Auth.Jwt.{Claims, JwtError}
use app_center_ratings.Auth.Header.{split_whitespace}
use app_center_ratings.Auth.Middleware.{Request, is_public, second, insert_claims, admit}

pair_of :
    (parts : List Text) → (length parts == 2) ≡ true → (a : Text) × (parts ≡ a ∷ second parts ∷ [])
pair_of [] h = absurd (ground arith)
pair_of (a ∷ []) h = absurd (ground arith)
pair_of (a ∷ b ∷ []) h = (a, refl)
pair_of (a ∷ b ∷ c ∷ parts) h = absurd (ground arith)

module _ {H B : Type 0} (to_str : H → Option Text) (decode : Text → Result JwtError Claims) where
  -- A request whose header holds two words of which the second is a token that the verifier accepts.
  pub record IsVerified (req : Request H B) (c : Claims) : Type 0 where
    pub header : H
    pub words : Text
    pub scheme : Text
    pub token : Text
    pub sent : req.authorization ≡ some header
    pub read : to_str header ≡ some words
    pub two : split_whitespace words ≡ scheme ∷ token ∷ []
    pub accepted : decode token ≡ ok c

  insert_claims_ok :
      (req : Request H B) (r : Result JwtError Claims) {passed : Request H B}
      → insert_claims to_str decode req r ≡ ok passed
      → (c : Claims) × (r ≡ ok c) × (passed ≡ record req { claims = some c })
  insert_claims_ok req (ok c) h = (c, refl, ground arith)
  insert_claims_ok req (err e) h = absurd (ground arith)

  -- What the layer passes on is a request of a public path as it came, or one whose header
  -- holds two words of which the second is a token that the verifier accepts, with that
  -- token's claims.
  pub admit_cases :
      (req : Request H B) {passed : Request H B}
      → admit to_str decode req ≡ ok passed
      → ((is_public req.path ≡ true) × (passed ≡ req))
        ⊎ ((c : Claims) × IsVerified req c × (passed ≡ record req { claims = some c }))
  unfolding admit
  admit_cases req {passed} h = elim (Bool-cases (is_public req.path)) [
    | inl open_path ↦ inl (open_path, ground arith)
    | inr guarded ↦ inr (elim (Option-cases req.authorization) [
      | inl missing ↦ absurd (ground arith)
      | inr (header, sent) ↦ elim (Option-cases (to_str header)) [
        | inl opaque ↦ absurd (ground arith)
        | inr (words, read) ↦ elim (Bool-cases (length (split_whitespace words) == 2)) [
          | inr other ↦ absurd (ground arith)
          | inl pair ↦
              let (scheme, two) = pair_of (split_whitespace words) pair in
              let token = second (split_whitespace words) in
              let (c, accepted, eq) =
                insert_claims_ok req (decode token) {passed = passed} (ground arith) in
              (
                c,
                record {
                  header = header;
                  words = words;
                  scheme = scheme;
                  token = token;
                  sent = sent;
                  read = read;
                  two = two;
                  accepted = accepted;
                },
                eq,
              )
        ]
      ]
    ])
  ]
