-- ===== src/Auth/Opaque.antt =====
-- When the layer of src/middleware.rs panics: `to_str` on the header is unwrapped.
use app_center_ratings.Prelude.{
  ◌≡◌, refl, false, Bool-cases, Option, none, some, Option-cases, inl, inr, ◌==◌, length, Text,
  Result, ok, err,
}
use app_center_ratings.Auth.Status.{panic, EndsAs}
use app_center_ratings.Auth.Jwt.{Claims, JwtError}
use app_center_ratings.Auth.Header.{split_whitespace}
use app_center_ratings.Auth.Middleware.{Request, is_public, second, insert_claims, admit}

module _ {H B : Type 0} (to_str : H → Option Text) where
  -- The path is guarded, and the header holds other bytes than visible ASCII.
  pub record IsOpaque (req : Request H B) : Type 0 where
    pub guarded : is_public req.path ≡ false
    pub header : H
    pub sent : req.authorization ≡ some header
    pub unreadable : to_str header ≡ none

  module _ (decode : Text → Result JwtError Claims) where
    insert_claims-EndsAs :
        (CanPanic : Type 0) (req : Request H B) (r : Result JwtError Claims)
        → EndsAs CanPanic (insert_claims to_str decode req r)
    insert_claims-EndsAs CanPanic req (ok c) = tt
    insert_claims-EndsAs CanPanic req (err e) = tt

    -- The layer passes a request on or answers it with a status, unless its header is opaque.
    pub admit-EndsAs :
        (CanPanic : Type 0) (req : Request H B)
        → (IsOpaque req → CanPanic)
        → EndsAs CanPanic (admit to_str decode req)
    unfolding admit
    admit-EndsAs CanPanic req may = elim (Bool-cases (is_public req.path)) [
      | inl open_path ↦ rw open_path tt
      | inr guarded ↦ elim (Option-cases req.authorization) [
        | inl missing ↦ rw (guarded, missing) tt
        | inr (header, sent) ↦ elim (Option-cases (to_str header)) [
          | inl unreadable ↦
              rw (guarded, sent, unreadable)
                (may (record {
                  guarded = guarded;
                  header = header;
                  sent = sent;
                  unreadable = unreadable;
                }))
          | inr (words, read) ↦ elim (Bool-cases (length (split_whitespace words) == 2)) [
            | inr other ↦ rw (guarded, sent, read, other) tt
            | inl pair ↦
                rw (guarded, sent, read, pair)
                  (insert_claims-EndsAs CanPanic (record req { authorization = some header })
                    (decode (second (split_whitespace words))))
          ]
        ]
      ]
    ]

    pub admit-IsOpaque : (req : Request H B) → IsOpaque req → admit to_str decode req ≡ err panic
    unfolding admit
    admit-IsOpaque req o = rw (o.guarded, o.sent, o.unreadable) refl
