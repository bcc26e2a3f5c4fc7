-- ===== src/Grpc/Access.antt =====
-- The layer of src/middleware.rs together with the generated routes: no handler but `authenticate`
-- runs without a verified token, and `claims` of src/grpc/user.rs finds what it expects.
use app_center_ratings.Prelude.{
  ◌≡◌, ◌≢◌, ◌⊎◌, refl, sym, ap, ◌∙◌, false, Option, none, some, arith, Text, Result, ok, err, text,
  text_eq, text_eq_iff, if◌then◌else◌, inl, inr, Bool-cases,
}
use app_center_ratings.Auth.Status.{Failure, panic}
use app_center_ratings.Auth.Jwt.{Claims, JwtError}
use app_center_ratings.Auth.Header.{ends_with}
use app_center_ratings.Auth.Middleware.{Request, is_public, admit}
use app_center_ratings.Auth.Admission.{IsVerified, admit_cases}
use app_center_ratings.Grpc.Routes.{
  Endpoint, authenticate, delete, vote, get_snap_votes, get_rating, get_chart, Service,
  rating_service, chart_service, user_service, serve, user_server, app_server, chart_server,
}

-- `claims`: the claims leave the request; without them the task panics.
unfoldable pub take_claims : {H B : Type 0} → Request H B → Result Failure (Claims × Request H B)
take_claims req = elim req.claims [
  | none ↦ err panic
  | some c ↦ ok (c, record req { claims = none })
]

-- The path of a handler.
abbrev pub endpoint_path : Endpoint → Text
endpoint_path authenticate = text "/ratings.features.user.User/Authenticate"
endpoint_path delete = text "/ratings.features.user.User/Delete"
endpoint_path vote = text "/ratings.features.user.User/Vote"
endpoint_path get_snap_votes = text "/ratings.features.user.User/GetSnapVotes"
endpoint_path get_rating = text "/ratings.features.app.App/GetRating"
endpoint_path get_chart = text "/ratings.features.chart.Chart/GetChart"

-- One arm of the `match` on the path.
arm :
    (path pattern_text : Text) (d : Endpoint) {rest : Option Endpoint} {e : Endpoint}
    → (if text_eq path pattern_text then some d else rest) ≡ some e
    → pattern_text ≡ endpoint_path d
    → (path ≡ endpoint_path e) ⊎ (rest ≡ some e)
arm path pattern_text d {rest} {e} h own = elim (Bool-cases (text_eq path pattern_text)) [
  | inr other ↦ inr (rw other at h)
  | inl same ↦
      let this : d ≡ e = ground arith in
      inl ((text_eq_iff path pattern_text).0 same ∙ own ∙ ap endpoint_path this)
]

last_arm :
    (path : Text) (e : Endpoint)
    → (path ≡ endpoint_path e) ⊎ (◌≡◌ {A = Option Endpoint} none (some e))
    → path ≡ endpoint_path e
last_arm path e (inl eq) = eq
last_arm path e (inr no_arm) = absurd (ground arith)

-- A handler runs under its own path alone.
serve-path :
    (s : Service) (path : Text) {e : Endpoint} → serve s path ≡ some e → path ≡ endpoint_path e
unfolding serve user_server app_server chart_server
serve-path rating_service path {e} h = last_arm path e (arm path _ get_rating h refl)
serve-path chart_service path {e} h = last_arm path e (arm path _ get_chart h refl)
serve-path user_service path {e} h = elim (arm path _ authenticate h refl) [
  | inl eq ↦ eq
  | inr h1 ↦ elim (arm path _ delete h1 refl) [
    | inl eq ↦ eq
    | inr h2 ↦ elim (arm path _ vote h2 refl) [
      | inl eq ↦ eq
      | inr h3 ↦ last_arm path e (arm path _ get_snap_votes h3 refl)
    ]
  ]
]

guarded : (e : Endpoint) → e ≢ authenticate → is_public (endpoint_path e) ≡ false
unfolding is_public ends_with text_eq
guarded authenticate h = absurd (h refl)
guarded _ h = refl

module _ {H B : Type 0} (to_str : H → Option Text) (decode : Text → Result JwtError Claims) where
  -- Whichever of the services a request is given to, if it gets past the layer and leads to
  -- another handler than `authenticate`, then its header holds a token that the verifier
  -- accepts, and its claims are that token's.
  pub handlers_are_guarded :
      (s : Service) (e : Endpoint) (req : Request H B) {passed : Request H B}
      → admit to_str decode req ≡ ok passed
      → serve s passed.path ≡ some e
      → e ≢ authenticate
      → (c : Claims) × IsVerified to_str decode req c × (passed.claims ≡ some c)
  handlers_are_guarded s e req {passed} through led other =
      elim (admit_cases to_str decode req {passed = passed} through) [
        | inr (c, verified, eq) ↦ (c, verified, ap (λ (r : Request H B). r.claims) eq)
        | inl (open_path, eq) ↦
            let path = sym (ap (λ (r : Request H B). r.path) eq) ∙ serve-path s passed.path led in
            absurd (cc (path, guarded e other))
      ]

  -- For a request that gets past the layer and leads to another handler than `authenticate`,
  -- `claims` does not panic, and gives and removes the claims of the token in the header,
  -- which the verifier accepts.
  take_claims_total :
      (s : Service) (e : Endpoint) (req : Request H B) {passed : Request H B}
      → admit to_str decode req ≡ ok passed
      → serve s passed.path ≡ some e
      → e ≢ authenticate
      → (c : Claims) × IsVerified to_str decode req c
        × (take_claims passed ≡ ok (c, record passed { claims = none }))
  unfolding take_claims
  take_claims_total s e req {passed} through led other =
      let (c, verified, carried) =
        handlers_are_guarded s e req {passed = passed} through led other in
      (c, verified, ground arith)
