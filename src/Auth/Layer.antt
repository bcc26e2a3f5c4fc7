-- ===== src/Auth/Layer.antt =====
-- src/middleware.rs: `AuthLayer` and `AuthMiddleware` as a service around another one, which may only be
-- called once it has said that it is ready.
use app_center_ratings.Prelude.{◌≡◌, ◌⊎◌, true, Option, none, some, arith, Text, Result, ok, err}
use app_center_ratings.Auth.Status.{Failure}
use app_center_ratings.Auth.Jwt.{Claims, JwtError}
use app_center_ratings.Auth.Middleware.{Request, is_public, admit}
use app_center_ratings.Auth.Admission.{IsVerified, admit_cases}

-- `Poll<Result<(), E>>`.
pub data Readiness : Type 0 where
  pending ready failed : Readiness

-- tower's `Service` and `Clone`, of the inner service.
pub record InnerService (S H B A : Type 0) : Type 0 where
  pub poll_ready : S → Readiness × S
  pub clone : S → S
  pub call : S → Request H B → Result Failure A

pub record AuthLayer : Type 0 where
  pub verifier : Text → Result JwtError Claims

pub record AuthMiddleware (S : Type 0) : Type 0 where
  pub inner : S
  pub verifier : Text → Result JwtError Claims

-- `AuthLayer::new`.
abbrev pub new_layer : (Text → Result JwtError Claims) → AuthLayer
new_layer verifier = record { verifier = verifier }

abbrev pub layer : {S : Type 0} → AuthLayer → S → AuthMiddleware S
layer l inner = record { inner = inner; verifier = l.verifier }

-- The answer of the future that `call` makes, and which service it calls with which request.
pub record Future (S H B A : Type 0) : Type 0 where
  pub answer : Result Failure A
  pub called : Option (S × Request H B)

module _ {S H B A : Type 0} (service : InnerService S H B A) (to_str : H → Option Text) where
  unfoldable pub poll_ready : AuthMiddleware S → Readiness × AuthMiddleware S
  poll_ready m = let (r, inner) = service.poll_ready m.inner in (r, record m { inner = inner })

  abbrev pub forward : S → Result Failure (Request H B) → Future S H B A
  forward inner (ok passed) = record {
    answer = service.call inner passed;
    called = some (inner, passed);
  }
  forward inner (err e) = record { answer = err e; called = none }

  -- `call`: the service that was polled is taken out, and a clone of it is left in its place.
  unfoldable pub call_layer : AuthMiddleware S → Request H B → Future S H B A × AuthMiddleware S
  call_layer m req =
      let clone = service.clone m.inner in
      (forward m.inner (admit to_str m.verifier req), record m { inner = clone })

  forward_called :
      (inner : S) (r : Result Failure (Request H B)) {s : S} {passed : Request H B}
      → (forward inner r).called ≡ some (s, passed)
      → (inner ≡ s) × (r ≡ ok passed)
  forward_called inner (ok passed) h = (ground arith, ground arith)
  forward_called inner (err e) h = absurd (ground arith)

  -- After the layer has reported that it is ready, the service that it calls with a request is
  -- one that has itself reported so, and not a clone of it, whatever readiness may mean; and
  -- the request that it calls it with is one of a public path as it came, or one with a
  -- verified token's claims.
  pub call_layer-polled :
      (Ready : S → Type 0)
      → ((s : S) → (service.poll_ready s).0 ≡ ready → Ready (service.poll_ready s).1)
      → (m : AuthMiddleware S) (req : Request H B) {s : S} {passed : Request H B}
      → (poll_ready m).0 ≡ ready
      → (call_layer (poll_ready m).1 req).0.called ≡ some (s, passed)
      → Ready s
        × (((is_public req.path ≡ true) × (passed ≡ req))
            ⊎ ((c : Claims) × IsVerified to_str m.verifier req c
                × (passed ≡ record req { claims = some c })))
  unfolding poll_ready call_layer
  call_layer-polled Ready sound m req {s} {passed} polled called =
      let (same, through) =
        forward_called (service.poll_ready m.inner).1 (admit to_str m.verifier req) {s = s}
          {passed = passed} called in
      (
        rw same at (sound m.inner polled),
        admit_cases to_str m.verifier req {passed = passed} through,
      )
