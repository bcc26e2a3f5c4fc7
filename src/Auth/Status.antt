-- ===== src/Auth/Status.antt =====
-- tonic's `Status`, as far as the program makes one, and how a request can fail.
use app_center_ratings.Prelude.{
  Option, none, some, Text, text, Result, ok, err, map_err, ok_or, ◌>>=◌,
}

pub data Code : Type 0 where
  unauthenticated invalid_argument not_found internal unknown unimplemented : Code

pub record Status : Type 0 where
  pub code : Code
  pub message : Text

-- A request fails with a status, or its task panics, or its task waits for ever and nothing is sent.
pub data Failure : Type 0 where
  status : Code → Text → Failure
  panic : Failure
  no_answer : Failure

abbrev pub internal_server_error : Failure
internal_server_error = status unknown (text "Internal server error")

-- A failure with a status, or a panic where there may be one.
abbrev pub FailsAs : Type 0 → Failure → Type 0
FailsAs CanPanic (status code message) = Unit {0}
FailsAs CanPanic panic = CanPanic
FailsAs CanPanic no_answer = Unit {0}

abbrev pub EndsAs : {A : Type 0} → Type 0 → Result Failure A → Type 0
EndsAs CanPanic (ok a) = Unit {0}
EndsAs CanPanic (err e) = FailsAs CanPanic e

pub EndsAs-map_err :
    (CanPanic : Type 0) {E A : Type 0} (code : Code) (message : E → Text) (r : Result E A)
    → EndsAs CanPanic (map_err (λ e. status code (message e)) r)
EndsAs-map_err CanPanic code message (ok a) = tt
EndsAs-map_err CanPanic code message (err e) = tt

pub EndsAs-ok_or :
    {A : Type 0} (CanPanic : Type 0) (code : Code) (message : Text) (o : Option A)
    → EndsAs CanPanic (ok_or (status code message) o)
EndsAs-ok_or CanPanic code message none = tt
EndsAs-ok_or CanPanic code message (some a) = tt

pub EndsAs-bind :
    {A B : Type 0} (CanPanic : Type 0) (r : Result Failure A) (g : A → Result Failure B)
    → EndsAs CanPanic r
    → ((a : A) → EndsAs CanPanic (g a))
    → EndsAs CanPanic (r >>= g)
EndsAs-bind CanPanic (ok a) g ends goes_on = goes_on a
EndsAs-bind CanPanic (err e) g ends goes_on = ends

pub EndsAs-any : {A : Type 0} (r : Result Failure A) → EndsAs (Unit {0}) r
EndsAs-any (ok a) = tt
EndsAs-any (err (status code message)) = tt
EndsAs-any (err panic) = tt
EndsAs-any (err no_answer) = tt
