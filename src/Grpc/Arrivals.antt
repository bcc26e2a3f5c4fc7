-- ===== src/Grpc/Arrivals.antt =====
-- What the requests that arrive at the services of src/grpc can change, whoever sends them.
use app_center_ratings.Prelude.{
  ◌≡◌, ◌≢◌, refl, Option, none, some, List, [], ◌∷◌, All, arith, Text, ok, inl, inr, Option-cases,
  Result-cases, Result, ok_or, err,
}
use app_center_ratings.Prelude.Int.{ℤ}
use app_center_ratings.Auth.Status.{Failure}
use app_center_ratings.Auth.Jwt.{Claims}
use app_center_ratings.Auth.Middleware.{Request, admit}
use app_center_ratings.Auth.Admission.{IsVerified}
use app_center_ratings.Db.Invariant.{IsValid}
use app_center_ratings.Db.Ballots.{ballots_of}
use app_center_ratings.Ratings.Float.{Floats}
use app_center_ratings.Grpc.Routes.{
  Endpoint, authenticate, delete, vote, get_snap_votes, get_rating, get_chart, Service, serve,
}
use app_center_ratings.Grpc.Access.{handlers_are_guarded}
use app_center_ratings.Grpc.World.{World, Env}
use app_center_ratings.Grpc.Keeping.{IsKept, ClaimsAre, HasClaims}
use app_center_ratings.Grpc.Requests.{
  Rpc, authenticate_with, delete_with, vote_with, get_snap_votes_with, get_rating_with,
  get_chart_with,
}
use app_center_ratings.Grpc.Requests.Tasks.{RpcIs}
use app_center_ratings.Grpc.Requests.Kept.{serve_rpc-kept}
use app_center_ratings.Grpc.Dispatch.{
  Codec, Arrival, with_body, read_as, read_rpc, accept, serve_accepted, receive, receive_all,
}
use app_center_ratings.Grpc.Ownership.{HasBallots, IsOther, HasBallots-IsKept}

-- Every client whose token a request carries is one of these.
abbrev pub Carries : {H B : Type 0} → (H → Option Text) → (Text → Type 0) → Arrival H B → Type 0
Carries to_str Whose a = (c : Claims) → IsVerified to_str a.decode a.request c → Whose c.sub

ok_or-some : {A : Type 0} (e : Failure) (o : Option A) {a : A} → ok_or e o ≡ ok a → o ≡ some a
ok_or-some e none h = absurd (ground arith)
ok_or-some e (some x) h = ground arith

read_as-some :
    {H M : Type 0} (handler : M → Rpc H) (o : Option M) {rpc : Rpc H}
    → read_as handler o ≡ some rpc
    → (m : M) × (handler m ≡ rpc)
read_as-some handler none h = absurd (ground arith)
read_as-some handler (some m) h = (m, ground arith)

module _ {H B : Type 0} (codec : Codec B) (Whose : Text → Type 0) (CanPanic : Type 0) where
  read_as-RpcIs :
      {M : Type 0} (handler : M → Rpc H) (o : Option M) {rpc : Rpc H}
      → ((m : M) → RpcIs Whose CanPanic (handler m))
      → read_as handler o ≡ some rpc
      → RpcIs Whose CanPanic rpc
  read_as-RpcIs handler o {rpc} allowed h =
      let (m, same) = read_as-some handler o {rpc = rpc} h in rw (← same) (allowed m)

  read_rpc-RpcIs :
      (e : Endpoint) (passed : Request H B) {rpc : Rpc H}
      → (e ≢ authenticate → ClaimsAre Whose passed × HasClaims CanPanic passed)
      → read_rpc codec e passed ≡ some rpc
      → RpcIs Whose CanPanic rpc
  read_rpc-RpcIs authenticate passed mine = read_as-RpcIs authenticate_with _ (λ m. tt)
  read_rpc-RpcIs delete passed mine =
      read_as-RpcIs (λ m. delete_with (with_body passed m)) _ (λ m. mine (λ h. ground arith))
  read_rpc-RpcIs vote passed mine =
      read_as-RpcIs (λ m. vote_with (with_body passed m)) _ (λ m. mine (λ h. ground arith))
  read_rpc-RpcIs get_snap_votes passed mine =
      read_as-RpcIs (λ m. get_snap_votes_with (with_body passed m)) _
        (λ m. (mine (λ h. ground arith)).1)
  read_rpc-RpcIs get_rating passed mine = read_as-RpcIs get_rating_with _ (λ m. tt)
  read_rpc-RpcIs get_chart passed mine = read_as-RpcIs get_chart_with _ (λ m. tt)

module _ {H B : Type 0} (codec : Codec B) (to_str : H → Option Text)
    (route : Text → Option Service) where
  module _ (Whose : Text → Type 0) (CanPanic : Type 0) (a : Arrival H B)
      (own : Carries to_str Whose a) where
    claims_are :
        (s : Service) (e : Endpoint) (passed : Request H B)
        → admit to_str a.decode a.request ≡ ok passed
        → serve s passed.path ≡ some e
        → e ≢ authenticate
        → ClaimsAre Whose passed × HasClaims CanPanic passed
    claims_are s e passed through led other =
        let (c, verified, held) =
          handlers_are_guarded to_str a.decode s e a.request {passed = passed} through led other in
        (
          λ c' carried. let same : c ≡ c' = ground arith in rw (← same) (own c verified),
          λ missing. absurd (ground arith),
        )

    -- What gets to a handler carries claims of one of these clients, if it carries any, and does
    -- where the handler expects them.
    pub accept-RpcIs :
        {rpc : Rpc H} → accept codec to_str route a ≡ ok rpc → RpcIs Whose CanPanic rpc
    unfolding accept
    accept-RpcIs {rpc} h = elim (Result-cases (admit to_str a.decode a.request)) [
      | inr (e, refused) ↦ absurd (ground arith)
      | inl (passed, through) ↦ elim (Option-cases (route passed.path)) [
        | inl unrouted ↦ absurd (ground arith)
        | inr (s, routed) ↦ elim (Option-cases (serve s passed.path)) [
          | inl unled ↦ absurd (ground arith)
          | inr (e, led) ↦
              read_rpc-RpcIs codec Whose CanPanic e passed {rpc = rpc}
                (claims_are s e passed through led)
                (ok_or-some _ _ (rw (through, routed, led) at h))
        ]
      ]
    ]

  module _ (f : Floats) (P : World f.F32 → Type 0) (Whose : Text → Type 0)
      (kept : IsKept f P Whose) where
    serve_accepted-kept :
        (env : Env) (r : Result Failure (Rpc H))
        → ((rpc : Rpc H) → r ≡ ok rpc → RpcIs Whose (Unit {0}) rpc)
        → (w : World f.F32) → P w
        → P (serve_accepted codec to_str route f env r w)
    serve_accepted-kept env (err e) allowed w h = h
    serve_accepted-kept env (ok rpc) allowed w h =
        serve_rpc-kept f P (Unit {0}) kept env rpc (allowed rpc refl) w h

    receive_all-kept :
        (arrivals : List (Arrival H B))
        → All (Carries to_str Whose) arrivals
        → (w : World f.F32) → P w
        → P (receive_all codec to_str route f arrivals w)
    unfolding receive_all receive
    receive_all-kept [] own w h = h
    receive_all-kept (a ∷ rest) own w h = receive_all-kept rest own.1 _ (
        serve_accepted-kept a.env (accept codec to_str route a)
          (λ rpc e. accept-RpcIs Whose (Unit {0}) a own.0 {rpc = rpc} e) w h)

  -- In valid tables, whatever requests arrive at the service, through the layer and whichever
  -- services their paths are given to, the ballots of a client on all snaps and revisions stay
  -- as they are, unless one of the requests carries a token that the verifier accepts and
  -- whose subject selects the client.
  receive_all-IsOther :
      (f : Floats) (hash : Text) (arrivals : List (Arrival H B)) (w : World f.F32)
      → IsValid w.stores.tables
      → All (Carries to_str (IsOther hash)) arrivals
      → (snap : Text) (revision : ℤ)
      → (ballots_of (receive_all codec to_str route f arrivals w).stores.tables).ballot hash snap
          revision
        ≡ (ballots_of w.stores.tables).ballot hash snap revision
  receive_all-IsOther f hash arrivals w valid others =
      let b = (ballots_of w.stores.tables).ballot hash in
      let kept =
        receive_all-kept f (HasBallots f hash b) (IsOther hash) (HasBallots-IsKept f hash b)
          arrivals others w (valid, λ k r. refl) in
      kept.1
