-- ===== src/Db/Ballots/Votes.antt =====
-- `save_to_db` of src/db/vote.rs, as the ballots see it.
use app_center_ratings.Prelude.{
  ℕ, ◌≡◌, refl, sym, ap, ◌∙◌, Bool, true, false, ◌&&◌, Option, none, some, List, [], ◌∷◌, ◌++◌,
  arith, ◌==◌, ==_iff, if◌then◌else◌, find, find_sound, find-append, Text, text_eq, text_eq_iff,
  text_eq_refl, inl, inr, Bool-cases, Option-cases,
}
use app_center_ratings.Prelude.Int.{ℤ, pos, eqb_ℤ, eqb_ℤ→eq, ltb_ℤ, as_i32}
use app_center_ratings.Db.Char.{char_store}
use app_center_ratings.Db.Tables.{User, VoteRow, Tables, Session, upsert_vote}
use app_center_ratings.Db.Vote.{
  Vote, same_key, change_vote, new_row, place_vote, insert_vote, save_to_db,
}
use app_center_ratings.Db.Invariant.{IsValid, has_hash, has_id}
use app_center_ratings.Db.Repetition.{users-place_vote}
use app_center_ratings.Db.Ballots.{ballots_of, ballot_by, direction, is_there, selected, cast}
use app_center_ratings.Db.Ballots.Keys.{Ballots-ext, find_unique, find-append_other, selected_cases}

-- The key of another vote.
abbrev is_key : ℕ → Text → ℤ → ℕ → Text → ℤ → Bool
is_key user snap revision i k r = user == i && (text_eq snap k && eqb_ℤ revision r)

module _ (user : ℕ) (snap : Text) (revision : ℤ) (up : Bool) (i : ℕ) (k : Text) (r : ℤ) where
  -- A row of one key has another key exactly where the two are equal.
  same_key-is_key :
      (v : VoteRow)
      → same_key user snap revision v ≡ true
      → same_key i k r v ≡ is_key user snap revision i k r
  same_key-is_key v h =
      let eu : v.user_id_fk ≡ user = ground arith in
      let es : v.snap_id ≡ snap = ground (arith, text_eq_iff v.snap_id snap) in
      let er : v.snap_revision ≡ revision = ground (arith, eqb_ℤ→eq v.snap_revision revision) in
      rw (eu, es, er) refl

  is_key→eq : is_key user snap revision i k r ≡ true → (user ≡ i) × (snap ≡ k) × (revision ≡ r)
  is_key→eq h =
      (ground arith, ground (arith, text_eq_iff snap k), ground (arith, eqb_ℤ→eq revision r))

  direction-change_vote :
      (vs : List VoteRow) {w : VoteRow}
      → find (same_key user snap revision) vs ≡ some w
      → direction (find (same_key i k r) (change_vote user snap revision up vs)) ≡ (
          if is_key user snap revision i k r then some up else direction (find (same_key i k r) vs))
  unfolding change_vote
  direction-change_vote [] {w} e = absurd (ground arith)
  direction-change_vote (v ∷ vs) {w} e = elim (Bool-cases (same_key user snap revision v)) [
    | inl this ↦
        let own = same_key-is_key v this in
        rw this (elim (Bool-cases (is_key user snap revision i k r)) [
          | inl same ↦ rw (own ∙ same, same) refl
          | inr other ↦ rw (own ∙ other, other) refl
        ])
    | inr later ↦
        let rest = direction-change_vote vs {w = w} (rw later at e) in
        rw later (elim (Bool-cases (is_key user snap revision i k r)) [
          | inl same ↦
              let (eu, es, er) = is_key→eq same in
              let skipped : same_key i k r v ≡ false = rw (← eu, ← es, ← er) later in
              rw (skipped, same) (rw same at rest)
          | inr other ↦ rw other (elim (Bool-cases (same_key i k r v)) [
            | inl here ↦ rw here refl
            | inr behind ↦ rw behind (rw other at rest)
          ])
        ])
  ]

  direction-append :
      (vs : List VoteRow) (new : VoteRow)
      → find (same_key user snap revision) vs ≡ none
      → same_key user snap revision new ≡ true
      → new.vote_up ≡ up
      → direction (find (same_key i k r) (vs ++ new ∷ [])) ≡ (
          if is_key user snap revision i k r then some up else direction (find (same_key i k r) vs))
  direction-append vs new fresh own way =
      let here = same_key-is_key new own in
      elim (Bool-cases (is_key user snap revision i k r)) [
        | inl same ↦
            let (eu, es, er) = is_key→eq same in
            let none_yet : find (same_key i k r) vs ≡ none = rw (← eu, ← es, ← er) fresh in
            rw same
              (rw (find-append (same_key i k r) vs (new ∷ []) none_yet, here ∙ same) (ap some way))
        | inr other ↦
            rw other (ap direction (find-append_other (same_key i k r) vs {y = new} (here ∙ other)))
      ]

  direction-place_vote :
      (s : Session) (o : Option VoteRow) (t : Tables)
      → find (same_key user snap revision) t.votes ≡ o
      → direction (find (same_key i k r) (place_vote s user snap revision up o t).votes) ≡ (
          if is_key user snap revision i k r
          then some up
          else direction (find (same_key i k r) t.votes))
  unfolding place_vote
  direction-place_vote s (some w) t e = direction-change_vote t.votes e
  direction-place_vote s none t e =
      direction-append t.votes (new_row s user snap revision up t) e
        (ground (arith, text_eq_refl snap)) refl

module _ (s : Session) (c snap : Text) (revision : ℤ) (up : Bool) (t : Tables) (valid : IsValid t)
    {u : User} (found : find (has_hash c) t.users ≡ some u) where
  -- The user's id stands for the hash.
  id-eq-hash :
      (h : Text) {v : User} → find (has_hash h) t.users ≡ some v → (u.id == v.id) ≡ text_eq c h
  id-eq-hash h {v} e = elim (Bool-cases (text_eq c h)) [
    | inl same ↦
        let eq = (text_eq_iff c h).0 same in
        let again : find (has_hash h) t.users ≡ some u = rw eq at found in
        let one : u ≡ v = ground arith in
        (==_iff u.id v.id).1 (ap (λ (x : User). x.id) one) ∙ sym same
    | inr other ↦ elim (Bool-cases (u.id == v.id)) [
      | inr apart ↦ apart ∙ sym other
      | inl shared ↦
          let ids = (==_iff u.id v.id).0 shared in
          let one =
            find_unique (has_hash c) (has_hash h) (has_id u.id) t.users {x = u} {y = v} found e
              ((==_iff u.id u.id).1 refl) ((==_iff v.id u.id).1 (sym ids))
              (valid.one_per_id u.id) in
          let cu = (text_eq_iff u.client_hash c).0 (find_sound (has_hash c) t.users found) in
          let hv = (text_eq_iff v.client_hash h).0 (find_sound (has_hash h) t.users e) in
          let same = sym cu ∙ ap (λ (x : User). x.client_hash) one ∙ hv in
          absurd (cc (other, (text_eq_iff c h).1 same))
    ]
  ]

  placed : Tables
  placed = place_vote s u.id snap revision up (find (same_key u.id snap revision) t.votes) t

  ballot-place_vote :
      (h k : Text) (r : ℤ)
      → ballot_by (find (has_hash h) placed.users) placed.votes k r ≡ (
          if text_eq c h && (text_eq snap k && eqb_ℤ revision r)
          then some up
          else ballot_by (find (has_hash h) t.users) t.votes k r)
  unfolding placed
  ballot-place_vote h k r =
      rw (users-place_vote s u.id snap revision up (find (same_key u.id snap revision) t.votes) t)
        (elim (Option-cases (find (has_hash h) t.users)) [
          | inl unknown ↦ elim (Bool-cases (text_eq c h)) [
            | inr other ↦ rw (unknown, other) refl
            | inl same ↦
                let clash = sym (rw ((text_eq_iff c h).0 same) at found) ∙ unknown in
                let none_some : ⊥ = cc in absurd none_some
          ]
          | inr (v, e) ↦ rw e (
              rw (← id-eq-hash h {v = v} e)
                (direction-place_vote u.id snap revision up v.id k r s _ t refl))
        ])

-- A vote that is taken is the client's ballot on the revision, and no other ballot changes.
pub ballots_of-save_to_db :
    (s : Session) (vote : Vote) (t : Tables)
    → IsValid t
    → ballots_of (save_to_db s vote t).1 ≡ (
        if s.answers upsert_vote
        then cast
            (selected vote.client_hash)
            (char_store 32 vote.snap_id)
            (as_i32 vote.snap_revision)
            vote.vote_up
            (ballots_of t)
        else ballots_of t)
unfolding save_to_db insert_vote ballots_of placed
ballots_of-save_to_db s vote t valid = elim (Bool-cases (s.answers upsert_vote)) [
  | inr off ↦ rw off refl
  | inl on ↦ elim (selected_cases vote.client_hash t valid) [
    | inr (nobody, unknown) ↦ elim (Option-cases (char_store 32 vote.snap_id)) [
      | inl long ↦ rw (on, nobody, unknown, long) refl
      | inr (snap, fits) ↦ rw (on, nobody, unknown, fits) refl
    ]
    | inl (c, one, same) ↦ elim (Option-cases (char_store 32 vote.snap_id)) [
      | inl long ↦ rw (on, one, same, long) refl
      | inr (snap, fits) ↦ elim (Option-cases (find (has_hash c) t.users)) [
        | inl unknown ↦ rw (on, one, same, fits) (rw unknown refl)
        | inr (u, found) ↦ elim (Bool-cases (ltb_ℤ (pos 0) (as_i32 vote.snap_revision))) [
          | inr below ↦ rw (on, one, same, fits) (rw (found, below) refl)
          | inl above ↦
              rw (on, one, same, fits)
                (rw (found, above)
                  (Ballots-ext _ _
                    (λ h.
                      ap (λ us. is_there (find (has_hash h) us))
                        (users-place_vote s u.id snap (as_i32 vote.snap_revision) vote.vote_up _ t))
                    (ballot-place_vote s c snap (as_i32 vote.snap_revision) vote.vote_up t valid
                      {u = u} found)))
        ]
      ]
    ]
  ]
]
