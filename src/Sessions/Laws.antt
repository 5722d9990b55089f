-- ===== src/Sessions/Laws.antt =====
-- Who a session token stands for, from login to logout.
use billsons_forms.Models.{Database, User, UserSession, seconds}
use billsons_forms.Base.{
  All, All-In, All-map, In, In-find, In-of_delete_where, IsKeyed, Option, Option-cases, Text, ap,
  arith, delete_where, delete_where-fails, false, find, find-append, find-delete_where_kept,
  find-eq-none, find-holds, find-keyed, find-none, if◌then◌else◌, inl, inr, ltb, nat_eq, none, some,
  subst, text_beq, text_beq_iff, text_beq_refl, text_eq, true, ℕ, ◌*◌, ◌+◌, ◌<◌, ◌==◌, ◌≡◌, ◌≢◌,
}
use billsons_forms.Config.{Settings}
use billsons_forms.Strings.{truthy}
use billsons_forms.Sessions.{
  create_user_session, delete_user_session, delete_user_sessions, get_user_from_session_token,
  has_hash, may_use, new_session, of_user, session_matches,
}

module _ (digest : Text → Text) where
  -- The token is that of a session of the user which has not expired, and the user may log in.
  pub record IsAuthentic (db : Database) (token : Text) (now : ℕ) (u : User) : Type 0 where
    pub known : In u db.users.rows
    pub active : u.is_active ≡ true
    pub not_deleted : u.is_deleted ≡ false
    pub session : UserSession
    pub stored : In session db.sessions.rows
    pub token_matches : session.session_token_hash ≡ digest token
    pub of_the_user : session.user_id ≡ u.id
    pub not_expired : now < session.expires_at

  found_session :
      (db : Database) (token : Text) (now : ℕ) (u : User)
      → get_user_from_session_token digest db (some token) now ≡ some u
      → (r : UserSession) × (find (session_matches digest (digest token) now) db.sessions.rows
          ≡ some r)
        × (find (may_use digest r.user_id) db.users.rows ≡ some u)
  unfolding get_user_from_session_token
  found_session db token now u e =
      elim (Option-cases (find (session_matches digest (digest token) now) db.sessions.rows)) [
        | inl none_found ↦ absurd (ground arith)
        | inr (r, found) ↦ (r, found, ground arith)
      ]

  -- A token is accepted only for an active user that is not deleted, through a stored session of
  -- that user which carries the token's hash and has not expired.
  pub get_user_from_session_token-IsAuthentic :
      (db : Database) (token : Text) (now : ℕ) (u : User)
      → get_user_from_session_token digest db (some token) now ≡ some u
      → IsAuthentic db token now u
  get_user_from_session_token-IsAuthentic db token now u e =
      let (r, found, user_found) = found_session db token now u e in
      let session_test = find-holds _ db.sessions.rows r found in
      let user_test = find-holds _ db.users.rows u user_found in
      record {
        known = In-find _ db.users.rows user_found;
        active = ground arith;
        not_deleted = ground arith;
        session = r;
        stored = In-find _ db.sessions.rows found;
        token_matches = ground (arith, text_beq_iff r.session_token_hash (digest token));
        of_the_user = ground arith;
        not_expired = ground arith;
      }

  -- After a login the token stands for the user until the session's lifetime is over, and for
  -- nobody from then on, where the user may log in and the token's hash is new, as the unique
  -- column requires.
  pub create-get_user :
      (s : Settings) (db : Database) (u : User) (ip user_agent : Option Text) (token : Text)
      (now later : ℕ)
      → IsKeyed (λ (r : User). r.id) db.users.rows
      → In u db.users.rows
      → u.is_active ≡ true
      → u.is_deleted ≡ false
      → truthy token ≡ true
      → All (λ r. has_hash digest (digest token) r ≡ false) db.sessions.rows
      → get_user_from_session_token digest
          (create_user_session digest s db u ip user_agent token now).1
          (some token)
          later
        ≡ (if ltb later (now + seconds (3600 * s.session_lifetime_hours)) then some u else none)
  unfolding get_user_from_session_token create_user_session
  create-get_user s db u ip ua token now later keyed i active kept token_ok fresh = ground (
    arith,
    token_ok,
    find-append (session_matches digest (digest token) later) db.sessions.rows
        (new_session digest s u ip ua token now db.sessions.next_id),
    find-eq-none (session_matches digest (digest token) later) db.sessions.rows
        (All-map _ _ db.sessions.rows (λ r miss. ground arith) fresh),
    find-keyed (λ (r : User). r.id) (may_use digest u.id) db.users.rows u keyed
        (λ x hit. ground arith) i (ground arith),
    text_beq_refl (digest token),
  )

  -- Deleting a user's sessions ends them all, and no other user's.
  pub get_user-delete_user_sessions :
      (db : Database) (user_id : ℕ) (token : Text) (now : ℕ) (u : User)
      → (get_user_from_session_token digest (delete_user_sessions db user_id) (some token) now
            ≡ some u
          → u.id ≢ user_id)
        × (get_user_from_session_token digest db (some token) now ≡ some u
            → u.id ≢ user_id
            → get_user_from_session_token digest (delete_user_sessions db user_id) (some token) now
              ≡ some u)
  get_user-delete_user_sessions db user_id token now u = (ended, kept)
    where
      ended :
          get_user_from_session_token digest (delete_user_sessions db user_id) (some token) now
            ≡ some u
          → u.id ≢ user_id
      ended e same =
          let a =
            get_user_from_session_token-IsAuthentic (delete_user_sessions db user_id) token now u
              e in
          let stored : In a.session (delete_where (of_user user_id) db.sessions.rows) =
            unfold delete_user_sessions in a.stored in
          let other : of_user user_id a.session ≡ false =
            All-In _ _ (delete_where-fails (of_user user_id) db.sessions.rows) stored in
          ground (arith, a.of_the_user)

      kept :
          get_user_from_session_token digest db (some token) now ≡ some u
          → u.id ≢ user_id
          → get_user_from_session_token digest (delete_user_sessions db user_id) (some token) now
            ≡ some u
      kept e ne =
          let (r, found, user_found) = found_session db token now u e in
          let of_other : of_user user_id r ≡ false =
            ground (arith, find-holds _ db.users.rows u user_found) in
          unfold get_user_from_session_token delete_user_sessions in
          ground (
            arith,
            e,
            user_found,
            find-holds _ db.sessions.rows r found,
            find-delete_where_kept _ (of_user user_id) db.sessions.rows r found of_other,
          )

  module _ (db : Database) (token : Text) where
    -- No two sessions have one hash.
    abbrev OneSessionPerHash : Type 0
    OneSessionPerHash =
        (r q : UserSession)
        → In r db.sessions.rows
        → In q db.sessions.rows
        → r.session_token_hash ≡ q.session_token_hash
        → r ≡ q

    no_session_left :
        OneSessionPerHash
        → truthy token ≡ true
        → (r : UserSession) → r.session_token_hash ≡ digest token
        → ¬ In r (delete_user_session digest db (some token)).sessions.rows
    no_session_left unique token_ok r e i =
        elim (Option-cases (find (has_hash digest (digest token)) db.sessions.rows)) [
          | inl none_found ↦
              let i' : In r db.sessions.rows =
                unfold delete_user_session in subst (In r) (ground arith) i in
              let miss = All-In _ _ (find-none _ db.sessions.rows none_found) i' in
              cc (text_beq_refl (digest token), ap (λ h. text_beq h (digest token)) e)
          | inr (q, found) ↦
              let i' : In r (delete_where (λ x. x.id == q.id) db.sessions.rows) =
                unfold delete_user_session in subst (In r) (ground arith) i in
              let same : r ≡ q =
                unique r q (In-of_delete_where _ db.sessions.rows i')
                  (In-find _ db.sessions.rows found)
                  (ground (
                    arith,
                    find-holds _ db.sessions.rows q found,
                    text_beq_iff q.session_token_hash (digest token),
                  )) in
              let kept : (r.id == q.id) ≡ false =
                All-In _ _ (delete_where-fails _ db.sessions.rows) i' in
              absurd (ground (arith, ap (λ (x : UserSession). x.id) same))
        ]

    -- Logging out ends the session of the token, where no two sessions have one hash: from then on
    -- the token stands for nobody.
    pub get_user-delete_user_session :
        (now : ℕ)
        → ((r q : UserSession)
            → In r db.sessions.rows
            → In q db.sessions.rows
            → r.session_token_hash ≡ q.session_token_hash
            → r ≡ q)
        → get_user_from_session_token digest
            (delete_user_session digest db (some token))
            (some token)
            now
          ≡ none
    get_user-delete_user_session now unique =
        elim (Option-cases (
          get_user_from_session_token digest (delete_user_session digest db (some token))
            (some token) now)) [
              | inl e ↦ e
              | inr (u, e) ↦
                  let a =
                    get_user_from_session_token-IsAuthentic
                      (delete_user_session digest db (some token)) token now u e in
                  absurd (no_session_left unique (accepted u e) a.session a.token_matches a.stored)
            ]
      where
        accepted :
            (u : User)
            → get_user_from_session_token digest
                (delete_user_session digest db (some token))
                (some token)
                now
              ≡ some u
            → truthy token ≡ true
        accepted u e = unfold get_user_from_session_token in ground (arith, e)
