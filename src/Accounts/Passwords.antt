-- ===== src/Accounts/Passwords.antt =====
-- What the changes of internal/service/user.go do to a user and to signing in.
use lauth.Prelude.{
  ℕ, ◌+◌, String, ◌==◌, eq_iff, eq_refl, ◌≡◌, ◌≢◌, refl, ap, ◌∙◌, inl, inr, ◌↔◌, true, false, ◌&&◌,
  Option, none, some, List, [], ◌∷◌, eqb, Bool-cases, text-cases, arith,
}
use lauth.Accounts.Users.{
  User, Bcrypt, UserIo, ok, err, invalid_password, disabled, get_user_row, get_by_username, set_row,
  hash_password, update_user_row, update_user, password_lifetime, update_password, check_user,
  validate_user,
}

-- bcrypt accepts for a hash the password that was hashed, and no other.
abbrev pub Checks : Bcrypt → Type 0
Checks b = (p q h : String) → b.hash p ≡ some h → (b.compare h q ≡ true) ↔ (p ≡ q)

-- The row of a user is the one that its name finds.
abbrev pub IsRow : User → List User → Type 0
IsRow u us = (get_user_row u.id us ≡ some u) × (get_by_username u.app_id u.username us ≡ some u)

-- A user whose password is written over is still found, with the new one.
set_row-IsRow :
    (u : User) (h : String) (us : List User)
    → IsRow u us
    → IsRow (record u { password = h }) (set_row (record u { password = h }) us)
unfolding get_user_row get_by_username
set_row-IsRow u h [] (i, n) = cc i
set_row-IsRow u h (w ∷ ws) (i, n) = elim (text-cases w.id u.id) [
  | inl e ↦ simp (e, eq_refl u.id, eq_refl u.app_id, eq_refl u.username) (refl, refl)
  | inr (ne, e) ↦
      let i' : get_user_row u.id ws ≡ some u = simp e at i in
      elim (Bool-cases (w.app_id == u.app_id && w.username == u.username)) [
        | inl same ↦ absurd (ne (ap (λ o. id_of o) (simp same at n)))
        | inr other ↦
            let n' : get_by_username u.app_id u.username ws ≡ some u = simp other at n in
            simp (e, other) (set_row-IsRow u h ws (i', n'))
      ]
]
  where
    id_of : Option User → String
    id_of none = ""
    id_of (some u) = u.id

-- The database answers and takes the write.
abbrev pub Works : UserIo → Type 0
Works io = (io.read_ok ≡ true) × (io.reread_ok ≡ true) × (io.write_ok ≡ true)

module _ (b : Bcrypt) (checks : Checks b) where
  -- Whatever else the given user has, only its password is saved, and hashed.
  update_user_row-password :
      (io : UserIo) (u v : User) (h : String) (us : List User)
      → Works io
      → IsRow u us
      → v.id ≡ u.id
      → v.password ≢ ""
      → b.hash v.password ≡ some h
      → update_user_row b io v us ≡ (none, set_row (record u { password = h }) us)
  unfolding update_user_row hash_password
  update_user_row-password io u v h us (r, rr, w) (i, n) same filled hashed =
      let nonempty : (v.password == "") ≡ false = ground (arith, eq_iff v.password "") in
      simp (nonempty, rr, same, i, w, hashed)

  validate_user-row :
      (io : UserIo) (u : User) (q : String) (us : List User)
      → io.read_ok ≡ true
      → IsRow u us
      → validate_user b io u.app_id u.username q us ≡ check_user b q (ok u)
  unfolding validate_user
  validate_user-row io u q us r (i, n) = simp (r, n)

  -- UpdatePassword of a user that is not disabled, with the right old password and a new one that is
  -- not empty and that bcrypt hashes, where the database works, the user is the first of its id and
  -- of its name, and bcrypt accepts a hash of exactly the password that it was made of: the new
  -- password signs the user in and no other does. Of the row only the password has changed: the
  -- flag of the first login and the time at which the password expires stay what they were.
  pub update_password-validate_user :
      (io : UserIo) (now : ℕ) (u : User) (old new h q : String) (us : List User)
      → Works io
      → IsRow u us
      → b.compare u.password old ≡ true
      → new ≢ ""
      → b.hash new ≡ some h
      → eqb u.status disabled ≡ false
      → let a = update_password b io now u.id old new us in
        (a.0 ≡ none)
        × (get_user_row u.id a.1 ≡ some (record u { password = h }))
        × (validate_user b io u.app_id u.username new a.1 ≡ ok (record u { password = h }))
        × (q ≢ new → validate_user b io u.app_id u.username q a.1 ≡ err invalid_password)
  unfolding update_password
  update_password-validate_user io now u old new h q us works row right filled hashed enabled =
      let v = record u {
        password = new;
        is_first_login = false;
        password_expires_at = some (now + password_lifetime);
      } in
      let saved = update_user_row-password io u v h us works row refl filled hashed in
      let row' = set_row-IsRow u h us row in
      let accepts : b.compare h new ≡ true = (checks new new h hashed).1 refl in
      let refuses : q ≢ new
          → check_user b q (ok (record u { password = h })) ≡ err invalid_password =
        λ other.
          (let wrong : b.compare h q ≡ false = ground (arith, other, checks new q h hashed) in
            simp wrong) in
      let check = λ (q : String).
        validate_user-row io (record u { password = h }) q (set_row (record u { password = h }) us)
          works.0 row' in
      let done : update_password b io now u.id old new us
          ≡ (none, set_row (record u { password = h }) us) =
        simp (works.0, row.0, right, saved) in
      rw done (refl, row'.0, check new ∙ simp (accepts, enabled), λ other. check q ∙ refuses other)

  -- UpdateUser, where the database works: the nickname, the email, the phone and the status stay as
  -- they were, and the stored hash is hashed once more, so that the password that the user had
  -- signs it in no longer. The user's password is not its own hash.
  pub update_user-validate_user :
      (io : UserIo) (u : User) (p h nickname email phone : String) (status : ℕ) (us : List User)
      → Works io
      → IsRow u us
      → b.hash p ≡ some u.password
      → u.password ≢ ""
      → u.password ≢ p
      → b.hash u.password ≡ some h
      → let a = update_user b io u.id nickname email phone status us in
        (a.0 ≡ none)
        × (get_user_row u.id a.1 ≡ some (record u { password = h }))
        × (validate_user b io u.app_id u.username p us ≢ err invalid_password)
        × (validate_user b io u.app_id u.username p a.1 ≡ err invalid_password)
  unfolding update_user
  update_user-validate_user io u p h nickname email phone status us works row was filled other
        hashed =
      let v = record u { nickname = nickname; email = email; phone = phone; status = status } in
      let saved = update_user_row-password io u v h us works row refl filled hashed in
      let done : update_user b io u.id nickname email phone status us
          ≡ (none, set_row (record u { password = h }) us) =
        simp (works.0, row.0, saved) in
      let row' = set_row-IsRow u h us row in
      let right : b.compare u.password p ≡ true = (checks p p u.password was).1 refl in
      let wrong : b.compare h p ≡ false = ground (arith, other, checks u.password p h hashed) in
      rw done (
        refl,
        row'.0,
        rw (validate_user-row io u p us works.0 row) (ground (arith, right)),
        validate_user-row io (record u { password = h }) p (set_row (record u { password = h }) us)
              works.0 row'
            ∙ simp wrong,
      )
