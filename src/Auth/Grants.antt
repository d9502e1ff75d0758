-- ===== src/Auth/Grants.antt =====
-- When backend/src/auth/auth.service.ts lets a user in.
use flow_logix.Common.{
  ◌≡◌, ◌↔◌, refl, ap, ◌∙◌, sym, Bool, true, false, not, ◌||◌, if◌then◌else◌, Option, none, some,
  Text,
}
use flow_logix.Auth.{User, UsersRepo, JwtPayload, LoginResult, issued, hash_of, granted, login}

unless_iff :
    (active matches : Bool) (a b : LoginResult)
    → (if not active || not matches then none else some a) ≡ some b
      ↔ (active ≡ true) × (matches ≡ true) × (a ≡ b)
unless_iff true true a b = (λ h. (refl, refl, cc), λ (p, q, r). cc)
unless_iff true false a b = (λ h. cc, λ (p, q, r). cc)
unless_iff false matches a b = (λ h. cc, λ (p, q, r). cc)

module _ {Db : Type 0} (users : UsersRepo Db) (compare : Text → Text → Bool)
    (sign : JwtPayload → Text) where
  granted_iff :
      (password_matches : Bool) (found : Option User) (result : LoginResult)
      → granted users compare sign password_matches found ≡ some result
        ↔ (user : User) × (found ≡ some user)
          × (user.safe.is_active ≡ true)
          × (password_matches ≡ true)
          × (issued users compare sign user ≡ result)
  granted_iff password_matches none result = (λ h. cc, λ (user, found, a, b, c). cc)
  granted_iff password_matches (some user) result =
      let unless =
        unless_iff user.safe.is_active password_matches (issued users compare sign user) result in
      (
        λ h. let (active, matches, same) = unless.0 h in (user, refl, active, matches, same),
        λ (other, found, active, matches, same).
            let one : other ≡ user = cc in
            unless.1 (
              ap (λ u. u.safe.is_active) (sym one) ∙ active,
              matches,
              ap (issued users compare sign) (sym one) ∙ same,
            ),
      )

  -- A token is issued exactly to the active user of the address whose hash accepts the password,
  -- and it names that user's id, organisation and address: the dummy hash lets nobody in.
  login_iff :
      (db : Db) (email password : Text) (result : LoginResult)
      → login users compare sign db email password ≡ some result
        ↔ (user : User) × (users.find_by_email db email ≡ some user)
          × (user.safe.is_active ≡ true)
          × (compare password user.password_hash ≡ true)
          × (issued users compare sign user ≡ result)
  unfolding login
  login_iff db email password result =
      let found = users.find_by_email db email in
      let iff = granted_iff (compare password (hash_of found)) found result in
      (
        λ h.
            let (user, at, active, matches, same) = iff.0 h in
            (user, at, active, ap (λ o. compare password (hash_of o)) (sym at) ∙ matches, same),
        λ (user, at, active, matches, same).
            iff.1 (user, at, active, ap (λ o. compare password (hash_of o)) at ∙ matches, same),
      )
