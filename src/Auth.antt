-- ===== src/Auth.antt =====
-- backend/src/auth/auth.service.ts, with users/user.entity.ts: logging in with an e-mail address
-- and a password, and the profile of who has logged in.
mod Grants
use flow_logix.Common.{ℕ, Bool, not, ◌||◌, Option, none, some, Text, codes, if◌then◌else◌}

-- A user without the hash of the password.
pub record SafeUser : Type 0 where
  pub id : Text
  pub org_id : Text
  pub email : Text
  pub first_name : Text
  pub last_name : Text
  pub avatar_url : Option Text
  pub timezone : Text
  pub locale : Text
  pub is_active : Bool
  pub created_at : ℕ

pub record User : Type 0 where
  pub safe : SafeUser
  pub password_hash : Text

pub record JwtPayload : Type 0 where
  pub sub : Text
  pub org_id : Text
  pub email : Text

pub record LoginResult : Type 0 where
  pub access_token : Text
  pub user : SafeUser

abbrev pub strip : User → SafeUser
strip user = user.safe

-- The look-ups among the users: by the address, which is unique, and by the id within an
-- organisation, of all users or of the active ones.
pub record UsersRepo (Db : Type 0) : Type 0 where
  pub find_by_email : Db → Text → Option User
  pub find_in_org : Db → Text → Text → Option User
  pub find_active : Db → Text → Text → Option User

abbrev dummy_hash : Text
dummy_hash = codes "$2b$10$wR3JmayZaZZ2FAWm2VINNOjgBUQ1swBC.yjy2Rm9HDqcQfGRHVome"

-- `user?.passwordHash ?? DUMMY_HASH`
abbrev pub hash_of : Option User → Text
hash_of none = dummy_hash
hash_of (some user) = user.password_hash

abbrev pub payload_of : User → JwtPayload
payload_of user = record { sub = user.safe.id; org_id = user.safe.org_id; email = user.safe.email }

-- `compare` is bcrypt's and `sign` that of the token service. `none` is the one
-- `UnauthorizedException` of a call.
module _ {Db : Type 0} (users : UsersRepo Db) (compare : Text → Text → Bool)
    (sign : JwtPayload → Text) where
  abbrev pub issued : User → LoginResult
  issued user = record { access_token = sign (payload_of user); user = strip user }

  abbrev pub granted : Bool → Option User → Option LoginResult
  granted password_matches none = none
  granted password_matches (some user) =
      if not user.safe.is_active || not password_matches then none else some (issued user)

  unfoldable pub login : Db → Text → Text → Option LoginResult
  login db email password =
      let user = users.find_by_email db email in granted (compare password (hash_of user)) user

  abbrev pub stripped : Option User → Option SafeUser
  stripped none = none
  stripped (some user) = some (strip user)

  unfoldable pub profile : Db → Text → Text → Option SafeUser
  profile db id org = stripped (users.find_active db id org)
