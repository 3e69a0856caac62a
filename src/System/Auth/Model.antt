-- ===== src/System/Auth/Model.antt =====
-- The users, the sessions and the claims of tokens of system/internal. A UUID is its text, a
-- time a number of nanoseconds.
use zeus_be.Prelude.{ℤ, String, Option}

-- system/internal/models/user.go. `status` is an `AccountStatus`.
pub record User : Type 0 where
  pub id : String
  pub email : String
  pub password_hash : String
  pub full_name : String
  pub role : String
  pub status : String
  pub last_login_at : Option ℤ
  pub created_at : ℤ
  pub updated_at : ℤ
  pub deleted_at : Option ℤ

-- system/internal/models/session.go, the fields that the service sets.
pub record Session : Type 0 where
  pub user_id : String
  pub user_email : String
  pub jti : String
  pub expires_at : ℤ

-- The registered claims that the service sets or reads.
pub record RegisteredClaims : Type 0 where
  pub id : String
  pub expires_at : ℤ
  pub issued_at : ℤ
  pub issuer : String

pub record JwtAccessClaims : Type 0 where
  pub user_id : String
  pub role : String
  pub email : String
  pub full_name : String
  pub status : String
  pub registered : RegisteredClaims

pub record JwtRefreshClaims : Type 0 where
  pub jti : String
  pub sub : String
  pub registered : RegisteredClaims

-- What a verified access token says.
pub record JwtClaims : Type 0 where
  pub user_id : String
  pub role : String
  pub email : String
  pub full_name : String
  pub status : String

-- system/internal/models/auth.go
pub record TokenPair : Type 0 where
  pub access_token : String
  pub refresh_token : String
  pub token_type : String
  pub expires_in : ℤ

pub record AuthLoginResult : Type 0 where
  pub tokens : TokenPair
  pub user : User
