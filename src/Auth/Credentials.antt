-- ===== src/Auth/Credentials.antt =====
-- internal/api/auth/credentialService.go: the credentials of a device.
use nmslite.Common.{String}

pub record Credentials : Type 0 where
  pub username : String
  pub password : String
  pub domain : String
  pub private_key : String
  pub passphrase : String
  pub community : String
  pub security_name : String
  pub security_level : String
  pub auth_protocol : String
  pub auth_password : String
  pub priv_protocol : String
  pub priv_password : String

-- The credentials with the values that a function gives for their JSON names.
abbrev pub credentials_by : (String → String) → Credentials
credentials_by f = record {
  username = f "username";
  password = f "password";
  domain = f "domain";
  private_key = f "private_key";
  passphrase = f "passphrase";
  community = f "community";
  security_name = f "security_name";
  security_level = f "security_level";
  auth_protocol = f "auth_protocol";
  auth_password = f "auth_password";
  priv_protocol = f "priv_protocol";
  priv_password = f "priv_password";
}
