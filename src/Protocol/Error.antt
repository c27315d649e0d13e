-- ===== src/Protocol/Error.antt =====
-- protocol/src/error.rs. The text of a message (the `String` payloads, built by `format!`) is left
-- out: nothing in the program branches on it.
pub data Error : Type 0 where
  invalid_request bad_verdict decode invalid_config : Error
  bad_challenge bad_origin bad_rp_id missing_user_presence missing_user_verification : Error
  expired invalid_signature malformed_authenticator_data malformed_client_data : Error
  unexpected_credential_type : Error
