-- ===== src/Messages.antt =====
-- The response messages of app/models/company/response_messages.py,
-- app/models/permission_response_messages.py and app/models/user/response_messages.py, by the names
-- of their members, and the texts that the code writes out.
use userverse.Base.{String}

pub data CompanyResponseMessages : Type 0 where
  company_created company_creation_failed company_already_exists : CompanyResponseMessages
  company_not_found company_found unauthorized_company_access : CompanyResponseMessages
  company_id_or_email_required company_updated company_update_failed : CompanyResponseMessages
  company_deleted company_deletion_failed : CompanyResponseMessages

pub data CompanyUserResponseMessages : Type 0 where
  get_company_users get_user_companies add_user_success : CompanyUserResponseMessages
  add_user_failed add_existing_user_failed update_user_role_success : CompanyUserResponseMessages
  update_user_role_failed remove_user_success remove_user_failed : CompanyUserResponseMessages
  super_admin_remove_forbidden user_already_removed : CompanyUserResponseMessages

pub data CompanyRoleResponseMessages : Type 0 where
  role_creation_success role_creation_forbidden : CompanyRoleResponseMessages
  role_creation_failed role_management_forbidden role_get_success : CompanyRoleResponseMessages
  role_not_found role_deleted role_deletion_failed role_updated : CompanyRoleResponseMessages
  role_update_failed role_already_exists : CompanyRoleResponseMessages

pub data PermissionResponseMessages : Type 0 where
  created found updated deleted assigned unassigned not_found : PermissionResponseMessages
  already_exists already_assigned assignment_not_found : PermissionResponseMessages
  management_forbidden system_permission_protected : PermissionResponseMessages
  system_permission_conflict : PermissionResponseMessages

pub data PlatformRoleResponseMessages : Type 0 where
  found assigned unassigned already_assigned : PlatformRoleResponseMessages
  assignment_not_found : PlatformRoleResponseMessages

pub data UserResponseMessages : Type 0 where
  user_created user_creation_failed user_already_exists : UserResponseMessages
  user_not_found user_found user_updated user_update_failed : UserResponseMessages
  user_account_status_updated user_account_status_update_failed : UserResponseMessages
  user_deleted user_deletion_failed user_logged_in user_token_refreshed : UserResponseMessages
  user_refresh_token_revoked user_logged_out invalid_credentials : UserResponseMessages
  password_reset email_verified password_reset_failed : UserResponseMessages
  user_account_verified verification_email_resent : UserResponseMessages
  verification_rate_limited email_verification_failed : UserResponseMessages
  invalid_verification_token account_locked invalid_request_message : UserResponseMessages
  user_account_already_active user_account_inactive : UserResponseMessages

pub data PasswordResetResponseMessages : Type 0 where
  otp_sent otp_verified otp_verification_failed : PasswordResetResponseMessages
  magic_link_verification_failed password_changed : PasswordResetResponseMessages
  password_change_failed otp_error token_error rate_limited : PasswordResetResponseMessages
  frontend_url_not_configured : PasswordResetResponseMessages

-- app/models/security_messages.py
pub data SecurityResponseMessages : Type 0 where
  invalid_credentials_message invalid_request_message : SecurityResponseMessages
  missing_authorization_header invalid_authorization_header : SecurityResponseMessages
  invalid_authorization_type invalid_token invalid_token_type : SecurityResponseMessages
  missing_user_data expired_token error_decoding invalid_request : SecurityResponseMessages

pub data Message : Type 0 where
  security : SecurityResponseMessages → Message
  company : CompanyResponseMessages → Message
  company_user : CompanyUserResponseMessages → Message
  company_role : CompanyRoleResponseMessages → Message
  permission : PermissionResponseMessages → Message
  platform_role : PlatformRoleResponseMessages → Message
  user : UserResponseMessages → Message
  password : PasswordResetResponseMessages → Message
  literal : String → Message
