-- ===== src/Lib.antt =====
-- Verification of the userverse service (app/): multi-tenant users, companies, roles and permissions
-- behind a REST interface. A request runs in one SQLAlchemy session; a router builds a service, the
-- service checks who may do it, and a repository reads and writes the tables.
--
-- Base: lists, membership, dicts and Boolean tests over native numbers.
-- Pagination: app/models/generic_pagination.py and `BaseSQLRepository.paginate`.
-- RateLimiter: app/utils/rate_limiter.py. Key is about one key's deque, Window about a whole run,
--   Retry about `retry_after`, Composite about `PasswordResetRateLimiter.check`.
-- Messages: the enums of response messages, by the names of their members.
-- Database: the rows of app/repository/database/tables as records (Tables), the session as an
--   action on what is committed and what the session sees (Actions), what a lookup finds (Queries),
--   equations of `do` blocks (Binds), and predicates that actions keep (Keeping).
-- SystemPermissions: app/models/system_permissions.py.
-- Authorization: app/services/company/authorization.py, the joined query as nested searches.
-- Permission: app/repository/permission.py. Global is `GlobalPermissionRepository`, Company
--   `CompanyPermissionRepository`, Role `RolePermissionRepository`, Platform
--   `PlatformRoleRepository`, and Effective the permissions that a role has. The modules Steps are
--   about how calls end. System is `SystemPermissionRepository`, Service is app/services/permission.py.
-- Roles: app/repository/company_role.py. Repository is `RoleRepository`, its child OfCompany the
--   branches for one company with `Role.delete_role_and_reassign_users`, Assignment is
--   `CompanyRoleAssignmentRepository`, and Service is app/services/company/role.py.
-- CompanyUser: app/repository/company_user.py; Service is app/services/company/user.py.
-- DefaultRoles: `_ensure_default_roles` of app/repository/company.py with `seed_new_default_roles` of
--   app/repository/permission.py.
-- Companies: app/repository/company.py; Service is app/services/company/company.py.
-- Reachability: sequences of calls of the repositories of roles, members and companies, as a step
--   relation on what is committed, and what every such sequence keeps.
-- Bootstrap: app/services/superuser_bootstrap.py.
-- Email: app/email/sender.py, the settings and the delivery with its retries.
-- Users: app/repository/user.py. Emails is what it does by email (creation, update, login),
--   Hashing app/utils/hash_password.py, Password app/repository/user_password.py and its Service
--   app/services/user/password.py, Tokens and Jwt app/api/security/jwt.py (signing and reading),
--   Verification app/services/user/verification.py, Auth app/services/user/basic_auth.py and
--   app/services/user/profile.py.
--
-- State: a repository method is a function from a session to a result and a session. It returns or
-- raises; what it wrote before a raise stays in the session's view until a rollback. A statement that
-- breaks a primary key or a unique name raises `IntegrityError` and writes nothing. A request begins
-- with a session that sees what is committed.
--
-- Numbers: identifiers (UUIDs) and instants are natural numbers, and the limiter's seconds are ticks;
-- nothing of the code depends on their size. Loops run over lists, so there is no fuel; the loop over
-- the attempts of a delivery counts the rounds that are left of its max_retries.
--
-- Parameters: `jwt.encode`, `jwt.decode`, bcrypt, the answers of the SMTP server, `urlencode`,
-- `uuid5`, `uuid4`, `ilike`, `str.lower`, `str.strip`, `str.rstrip`, `int` of a text, the clock, random codes
-- and the orders of roles and of permissions.
--
-- Not modelled: routers, middleware, configuration, the set-up of the database and the templates of
-- mails, which are glue around the modules above; the listings but those of permissions; the mails of a registration and of a
-- login; two requests at once.
pub mod Base
pub mod Pagination
pub mod Email
pub mod Reachability
pub mod RateLimiter
pub mod Messages
pub mod Database
pub mod SystemPermissions
pub mod Authorization
pub mod Permission
pub mod Roles
pub mod CompanyUser
pub mod DefaultRoles
pub mod Companies
pub mod Bootstrap
pub mod Users
