-- ===== src/Authorization/Tests.antt =====
-- app/services/company/authorization.py on the small database. `uuid5` is the number of characters.
use Prim.Native.String.{count}
use userverse.Base.{◌≡◌, refl, ◌↔◌, ◌⊎◌, true}
use userverse.Messages.{company, unauthorized_company_access}
use userverse.Database.{begin, ok, err, app_error}
use userverse.Database.Samples.{ann, root, small}
use userverse.SystemPermissions.{company_read, company_delete, value, permission_id}
use userverse.Authorization.{is_authorized, require}
use userverse.Authorization.Laws.{Grant, require_iff}

authorizing : Unit {0}
unfolding require is_authorized value permission_id
authorizing = tt

member_may_read : (require count ann 1 company_read (begin small)).0 ≡ ok tt
unfolding authorizing
member_may_read = refl

member_may_not_delete :
    (require count ann 1 company_delete (begin small)).0
    ≡ err (app_error 403 (company unauthorized_company_access))
unfolding authorizing
member_may_not_delete = refl

superuser_may_delete : (require count root 1 company_delete (begin small)).0 ≡ ok tt
unfolding authorizing
superuser_may_delete = refl

require_iff_example :
    ((require count ann 1 company_read (begin small)).0 ≡ ok tt
      ↔ ((ann.is_superuser ≡ true) ⊎ Grant count 3 1 company_read small))
    × (((require count ann 1 company_read (begin small)).0 ≡ ok tt)
        ⊎ ((require count ann 1 company_read (begin small)).0
            ≡ err (app_error 403 (company unauthorized_company_access))))
    × ((require count ann 1 company_read (begin small)).1 ≡ begin small)
require_iff_example = require_iff count ann 1 company_read (begin small)
