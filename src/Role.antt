-- ===== src/Role.antt =====
-- Who may call: CheckRole, CheckAdminRole and checkRole of pkg/role/role.go. The token is the one
-- that rpc.GetIDToken finds in the context.
use bucketeer.Prelude.{
  ℕ, String, Bool, true, false, not, ◌||◌, Option, none, some, ltb, eqb, if◌then◌else◌, Result, ok,
  err, panic, guard, ◌>>◌,
}

-- Account.Role of proto/account/account.proto: an open enumeration of no negative numbers.
pub data Role : Type 0 where
  viewer editor owner unassigned : Role
  unknown : ℕ → Role

-- The number of a role: they are compared by it.
abbrev pub role_number : Role → ℕ
role_number viewer = 0
role_number editor = 1
role_number owner = 2
role_number unassigned = 99
role_number (unknown n) = n

pub record Token : Type 0 where
  pub email : String
  pub is_admin : Bool

pub record Account : Type 0 where
  pub email : String
  pub role : Role

pub record Editor : Type 0 where
  pub email : String
  pub role : Role
  pub is_admin : Bool

pub data RoleError : Type 0 where
  unauthenticated permission_denied internal : RoleError

-- The errors of the account service that are told apart.
pub data AccountFault : Type 0 where
  account_not_found other_fault : AccountFault

unfoldable pub check_role_of : String → Role → Role → Bool → Result RoleError Editor
check_role_of email role required_role is_admin = do
  guard (not (eqb (role_number role) 99 || ltb (role_number role) (role_number required_role)))
      permission_denied
  ok (record { email = email; role = role; is_admin = is_admin })

unfoldable pub check_admin_role : Option Token → Result RoleError Editor
check_admin_role none = err unauthenticated
check_admin_role (some token) =
    if not token.is_admin then err permission_denied else check_role_of token.email owner owner true

unfoldable pub account_role : Result AccountFault Account → Role → Result RoleError Editor
account_role (ok a) required_role = check_role_of a.email a.role required_role false
account_role (err account_not_found) required_role = err unauthenticated
account_role (err other_fault) required_role = err internal
account_role panic required_role = panic

unfoldable pub check_role :
    Option Token → Role → (String → Result AccountFault Account) → Result RoleError Editor
check_role none required_role get_account = err unauthenticated
check_role (some token) required_role get_account =
    if not token.is_admin
    then account_role (get_account token.email) required_role
    else check_role_of token.email owner required_role true
