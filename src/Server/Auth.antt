-- ===== src/Server/Auth.antt =====
-- crates/evalhub-server/src/auth.rs: the caller behind a token, and crates/evalhub-store/src/auth.rs: scopes.
pub mod Laws
use evalhub.Base.{
  ℕ, String, Bool, true, false, not, Option, none, some, List, [], ◌∷◌, leb, if◌then◌else◌, str_eq,
  is_some, ◌>>=◌,
}
use evalhub.Base.Lists.{contains}

pub data Scope : Type 0 where
  read write admin : Scope

unfoldable pub scope_str : Scope → String
scope_str read = "read"
scope_str write = "write"
scope_str admin = "admin"

unfoldable pub parse_scope : String → Scope
parse_scope s = if str_eq s "admin" then admin else if str_eq s "write" then write else read

-- The derived order, by the place of the constructor.
abbrev pub rank : Scope → ℕ
rank read = 0
rank write = 1
rank admin = 2

unfoldable pub scope_le : Scope → Scope → Bool
scope_le a b = leb (rank a) (rank b)

-- `Ord::min`
unfoldable pub min : Scope → Scope → Scope
min a b = if scope_le a b then a else b

pub record Identity : Type 0 where
  pub user_id : ℕ
  pub token_id : ℕ
  pub login : String
  pub scope : Scope
  pub namespaces : List String
  pub org_roles : List (String × Scope)

pub record Caller : Type 0 where
  pub identity : Option Identity

-- `BTreeMap::get`
unfoldable pub role_of : List (String × Scope) → String → Option Scope
role_of [] ns = none
role_of ((k, role) ∷ roles) ns = if str_eq k ns then some role else role_of roles ns

abbrev pub lesser : Scope → Option Scope → Option Scope
lesser scope none = none
lesser scope (some role) = some (min role scope)

unfoldable pub effective_scope : Identity → String → Option Scope
effective_scope id ns =
    if not (contains id.namespaces ns)
    then none
    else if str_eq ns id.login
    then some id.scope
    else lesser id.scope (role_of id.org_roles ns)

unfoldable pub reachable : Identity → List String → List String
reachable id [] = []
reachable id (ns ∷ rest) =
    if is_some (effective_scope id ns) then ns ∷ reachable id rest else reachable id rest

abbrev pub namespaces_of : Option Identity → List String
namespaces_of none = []
namespaces_of (some id) = reachable id id.namespaces

unfoldable pub namespaces : Caller → List String
namespaces caller = namespaces_of caller.identity

abbrev pub at_least : Scope → Option Scope → Bool
at_least scope none = false
at_least scope (some effective) = scope_le scope effective

abbrev pub allowed_to : Option Identity → String → Scope → Bool
allowed_to none ns scope = false
allowed_to (some id) ns scope = at_least scope (effective_scope id ns)

unfoldable pub allows : Caller → String → Scope → Bool
allows caller ns scope = allowed_to caller.identity ns scope

unfoldable pub is_admin : Caller → String → Bool
is_admin caller ns = allows caller ns admin
