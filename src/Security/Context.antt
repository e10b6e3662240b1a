-- ===== src/Security/Context.antt =====
-- backend/app/core/request_context.py. The request's correlation id and metadata are left out.
use realesatecrm.Base.{ℕ, String, Bool, false, ◌||◌, Option, List, [], ◌∷◌, str_eq}

pub data SecurityScope : Type 0 where
  global tenant : SecurityScope

pub record RequestContext : Type 0 where
  pub user_id : ℕ
  pub auth_user_id : ℕ
  pub tenant_id : Option ℕ
  pub role : String
  pub permissions : List String
  pub is_super_admin : Bool
  pub scope : SecurityScope

-- `code in permissions`, of a frozenset as a list.
unfoldable pub contains : String → List String → Bool
contains s [] = false
contains s (x ∷ xs) = str_eq x s || contains s xs
