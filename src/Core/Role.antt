-- ===== src/Core/Role.antt =====
-- `Role` of app/core/membership.py, and the order in which members are listed.
use a2z_core.Prelude.{ℕ, Bool, true, false}

pub data Role : Type 0 where
  owner admin member guest : Role

-- `_ROLE_ORDER`
unfoldable pub role_order : Role → ℕ
role_order owner = 0
role_order admin = 1
role_order member = 2
role_order guest = 3

-- `role in (Role.OWNER, Role.ADMIN)`
unfoldable pub owner_or_admin : Role → Bool
owner_or_admin owner = true
owner_or_admin admin = true
owner_or_admin member = false
owner_or_admin guest = false
