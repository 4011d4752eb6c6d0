-- ===== src/Groups/Rules.antt =====
-- src/modules/groups/permissions/group-membership-rules.service.ts.
use qisma_be.Prelude.{ℕ, Bool, not, ◌&&◌, ◌||◌, Option, none, some}
use qisma_be.Groups.Store.{
  Member, Db, Action, ◌>>=◌, ◌>>◌, pure, gets, throw_if, or_throw, is_owner, is_admin, is_member,
  is_active, find_member, find_group, group_not_found, not_group_member, admin_required,
  owner_required,
}

abbrev test : (Member → Bool) → Option Member → Bool
test p none = Bool.false
test p (some m) = p m

pub is_active_member : ℕ → ℕ → Db → Bool
is_active_member user group db = test (λ m. is_active m.status) (find_member group user db)

pub is_admin_or_owner : ℕ → ℕ → Db → Bool
is_admin_or_owner user group db =
    test (λ m. is_active m.status && (is_owner m.role || is_admin m.role))
      (find_member group user db)

pub is_owner_of : ℕ → ℕ → Db → Bool
is_owner_of user group db =
    test (λ m. is_active m.status && is_owner m.role) (find_member group user db)

unfoldable pub require_active_member : ℕ → ℕ → Action Member
require_active_member user group = do
  or_throw (← gets (find_group group)) group_not_found
  m ← or_throw (← gets (find_member group user)) not_group_member
  throw_if (not (is_active m.status)) not_group_member
  pure m

unfoldable pub require_admin_or_owner : ℕ → ℕ → Action Member
unfolding require_active_member
require_admin_or_owner user group = do
  m ← require_active_member user group
  throw_if (is_member m.role) admin_required
  pure m

unfoldable pub require_owner : ℕ → ℕ → Action Member
unfolding require_active_member
require_owner user group = do
  m ← require_active_member user group
  throw_if (not (is_owner m.role)) owner_required
  pure m
