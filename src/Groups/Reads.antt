-- ===== src/Groups/Reads.antt =====
-- src/modules/groups/groups.service.ts: the handlers that only read.
use qisma_be.Prelude.{ℕ, Bool, false, not, ◌&&◌, Option, none, some, List, ◌==◌, length, keep}
use qisma_be.Groups.Store.{
  Group, Member, Db, Action, ◌>>=◌, ◌>>◌, pure, gets, or_throw, throw_if, is_active, find_member,
  find_group, group_not_found, member_not_found, preview_not_pending,
}
use qisma_be.Groups.Rules.{require_active_member}
use qisma_be.Groups.Service.{require_account, roster}

abbrev created_by_user : ℕ → Group → Bool
created_by_user user g = elim g.created_by [ none ↦ false | some u ↦ u == user ]

-- `getMineById`
unfoldable pub get_mine_by_id : ℕ → ℕ → Action Group
unfolding require_account
get_mine_by_id user group = do
  require_account user
  g ← or_throw (← gets (find_group group)) group_not_found
  throw_if (not (created_by_user user g)) group_not_found
  pure g

-- `getGroupProfileForActiveMember`
unfoldable pub get_group_profile : ℕ → ℕ → Action Group
unfolding require_account require_active_member
get_group_profile user group = do
  require_account user
  require_active_member user group
  or_throw (← gets (find_group group)) group_not_found

-- `listMembers`
unfoldable pub list_members : ℕ → ℕ → Action (List Member)
unfolding require_account require_active_member roster
list_members user group = do
  require_account user
  require_active_member user group
  gets (roster group)

-- What `getInvitePreviewForPendingInvitee` shows.
pub record Preview : Type 0 where
  pub id : ℕ
  pub name : ℕ
  pub type : ℕ
  pub avatar : Option ℕ
  pub member_count : ℕ

-- `countWhere` for the active members.
abbrev pub active_count : ℕ → Db → ℕ
active_count group db = length (keep (λ m. m.group_id == group && is_active m.status) db.members)

abbrev preview : Group → ℕ → Preview
preview g n = record {
  id = g.id;
  name = g.name;
  type = g.type;
  avatar = g.avatar_url;
  member_count = n;
}

-- `getInvitePreviewForPendingInvitee`
unfoldable pub get_invite_preview : ℕ → ℕ → Action Preview
unfolding require_account
get_invite_preview user group = do
  require_account user
  g ← or_throw (← gets (find_group group)) group_not_found
  row ← or_throw (← gets (find_member group user)) member_not_found
  throw_if (is_active row.status) preview_not_pending
  n ← gets (active_count group)
  pure (preview g n)
