-- ===== src/Groups/Service.antt =====
-- src/modules/groups/groups.service.ts: the handlers that change the tables. A handler that ends by
-- reading the roster returns it, in the order of `findByGroupIdSorted`. `now` is the clock, a fresh id is an argument, and
-- `written` says whether the database takes a row of the activity feed.
use qisma_be.Prelude.{
  ℕ, Bool, false, not, ◌&&◌, Option, none, some, List, [], ◌∷◌, ◌++◌, leb, ltb, ◌==◌, if◌then◌else◌,
  keep,
}
use qisma_be.Prelude.Sort.{sort}
use qisma_be.Groups.Store.{
  Role, owner, admin, member, Status, invite_accepted, member_joined, User, Group, Member, Db,
  Action, ◌>>=◌, ◌>>◌, pure, gets, or_throw, Done, throw_if, modify, rethrow, is_owner, is_admin,
  is_active, find_member, find_user, find_group, delete_member, update_role, activate_membership,
  try_emit, user_not_found, account_inactive, group_not_found, not_group_member, member_not_found,
  owner_protected, admin_remove_requires_owner, invite_not_pending, p2025,
}
use qisma_be.Prelude.Result.{Result}
use qisma_be.Groups.Rules.{require_admin_or_owner, require_owner}

-- `roleRank`
abbrev pub role_rank : Role → ℕ
role_rank owner = 0
role_rank admin = 1
role_rank member = 2

-- `(m.joinedAt ?? m.createdAt).getTime()`
abbrev pub joined : Member → ℕ
joined m = elim m.joined_at [ none ↦ m.created_at | some t ↦ t ]

-- The comparator of `findByGroupIdSorted`.
abbrev pub roster_le : Member → Member → Bool
roster_le a b =
    if role_rank a.role == role_rank b.role
    then leb (joined a) (joined b)
    else ltb (role_rank a.role) (role_rank b.role)

unfoldable pub roster : ℕ → Db → List Member
roster group db = sort roster_le (keep (λ m. m.group_id == group) db.members)

-- The caller exists and is active: the first lines of each handler.
unfoldable pub require_account : ℕ → Action User
require_account user = do
  u ← or_throw (← gets (find_user user)) user_not_found
  throw_if (not u.is_active) account_inactive
  pure u

-- `createWithOwnerMembership`
unfoldable pub create_with_owner : ℕ → Group → ℕ → Action Group
create_with_owner now g user = do
  modify λ db. record db {
    groups = db.groups ++ (g ∷ []);
    members =
        db.members
        ++ (record {
          group_id = g.id;
          user_id = user;
          role = owner;
          status = Status.active;
          added_by = none;
          joined_at = some now;
          created_at = now;
        }
            ∷ []);
  }
  pure g

-- `createForUser`
unfoldable pub create_for_user : ℕ → ℕ → ℕ → ℕ → ℕ → Option ℕ → Action Group
unfolding require_account create_with_owner
create_for_user now fresh user name type avatar = do
  require_account user
  create_with_owner now
      (record { id = fresh; name = name; type = type; avatar_url = avatar; created_by = some user })
      user

-- `GroupRepository.deleteById`: members, invites and events of the group go with it.
unfoldable pub delete_group : ℕ → Action Done
delete_group group db = elim (find_group group db) [
  | none ↦ (Result.err p2025, db)
  | some _ ↦ (
    Result.ok tt,
    record db {
      groups = keep (λ g. not (g.id == group)) db.groups;
      members = keep (λ m. not (m.group_id == group)) db.members;
      invites = keep (λ i. not (i.group_id == group)) db.invites;
      events = keep (λ e. not (e.group_id == group)) db.events;
    },
  )
]

-- `deleteMine`
unfoldable pub delete_mine : ℕ → ℕ → Action Done
unfolding require_account require_owner delete_group
delete_mine user group = do
  require_account user
  require_owner user group
  rethrow p2025 group_not_found (delete_group group)

-- `removeMember`
unfoldable pub remove_member : ℕ → ℕ → ℕ → Action (List Member)
unfolding require_account require_admin_or_owner delete_member roster
remove_member actor group target = do
  require_account actor
  or_throw (← gets (find_group group)) group_not_found
  actor_row ← require_admin_or_owner actor group
  target_row ← or_throw (← gets (find_member group target)) member_not_found
  throw_if (is_owner target_row.role) owner_protected
  throw_if (is_admin target_row.role && not (is_owner actor_row.role) && not (actor == target))
      admin_remove_requires_owner
  rethrow p2025 member_not_found (delete_member group target)
  gets (roster group)

-- `targetRow.role === role`
abbrev same_role : Role → Role → Bool
same_role a b = role_rank a == role_rank b

-- `NonOwnerMembershipRole`
pub data PatchRole : Type 0 where
  to_admin to_member : PatchRole

abbrev pub role_of : PatchRole → Role
role_of to_admin = admin
role_of to_member = member

-- The end of `updateMemberRole`, with its early return.
set_role : ℕ → ℕ → Role → Role → Action (List Member)
set_role group target current role =
    if same_role current role
    then gets (roster group)
    else do rethrow p2025 member_not_found (update_role group target role); gets (roster group)

-- `updateMemberRole`
unfoldable pub update_member_role : ℕ → ℕ → ℕ → PatchRole → Action (List Member)
unfolding require_account require_owner update_role set_role roster
update_member_role actor group target role = do
  require_account actor
  or_throw (← gets (find_group group)) group_not_found
  require_owner actor group
  target_row ← or_throw (← gets (find_member group target)) member_not_found
  throw_if (not (is_active target_row.status)) not_group_member
  throw_if (is_owner target_row.role) owner_protected
  set_role group target target_row.role (role_of role)

-- The end of `acceptGroupInvite`: an active row is left as it is.
accept_row : ℕ → Bool → ℕ → ℕ → Member → Action (List Member)
accept_row now written user group row = if is_active row.status then gets (roster group) else do
  rethrow p2025 member_not_found (activate_membership now group user)
  try_emit written (record {
    group_id = group;
    type = invite_accepted;
    actor = some user;
    subject = row.added_by;
    offline = false;
  })
  try_emit written (record {
    group_id = group;
    type = member_joined;
    actor = some user;
    subject = none;
    offline = false;
  })
  gets (roster group)

-- `acceptGroupInvite`
unfoldable pub accept_group_invite : ℕ → Bool → ℕ → ℕ → Action (List Member)
unfolding require_account accept_row activate_membership try_emit roster
accept_group_invite now written user group = do
  require_account user
  or_throw (← gets (find_group group)) group_not_found
  row ← or_throw (← gets (find_member group user)) member_not_found
  accept_row now written user group row

-- `declineGroupInvite`
unfoldable pub decline_group_invite : ℕ → ℕ → Action Done
unfolding require_account delete_member
decline_group_invite user group = do
  require_account user
  or_throw (← gets (find_group group)) group_not_found
  row ← or_throw (← gets (find_member group user)) member_not_found
  throw_if (is_active row.status) invite_not_pending
  rethrow p2025 member_not_found (delete_member group user)
