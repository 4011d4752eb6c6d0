-- ===== src/Groups/Invites.antt =====
-- src/modules/groups/groups.service.ts, `addMember`, and the claim of phone invites at signup.
use qisma_be.Prelude.{
  ℕ, ◌+◌, ◌*◌, Bool, true, false, not, ◌&&◌, Option, none, some, List, [], ◌∷◌, ◌++◌, ltb, ◌==◌,
  if◌then◌else◌, find?, keep,
}
use qisma_be.Groups.Store.{
  member, Status, invite_sent, User, Member, Invite, Db, Phone, Action, ◌>>=◌, ◌>>◌, pure, throw,
  gets, or_throw, Done, throw_if, rethrow, is_active, is_invite, is_pending_invite, same,
  find_member, find_user, find_group, create_member, delete_invites, upsert_invite, try_emit,
  normalize_invite_phone, user_not_found, account_inactive, group_not_found, invite_self_forbidden,
  invite_already_pending, member_conflict, p2002,
}
use qisma_be.Groups.Rules.{require_admin_or_owner}
use qisma_be.Groups.Service.{require_account, roster}

-- `GROUP_INVITE_CONSTANTS.TTL_MS`: 14 days.
abbrev pub ttl_ms : ℕ
ttl_ms = 14 * 24 * 60 * 60 * 1000

-- The input of `addMember`: the first of its fields that is given decides.
pub data Target : Type 0 where
  by_identifier : Phone → Target
  by_username by_user_id : ℕ → Target
  by_nothing : Target

abbrev pub find_identifier : Phone → Db → Option User
find_identifier phone db = find? (λ u. same u.identifier phone) db.users

abbrev has_username : ℕ → User → Bool
has_username name u = elim u.username [ none ↦ false | some n ↦ n == name ]

abbrev pub find_username : ℕ → Db → Option User
find_username name db = find? (has_username name) db.users

-- The row that an invitation creates.
abbrev pub pending_row : ℕ → ℕ → ℕ → Option ℕ → Member
pending_row now group user inviter = record {
  group_id = group;
  user_id = user;
  role = member;
  status = Status.pending;
  added_by = inviter;
  joined_at = none;
  created_at = now;
}

-- `addMember` for a phone that no user has.
unfoldable pub invite_phone : ℕ → Bool → ℕ → User → ℕ → Phone → Action (List Member)
unfolding upsert_invite try_emit roster
invite_phone now written actor account group phone = do
  throw_if (same phone []) user_not_found
  throw_if (same phone (normalize_invite_phone account.identifier)) invite_self_forbidden
  upsert_invite group phone actor (now + ttl_ms)
  try_emit written (record {
    group_id = group;
    type = invite_sent;
    actor = some actor;
    subject = none;
    offline = true;
  })
  gets (roster group)

-- The error for a user who has a row already.
existing_row : Option Member → Action Done
existing_row none = pure tt
existing_row (some m) =
    throw (if is_active m.status then member_conflict else invite_already_pending)

-- `addMember` for a user.
unfoldable pub invite_user : ℕ → Bool → ℕ → ℕ → User → Action (List Member)
unfolding delete_invites existing_row create_member try_emit roster
invite_user now written actor group target = do
  throw_if (not target.is_active) account_inactive
  throw_if (target.id == actor) invite_self_forbidden
  delete_invites group target.identifier
  existing_row (← gets (find_member group target.id))
  rethrow p2002 member_conflict (create_member (pending_row now group target.id (some actor)))
  try_emit written (record {
    group_id = group;
    type = invite_sent;
    actor = some actor;
    subject = some target.id;
    offline = false;
  })
  gets (roster group)

invite_found : ℕ → Bool → ℕ → ℕ → Option User → Action (List Member)
invite_found now written actor group none = throw user_not_found
invite_found now written actor group (some u) = invite_user now written actor group u

invite_target : ℕ → Bool → ℕ → User → ℕ → Target → Action (List Member)
invite_target now written actor account group (by_identifier raw) = do
  let phone = normalize_invite_phone raw
  found ← gets (find_identifier phone)
  elim found [
    | none ↦ invite_phone now written actor account group phone
    | some u ↦ invite_user now written actor group u
  ]
invite_target now written actor account group (by_username name) = do
  found ← gets (find_username name)
  invite_found now written actor group found
invite_target now written actor account group (by_user_id id) = do
  found ← gets (find_user id)
  invite_found now written actor group found
invite_target now written actor account group by_nothing = throw user_not_found

-- `addMember`
unfoldable pub add_member : ℕ → Bool → ℕ → ℕ → Target → Action (List Member)
unfolding require_account require_admin_or_owner invite_found invite_target
add_member now written actor group target = do
  u ← require_account actor
  or_throw (← gets (find_group group)) group_not_found
  require_admin_or_owner actor group
  invite_target now written actor u group target

-- The `where` of the claim.
abbrev pub claimable : ℕ → Phone → Invite → Bool
claimable now phone i = same i.phone phone && is_pending_invite i.status && ltb now i.expires_at

-- One round of the claim: a pending row, unless the user has a row in that group; then the invite
-- is deleted. The number counts the new rows.
unfoldable pub claim_one : ℕ → ℕ → Invite → Db → ℕ × Db
claim_one now user i db =
    let rest = keep (λ j. not (is_invite i.group_id i.phone j)) db.invites in
    elim (find_member i.group_id user db) [
      | some _ ↦ (0, record db { invites = rest })
      | none ↦ (
        1,
        record db {
          members = db.members ++ (pending_row now i.group_id user i.invited_by ∷ []);
          invites = rest;
        },
      )
    ]

unfoldable pub claim_each : ℕ → ℕ → List Invite → Db → ℕ × Db
claim_each now user [] db = (0, db)
claim_each now user (i ∷ is) db =
    let (n, db') = claim_one now user i db in
    let (m, db'') = claim_each now user is db' in (n + m, db'')

-- `claimPendingPhoneInvitesAfterSignup`, in one transaction.
unfoldable pub claim_pending : ℕ → ℕ → Phone → Db → ℕ × Db
unfolding claim_each
claim_pending now user phone db = claim_each now user (keep (claimable now phone) db.invites) db
