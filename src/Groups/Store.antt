-- ===== src/Groups/Store.antt =====
-- The tables behind src/modules/groups (prisma/schema.prisma: User, Group, GroupMember, GroupInvite,
-- GroupActivityEvent), and the queries of its repositories. A table is the list of its rows in the
-- order of insertion; ids, names and usernames are only compared, so they are numbers, and a phone
-- is the list of its character codes. Times are in milliseconds.
use qisma_be.Prelude.{
  ℕ, Bool, true, false, not, ◌&&◌, Option, none, some, List, [], ◌∷◌, ◌++◌, leb, ◌==◌,
  if◌then◌else◌, find?, keep,
}
use qisma_be.Prelude.Result.{Result, ok, err}

pub data Role : Type 0 where
  owner admin member : Role

pub data Status : Type 0 where
  active pending : Status

pub data InviteStatus : Type 0 where
  pending accepted expired revoked : InviteStatus

pub data EventType : Type 0 where
  member_joined invite_sent invite_accepted : EventType

abbrev pub Phone : Type 0
Phone = List ℕ

pub record User : Type 0 where
  pub id : ℕ
  pub identifier : Phone
  pub username : Option ℕ
  pub is_active : Bool

pub record Group : Type 0 where
  pub id : ℕ
  pub name : ℕ
  pub type : ℕ
  pub avatar_url : Option ℕ
  pub created_by : Option ℕ

pub record Member : Type 0 where
  pub group_id : ℕ
  pub user_id : ℕ
  pub role : Role
  pub status : Status
  pub added_by : Option ℕ
  pub joined_at : Option ℕ
  pub created_at : ℕ

pub record Invite : Type 0 where
  pub group_id : ℕ
  pub phone : Phone
  pub invited_by : Option ℕ
  pub status : InviteStatus
  pub expires_at : ℕ

-- `offline` is the payload `{offlinePhoneInvite: true }`.
pub record Event : Type 0 where
  pub group_id : ℕ
  pub type : EventType
  pub actor : Option ℕ
  pub subject : Option ℕ
  pub offline : Bool

pub record Db : Type 0 where
  pub users : List User
  pub groups : List Group
  pub members : List Member
  pub invites : List Invite
  pub events : List Event

-- What a handler throws: the exceptions of src/common/exceptions that this module uses, and the
-- two error codes of the database that it catches.
pub data GroupError : Type 0 where
  user_not_found account_inactive group_not_found not_group_member : GroupError
  admin_required owner_required invite_self_forbidden : GroupError
  invite_already_pending member_conflict member_not_found : GroupError
  owner_protected admin_remove_requires_owner : GroupError
  invite_not_pending preview_not_pending p2002 p2025 : GroupError

-- A handler: what it wrote before it threw stays written.
abbrev pub Action : Type 0 → Type 0
Action A = Db → Result GroupError A × Db

infixl 5 ◌>>=◌ ◌>>◌
abbrev pub ◌>>=◌ : {A B : Type 0} → Action A → (A → Action B) → Action B
◌>>=◌ m f db = let (r, db') = m db in elim r [ ok a ↦ f a db' | err e ↦ (err e, db') ]

abbrev pub ◌>>◌ : {A B : Type 0} → Action A → Action B → Action B
m >> k = m >>= λ _. k

module _ {A : Type 0} where
  abbrev pub pure : A → Action A
  pure a db = (ok a, db)

  abbrev pub throw : GroupError → Action A
  throw e db = (err e, db)

  abbrev pub gets : (Db → A) → Action A
  gets f db = (ok (f db), db)

  abbrev pub or_throw : Option A → GroupError → Action A
  or_throw none e = throw e
  or_throw (some a) e = pure a

abbrev pub Done : Type 0
Done = Unit {0}

abbrev pub throw_if : Bool → GroupError → Action Done
throw_if c e db = (if c then err e else ok tt, db)

abbrev pub modify : (Db → Db) → Action Done
modify f db = (ok tt, f db)

abbrev is_error : GroupError → GroupError → Bool
is_error p2002 p2002 = true
is_error p2025 p2025 = true
is_error _ _ = false

-- `catch (error) {if (error.code === code) throw e; throw error; }`
abbrev pub rethrow : GroupError → GroupError → Action Done → Action Done
rethrow code e m db =
    let (r, db') = m db in
    elim r [ ok a ↦ (ok a, db') | err e' ↦ (err (if is_error e' code then e else e'), db') ]

abbrev pub is_owner : Role → Bool
is_owner owner = true
is_owner _ = false

abbrev pub is_admin : Role → Bool
is_admin admin = true
is_admin _ = false

abbrev pub is_member : Role → Bool
is_member member = true
is_member _ = false

abbrev pub is_active : Status → Bool
is_active Status.active = true
is_active Status.pending = false

abbrev pub is_pending_invite : InviteStatus → Bool
is_pending_invite InviteStatus.pending = true
is_pending_invite _ = false

-- Equality of texts.
abbrev pub same : Phone → Phone → Bool
same [] [] = true
same (x ∷ xs) (y ∷ ys) = x == y && same xs ys
same _ _ = false

-- `where: {groupId_userId: {groupId, userId } }`
abbrev pub is_row : ℕ → ℕ → Member → Bool
is_row group user m = m.group_id == group && m.user_id == user

abbrev pub find_member : ℕ → ℕ → Db → Option Member
find_member group user db = find? (is_row group user) db.members

abbrev pub find_user : ℕ → Db → Option User
find_user id db = find? (λ u. u.id == id) db.users

abbrev pub find_group : ℕ → Db → Option Group
find_group id db = find? (λ g. g.id == id) db.groups

-- `GroupMemberRepository.create`: the pair of group and user is unique.
unfoldable pub create_member : Member → Action Done
create_member m db = elim (find_member m.group_id m.user_id db) [
  | some _ ↦ (err p2002, db)
  | none ↦ (ok tt, record db { members = db.members ++ (m ∷ []) })
]

-- `deleteByComposite`
unfoldable pub delete_member : ℕ → ℕ → Action Done
delete_member group user db = elim (find_member group user db) [
  | none ↦ (err p2025, db)
  | some _ ↦ (ok tt, record db { members = keep (λ m. not (is_row group user m)) db.members })
]

abbrev pub update_rows : (Member → Bool) → (Member → Member) → List Member → List Member
update_rows p f [] = []
update_rows p f (m ∷ ms) = (if p m then f m else m) ∷ update_rows p f ms

abbrev pub update_member : ℕ → ℕ → (Member → Member) → Action Done
update_member group user f db = elim (find_member group user db) [
  | none ↦ (err p2025, db)
  | some _ ↦ (ok tt, record db { members = update_rows (is_row group user) f db.members })
]

-- `updateRole`
unfoldable pub update_role : ℕ → ℕ → Role → Action Done
update_role group user role = update_member group user λ m. record m { role = role }

-- `activateMembership`
unfoldable pub activate_membership : ℕ → ℕ → ℕ → Action Done
activate_membership now group user =
    update_member group user λ m. record m { status = Status.active; joined_at = some now }

abbrev pub is_invite : ℕ → Phone → Invite → Bool
is_invite group phone i = i.group_id == group && same i.phone phone

-- `deleteByGroupAndPhone`
unfoldable pub delete_invites : ℕ → Phone → Action Done
delete_invites group phone =
    modify λ db. record db { invites = keep (λ i. not (is_invite group phone i)) db.invites }

abbrev update_invites : (Invite → Bool) → (Invite → Invite) → List Invite → List Invite
update_invites p f [] = []
update_invites p f (i ∷ is) = (if p i then f i else i) ∷ update_invites p f is

-- `upsertPendingPhoneInvite`
unfoldable pub upsert_invite : ℕ → Phone → ℕ → ℕ → Action Done
upsert_invite group phone inviter expires_at = modify λ db.
    elim (find? (is_invite group phone) db.invites) [
      | none ↦
          let fresh : Invite = record {
            group_id = group;
            phone = phone;
            invited_by = some inviter;
            status = InviteStatus.pending;
            expires_at = expires_at;
          } in
          record db { invites = db.invites ++ (fresh ∷ []) }
      | some _ ↦
          let again = λ (i : Invite). record i {
            status = InviteStatus.pending;
            expires_at = expires_at;
            invited_by = some inviter;
          } in
          record db { invites = update_invites (is_invite group phone) again db.invites }
    ]

-- `GroupActivityRepository.create` in the `try` of a `tryEmit...`: `written` is whether the
-- database took the row; if it did not, the error is only logged.
unfoldable pub try_emit : Bool → Event → Action Done
try_emit written e =
    modify λ db. if written then record db { events = db.events ++ (e ∷ []) } else db

-- `normalizeInvitePhone`: `raw.replace(/\D/g, '')`
unfoldable pub normalize_invite_phone : Phone → Phone
normalize_invite_phone = keep λ c. leb b'0' c && leb c b'9'
