-- ===== src/Groups/Keeps.antt =====
-- Every handler of `GroupsService` keeps the invariant, whatever it throws.
use qisma_be.Prelude.{
  ℕ, ◌<◌, ◌≡◌, ◌⊎◌, refl, Bool, true, false, not, ◌||◌, Option, none, some, List, [], ◌∷◌, arith,
  ◌==◌, find?, keep, Bool-cases, Option-cases, inl, inr,
}
use qisma_be.Groups.Store.{
  Role, Status, update_rows, Group, Member, Db, is_owner, is_active, is_row, find_member,
}
use qisma_be.Groups.Service.{
  role_of, to_admin, to_member, create_for_user, delete_mine, remove_member, update_member_role,
  PatchRole, accept_group_invite, decline_group_invite,
}
use qisma_be.Groups.Rows.{tally, All-find?}
use qisma_be.Groups.Valid.{
  IsValid, RowOk, is_group, in_group, delete-IsValid, update-IsValid, create-IsValid, drop-IsValid,
}

abbrev pub Valid : Db → Type 0
Valid db = IsValid db.groups db.members

pub find_group-tally :
    (g : ℕ) (gs : List Group) {r : Group}
    → find? (λ x. x.id == g) gs ≡ some r
    → 0 < tally (is_group g) gs
find_group-tally g [] e = cc
find_group-tally g (x ∷ xs) {r} e = ground (arith, find_group-tally g xs {r = r})

pub create_for_user-Valid :
    (now fresh user name type : ℕ) (avatar : Option ℕ) (db : Db)
    → tally (is_group fresh) db.groups ≡ 0
    → Valid db
    → Valid (create_for_user now fresh user name type avatar db).1
unfolding create_for_user
create_for_user-Valid now fresh user name type avatar db free v =
    let g : Group = record {
      id = fresh;
      name = name;
      type = type;
      avatar_url = avatar;
      created_by = some user;
    } in
    let m : Member = record {
      group_id = fresh;
      user_id = user;
      role = Role.owner;
      status = Status.active;
      added_by = none;
      joined_at = some now;
      created_at = now;
    } in
    ground (arith, create-IsValid db.groups db.members v g m free refl refl refl refl)

-- The tables of the invariant after a handler: as before, or with other rows.
abbrev Writes : Db → List Member → Db → Type 0
Writes db members db' =
    (db'.groups ≡ db.groups) × ((db'.members ≡ db.members) ⊎ (db'.members ≡ members))

Writes-Valid :
    (db db' : Db) (members : List Member)
    → Valid db
    → IsValid db.groups members
    → Writes db members db'
    → Valid db'
Writes-Valid db db' members v w (a, inl b) = rw (a, b) v
Writes-Valid db db' members v w (a, inr b) = rw (a, b) w

remove_member-Writes :
    (actor group target : ℕ) (db : Db)
    → Writes db
        (keep (λ m. not (is_row group target m)) db.members)
        (remove_member actor group target db).1
unfolding remove_member
remove_member-Writes actor group target db = ground arith

remove_member-owner :
    (actor group target : ℕ) (db : Db) {r : Member}
    → find_member group target db ≡ some r
    → is_owner r.role ≡ true
    → (remove_member actor group target db).1 ≡ db
unfolding remove_member
remove_member-owner actor group target db e o = ground arith

remove_member-none :
    (actor group target : ℕ) (db : Db)
    → find_member group target db ≡ none
    → (remove_member actor group target db).1 ≡ db
unfolding remove_member
remove_member-none actor group target db e = ground arith

pub remove_member-Valid :
    (actor group target : ℕ) (db : Db) → Valid db → Valid (remove_member actor group target db).1
remove_member-Valid actor group target db v = elim (Option-cases (find_member group target db)) [
  | inl e ↦ rw (remove_member-none actor group target db e) v
  | inr (r, e) ↦ elim (Bool-cases (is_owner r.role)) [
    | inl o ↦ rw (remove_member-owner actor group target db e o) v
    | inr o ↦
        Writes-Valid db (remove_member actor group target db).1
          (keep (λ m. not (is_row group target m)) db.members) v
          (delete-IsValid db.groups db.members v group target e o)
          (remove_member-Writes actor group target db)
  ]
]

decline-Writes :
    (user group : ℕ) (db : Db)
    → Writes db
        (keep (λ m. not (is_row group user m)) db.members)
        (decline_group_invite user group db).1
unfolding decline_group_invite
decline-Writes user group db = ground arith

decline-active :
    (user group : ℕ) (db : Db) {r : Member}
    → find_member group user db ≡ some r
    → is_active r.status ≡ true
    → (decline_group_invite user group db).1 ≡ db
unfolding decline_group_invite
decline-active user group db e o = ground arith

decline-none :
    (user group : ℕ) (db : Db)
    → find_member group user db ≡ none
    → (decline_group_invite user group db).1 ≡ db
unfolding decline_group_invite
decline-none user group db e = ground arith

pub decline-Valid :
    (user group : ℕ) (db : Db) → Valid db → Valid (decline_group_invite user group db).1
decline-Valid user group db v = elim (Option-cases (find_member group user db)) [
  | inl e ↦ rw (decline-none user group db e) v
  | inr (r, e) ↦ elim (Bool-cases (is_active r.status)) [
    | inl o ↦ rw (decline-active user group db e o) v
    | inr o ↦
        let fit = All-find? RowOk (is_row group user) db.members v.rows_ok e in
        Writes-Valid db (decline_group_invite user group db).1
          (keep (λ m. not (is_row group user m)) db.members) v
          (delete-IsValid db.groups db.members v group user e (ground arith))
          (decline-Writes user group db)
  ]
]

abbrev activated : ℕ → Member → Member
activated now m = record m { status = Status.active; joined_at = some now }

accept-Writes :
    (now : ℕ) (written : Bool) (user group : ℕ) (db : Db)
    → Writes db
        (update_rows (is_row group user) (activated now) db.members)
        (accept_group_invite now written user group db).1
unfolding accept_group_invite
accept-Writes now written user group db = ground arith

accept-none :
    (now : ℕ) (written : Bool) (user group : ℕ) (db : Db)
    → find_member group user db ≡ none
    → (accept_group_invite now written user group db).1 ≡ db
unfolding accept_group_invite
accept-none now written user group db e = ground arith

pub accept-Valid :
    (now : ℕ) (written : Bool) (user group : ℕ) (db : Db)
    → Valid db
    → Valid (accept_group_invite now written user group db).1
accept-Valid now written user group db v = elim (Option-cases (find_member group user db)) [
  | inl e ↦ rw (accept-none now written user group db e) v
  | inr (r, e) ↦
      let fit = All-find? RowOk (is_row group user) db.members v.rows_ok e in
      Writes-Valid db (accept_group_invite now written user group db).1
        (update_rows (is_row group user) (activated now) db.members) v
        (update-IsValid db.groups db.members v group user (activated now) e refl refl refl
          (ground arith))
        (accept-Writes now written user group db)
]

abbrev with_role : Role → Member → Member
with_role role m = record m { role = role }

set_role-Writes :
    (actor group target : ℕ) (role : PatchRole) (db : Db)
    → Writes db
        (update_rows (is_row group target) (with_role (role_of role)) db.members)
        (update_member_role actor group target role db).1
unfolding update_member_role
set_role-Writes actor group target to_admin db = ground arith
set_role-Writes actor group target to_member db = ground arith

set_role-none :
    (actor group target : ℕ) (role : PatchRole) (db : Db)
    → find_member group target db ≡ none
    → (update_member_role actor group target role db).1 ≡ db
unfolding update_member_role
set_role-none actor group target role db e = ground arith

-- An owner's row and a row that is not active keep their role.
set_role-refused :
    (actor group target : ℕ) (role : PatchRole) (db : Db) {r : Member}
    → find_member group target db ≡ some r
    → (not (is_active r.status) || is_owner r.role) ≡ true
    → (update_member_role actor group target role db).1 ≡ db
unfolding update_member_role
set_role-refused actor group target role db e o = ground arith

pub update_member_role-Valid :
    (actor group target : ℕ) (role : PatchRole) (db : Db)
    → Valid db
    → Valid (update_member_role actor group target role db).1
update_member_role-Valid actor group target role db v =
    elim (Option-cases (find_member group target db)) [
      | inl e ↦ rw (set_role-none actor group target role db e) v
      | inr (r, e) ↦ elim (Bool-cases (not (is_active r.status) || is_owner r.role)) [
        | inl o ↦ rw (set_role-refused actor group target role db e o) v
        | inr o ↦
            let fit = All-find? RowOk (is_row group target) db.members v.rows_ok e in
            Writes-Valid db (update_member_role actor group target role db).1
              (update_rows (is_row group target) (with_role (role_of role)) db.members) v
              (update-IsValid db.groups db.members v group target (with_role (role_of role)) e refl
                refl (set_role_owner role r o) (set_role_fit role r o fit))
              (set_role-Writes actor group target role db)
      ]
    ]
  where
    set_role_owner :
        (p : PatchRole) (r : Member)
        → (not (is_active r.status) || is_owner r.role) ≡ false
        → is_owner (role_of p) ≡ is_owner r.role
    set_role_owner to_admin r o = ground arith
    set_role_owner to_member r o = ground arith

    set_role_fit :
        (p : PatchRole) (r : Member)
        → (not (is_active r.status) || is_owner r.role) ≡ false
        → RowOk r
        → RowOk (with_role (role_of p) r)
    set_role_fit to_admin r o fit = ground arith
    set_role_fit to_member r o fit = ground arith

delete_mine-cases :
    (user group : ℕ) (db : Db)
    → let db' = (delete_mine user group db).1 in
      (db' ≡ db)
      ⊎ ((db'.groups ≡ keep (λ g. not (is_group group g)) db.groups)
          × (db'.members ≡ keep (λ m. not (in_group group m)) db.members))
unfolding delete_mine
delete_mine-cases user group db = ground arith

pub delete_mine-Valid : (user group : ℕ) (db : Db) → Valid db → Valid (delete_mine user group db).1
delete_mine-Valid user group db v = elim (delete_mine-cases user group db) [
  | inl e ↦ rw e v
  | inr (a, b) ↦ rw (a, b) (drop-IsValid db.groups db.members v group)
]
