-- ===== src/Groups/Tests.antt =====
-- The handlers of `GroupsService` on a group with an owner, an admin and an invited user.
use qisma_be.Prelude.{
  ℕ, ◌≡◌, ◌≢◌, ◌⊎◌, refl, true, false, Option, none, some, List, [], ◌∷◌, arith, ap, length, keep,
  ◌==◌,
}
use mathlib.Core.List.{Perm}
use qisma_be.Prelude.Sort.{sort, insert}
use qisma_be.Prelude.Result.{ok}
use qisma_be.Groups.Store.{
  Role, Status, User, Group, Member, Db, Phone, is_owner, is_admin, is_member, is_active,
  find_member,
}
use qisma_be.Groups.Service.{
  remove_member, update_member_role, to_admin, role_of, role_rank, accept_group_invite, roster,
}
use qisma_be.Groups.Invites.{by_identifier}
use qisma_be.Groups.Reads.{list_members, get_group_profile}
use qisma_be.Groups.Keeps.{Valid}
use qisma_be.Groups.Invariant.{Run, stop, step, serve, Request, Run-Valid}
use qisma_be.Groups.Access.{
  remove_member_allowed, remove_member_removes, update_member_role_allowed, accept_activates,
  reads_need_membership,
}
use qisma_be.Groups.Roster.{list_members-IsRanked, IsRanked}

abbrev user : ℕ → Phone → User
user id phone = record { id = id; identifier = phone; username = none; is_active = true }

abbrev row : ℕ → Role → Status → Option ℕ → Member
row id role status joined = record {
  group_id = 10;
  user_id = id;
  role = role;
  status = status;
  added_by = none;
  joined_at = joined;
  created_at = id;
}

abbrev home : Group
home = record { id = 10; name = 5; type = 1; avatar_url = none; created_by = some 1 }

abbrev guest : Member
guest = row 3 Role.member Status.pending none

abbrev boss : Member
boss = row 1 Role.owner Status.active (some 1)

abbrev helper : Member
helper = row 2 Role.admin Status.active (some 2)

abbrev db : Db
db = record {
  users = user 1 (b'1' ∷ []) ∷ user 2 (b'2' ∷ []) ∷ user 3 (b'3' ∷ []) ∷ [];
  groups = home ∷ [];
  members = guest ∷ helper ∷ boss ∷ [];
  invites = [];
  events = [];
}

shorter : ◌≢◌ {A = ℕ} 2 3
shorter e = absurd (omega arith)

removes : (remove_member 1 10 2 db).0 ≡ ok (boss ∷ guest ∷ [])
unfolding remove_member sort insert
removes = refl

promotes : (update_member_role 1 10 2 to_admin db).0 ≡ ok (boss ∷ helper ∷ guest ∷ [])
unfolding update_member_role sort insert
promotes = refl

abbrev joined : Member
joined = row 3 Role.member Status.active (some 9)

abbrev joined_db : Db
joined_db = record db { members = joined ∷ helper ∷ boss ∷ [] }

-- The rank of user 3.
abbrev rank_of_three : Db → ℕ
rank_of_three d = elim (find_member 10 3 d) [ none ↦ 9 | some m ↦ role_rank m.role ]

other_rank : ◌≢◌ {A = ℕ} 1 2
other_rank e = absurd (omega arith)

accepts : (accept_group_invite 9 true 3 10 db).0 ≡ ok (boss ∷ helper ∷ joined ∷ [])
unfolding accept_group_invite sort insert
accepts = refl

lists : (list_members 1 10 db).0 ≡ ok (boss ∷ helper ∷ guest ∷ [])
unfolding list_members sort insert
lists = refl

db-Valid : Valid db
db-Valid = record {
  unique = λ g u. ground arith;
  group_unique = λ g. ground arith;
  one_owner = λ g. ground arith;
  no_orphan = λ g n. ground arith;
  rows_ok = ground arith;
}

-- An invitation to a phone, an acceptance, a removal by an admin who may not, and a change of role.
abbrev requests : Run db (
    serve (Request.set_role 1 10 3 to_admin) (
      serve (Request.remove 2 10 1) (
        serve
          (Request.accept 9 true 3 10)
          (serve (Request.add 8 true 1 10 (by_identifier (b'7' ∷ []))) db))))
requests = step (Request.add 8 true 1 10 (by_identifier (b'7' ∷ []))) tt (
    step (Request.accept 9 true 3 10) tt
      (step (Request.remove 2 10 1) tt (step (Request.set_role 1 10 3 to_admin) tt stop)))

Run-Valid_example : Valid (
    serve (Request.set_role 1 10 3 to_admin) (
      serve (Request.remove 2 10 1) (
        serve
          (Request.accept 9 true 3 10)
          (serve (Request.add 8 true 1 10 (by_identifier (b'7' ∷ []))) db))))
Run-Valid_example = Run-Valid requests db-Valid

remove_member_allowed_example :
    (a : Member) × (t : Member) × (find_member 10 1 db ≡ some a)
    × (find_member 10 2 db ≡ some t)
    × (is_active a.status ≡ true)
    × (is_member a.role ≡ false)
    × (is_owner t.role ≡ false)
    × (is_admin t.role ≡ true → (is_owner a.role ≡ true) ⊎ (◌≡◌ {A = ℕ} 1 2))
    × ((remove_member 1 10 2 db).0 ≡ ok (roster 10 (remove_member 1 10 2 db).1))
unfolding remove_member
remove_member_allowed_example =
    remove_member_allowed 1 10 2 db (λ e. absurd (shorter (ap (λ d. length d.members) e)))

remove_member_removes_example :
    let db' = (remove_member 1 10 2 db).1 in
    (boss ∷ guest ∷ [] ≡ roster 10 db')
    × (find_member 10 2 db' ≡ none)
    × ((g u : ℕ) → (g ≢ 10) ⊎ (u ≢ 2) → find_member g u db' ≡ find_member g u db)
remove_member_removes_example = remove_member_removes 1 10 2 db removes

update_member_role_allowed_example :
    let (r, db') = update_member_role 1 10 3 to_admin joined_db in
    (a : Member) × (t : Member) × (find_member 10 1 joined_db ≡ some a)
    × (find_member 10 3 joined_db ≡ some t)
    × (is_active a.status ≡ true)
    × (is_owner a.role ≡ true)
    × (is_active t.status ≡ true)
    × (is_owner t.role ≡ false)
    × (r ≡ ok (roster 10 db'))
    × (find_member 10 3 db' ≡ some (record t { role = role_of to_admin }))
    × ((g u : ℕ) → (g ≢ 10) ⊎ (u ≢ 3) → find_member g u db' ≡ find_member g u joined_db)
unfolding update_member_role
update_member_role_allowed_example =
    update_member_role_allowed 1 10 3 to_admin joined_db
      (λ e. absurd (other_rank (ap rank_of_three e)))

accept_activates_example :
    let db' = (accept_group_invite 9 true 3 10 db).1 in
    ((r : Member) × (r' : Member) × (find_member 10 3 db ≡ some r)
      × (find_member 10 3 db' ≡ some r')
      × (is_active r'.status ≡ true)
      × (r'.role ≡ r.role)
      × (r'.added_by ≡ r.added_by))
    × ((accept_group_invite 20 true 3 10 db').1 ≡ db')
accept_activates_example = accept_activates 9 20 true 3 10 db accepts

reads_need_membership_example :
    let hidden = (m : Member) → find_member 10 3 db ≡ some m → is_active m.status ≡ false in
    (hidden
      → ((rows : List Member) → (list_members 3 10 db).0 ≢ ok rows)
        × ((g : Group) → (get_group_profile 3 10 db).0 ≢ ok g))
    × ((list_members 3 10 db).1 ≡ db)
    × ((get_group_profile 3 10 db).1 ≡ db)
reads_need_membership_example = reads_need_membership 3 10 db

list_members-IsRanked_example :
    IsRanked (boss ∷ helper ∷ guest ∷ [])
    × Perm (boss ∷ helper ∷ guest ∷ []) (keep (λ m. m.group_id == 10) db.members)
list_members-IsRanked_example = list_members-IsRanked 1 10 db lists
