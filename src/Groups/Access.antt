-- ===== src/Groups/Access.antt =====
-- Who may do what in `GroupsService`, and what a call that succeeds has done.
use qisma_be.Prelude.{
  ℕ, ◌≡◌, ◌≢◌, ◌⊎◌, refl, ap, ◌∙◌, Bool, true, false, not, none, some, List, [], ◌∷◌, arith, find?,
  keep, Option-cases, inl, inr,
}
use qisma_be.Prelude.Result.{ok, err, Result-cases}
use qisma_be.Groups.Store.{
  Status, Group, GroupError, Member, Db, is_owner, is_admin, is_member, is_active, is_row,
  find_member, update_rows,
}
use qisma_be.Groups.Service.{
  remove_member, update_member_role, PatchRole, role_of, accept_group_invite, roster,
}
use qisma_be.Groups.Reads.{list_members, get_group_profile}

find?-keep :
    (p q : Member → Bool) (ms : List Member)
    → ((m : Member) → q m ≡ true → p m ≡ true)
    → find? q (keep p ms) ≡ find? q ms
find?-keep p q [] h = refl
find?-keep p q (m ∷ ms) h = ground (arith, find?-keep p q ms h, h m)

find?-keep-false :
    (p q : Member → Bool) (ms : List Member)
    → ((m : Member) → q m ≡ true → p m ≡ false)
    → find? q (keep p ms) ≡ none
find?-keep-false p q [] h = refl
find?-keep-false p q (m ∷ ms) h = ground (arith, find?-keep-false p q ms h, h m)

remove_member-guards :
    (actor group target : ℕ) (db : Db) {rows : List Member}
    → (remove_member actor group target db).0 ≡ ok rows
    → (a : Member) × (t : Member) × (find_member group actor db ≡ some a)
      × (find_member group target db ≡ some t)
      × (is_active a.status ≡ true)
      × (is_member a.role ≡ false)
      × (is_owner t.role ≡ false)
      × (is_admin t.role ≡ true → (is_owner a.role ≡ true) ⊎ (actor ≡ target))
unfolding remove_member
remove_member-guards actor group target db h = elim (Option-cases (find_member group actor db)) [
  | inl e ↦ absurd (ground arith)
  | inr (a, ea) ↦ elim (Option-cases (find_member group target db)) [
    | inl e ↦ absurd (ground arith)
    | inr (t, et) ↦ (a, t, ea, et, ground arith, ground arith, ground arith, λ adm. ground arith)
  ]
]

remove_member-members :
    (actor group target : ℕ) (db : Db) {rows : List Member}
    → (remove_member actor group target db).0 ≡ ok rows
    → let db' = (remove_member actor group target db).1 in
      (db'.members ≡ keep (λ m. not (is_row group target m)) db.members) × (rows ≡ roster group db')
unfolding remove_member
remove_member-members actor group target db h = (ground arith, ground arith)

remove_member-refused :
    (actor group target : ℕ) (db : Db) {x : GroupError}
    → (remove_member actor group target db).0 ≡ err x
    → (remove_member actor group target db).1 ≡ db
unfolding remove_member
remove_member-refused actor group target db h = ground arith

-- A removal changes the tables, whether it returns or throws, only for an active owner or admin of
-- the group; the target's row is not an owner's, and if it is an admin's then the caller is the
-- owner or that admin. In that case the call returns the roster.
pub remove_member_allowed :
    (actor group target : ℕ) (db : Db)
    → (remove_member actor group target db).1 ≢ db
    → (a : Member) × (t : Member) × (find_member group actor db ≡ some a)
      × (find_member group target db ≡ some t)
      × (is_active a.status ≡ true)
      × (is_member a.role ≡ false)
      × (is_owner t.role ≡ false)
      × (is_admin t.role ≡ true → (is_owner a.role ≡ true) ⊎ (actor ≡ target))
      × ((remove_member actor group target db).0
          ≡ ok (roster group (remove_member actor group target db).1))
remove_member_allowed actor group target db h =
    elim (Result-cases (remove_member actor group target db).0) [
      | inr (x, e) ↦ absurd (h (remove_member-refused actor group target db e))
      | inl (rows, e) ↦
          let (a, t, ea, et, g1, g2, g3, g4) = remove_member-guards actor group target db e in
          let (_, same) = remove_member-members actor group target db e in
          (a, t, ea, et, g1, g2, g3, g4, e ∙ ap ok same)
    ]

-- A removal that succeeds takes the row of the target away, leaves every other row, and returns
-- the roster that is left.
pub remove_member_removes :
    (actor group target : ℕ) (db : Db) {rows : List Member}
    → (remove_member actor group target db).0 ≡ ok rows
    → let db' = (remove_member actor group target db).1 in
      (rows ≡ roster group db')
      × (find_member group target db' ≡ none)
      × ((g u : ℕ) → (g ≢ group) ⊎ (u ≢ target) → find_member g u db' ≡ find_member g u db)
remove_member_removes actor group target db h =
    let (e, same) = remove_member-members actor group target db h in
    let stays = λ (m : Member). not (is_row group target m) in
    (
      same,
      rw e (find?-keep-false stays (is_row group target) db.members (λ m q. ground arith)),
      λ g u ne. rw e (find?-keep stays (is_row g u) db.members (λ m q. ground arith)),
    )

find?-update :
    (p : Member → Bool) (f : Member → Member) (ms : List Member) {r : Member}
    → find? p ms ≡ some r
    → ((m : Member) → p (f m) ≡ p m)
    → find? p (update_rows p f ms) ≡ some (f r)
find?-update p f [] e h = cc
find?-update p f (m ∷ ms) {r} e h = ground (arith, find?-update p f ms {r = r}, h m)

find?-update-other :
    (p q : Member → Bool) (f : Member → Member) (ms : List Member)
    → ((m : Member) → q (f m) ≡ q m)
    → ((m : Member) → q m ≡ true → p m ≡ false)
    → find? q (update_rows p f ms) ≡ find? q ms
find?-update-other p q f [] h k = refl
find?-update-other p q f (m ∷ ms) h k = ground (arith, find?-update-other p q f ms h k, h m, k m)

update_role-guards :
    (actor group target : ℕ) (role : PatchRole) (db : Db) {rows : List Member}
    → (update_member_role actor group target role db).0 ≡ ok rows
    → (a : Member) × (t : Member) × (find_member group actor db ≡ some a)
      × (find_member group target db ≡ some t)
      × (is_active a.status ≡ true)
      × (is_owner a.role ≡ true)
      × (is_active t.status ≡ true)
      × (is_owner t.role ≡ false)
unfolding update_member_role
update_role-guards actor group target role db h = elim (Option-cases (find_member group actor db)) [
  | inl e ↦ absurd (ground arith)
  | inr (a, ea) ↦ elim (Option-cases (find_member group target db)) [
    | inl e ↦ absurd (ground arith)
    | inr (t, et) ↦ (a, t, ea, et, ground arith, ground arith, ground arith, ground arith)
  ]
]

update_role-members :
    (actor group target : ℕ) (role : PatchRole) (db : Db)
    → let db' = (update_member_role actor group target role db).1 in
      db' ≢ db
      → ((update_member_role actor group target role db).0 ≡ ok (roster group db'))
        × (db' ≡ record db {
          members =
              update_rows (is_row group target) (λ m. record m { role = role_of role }) db.members;
        })
unfolding update_member_role
update_role-members actor group target role db h = (ground (arith, h), ground (arith, h))

-- A change of role changes the tables, whether it returns or throws, only at the hand of the active
-- owner, and only where the target's row is active and not an owner's. In that case the target has
-- the role that was asked for and the rest of its row is as it was, the row of any other user or
-- group is as it was, and the call returns the roster.
pub update_member_role_allowed :
    (actor group target : ℕ) (role : PatchRole) (db : Db)
    → (update_member_role actor group target role db).1 ≢ db
    → let (r, db') = update_member_role actor group target role db in
      (a : Member) × (t : Member) × (find_member group actor db ≡ some a)
      × (find_member group target db ≡ some t)
      × (is_active a.status ≡ true)
      × (is_owner a.role ≡ true)
      × (is_active t.status ≡ true)
      × (is_owner t.role ≡ false)
      × (r ≡ ok (roster group db'))
      × (find_member group target db' ≡ some (record t { role = role_of role }))
      × ((g u : ℕ) → (g ≢ group) ⊎ (u ≢ target) → find_member g u db' ≡ find_member g u db)
update_member_role_allowed actor group target role db h =
    let (e, w) = update_role-members actor group target role db h in
    let (a, t, ea, et, g1, g2, g3, g4) = update_role-guards actor group target role db e in
    let f = λ (m : Member). record m { role = role_of role } in
    (
      a,
      t,
      ea,
      et,
      g1,
      g2,
      g3,
      g4,
      e,
      ap (find_member group target) w
          ∙ find?-update (is_row group target) f db.members et (λ m. refl),
      λ g u ne.
          ap (find_member g u) w
          ∙ find?-update-other (is_row group target) (is_row g u) f db.members (λ m. refl)
              (λ m q. ground arith),
    )

abbrev joined_now : ℕ → Member → Member
joined_now now m = record m { status = Status.active; joined_at = some now }

accept-members :
    (now : ℕ) (written : Bool) (user group : ℕ) (db : Db) {rows : List Member}
    → (accept_group_invite now written user group db).0 ≡ ok rows
    → (r : Member) × (find_member group user db ≡ some r)
      × ((is_active r.status ≡ true)
          ⊎ ((accept_group_invite now written user group db).1.members
              ≡ update_rows (is_row group user) (joined_now now) db.members))
unfolding accept_group_invite
accept-members now written user group db h = elim (Option-cases (find_member group user db)) [
  | inl e ↦ absurd (ground arith)
  | inr (r, e) ↦ (r, e, ground arith)
]

accept-active :
    (now : ℕ) (written : Bool) (user group : ℕ) (db : Db) {r : Member}
    → find_member group user db ≡ some r
    → is_active r.status ≡ true
    → (accept_group_invite now written user group db).1 ≡ db
unfolding accept_group_invite
accept-active now written user group db e a = ground arith

-- Acceptance makes the user an active member with the same role and inviter, and doing it again
-- changes nothing.
pub accept_activates :
    (now later : ℕ) (written : Bool) (user group : ℕ) (db : Db) {rows : List Member}
    → (accept_group_invite now written user group db).0 ≡ ok rows
    → let db' = (accept_group_invite now written user group db).1 in
      ((r : Member) × (r' : Member) × (find_member group user db ≡ some r)
        × (find_member group user db' ≡ some r')
        × (is_active r'.status ≡ true)
        × (r'.role ≡ r.role)
        × (r'.added_by ≡ r.added_by))
      × ((accept_group_invite later written user group db').1 ≡ db')
accept_activates now later written user group db h =
    let db' = (accept_group_invite now written user group db).1 in
    let (r, e, how) = accept-members now written user group db h in
    elim how [
      | inl a ↦
          let same = accept-active now written user group db e a in
          let e' : find_member group user db' ≡ some r = rw same e in
          ((r, r, e, e', a, refl, refl), accept-active later written user group db' e' a)
      | inr m ↦
          let e' : find_member group user db' ≡ some (joined_now now r) =
            rw m (find?-update (is_row group user) (joined_now now) db.members e (λ x. refl)) in
          (
            (r, joined_now now r, e, e', refl, refl, refl),
            accept-active later written user group db' e' refl,
          )
    ]

-- The roster and the profile of a group are shown to active members alone: without an active row
-- in the group both calls throw, and neither ever changes the tables.
pub reads_need_membership :
    (user group : ℕ) (db : Db)
    → let hidden = (m : Member) → find_member group user db ≡ some m → is_active m.status ≡ false in
      (hidden
        → ((rows : List Member) → (list_members user group db).0 ≢ ok rows)
          × ((g : Group) → (get_group_profile user group db).0 ≢ ok g))
      × ((list_members user group db).1 ≡ db)
      × ((get_group_profile user group db).1 ≡ db)
unfolding list_members get_group_profile
reads_need_membership user group db = (
  λ hidden. elim (Option-cases (find_member group user db)) [
    | inl e ↦ (λ rows h. ground arith, λ g h. ground arith)
    | inr (m, e) ↦ (λ rows h. ground (arith, hidden m e), λ g h. ground (arith, hidden m e))
  ],
  ground arith,
  ground arith,
)
