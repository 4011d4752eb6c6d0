-- ===== src/Groups/Adds.antt =====
-- `addMember` and the claim of phone invites keep the invariant.
use qisma_be.Prelude.{
  ℕ, ◌<◌, ◌≡◌, ◌⊎◌, refl, Bool, none, some, List, [], ◌∷◌, ◌++◌, arith, keep, All, Option-cases,
  inl, inr,
}
use qisma_be.Groups.Store.{
  Group, User, Invite, Db, Phone, find_member, find_user, find_group, normalize_invite_phone,
}
use qisma_be.Groups.Invites.{
  Target, by_identifier, by_username, by_user_id, by_nothing, find_identifier, find_username,
  pending_row, invite_phone, invite_user, add_member, claimable, claim_one, claim_each,
  claim_pending,
}
use qisma_be.Groups.Rows.{tally, All-keep}
use qisma_be.Groups.Valid.{is_group, append-IsValid}
use qisma_be.Groups.Keeps.{Valid, find_group-tally}

-- What an invitation does to the tables of the invariant.
abbrev Invites : ℕ → ℕ → ℕ → ℕ → Db → Db → Type 0
Invites now actor group user db db' =
    (db'.groups ≡ db.groups)
    × ((db'.members ≡ db.members)
        ⊎ ((find_member group user db ≡ none)
            × (db'.members ≡ db.members ++ (pending_row now group user (some actor) ∷ []))))

invite_user-Invites :
    (now : ℕ) (written : Bool) (actor group : ℕ) (u : User) (db : Db)
    → Invites now actor group u.id db (invite_user now written actor group u db).1
unfolding invite_user
invite_user-Invites now written actor group u db = ground arith

invite_user-Valid :
    (now : ℕ) (written : Bool) (actor group : ℕ) (u : User) (db : Db)
    → Valid db
    → 0 < tally (is_group group) db.groups
    → Valid (invite_user now written actor group u db).1
invite_user-Valid now written actor group u db v there =
    go (invite_user now written actor group u db).1
      (invite_user-Invites now written actor group u db)
  where
    go : (db' : Db) → Invites now actor group u.id db db' → Valid db'
    go db' (a, inl b) = rw (a, b) v
    go db' (a, inr (e, b)) =
        rw (a, b)
          (append-IsValid db.groups db.members v (pending_row now group u.id (some actor)) e there
            refl refl refl)

invite_phone-tables :
    (now : ℕ) (written : Bool) (actor : ℕ) (account : User) (group : ℕ) (phone : Phone) (db : Db)
    → let db' = (invite_phone now written actor account group phone db).1 in
      (db'.groups ≡ db.groups) × (db'.members ≡ db.members)
unfolding invite_phone
invite_phone-tables now written actor account group phone db = ground arith

-- `addMember` with a user that it finds.
add_member-found :
    (now : ℕ) (written : Bool) (actor group : ℕ) (t : Target) (u : User) (db : Db)
    → let db' = (add_member now written actor group t db).1 in
      (db' ≡ db) ⊎ (db' ≡ (invite_user now written actor group u db).1)
      → Valid db
      → 0 < tally (is_group group) db.groups
      → Valid db'
add_member-found now written actor group t u db e v there = elim e [
  | inl same ↦ rw same v
  | inr new ↦ rw new (invite_user-Valid now written actor group u db v there)
]

add_member-no_group :
    (now : ℕ) (written : Bool) (actor group : ℕ) (t : Target) (db : Db)
    → find_group group db ≡ none
    → (add_member now written actor group t db).1 ≡ db
unfolding add_member
add_member-no_group now written actor group t db e = ground arith

module _ (now : ℕ) (written : Bool) (actor group : ℕ) (db : Db) (v : Valid db)
    (there : 0 < tally (is_group group) db.groups) where
  abbrev state : Target → Db
  state t = (add_member now written actor group t db).1

  by_username-Valid : (name : ℕ) → Valid (state (by_username name))
  unfolding add_member
  by_username-Valid name = elim (Option-cases (find_username name db)) [
    | inl e ↦ let same : state (by_username name) ≡ db = ground arith in rw same v
    | inr (u, e) ↦
        add_member-found now written actor group (by_username name) u db (ground arith) v there
  ]

  by_user_id-Valid : (id : ℕ) → Valid (state (by_user_id id))
  unfolding add_member
  by_user_id-Valid id = elim (Option-cases (find_user id db)) [
    | inl e ↦ let same : state (by_user_id id) ≡ db = ground arith in rw same v
    | inr (u, e) ↦
        add_member-found now written actor group (by_user_id id) u db (ground arith) v there
  ]

  by_identifier-Valid : (raw : Phone) → Valid (state (by_identifier raw))
  unfolding add_member
  by_identifier-Valid raw =
      let phone = normalize_invite_phone raw in
      elim (Option-cases (find_identifier phone db)) [
        | inr (u, e) ↦
            add_member-found now written actor group (by_identifier raw) u db (ground arith) v there
        | inl e ↦ elim (Option-cases (find_user actor db)) [
          | inl e' ↦ let same : state (by_identifier raw) ≡ db = ground arith in rw same v
          | inr (account, e') ↦
              let tables = invite_phone-tables now written actor account group phone db in
              let gs : (state (by_identifier raw)).groups ≡ db.groups = ground arith in
              let ms : (state (by_identifier raw)).members ≡ db.members = ground arith in
              rw (gs, ms) v
        ]
      ]

  by_nothing-Valid : Valid (state by_nothing)
  unfolding add_member
  by_nothing-Valid = let same : state by_nothing ≡ db = ground arith in rw same v

pub add_member-Valid :
    (now : ℕ) (written : Bool) (actor group : ℕ) (t : Target) (db : Db)
    → Valid db
    → Valid (add_member now written actor group t db).1
add_member-Valid now written actor group t db v = elim (Option-cases (find_group group db)) [
  | inl e ↦ rw (add_member-no_group now written actor group t db e) v
  | inr (g, e) ↦ by_target t (find_group-tally group db.groups e)
]
  where
    by_target :
        (s : Target)
        → 0 < tally (is_group group) db.groups
        → Valid (add_member now written actor group s db).1
    by_target (by_identifier raw) there = by_identifier-Valid now written actor group db v there raw
    by_target (by_username name) there = by_username-Valid now written actor group db v there name
    by_target (by_user_id id) there = by_user_id-Valid now written actor group db v there id
    by_target by_nothing there = by_nothing-Valid now written actor group db v there

-- Each invite is of a group that is there: the table refers to the groups.
abbrev pub HasGroups : List Group → List Invite → Type 0
HasGroups gs = All (λ i. 0 < tally (is_group i.group_id) gs)

claim_one-Valid :
    (now user : ℕ) (i : Invite) (db : Db)
    → Valid db
    → 0 < tally (is_group i.group_id) db.groups
    → Valid (claim_one now user i db).1 × ((claim_one now user i db).1.groups ≡ db.groups)
unfolding claim_one
claim_one-Valid now user i db v there = elim (Option-cases (find_member i.group_id user db)) [
  | inr (m, e) ↦ rw (e, claim_one) (v, refl)
  | inl e ↦
      rw (e, claim_one)
        (
          append-IsValid db.groups db.members v (pending_row now i.group_id user i.invited_by) e
              there refl refl refl,
          refl,
        )
]

claim_each-Valid :
    (now user : ℕ) (is : List Invite) (db : Db)
    → Valid db
    → HasGroups db.groups is
    → Valid (claim_each now user is db).1
unfolding claim_each
claim_each-Valid now user [] db v h = v
claim_each-Valid now user (i ∷ is) db v (h, hs) =
    let (v', same) = claim_one-Valid now user i db v h in
    claim_each-Valid now user is (claim_one now user i db).1 v' (rw same hs)

pub claim_pending-Valid :
    (now user : ℕ) (phone : Phone) (db : Db)
    → HasGroups db.groups db.invites
    → Valid db
    → Valid (claim_pending now user phone db).1
unfolding claim_pending
claim_pending-Valid now user phone db h v =
    claim_each-Valid now user (keep (claimable now phone) db.invites) db v
      (All-keep (λ i. 0 < tally (is_group i.group_id) db.groups) (claimable now phone) db.invites h)
