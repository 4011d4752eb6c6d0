-- ===== src/Groups/Invariant.antt =====
-- Any sequence of the handlers of `GroupsService` keeps the invariant.
use qisma_be.Prelude.{ℕ, ◌≡◌, Bool, Option}
use qisma_be.Groups.Store.{Db, Phone}
use qisma_be.Groups.Service.{
  create_for_user, delete_mine, remove_member, update_member_role, PatchRole, accept_group_invite,
  decline_group_invite,
}
use qisma_be.Groups.Invites.{Target, add_member, claim_pending}
use qisma_be.Groups.Rows.{tally}
use qisma_be.Groups.Valid.{is_group}
use qisma_be.Groups.Keeps.{
  Valid, create_for_user-Valid, delete_mine-Valid, remove_member-Valid, update_member_role-Valid,
  accept-Valid, decline-Valid,
}
use qisma_be.Groups.Adds.{HasGroups, add_member-Valid, claim_pending-Valid}

-- A request that a client sends, with its time, and with the id that the database gives.
pub data Request : Type 0 where
  create : (now fresh user name type : ℕ) → Option ℕ → Request
  delete : (user group : ℕ) → Request
  add : (now : ℕ) → Bool → (actor group : ℕ) → Target → Request
  remove : (actor group target : ℕ) → Request
  set_role : (actor group target : ℕ) → PatchRole → Request
  accept : (now : ℕ) → Bool → (user group : ℕ) → Request
  decline : (user group : ℕ) → Request
  claim : (now user : ℕ) → Phone → Request

-- The tables after a request, whether it throws or not.
pub serve : Request → Db → Db
serve (create now fresh user name type avatar) db =
    (create_for_user now fresh user name type avatar db).1
serve (delete user group) db = (delete_mine user group db).1
serve (add now written actor group target) db = (add_member now written actor group target db).1
serve (remove actor group target) db = (remove_member actor group target db).1
serve (set_role actor group target role) db = (update_member_role actor group target role db).1
serve (accept now written user group) db = (accept_group_invite now written user group db).1
serve (decline user group) db = (decline_group_invite user group db).1
serve (claim now user phone) db = (claim_pending now user phone db).1

-- What the database warrants: a new id is not in use, and an invite refers to a group.
abbrev pub Warranted : Request → Db → Type 0
Warranted (create now fresh user name type avatar) db = tally (is_group fresh) db.groups ≡ 0
Warranted (claim now user phone) db = HasGroups db.groups db.invites
Warranted _ db = Unit {0}

-- A run of requests, each warranted where it is served.
pub data Run : Db → Db → Type 0 where
  stop : {db : Db} → Run db db
  step : {db db' : Db} (r : Request) → Warranted r db → Run (serve r db) db' → Run db db'

pub serve-Valid : (r : Request) (db : Db) → Warranted r db → Valid db → Valid (serve r db)
unfolding serve
serve-Valid (create now fresh user name type avatar) db w v =
    create_for_user-Valid now fresh user name type avatar db w v
serve-Valid (delete user group) db w v = delete_mine-Valid user group db v
serve-Valid (add now written actor group t) db w v = add_member-Valid now written actor group t db v
serve-Valid (remove actor group t) db w v = remove_member-Valid actor group t db v
serve-Valid (set_role actor group t role) db w v = update_member_role-Valid actor group t role db v
serve-Valid (accept now written user group) db w v = accept-Valid now written user group db v
serve-Valid (decline user group) db w v = decline-Valid user group db v
serve-Valid (claim now user phone) db w v = claim_pending-Valid now user phone db w v

-- After any run of requests from valid tables, whatever each request throws: no user has two rows
-- in a group, group ids are unique, each group has just one owner and no row is of a group that is
-- gone; an owner is active, a row has a join time just if it is active, and a pending row is a
-- plain member's.
pub Run-Valid : {db db' : Db} → Run db db' → Valid db → Valid db'
Run-Valid stop v = v
Run-Valid (step {db = db} r w run) v = Run-Valid run (serve-Valid r db w v)
