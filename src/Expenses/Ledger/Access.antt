-- ===== src/Expenses/Ledger/Access.antt =====
-- Who may write expenses, and reactions that are sent twice.
use mathlib.Core.Path.{subst}
use qisma_be.Prelude.{
  ℕ, ◌≡◌, sym, ap, ◌∙◌, Bool, true, false, none, some, List, [], ◌∷◌, ◌++◌, arith, find?, inl, inr,
  Option-cases,
}
use qisma_be.Prelude.Result.{ok, err, Result-cases}
use qisma_be.Groups.Store.{
  GroupError, group_not_found, not_group_member, Member, Db, find_member, find_group, is_active,
}
use qisma_be.Groups.Rules.{require_active_member}
use qisma_be.Splits.Decimal.{DecimalLib}
use qisma_be.Expenses.Cursor.{CursorLib}
use qisma_be.Expenses.Store.{Expense, Reaction, World, group, expense_reaction_created}
use qisma_be.Expenses.Ledger.Plan.{Guess, CreateBody, PatchBody, load, create_plan, patch_plan}
use qisma_be.Expenses.Ledger.{
  create_expense, patch_expense, delete_expense, create_reaction, is_reaction, fresh_reaction,
}

find-snoc :
    (p : Reaction → Bool) (rs : List Reaction) (r : Reaction)
    → find? p rs ≡ none
    → p r ≡ true
    → find? p (rs ++ (r ∷ [])) ≡ some r
find-snoc p [] r n t = ground (arith, t)
find-snoc p (x ∷ rs) r n t = ground (arith, n, find-snoc p rs r)

-- The rules refuse whom the table has no active row of.
outsider :
    (actor group_id : ℕ) (db : Db)
    → ((m : Member) → find_member group_id actor db ≡ some m → is_active m.status ≡ false)
    → (x : GroupError) × ((require_active_member actor group_id db).0 ≡ err x)
unfolding require_active_member
outsider actor group_id db hidden = elim (Option-cases (find_group group_id db)) [
  | inl e ↦ (group_not_found, ground arith)
  | inr (g, e) ↦ elim (Option-cases (find_member group_id actor db)) [
    | inl f ↦ (not_group_member, ground arith)
    | inr (m, f) ↦ (not_group_member, ground (arith, hidden m f))
  ]
]

module _ (dates : CursorLib) (lib : DecimalLib) (id_le : ℕ → ℕ → Bool) where
  open lib use {Text}

  refused :
      (now fresh : ℕ) (guess : Guess) (actor group_id id emoji : ℕ)
      (body : CreateBody dates.Text Text) (change : PatchBody dates.Text Text) (w : World Text)
      (x : GroupError)
      → (require_active_member actor group_id w.groups).0 ≡ err x
      → (create_expense dates lib id_le now fresh guess actor group_id body w ≡ (err (group x), w))
        × (patch_expense dates lib id_le now actor group_id id change w ≡ (err (group x), w))
        × (delete_expense dates lib id_le now actor group_id id w ≡ (err (group x), w))
        × (create_reaction dates lib id_le fresh actor group_id id emoji w ≡ (err (group x), w))
  unfolding create_expense patch_expense delete_expense create_reaction create_plan patch_plan load
  refused now fresh guess actor group_id id emoji body change w x h =
      (ground (arith, h), ground (arith, h), ground (arith, h), ground (arith, h))

  -- Who has no row in the group, or only a pending one, cannot create, patch or delete an expense of
  -- it or react to one: each call throws an exception of the membership rules and changes nothing.
  pub writes_need_membership :
      (now fresh : ℕ) (guess : Guess) (actor group_id id emoji : ℕ)
      (body : CreateBody dates.Text Text) (change : PatchBody dates.Text Text) (w : World Text)
      → ((m : Member) → find_member group_id actor w.groups ≡ some m → is_active m.status ≡ false)
      → (x : GroupError) × (create_expense dates lib id_le now fresh guess actor group_id body w
          ≡ (err (group x), w))
        × (patch_expense dates lib id_le now actor group_id id change w ≡ (err (group x), w))
        × (delete_expense dates lib id_le now actor group_id id w ≡ (err (group x), w))
        × (create_reaction dates lib id_le fresh actor group_id id emoji w ≡ (err (group x), w))
  writes_need_membership now fresh guess actor group_id id emoji body change w hidden =
      let (x, e) = outsider actor group_id w.groups hidden in
      let (a, b, c, d) = refused now fresh guess actor group_id id emoji body change w x e in
      (x, a, b, c, d)

  -- The tables after a new reaction.
  abbrev reacted : ℕ → ℕ → ℕ → ℕ → Expense Text → World Text → World Text
  reacted fresh actor id emoji e w = record w {
    reactions = w.reactions ++ (fresh_reaction dates lib id_le fresh id actor emoji ∷ []);
    logs =
        w.logs
        ++ (record {
          group_id = e.group_id;
          type = expense_reaction_created;
          actor_id = actor;
          entity_id = id;
        }
            ∷ []);
  }

  -- A reaction that is sent again is not written again: the second call says that it is not new,
  -- returns the reaction of the first, and changes nothing.
  pub react_again :
      (fresh other actor group_id id emoji : ℕ) (w : World Text) (new : Bool) (r : Reaction)
      → (create_reaction dates lib id_le fresh actor group_id id emoji w).0 ≡ ok (new, r)
      → let w' = (create_reaction dates lib id_le fresh actor group_id id emoji w).1 in
        create_reaction dates lib id_le other actor group_id id emoji w' ≡ (ok (false, r), w')
  unfolding create_reaction load
  react_again fresh other actor group_id id emoji w new r h =
      elim (Result-cases (load w actor group_id id)) [
        | inr (x, l) ↦ absurd (ground (arith, l, h))
        | inl (e, l) ↦
            elim (Option-cases (find? (is_reaction dates lib id_le id actor emoji) w.reactions)) [
              | inr (s, n) ↦ ground (arith, l, n, h)
              | inl n ↦
                  let r1 = fresh_reaction dates lib id_le fresh id actor emoji in
                  let w1 = reacted fresh actor id emoji e w in
                  let first : create_reaction dates lib id_le fresh actor group_id id emoji w
                      ≡ (ok (true, r1), w1) =
                    ground (arith, l, n) in
                  let found : find? (is_reaction dates lib id_le id actor emoji) w1.reactions
                      ≡ some r1 =
                    find-snoc (is_reaction dates lib id_le id actor emoji) w.reactions r1 n
                      (ground arith) in
                  let loaded : load w1 actor group_id id ≡ ok e = l in
                  let second : create_reaction dates lib id_le other actor group_id id emoji w1
                      ≡ (ok (false, r1), w1) =
                    ground (arith, loaded, found) in
                  let same : r1 ≡ r = ground (arith, first, h) in
                  subst
                    (λ z.
                      create_reaction dates lib id_le other actor group_id id emoji z.1
                      ≡ (ok (false, r), z.1))
                    (sym first) (second ∙ ap (λ z. (ok (false, z), w1)) same)
            ]
      ]
