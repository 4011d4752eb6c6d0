-- ===== src/Expenses/Comments/Threads.antt =====
-- What `createComment` does to the comments.
use qisma_be.Prelude.{
  ℕ, ◌≡◌, refl, sym, ap, ◌∙◌, ◌⊎◌, inl, inr, Bool, true, false, ◌&&◌, ◌||◌, Option, none, some,
  List, [], ◌∷◌, ◌++◌, ◌==◌, arith, find?, All, Option-cases, Bool-cases,
}
use mathlib.Core.Path.{subst}
use qisma_be.Prelude.Result.{Result, ok, err, Result-cases}
use qisma_be.Groups.Rules.{require_active_member}
use qisma_be.Groups.Store.{Member}
use qisma_be.Expenses.Store.{
  Comment, World, Expense, ExpenseError, group, expense_not_found, parent_not_found,
  nested_too_deep, expense_comment_created, is_live, find_live,
}
use qisma_be.Expenses.Comments.{create_comment, check_parent}

-- Whether a comment that is no reply has this id and is on this expense.
abbrev pub has_top : ℕ → ℕ → List Comment → Bool
has_top expense_id id [] = false
has_top expense_id id (c ∷ cs) =
    (c.id == id && (c.expense_id == expense_id && is_live c.parent_comment_id))
    || has_top expense_id id cs

abbrev pub IsAnswer : List Comment → ℕ → Option ℕ → Type 0
IsAnswer cs expense_id none = Unit
IsAnswer cs expense_id (some id) = has_top expense_id id cs ≡ true

-- Each reply answers a comment of the same expense that is not a reply itself.
abbrev pub Threaded : List Comment → Type 0
Threaded cs = All (λ c. IsAnswer cs c.expense_id c.parent_comment_id) cs

has_top-append :
    (e id : ℕ) (cs ds : List Comment) → has_top e id cs ≡ true → has_top e id (cs ++ ds) ≡ true
has_top-append e id [] ds h = absurd (ground arith)
has_top-append e id (c ∷ cs) ds h = ground (arith, h, has_top-append e id cs ds)

IsAnswer-append :
    (cs ds : List Comment) (e : ℕ) (p : Option ℕ) → IsAnswer cs e p → IsAnswer (cs ++ ds) e p
IsAnswer-append cs ds e none h = tt
IsAnswer-append cs ds e (some id) h = has_top-append e id cs ds h

All-snoc :
    (P : Comment → Type 0) (cs : List Comment) (c : Comment)
    → All P cs
    → P c
    → All P (cs ++ (c ∷ []))
All-snoc P [] c h p = (p, tt)
All-snoc P (x ∷ cs) c (q, h) p = (q, All-snoc P cs c h p)

All-map :
    (P Q : Comment → Type 0) (cs : List Comment) → ((c : Comment) → P c → Q c) → All P cs → All Q cs
All-map P Q [] f h = tt
All-map P Q (c ∷ cs) f (p, h) = (f c p, All-map P Q cs f h)

Threaded-snoc :
    (cs : List Comment) (c : Comment)
    → Threaded cs
    → IsAnswer cs c.expense_id c.parent_comment_id
    → Threaded (cs ++ (c ∷ []))
Threaded-snoc cs c h a =
    All-snoc _ cs c
      (All-map _ _ cs (λ d. IsAnswer-append cs (c ∷ []) d.expense_id d.parent_comment_id) h)
      (IsAnswer-append cs (c ∷ []) c.expense_id c.parent_comment_id a)

found-top :
    (e id : ℕ) (cs : List Comment) (p : Comment)
    → find? (λ c. c.id == id && (c.expense_id == e && is_live c.deleted_at)) cs ≡ some p
    → is_live p.parent_comment_id ≡ true
    → has_top e id cs ≡ true
found-top e id [] p h l = absurd (ground arith)
found-top e id (c ∷ cs) p h l =
    elim (Bool-cases (c.id == id && (c.expense_id == e && is_live c.deleted_at))) [
      | inl t ↦
          let same : c ≡ p = ground (arith, t, h) in
          ground (arith, t, ap (λ z. is_live z.parent_comment_id) same, l)
      | inr f ↦ ground (arith, f, h, found-top e id cs p)
    ]

module _ {T : Type 0} (now fresh actor group_id expense_id message : ℕ) (parent : Option ℕ)
    (w : World T) where
  abbrev after : World T
  after = (create_comment now fresh actor group_id expense_id message parent w).1

  abbrev fresh_comment : Comment
  fresh_comment = record {
    id = fresh;
    expense_id = expense_id;
    user_id = actor;
    message = message;
    parent_comment_id = parent;
    created_at = now;
    deleted_at = none;
  }

  -- The two ways in which the call ends.
  data Outcome : Result ExpenseError Comment × World T → Type 0 where
    refused : (e : ExpenseError) → Outcome (err e, w)
    posted :
        (w' : World T)
        → w'.comments ≡ w.comments ++ (fresh_comment ∷ [])
        → IsAnswer w.comments expense_id parent
        → Outcome (ok fresh_comment, w')

  abbrev added : Expense T → World T
  added e = record w {
    comments = w.comments ++ (fresh_comment ∷ []);
    logs =
        w.logs
        ++ (record {
          group_id = e.group_id;
          type = expense_comment_created;
          actor_id = actor;
          entity_id = expense_id;
        }
            ∷ []);
  }

  abbrev called : Result ExpenseError Comment × World T
  called = create_comment now fresh actor group_id expense_id message parent w

  posted_lem :
      (m : Member) (e : Expense T)
      → (require_active_member actor group_id w.groups).0 ≡ ok m
      → find_live expense_id group_id w ≡ some e
      → check_parent expense_id parent w ≡ (ok tt, w)
      → IsAnswer w.comments expense_id parent
      → Outcome called
  unfolding create_comment
  posted_lem m e em ee ec a =
      let same : called ≡ (ok fresh_comment, added e) = ground (arith, em, ee, ec) in
      subst Outcome (sym same) (posted (added e) refl a)

  parent_lem :
      (p : Option ℕ)
      → ((r : ExpenseError) × (check_parent expense_id p w ≡ (err r, w)))
        ⊎ ((check_parent expense_id p w ≡ (ok tt, w)) × IsAnswer w.comments expense_id p)
  unfolding check_parent
  parent_lem none = inr (refl, tt)
  parent_lem (some id) =
      elim (Option-cases (
        find? (λ c. c.id == id && (c.expense_id == expense_id && is_live c.deleted_at))
          w.comments)) [
            | inl e ↦ inl (parent_not_found, ground (arith, e))
            | inr (q, e) ↦ elim (Bool-cases (is_live q.parent_comment_id)) [
              | inl l ↦ inr (ground (arith, e, l), found-top expense_id id w.comments q e l)
              | inr l ↦ inl (nested_too_deep, ground (arith, e, l))
            ]
          ]

  outcome : Outcome called
  unfolding create_comment
  outcome = elim (Result-cases (require_active_member actor group_id w.groups).0) [
    | inr (e, em) ↦
        let same : called ≡ (err (group e), w) = ground (arith, em) in
        subst Outcome (sym same) (refused (group e))
    | inl (m, em) ↦ elim (Option-cases (find_live expense_id group_id w)) [
      | inl ee ↦
          let same : called ≡ (err expense_not_found, w) = ground (arith, em, ee) in
          subst Outcome (sym same) (refused expense_not_found)
      | inr (e, ee) ↦ elim (parent_lem parent) [
        | inl (r, ec) ↦
            let same : called ≡ (err r, w) = ground (arith, em, ee, ec) in
            subst Outcome (sym same) (refused r)
        | inr (ec, a) ↦ posted_lem m e em ee ec a
      ]
    ]
  ]

  Outcome-lem :
      (x : Result ExpenseError Comment × World T)
      → Outcome x
      → ((r : Comment)
          → x.0 ≡ ok r
          → (x.1.comments ≡ w.comments ++ (r ∷ []))
            × (r ≡ fresh_comment)
            × IsAnswer w.comments expense_id parent)
        × ((e : ExpenseError) → x.0 ≡ err e → x.1.comments ≡ w.comments)
        × (Threaded w.comments → Threaded x.1.comments)
  Outcome-lem x (refused e) = (λ r h. absurd (ground arith), λ r h. refl, λ t. t)
  Outcome-lem x (posted w' s a) = (
    λ r h.
        let same : fresh_comment ≡ r = ground (arith, h) in
        (s ∙ ap (λ z. w.comments ++ (z ∷ [])) same, sym same, a),
    λ r h. absurd (ground arith),
    λ t. subst Threaded (sym s) (Threaded-snoc w.comments fresh_comment t a),
  )

  -- A comment that `createComment` returns is the new one and stands at the end of the comments, and
  -- if it is a reply, it answers a comment of the same expense that is no reply; where the call
  -- throws, the comments are as they were. So, if each reply answered such a comment before the
  -- call, that is so after it, however it ends.
  pub create_comment-Threaded :
      ((r : Comment)
        → (create_comment now fresh actor group_id expense_id message parent w).0 ≡ ok r
        → (after.comments ≡ w.comments ++ (r ∷ []))
          × (r ≡ fresh_comment)
          × IsAnswer w.comments expense_id parent)
      × ((e : ExpenseError)
          → (create_comment now fresh actor group_id expense_id message parent w).0 ≡ err e
          → after.comments ≡ w.comments)
      × (Threaded w.comments → Threaded after.comments)
  create_comment-Threaded =
      Outcome-lem (create_comment now fresh actor group_id expense_id message parent w) outcome
