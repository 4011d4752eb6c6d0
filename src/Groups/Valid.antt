-- ===== src/Groups/Valid.antt =====
-- The invariant of the groups and their members, and that each query keeps it.
use qisma_be.Prelude.{
  ℕ, ◌≤◌, ◌<◌, ◌≡◌, dec_eq, sym, ◌∙◌, Bool, true, false, not, ◌&&◌, none, some, List, [], ◌∷◌, ◌++◌,
  arith, ◌==◌, find?, keep, All, inl, inr,
}
use qisma_be.Groups.Store.{Group, Member, is_owner, is_member, is_active, is_row, update_rows}
use qisma_be.Groups.Rows.{
  tally, tally-append, find?-none, tally-keep, tally-keep-false, tally-keep-le, tally-le, All-keep,
  All-append, tally-delete, tally-update, All-update,
}

abbrev pub is_group : ℕ → Group → Bool
is_group group g = g.id == group

abbrev pub in_group : ℕ → Member → Bool
in_group group m = m.group_id == group

abbrev pub owns : ℕ → Member → Bool
owns group m = m.group_id == group && is_owner m.role

abbrev pub has_joined : Member → Bool
has_joined m = elim m.joined_at [ none ↦ false | some _ ↦ true ]

-- An owner is active; a row has a join time just if it is active; a pending row is a plain member.
abbrev pub RowOk : Member → Type 0
RowOk m =
    (is_owner m.role ≡ true → is_active m.status ≡ true)
    × (has_joined m ≡ is_active m.status)
    × (is_active m.status ≡ false → is_member m.role ≡ true)

-- No user has two rows in a group, group ids are unique, each group has just one owner and no row
-- belongs to a group that is not there, and each row is as `RowOk` says.
pub record IsValid (groups : List Group) (members : List Member) : Type 0 where
  pub unique : (group user : ℕ) → tally (is_row group user) members ≤ 1
  pub group_unique : (group : ℕ) → tally (is_group group) groups ≤ 1
  pub one_owner : (group : ℕ) → tally (owns group) members ≡ tally (is_group group) groups
  pub no_orphan :
      (group : ℕ) → tally (is_group group) groups ≡ 0 → tally (in_group group) members ≡ 0
  pub rows_ok : All RowOk members

module _ (gs : List Group) (ms : List Member) (v : IsValid gs ms) where
  -- A new pending row of a group that is there.
  pub append-IsValid :
      (m : Member)
      → find? (is_row m.group_id m.user_id) ms ≡ none
      → 0 < tally (is_group m.group_id) gs
      → is_member m.role ≡ true
      → is_active m.status ≡ false
      → m.joined_at ≡ none
      → IsValid gs (ms ++ (m ∷ []))
  append-IsValid m e there plain wait fresh = record {
    unique = λ g u. ground (
      arith,
      v.unique g u,
      tally-append (is_row g u) ms (m ∷ []),
      find?-none (is_row m.group_id m.user_id) ms e,
    );
    group_unique = v.group_unique;
    one_owner = λ g. ground (arith, v.one_owner g, tally-append (owns g) ms (m ∷ []));
    no_orphan = λ g n. ground (arith, v.no_orphan g n, tally-append (in_group g) ms (m ∷ []));
    rows_ok = All-append RowOk ms (m ∷ []) v.rows_ok (ground arith);
  }

  -- A row that is not the owner's goes.
  pub delete-IsValid :
      (group user : ℕ) {r : Member}
      → find? (is_row group user) ms ≡ some r
      → is_owner r.role ≡ false
      → IsValid gs (keep (λ m. not (is_row group user m)) ms)
  delete-IsValid group user {r} e free =
      let p = is_row group user in
      record {
        unique = λ g u. omega (arith, v.unique g u, tally-keep-le (λ m. not (p m)) (is_row g u) ms);
        group_unique = v.group_unique;
        one_owner = λ g.
            ground (arith, v.one_owner g, tally-delete p (owns g) ms e (v.unique group user), free);
        no_orphan =
            λ g n. omega (arith, v.no_orphan g n, tally-keep-le (λ m. not (p m)) (in_group g) ms);
        rows_ok = All-keep RowOk (λ m. not (p m)) ms v.rows_ok;
      }

  -- A row changes into one of the same group and user, that is fit and no more an owner's.
  pub update-IsValid :
      (group user : ℕ) (f : Member → Member) {r : Member}
      → find? (is_row group user) ms ≡ some r
      → (f r).group_id ≡ r.group_id
      → (f r).user_id ≡ r.user_id
      → is_owner (f r).role ≡ is_owner r.role
      → RowOk (f r)
      → IsValid gs (update_rows (is_row group user) f ms)
  update-IsValid group user f {r} e eg eu eo fit =
      let p = is_row group user in
      let changed = λ (q : Member → Bool). tally-update p f q ms e (v.unique group user) in
      record {
        unique = λ g u. ground (arith, v.unique g u, changed (is_row g u), eg, eu);
        group_unique = v.group_unique;
        one_owner = λ g. ground (arith, v.one_owner g, changed (owns g), eg, eo);
        no_orphan = λ g n. ground (arith, v.no_orphan g n, changed (in_group g), eg);
        rows_ok = All-update p f RowOk ms e (v.unique group user) v.rows_ok fit;
      }

  -- A new group with its owner.
  pub create-IsValid :
      (g : Group) (m : Member)
      → tally (is_group g.id) gs ≡ 0
      → m.group_id ≡ g.id
      → is_owner m.role ≡ true
      → is_active m.status ≡ true
      → has_joined m ≡ true
      → IsValid (gs ++ (g ∷ [])) (ms ++ (m ∷ []))
  create-IsValid g m free eg own act join =
      let none_there = v.no_orphan g.id free in
      record {
        unique = λ h u. ground (
          arith,
          v.unique h u,
          tally-append (is_row h u) ms (m ∷ []),
          tally-le (in_group g.id) (is_row g.id u) ms (λ x q. ground arith),
        );
        group_unique = λ h. ground (arith, v.group_unique h, tally-append (is_group h) gs (g ∷ []));
        one_owner = λ h. ground (
          arith,
          v.one_owner h,
          tally-append (owns h) ms (m ∷ []),
          tally-append (is_group h) gs (g ∷ []),
        );
        no_orphan = λ h n. ground (
          arith,
          v.no_orphan h,
          tally-append (in_group h) ms (m ∷ []),
          tally-append (is_group h) gs (g ∷ []),
        );
        rows_ok = All-append RowOk ms (m ∷ []) v.rows_ok (ground arith);
      }

  -- A group goes with its rows.
  pub drop-IsValid :
      (group : ℕ)
      → IsValid (keep (λ g. not (is_group group g)) gs) (keep (λ m. not (in_group group m)) ms)
  drop-IsValid group =
      let stay_m = λ (m : Member). not (in_group group m) in
      let stay_g = λ (g : Group). not (is_group group g) in
      record {
        unique = λ h u. omega (arith, v.unique h u, tally-keep-le stay_m (is_row h u) ms);
        group_unique = λ h. omega (arith, v.group_unique h, tally-keep-le stay_g (is_group h) gs);
        one_owner = λ h. elim (dec_eq h group) [
          | inl e ↦
              tally-keep-false stay_m (owns h) ms (λ m q. ground arith)
              ∙ sym (tally-keep-false stay_g (is_group h) gs (λ g q. ground arith))
          | inr ne ↦
              tally-keep stay_m (owns h) ms (λ m q. ground arith)
              ∙ v.one_owner h
              ∙ sym (tally-keep stay_g (is_group h) gs (λ g q. ground arith))
        ];
        no_orphan = λ h n. elim (dec_eq h group) [
          | inl e ↦ tally-keep-false stay_m (in_group h) ms (λ m q. ground arith)
          | inr ne ↦
              tally-keep stay_m (in_group h) ms (λ m q. ground arith)
              ∙ v.no_orphan h (sym (tally-keep stay_g (is_group h) gs (λ g q. ground arith)) ∙ n)
        ];
        rows_ok = All-keep RowOk stay_m ms v.rows_ok;
      }
