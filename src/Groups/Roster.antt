-- ===== src/Groups/Roster.antt =====
-- The order of the roster, `findByGroupIdSorted`.
use qisma_be.Prelude.{
  ℕ, ◌≡◌, ◌⊎◌, refl, sym, All, ◌≤◌, ◌∙◌, true, false, List, [], ◌∷◌, arith, ◌==◌, keep, inl, inr,
}
use mathlib.Core.List.{Perm}
use qisma_be.Prelude.Sort.{sort, IsSorted, IsPreorder, sort-IsSorted, sort-Perm}
use qisma_be.Prelude.Result.{ok}
use qisma_be.Groups.Store.{Role, owner, admin, member, Member, Db, is_owner, is_admin, is_member}
use qisma_be.Groups.Service.{roster, roster_le, joined}
use qisma_be.Groups.Reads.{list_members}

roster_le-IsPreorder : IsPreorder roster_le
roster_le-IsPreorder = record { trans = λ a b c p q. ground arith; total = λ a b p. ground arith }

-- An owner before an admin before a plain member, and in the same role who joined earlier first.
abbrev pub StandsBefore : Member → Member → Type 0
StandsBefore a b =
    ((is_owner a.role ≡ true) × (is_owner b.role ≡ false))
    ⊎ ((is_admin a.role ≡ true) × (is_member b.role ≡ true))
    ⊎ ((a.role ≡ b.role) × (joined a ≤ joined b))

-- The head so stands before every other row, and so on down the list.
abbrev pub IsRanked : List Member → Type 0
IsRanked [] = Unit
IsRanked (m ∷ ms) = All (StandsBefore m) ms × IsRanked ms

roster_le-StandsBefore : (a b : Member) → roster_le a b ≡ true → StandsBefore a b
roster_le-StandsBefore a b h = go a.role b.role refl refl
  where
    go : (r s : Role) → a.role ≡ r → b.role ≡ s → StandsBefore a b
    go owner owner p q = inr (inr (p ∙ sym q, ground arith))
    go owner admin p q = inl (ground arith, ground arith)
    go owner member p q = inl (ground arith, ground arith)
    go admin owner p q = absurd (ground arith)
    go admin admin p q = inr (inr (p ∙ sym q, ground arith))
    go admin member p q = inr (inl (ground arith, ground arith))
    go member owner p q = absurd (ground arith)
    go member admin p q = absurd (ground arith)
    go member member p q = inr (inr (p ∙ sym q, ground arith))

All-StandsBefore :
    (a : Member) (ms : List Member) → All (λ b. roster_le a b ≡ true) ms → All (StandsBefore a) ms
All-StandsBefore a [] h = tt
All-StandsBefore a (b ∷ ms) (p, h) = (roster_le-StandsBefore a b p, All-StandsBefore a ms h)

sorted-IsRanked : (ms : List Member) → IsSorted roster_le ms → IsRanked ms
sorted-IsRanked [] s = tt
sorted-IsRanked (m ∷ ms) (h, s) = (All-StandsBefore m ms h, sorted-IsRanked ms s)

-- The roster that `listMembers` returns, where it does not throw, holds the rows of the group, each as
-- often as in the table, an owner before the admins and these before the plain members, and in the
-- same role by the time of joining, or of creation where there is none.
pub list_members-IsRanked :
    (user group : ℕ) (db : Db) {rows : List Member}
    → (list_members user group db).0 ≡ ok rows
    → IsRanked rows × Perm rows (keep (λ m. m.group_id == group) db.members)
unfolding list_members roster
list_members-IsRanked user group db {rows} h =
    let here = keep (λ m. m.group_id == group) db.members in
    let e : rows ≡ sort roster_le here = ground arith in
    rw e (
      sorted-IsRanked (sort roster_le here) (sort-IsSorted roster_le roster_le-IsPreorder here),
      sort-Perm roster_le here,
    )
