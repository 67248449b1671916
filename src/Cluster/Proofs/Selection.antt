-- ===== src/Cluster/Proofs/Selection.antt =====
-- About selectGroupMembers: how many members, which, and which of them stay.
use nio.Prelude.{ℕ, ℤ, ◌≤◌, min, String, true, List, [], some, ◌≡◌, ◌∙◌, arith, ltb, length}
use nio.Prelude.Members.{contains, Distinct}
use nio.Prelude.Sort.{contains-sort_strings, length-sort_strings, Ascending, sort_strings-Ascending}
use nio.Cluster.Select.{keep_previous, drop_extras, fill, wanted, select_kept, select_group_members}
use nio.Cluster.Proofs.Filling.{
  IsChoice, none_chosen, sorted-IsChoice, keep_previous-IsChoice, keep_previous-has,
  drop_extras-IsChoice, length-drop_extras, fill-IsChoice, fill-keeps, length-fill,
}

module _ (candidates : List String) where
  -- The names that `fill` starts from.
  abbrev started : ℕ → List String → List String
  started n prev = drop_extras n (keep_previous candidates [] prev)

  started-IsChoice : (n : ℕ) (prev : List String) → IsChoice candidates (started n prev)
  started-IsChoice n prev =
      drop_extras-IsChoice candidates n _
        (keep_previous-IsChoice candidates [] prev (none_chosen candidates))

  started-bound : (n : ℕ) (prev : List String) → length (started n prev) ≤ n
  started-bound n prev =
      omega (arith, length-drop_extras candidates n (keep_previous candidates [] prev))

  -- For distinct candidates, a group with a count gets distinct candidates in ascending order, as
  -- many as the count (none for a negative one) or all of them if they are fewer, and is reported
  -- as underprovisioned exactly if they are fewer.
  pub select_group_members-count :
      (prev : List String) (count : ℤ)
      → Distinct candidates
      → IsChoice candidates (select_group_members candidates prev (some count)).0
        × Ascending (select_group_members candidates prev (some count)).0
        × (length (select_group_members candidates prev (some count)).0
            ≡ min (wanted count) (length candidates))
        × ((select_group_members candidates prev (some count)).1
            ≡ ltb (length candidates) (wanted count))
  unfolding select_group_members select_kept
  select_group_members-count prev count d =
      let n = wanted count in
      let size =
        length-sort_strings (fill n candidates (started n prev))
        ∙ length-fill candidates n (started n prev) d (started-IsChoice n prev)
            (started-bound n prev) in
      (
        sorted-IsChoice candidates _ (fill-IsChoice candidates n _ (started-IsChoice n prev)),
        sort_strings-Ascending _,
        size,
        rw size (ground arith),
      )

  -- A previous member that is still a candidate stays a member, while the previous members that
  -- are still candidates are not more than the count.
  pub select_group_members-sticky :
      (prev : List String) (count : ℤ) (s : String)
      → length (keep_previous candidates [] prev) ≤ wanted count
      → contains prev s ≡ true
      → contains candidates s ≡ true
      → contains (select_group_members candidates prev (some count)).0 s ≡ true
  unfolding select_group_members select_kept drop_extras
  select_group_members-sticky prev count s fits p c =
      contains-sort_strings _ s
      ∙ fill-keeps candidates (wanted count) _ s
          (ground (arith, keep_previous-has candidates [] prev s p c))
