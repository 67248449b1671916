-- ===== src/Cluster/Select.antt =====
-- matchingMachines and selectGroupMembers: which machines are the members of a node group.
use nio.Prelude.{
  ℕ, ℤ, pos, negsuc, String, Bool, true, false, not, ◌&&◌, List, [], ◌∷◌, ◌++◌, Option, none, some,
  ltb, leb, length, take, if◌then◌else◌,
}
use nio.Prelude.Order.{str_lt}
use nio.Prelude.Members.{contains}
use nio.Prelude.Sort.{sort_strings}
use nio.Api.Core.{Labels}
use nio.Api.Machine.{Machine}

-- The loop over the machines; `claimed` lists the keys of the map.
unfoldable pub matching_names : (Labels → Bool) → List String → List Machine → List String
matching_names matches claimed [] = []
matching_names matches claimed (m ∷ ms) =
    let names = matching_names matches claimed ms in
    if contains claimed m.name then names else if matches m.labels then m.name ∷ names else names

unfoldable pub matching_machines : List Machine → (Labels → Bool) → List String → List String
matching_machines machines matches claimed = sort_strings (matching_names matches claimed machines)

-- The loops of `selectGroupMembers` keep `kept` and the map `keptSet` of its names together: the
-- map is `contains kept`.

-- One turn: a previous member that is still a candidate, once.
unfoldable pub keep_one : List String → List String → String → List String
keep_one candidates kept p =
    if contains candidates p && not (contains kept p) then kept ++ (p ∷ []) else kept

unfoldable pub keep_previous : List String → List String → List String → List String
keep_previous candidates kept [] = kept
keep_previous candidates kept (p ∷ prev) =
    keep_previous candidates (keep_one candidates kept p) prev

-- Over count: drop the highest names.
unfoldable pub drop_extras : ℕ → List String → List String
drop_extras n kept = if ltb n (length kept) then take n (sort_strings kept) else kept

-- if k > maxKept { maxKept = k }
unfoldable pub max_name : String → List String → String
max_name max_kept [] = max_kept
max_name max_kept (k ∷ kept) = max_name (if str_lt max_kept k then k else max_kept) kept

-- Add the candidates that pass the test, until there are `n` names.
unfoldable pub top_up : ℕ → (String → Bool) → List String → List String → List String
top_up n test kept [] = kept
top_up n test kept (c ∷ cs) =
    let taken = top_up n test (kept ++ (c ∷ [])) cs in
    let passed_over = top_up n test kept cs in
    if leb n (length kept)
    then kept
    else if not (contains kept c) && test c
    then taken
    else passed_over

-- Upward from the highest member, then lowest first.
unfoldable pub fill : ℕ → List String → List String → List String
fill n candidates kept =
    if ltb (length kept) n
    then top_up n (λ c. true) (top_up n (λ c. str_lt (max_name "" kept) c) kept candidates)
        candidates
    else kept

-- int(*count), and 0 for a negative one.
unfoldable pub wanted : ℤ → ℕ
wanted (pos n) = n
wanted (negsuc n) = 0

unfoldable pub select_kept : ℕ → List String → List String → List String
select_kept n candidates prev =
    sort_strings (fill n candidates (drop_extras n (keep_previous candidates [] prev)))

-- The members, and whether there are fewer of them than the count.
unfoldable pub select_group_members : List String → List String → Option ℤ → List String × Bool
select_group_members candidates prev none = (candidates, false)
select_group_members candidates prev (some count) =
    let kept = select_kept (wanted count) candidates prev in
    (kept, ltb (length kept) (wanted count))
