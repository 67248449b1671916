-- ===== src/Kube/Conditions.antt =====
-- Status conditions. `meta.SetStatusCondition`, `FindStatusCondition` and `RemoveStatusCondition`
-- are apimachinery's: an interface with the documented laws. `LastTransitionTime`, which that
-- library maintains and the controllers never read, is left out.
use nio.Prelude.{
  ℕ, String, Bool, true, false, List, [], ◌∷◌, Option, none, some, ◌≡◌, refl, arith, ◌==◌, eq_iff,
  if◌then◌else◌,
}
use nio.Kube.Messages.{Message}

pub data ConditionStatus : Type 0 where
  condition_true condition_false condition_unknown : ConditionStatus

-- metav1.Condition
pub record Condition : Type 0 where
  pub type : String
  pub status : ConditionStatus
  pub observed_generation : ℕ
  pub reason : String
  pub message : Message

-- Of a condition: whether it is there, and its status is True.
abbrev pub holds : Option Condition → Bool
holds none = false
holds (some c) = elim c.status [ condition_true ↦ true | _ ↦ false ]

pub record Meta : Type 0 where
  pub find_status_condition : List Condition → String → Option Condition
  pub set_status_condition : List Condition → Condition → List Condition
  pub remove_status_condition : List Condition → String → List Condition
  -- Setting a condition updates the one of its type, or adds it, and leaves the others alone.
  pub find-set :
      (cs : List Condition) (c : Condition) (t : String)
      → find_status_condition (set_status_condition cs c) t
        ≡ (if c.type == t then some c else find_status_condition cs t)
  -- Removing a type removes it, and leaves the others alone.
  pub find-remove :
      (cs : List Condition) (r t : String)
      → find_status_condition (remove_status_condition cs r) t
        ≡ (if r == t then none else find_status_condition cs t)

-- An implementation over the slice, which shows that the laws can be met.
unfoldable pub find_in : List Condition → String → Option Condition
find_in [] t = none
find_in (c ∷ cs) t = if c.type == t then some c else find_in cs t

unfoldable pub set_in : List Condition → Condition → List Condition
set_in [] c = c ∷ []
set_in (d ∷ cs) c = if d.type == c.type then c ∷ cs else d ∷ set_in cs c

unfoldable pub remove_in : List Condition → String → List Condition
remove_in [] t = []
remove_in (c ∷ cs) t = let rest = remove_in cs t in if c.type == t then rest else c ∷ rest

pub find_in-set_in :
    (cs : List Condition) (c : Condition) (t : String)
    → find_in (set_in cs c) t ≡ (if c.type == t then some c else find_in cs t)
unfolding find_in set_in
find_in-set_in [] c t = refl
find_in-set_in (d ∷ cs) c t =
    ground (arith, eq_iff d.type c.type, eq_iff d.type t, eq_iff c.type t, find_in-set_in cs c t)

pub find_in-remove_in :
    (cs : List Condition) (r t : String)
    → find_in (remove_in cs r) t ≡ (if r == t then none else find_in cs t)
unfolding find_in remove_in
find_in-remove_in [] r t = ground arith
find_in-remove_in (c ∷ cs) r t =
    ground (arith, eq_iff c.type r, eq_iff c.type t, eq_iff r t, find_in-remove_in cs r t)

abbrev pub slice_meta : Meta
slice_meta = record {
  find_status_condition = find_in;
  set_status_condition = set_in;
  remove_status_condition = remove_in;
  find-set = find_in-set_in;
  find-remove = find_in-remove_in;
}
