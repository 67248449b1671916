-- ===== src/Cluster/Systems.antt =====
-- checkBuilderCoversMembers: whether the referenced builder provably cannot build a member.
use Prim.Native.Char.{code}
use Prim.Native.String.{◌++◌}
use nio.Prelude.{
  ℕ, ◌+◌, String, Bool, true, false, ◌&&◌, ◌||◌, List, [], ◌∷◌, ◌++◌ as appended, Option, none,
  some, leb, eqb, ◌==◌, if◌then◌else◌,
}
use nio.Prelude.Members.{contains}
use nio.Prelude.Texts.{join}
use nio.Kube.{Message, sprintf, str, other, Result, ok, err}
use nio.Kube.Actions.{◌>>=◌, pure, attempt, lift, get}
use nio.Api.Machine.{Machine}
use nio.Api.Builder.{NixBuilder}
use nio.Api.Cluster.{MemberStatus, NodeGroupStatus}
use nio.Cluster.State.{ClusterStep, NixClusterReconciler, get_builder}

-- The characters of a text, by their numbers.
abbrev codes : String → List ℕ
codes String.[] = []
codes (String.◌∷◌ c s) = code c ∷ codes s

abbrev same_codes : List ℕ → List ℕ → Bool
same_codes [] [] = true
same_codes [] (y ∷ ys) = false
same_codes (x ∷ xs) [] = false
same_codes (x ∷ xs) (y ∷ ys) = eqb x y && same_codes xs ys

-- unicode.IsSpace
unfoldable pub is_space : ℕ → Bool
is_space c =
    (leb 9 c && leb c 13)
    || eqb c 32
    || eqb c 0x85
    || eqb c 0xa0
    || eqb c 0x1680
    || (leb 0x2000 c && leb c 0x200a)
    || eqb c 0x2028
    || eqb c 0x2029
    || eqb c 0x202f
    || eqb c 0x205f
    || eqb c 0x3000

unfoldable pub trim_left : List ℕ → List ℕ
unfolding is_space
trim_left [] = []
trim_left (c ∷ cs) = let rest = trim_left cs in if is_space c then rest else c ∷ cs

-- The characters without the spaces at the end.
unfoldable pub trim_right : List ℕ → List ℕ
unfolding is_space
trim_right [] = []
trim_right (c ∷ cs) = keep (trim_right cs)
  where
    keep : List ℕ → List ℕ
    keep [] = if is_space c then [] else c ∷ []
    keep (d ∷ ds) = c ∷ d ∷ ds

-- strings.ToLower, for the letters of ASCII: no other character becomes one of the letters of the
-- names that the result is compared with.
abbrev lower : ℕ → ℕ
lower c = if leb b'A' c && leb c b'Z' then c + 32 else c

abbrev lower_all : List ℕ → List ℕ
lower_all [] = []
lower_all (c ∷ cs) = lower c ∷ lower_all cs

unfoldable pub nix_system_for_arch : String → String
unfolding trim_left trim_right
nix_system_for_arch arch =
    let name = lower_all (trim_right (trim_left (codes arch))) in
    if same_codes name (codes "x86_64") || same_codes name (codes "amd64")
    then "x86_64-linux"
    else if same_codes name (codes "aarch64") || same_codes name (codes "arm64")
    then "aarch64-linux"
    else ""

-- byName[name]: of machines with one name, the last.
unfoldable pub machine_named : List Machine → String → Option Machine
machine_named [] name = none
machine_named (m ∷ ms) name = later (machine_named ms name)
  where
    later : Option Machine → Option Machine
    later (some last) = some last
    later none = if m.name == name then some m else none

-- What a member needs that is not among the systems, if that is known.
abbrev pub missing_system : List String → Option Machine → Option String
missing_system systems none = none
missing_system systems (some machine) = elim machine.status.architecture [
  | none ↦ none
  | some arch ↦
      let system = nix_system_for_arch arch in
      if system == "" || contains systems system then none else some system
]

abbrev pub with_missing : String → Option String → List String → List String
with_missing member none rest = rest
with_missing member (some system) rest = (member ++ " needs " ++ system) ∷ rest

unfoldable pub member_mismatches : List Machine → List String → List MemberStatus → List String
member_mismatches machines systems [] = []
member_mismatches machines systems (m ∷ ms) =
    with_missing m.name (missing_system systems (machine_named machines m.name))
      (member_mismatches machines systems ms)

-- The members that need a system which the builder does not have, with the system.
unfoldable pub mismatches : List Machine → List String → List NodeGroupStatus → List String
mismatches machines systems [] = []
mismatches machines systems (g ∷ gs) =
    appended (member_mismatches machines systems g.members) (mismatches machines systems gs)

abbrev mismatch_message : NixBuilder → List String → Message
mismatch_message builder found =
    sprintf
      "NixBuilder %q builds only [%s], but %s; converge delegates every build (max-jobs = 0) so there is no local fallback"
      (str builder.name ∷ str (join builder.spec.systems " ") ∷ str (join found ", ") ∷ [])

abbrev pub verdict : NixBuilder → List String → Result (Unit {0})
verdict builder [] = ok tt
verdict builder (x ∷ xs) = err (other (mismatch_message builder (x ∷ xs)))

abbrev pub covered : List Machine → List NodeGroupStatus → Result NixBuilder → Result (Unit {0})
covered machines groups (err e) = ok tt
covered machines groups (ok builder) = elim builder.spec.systems [
  | [] ↦ ok tt
  | s ∷ ss ↦ verdict builder (mismatches machines (s ∷ ss) groups)
]

unfoldable pub check_builder_covers_members :
    NixClusterReconciler → List Machine → List NodeGroupStatus → ClusterStep (Unit {0})
check_builder_covers_members r machines groups = do
  s ← get
  elim s.cluster.spec.builder_ref [
    | none ↦ pure tt
    | some name ↦ (do
      found ← attempt (get_builder r s.cluster.namespace name)
      lift (covered machines groups found))
  ]
