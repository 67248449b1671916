-- ===== src/Render/Proofs/Inits.antt =====
-- About the containers that a rendered pod initialises with.
use nio.Prelude.{String, Bool, List, [], ◌∷◌, ◌++◌, ◌≡◌, refl, ap, if◌then◌else◌}
use nio.Prelude.Members.{contains}
use nio.Api.Core.{Container, PodTemplate}
use nio.Api.Workload.{NixFile}
use nio.Render.Inject.{additional_files_injection}
use nio.Render.Mounts.{filter_out_containers}
use nio.Render.Pod.{RenderInput, instantiate_command}
use nio.Render.Template.{container_of, injection, owned_init_names, owned_inits}

-- The name of an init container of the operator.
abbrev is_operators : String → Bool
is_operators = contains ("bootstrap" ∷ "fetch-source" ∷ "inject-files" ∷ "instantiate" ∷ [])

-- The caller's containers of other names, in order.
abbrev pub callers : List Container → List Container
callers [] = []
callers (c ∷ cs) = let rest = callers cs in if is_operators c.name then rest else c ∷ rest

-- The container that puts files in place, where there are any.
abbrev pub IsInjecting : List NixFile → List Container → Type 0
IsInjecting [] injecting = injecting ≡ []
IsInjecting (f ∷ fs) injecting = (c : Container) × (injecting ≡ c ∷ []) × (c.name ≡ "inject-files")

-- The operator's init containers by their names, and then the caller's others.
pub record IsInitialised (i : RenderInput) (base : PodTemplate) (inits : List Container)
    : Type 0 where
  pub seeding : Container
  pub fetching : Container
  pub injecting : List Container
  pub building : Container
  pub split : inits ≡ seeding ∷ fetching ∷ injecting ++ (building ∷ callers base.init_containers)
  pub seeds : seeding.name ≡ "bootstrap"
  pub fetches : fetching.name ≡ "fetch-source"
  pub injects : IsInjecting i.spec.additional_files injecting
  pub builds : building.name ≡ "instantiate"
  pub built_by : building.command ≡ instantiate_command i

filter-callers :
    (containers : List Container)
    → filter_out_containers containers owned_init_names ≡ callers containers
unfolding filter_out_containers
filter-callers [] = refl
filter-callers (c ∷ cs) = rw (filter-callers cs) refl

injection-IsInjecting :
    (files : List NixFile) (image inline_cm_name nix_config : String)
    → IsInjecting files
        (container_of (additional_files_injection files image inline_cm_name nix_config))
unfolding additional_files_injection
injection-IsInjecting [] image inline_cm_name nix_config = refl
injection-IsInjecting (f ∷ fs) image inline_cm_name nix_config = (_, refl, refl)

append_assoc : (xs ys zs : List Container) → (xs ++ ys) ++ zs ≡ xs ++ (ys ++ zs)
append_assoc [] ys zs = refl
append_assoc (x ∷ xs) ys zs = ap (λ rest. x ∷ rest) (append_assoc xs ys zs)

split_lem :
    (seeding fetching building : Container) (injecting containers : List Container)
    → (seeding ∷ fetching ∷ injecting ++ (building ∷ []))
        ++ filter_out_containers containers owned_init_names
      ≡ seeding ∷ fetching ∷ injecting ++ (building ∷ callers containers)
split_lem seeding fetching building injecting containers = rw (filter-callers containers) (
    ap (λ rest. seeding ∷ fetching ∷ rest)
      (append_assoc injecting (building ∷ []) (callers containers)))

pub owned-IsInitialised :
    (i : RenderInput) (base : PodTemplate)
    → IsInitialised i base
        (owned_inits i ++ filter_out_containers base.init_containers owned_init_names)
unfolding owned_inits
owned-IsInitialised i base = record {
  seeding = _;
  fetching = _;
  injecting = container_of (injection i);
  building = _;
  split = split_lem _ _ _ (container_of (injection i)) base.init_containers;
  seeds = refl;
  fetches = refl;
  injects = injection-IsInjecting i.spec.additional_files _ _ _;
  builds = refl;
  built_by = refl;
}
