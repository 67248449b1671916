-- ===== src/Render/Proofs/Pod.antt =====
-- About renderPodTemplate: what the caller's pod template keeps.
use nio.Prelude.{
  String, Bool, true, false, not, ◌&&◌, ◌||◌, List, [], ◌∷◌, Option, none, some, ◌≡◌, ◌∙◌, refl,
  subst, arith, ◌==◌, eq_iff, eq_refl, if◌then◌else◌, Bool-cases, inl, inr,
}
use nio.Api.Core.{Labels, Volume, Container, PodTemplate}
use nio.Render.Config.{build_nix_config}
use nio.Render.Mounts.{
  put_label, put_labels, upsert_volume, upsert_volumes, has_env_var, upsert_env,
  find_or_new_container, set_container,
}
use nio.Render.Pod.{RenderInput, ssh_host_key_opts, uses_ssh, app_name}
use nio.Render.Template.{owned_volumes, render_app, stamped_labels, render_pod_template}
use nio.Render.Proofs.Inits.{IsInitialised, owned-IsInitialised}
use nio.Render.Revision.{composite_revision}

-- The value of a variable, or of a label: the first of the name.
unfoldable pub value_of : List (String × String) → String → Option String
value_of [] name = none
value_of ((n, v) ∷ env) name = if n == name then some v else value_of env name

value-upsert_env :
    (env : List (String × String)) (name value other : String)
    → value_of (upsert_env env name value) other
      ≡ (if name == other then some value else value_of env other)
unfolding value_of upsert_env
value-upsert_env [] name value other = refl
value-upsert_env ((n, v) ∷ env) name value other =
    ground (
      arith,
      eq_iff n name,
      eq_iff n other,
      eq_iff name other,
      value-upsert_env env name value other,
    )

has-upsert_env :
    (env : List (String × String)) (name value other : String)
    → has_env_var (upsert_env env name value) other ≡ (name == other || has_env_var env other)
unfolding has_env_var upsert_env
has-upsert_env [] name value other = refl
has-upsert_env ((n, v) ∷ env) name value other =
    ground
      (arith, eq_iff n name, eq_iff n other, eq_iff name other, has-upsert_env env name value other)

-- Two variables set, the second under a condition.
value-set_both :
    (env : List (String × String)) (config opts name : String) (b : Bool)
    → value_of
        (if b
          then upsert_env (upsert_env env "NIX_CONFIG" config) "NIX_SSHOPTS" opts
          else upsert_env env "NIX_CONFIG" config)
        name
      ≡ (if "NIX_CONFIG" == name
          then some config
          else if "NIX_SSHOPTS" == name
          then (if b then some opts else value_of env "NIX_SSHOPTS")
          else value_of env name)
value-set_both env config opts name true =
    rw
      (
        value-upsert_env (upsert_env env "NIX_CONFIG" config) "NIX_SSHOPTS" opts name,
        value-upsert_env env "NIX_CONFIG" config name,
      )
      (elim (Bool-cases ("NIX_CONFIG" == name)) [
        | inl e ↦ let n : "NIX_CONFIG" ≡ name = (eq_iff "NIX_CONFIG" name).0 e in rw (← n) refl
        | inr e ↦ rw e refl
      ])
value-set_both env config opts name false =
    rw (value-upsert_env env "NIX_CONFIG" config name)
      (ground (arith, eq_iff "NIX_CONFIG" name, eq_iff "NIX_SSHOPTS" name))

-- The variables of the rendered app container, name by name: NIX_CONFIG is the assembled
-- configuration; NIX_SSHOPTS is the caller's if the template sets it, and otherwise, with a
-- builder's key, host-key options that name no identity; every other variable is the caller's.
pub render_app-value :
    (i : RenderInput) (app : Container) (name : String)
    → value_of (render_app i app).env name ≡ (
        if "NIX_CONFIG" == name
        then some (build_nix_config i.store i.builder)
        else if "NIX_SSHOPTS" == name
        then (if not (has_env_var app.env "NIX_SSHOPTS") && uses_ssh i
            then some ssh_host_key_opts
            else value_of app.env "NIX_SSHOPTS")
        else value_of app.env name)
unfolding render_app
render_app-value i app name =
    let config = build_nix_config i.store i.builder in
    rw (has-upsert_env app.env "NIX_CONFIG" config "NIX_SSHOPTS") (
      value-set_both app.env config ssh_host_key_opts name
        (not (has_env_var app.env "NIX_SSHOPTS") && uses_ssh i))

value-put_label :
    (labels : Labels) (key value other : String)
    → value_of (put_label labels key value) other
      ≡ (if key == other then some value else value_of labels other)
unfolding value_of put_label
value-put_label [] key value other = refl
value-put_label ((k, v) ∷ labels) key value other =
    ground (
      arith,
      eq_iff k key,
      eq_iff k other,
      eq_iff key other,
      value-put_label labels key value other,
    )

-- Whether a key is among the labels.
abbrev has_label : Labels → String → Bool
has_label [] key = false
has_label ((k, v) ∷ labels) key = k == key || has_label labels key

value-put_labels :
    (stamped into : Labels) (key : String)
    → has_label stamped key ≡ false
    → value_of (put_labels into stamped) key ≡ value_of into key
unfolding put_labels
value-put_labels [] into key h = refl
value-put_labels ((k, v) ∷ stamped) into key h =
    value-put_labels stamped (put_label into k v) key (ground arith)
    ∙ value-put_label into k v key
    ∙ ground arith

-- The first volume of a name.
unfoldable pub volume_named : List Volume → String → Option Volume
volume_named [] name = none
volume_named (v ∷ vs) name = if v.name == name then some v else volume_named vs name

abbrev pub has_volume : List Volume → String → Bool
has_volume [] name = false
has_volume (v ∷ vs) name = v.name == name || has_volume vs name

pub named-upsert_volume :
    (volumes : List Volume) (v : Volume) (name : String)
    → (v.name == name) ≡ false
    → volume_named (upsert_volume volumes v) name ≡ volume_named volumes name
unfolding volume_named upsert_volume
named-upsert_volume [] v name h = ground arith
named-upsert_volume (x ∷ xs) v name h = ground (
  arith,
  eq_iff x.name v.name,
  eq_iff x.name name,
  eq_iff v.name name,
  named-upsert_volume xs v name h,
)

named-upsert_volumes :
    (owned volumes : List Volume) (name : String)
    → has_volume owned name ≡ false
    → volume_named (upsert_volumes volumes owned) name ≡ volume_named volumes name
unfolding upsert_volumes
named-upsert_volumes [] volumes name h = refl
named-upsert_volumes (v ∷ owned) volumes name h =
    named-upsert_volumes owned (upsert_volume volumes v) name (ground arith)
    ∙ named-upsert_volume volumes v name (ground arith)

-- Another container than the one that is set.
find-set_container :
    (containers : List Container) (c : Container) (name : String)
    → (c.name == name) ≡ false
    → find_or_new_container (set_container containers c) name
      ≡ find_or_new_container containers name
unfolding find_or_new_container set_container
find-set_container [] c name h = rw h refl
find-set_container (x ∷ xs) c name h = ground (
  arith,
  eq_iff x.name c.name,
  eq_iff x.name name,
  eq_iff c.name name,
  find-set_container xs c name h,
)

find-set_same :
    (containers : List Container) (c : Container)
    → find_or_new_container (set_container containers c) c.name ≡ c
unfolding find_or_new_container set_container
find-set_same [] c = rw (eq_refl c.name) refl
find-set_same (x ∷ xs) c = elim (Bool-cases (x.name == c.name)) [
  | inl e ↦ rw (e, eq_refl c.name) refl
  | inr e ↦ rw (e, e) (find-set_same xs c)
]

name-find :
    (containers : List Container) (name : String)
    → (find_or_new_container containers name).name ≡ name
unfolding find_or_new_container
name-find [] name = refl
name-find (x ∷ xs) name = ground (arith, eq_iff x.name name, name-find xs name)

-- The rendered template has the rendered app container under its name, and keeps what the operator
-- does not own: each other container (with its own image, command and mounts), each volume and each
-- label whose name is not one of those that the operator stamps. It initialises with
-- bootstrap, fetch-source, inject-files (when there are files to put in place, and only then) and
-- instantiate, in this order, the last one with the command that builds the workload, and then with
-- the caller's init containers of other names, unchanged and in order.
pub render_pod_template-keeps :
    (sha256_hex : String → String) (i : RenderInput) (base : PodTemplate)
    (container volume label : String)
    → (app_name i.spec == container) ≡ false
    → has_volume (owned_volumes i) volume ≡ false
    → has_label
        (stamped_labels i
          (composite_revision sha256_hex i.resolved_revision i.spec.run i.spec.args))
        label
      ≡ false
    → let pod = render_pod_template sha256_hex i base in
      (find_or_new_container pod.containers container
        ≡ find_or_new_container base.containers container)
      × (find_or_new_container pod.containers (app_name i.spec)
          ≡ render_app i (find_or_new_container base.containers (app_name i.spec)))
      × (volume_named pod.volumes volume ≡ volume_named base.volumes volume)
      × (value_of pod.labels label ≡ value_of base.labels label)
      × IsInitialised i base pod.init_containers
unfolding render_pod_template render_app
render_pod_template-keeps sha256_hex i base container volume label other unowned unstamped =
    let app = render_app i (find_or_new_container base.containers (app_name i.spec)) in
    let named : app.name ≡ app_name i.spec = name-find base.containers (app_name i.spec) in
    (
      find-set_container base.containers app container (rw named other),
      subst (λ n. find_or_new_container (set_container base.containers app) n ≡ app) named
          (find-set_same base.containers app),
      named-upsert_volumes (owned_volumes i) base.volumes volume unowned,
      value-put_labels (stamped_labels i _) base.labels label unstamped,
      owned-IsInitialised i base,
    )
