-- ===== src/Render/Mounts.antt =====
-- The helpers on the lists of a pod: upsertVolume, upsertEnv, hasEnvVar, upsertMounts,
-- setContainer, findOrNewContainer, filterOutContainers, and a Go map of labels.
use nio.Prelude.{String, Bool, false, ◌||◌, List, [], ◌∷◌, ◌++◌, ◌==◌, if◌then◌else◌}
use nio.Prelude.Order.{str_lt}
use nio.Prelude.Members.{contains}
use nio.Api.Core.{Labels, Volume, VolumeMount, Container, new_container}

-- labels[k] = v
unfoldable pub put_label : Labels → String → String → Labels
put_label [] key value = (key, value) ∷ []
put_label ((k, v) ∷ labels) key value =
    let rest = put_label labels key value in
    if k == key then (key, value) ∷ labels else (k, v) ∷ rest

-- for k, v := range labels { into[k] = v }
unfoldable pub put_labels : Labels → Labels → Labels
put_labels into [] = into
put_labels into ((k, v) ∷ labels) = put_labels (put_label into k v) labels

unfoldable pub upsert_volume : List Volume → Volume → List Volume
upsert_volume [] v = v ∷ []
upsert_volume (x ∷ xs) v =
    let rest = upsert_volume xs v in if x.name == v.name then v ∷ xs else x ∷ rest

unfoldable pub upsert_volumes : List Volume → List Volume → List Volume
upsert_volumes volumes [] = volumes
upsert_volumes volumes (v ∷ vs) = upsert_volumes (upsert_volume volumes v) vs

unfoldable pub has_env_var : List (String × String) → String → Bool
has_env_var [] name = false
has_env_var ((n, v) ∷ env) name = n == name || has_env_var env name

unfoldable pub upsert_env : List (String × String) → String → String → List (String × String)
upsert_env [] name value = (name, value) ∷ []
upsert_env ((n, v) ∷ env) name value =
    let rest = upsert_env env name value in if n == name then (name, value) ∷ env else (n, v) ∷ rest

unfoldable pub has_mount : List VolumeMount → String → Bool
has_mount [] path = false
has_mount (m ∷ mounts) path = m.mount_path == path || has_mount mounts path

-- mounts[i] = m, where i is the last index with the path.
unfoldable pub replace_mount : List VolumeMount → VolumeMount → List VolumeMount
replace_mount [] m = []
replace_mount (x ∷ xs) m =
    let rest = replace_mount xs m in
    if has_mount xs m.mount_path
    then x ∷ rest
    else if x.mount_path == m.mount_path
    then m ∷ xs
    else x ∷ rest

-- The loop over the new mounts: those at a path of the map replace, the others are appended, and
-- the map of paths stays the one of the mounts before the loop.
unfoldable pub merge_mounts :
    List VolumeMount → List VolumeMount → List VolumeMount → List VolumeMount
merge_mounts mounts added [] = mounts ++ added
merge_mounts mounts added (m ∷ ms) =
    if has_mount mounts m.mount_path
    then merge_mounts (replace_mount mounts m) added ms
    else merge_mounts mounts (added ++ (m ∷ [])) ms

-- sort.SliceStable by the mount path
unfoldable pub insert_mount : VolumeMount → List VolumeMount → List VolumeMount
insert_mount m [] = m ∷ []
insert_mount m (x ∷ xs) =
    let rest = insert_mount m xs in
    if str_lt x.mount_path m.mount_path then x ∷ rest else m ∷ x ∷ xs

unfoldable pub sort_mounts : List VolumeMount → List VolumeMount
sort_mounts [] = []
sort_mounts (m ∷ ms) = insert_mount m (sort_mounts ms)

unfoldable pub upsert_mounts : List VolumeMount → List VolumeMount → List VolumeMount
upsert_mounts mounts add = sort_mounts (merge_mounts mounts [] add)

unfoldable pub find_or_new_container : List Container → String → Container
find_or_new_container [] name = new_container name
find_or_new_container (c ∷ cs) name = if c.name == name then c else find_or_new_container cs name

unfoldable pub set_container : List Container → Container → List Container
set_container [] c = c ∷ []
set_container (x ∷ xs) c =
    let rest = set_container xs c in if x.name == c.name then c ∷ xs else x ∷ rest

unfoldable pub filter_out_containers : List Container → List String → List Container
filter_out_containers [] names = []
filter_out_containers (c ∷ cs) names =
    let rest = filter_out_containers cs names in if contains names c.name then rest else c ∷ rest
