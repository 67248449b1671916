-- ===== src/Cluster/Proofs/NodePath.antt =====
-- About renderMemberNodeFile: where the node file of a member is written.
use Prim.Native.Nat.{suc, ◌+◌, ◌≤◌}
use Prim.Native.Char.{Char, code}
use Prim.Native.String.{◌++◌, count}
use Prim.Native.String.compare
use text.Mathlib.Text.{is_eq}
use text.Mathlib.TextLemmas.{
  length-cons, nil-append, cons-append, append-nil, append_assoc, length-append,
}
use nio.Prelude.{
  String, false, ◌||◌, [], ◌∷◌, Option, ◌≡◌, ◌∙◌, refl, sym, ap, arith, ◌==◌, eq_iff, eqb, inl, inr,
  Bool-cases,
}
use nio.Prelude.Texts.{
  prepend, contains_text, elements_from, elements, clean_one, clean_all, joined, is_abs, path_clean,
  path_join,
}
use nio.Kube.{Result, ok, err}
use nio.Api.Workload.{NixFile}
use nio.Cluster.NodeFile.{cluster_nodes_dir, node_file, render_member_node_file}

cons-==-nil : (c : Char) (s : String) → (String.◌∷◌ c s == "") ≡ false
cons-==-nil c s = ap is_eq (compare.cons-nil c s)

append-prepend : (s t : String) → s ++ t ≡ prepend s t
append-prepend String.[] t = nil-append t
append-prepend (String.◌∷◌ c s) t =
    cons-append c s t ∙ ap (λ x. String.◌∷◌ c x) (append-prepend s t)

-- A text without a slash is one element.
elements-one : (e s : String) → contains_text s "/" ≡ false → elements_from e s ≡ (e ++ s) ∷ []
unfolding elements_from contains_text
elements-one e String.[] h = ap (λ x. x ∷ []) (sym (append-nil e))
elements-one e (String.◌∷◌ c s) h =
    let no_slash : eqb (code c) b'/' ≡ false = ground arith in
    rw no_slash (
      elements-one (e ++ String.◌∷◌ c "") s (ground arith)
      ∙ ap (λ x. x ∷ [])
          (append_assoc e (String.◌∷◌ c "") s
            ∙ ap (λ x. e ++ x) (cons-append c "" s ∙ ap (λ x. String.◌∷◌ c x) (nil-append s))))

slash-nix :
    (s : String) → contains_text s "/" ≡ false → contains_text (prepend s ".nix") "/" ≡ false
unfolding contains_text
slash-nix String.[] h = refl
slash-nix (String.◌∷◌ c s) h = ground (arith, slash-nix s)

count-name : (c : Char) (s : String) → count (String.◌∷◌ c s ++ ".nix") ≡ suc (count s) + 4
count-name c s = length-append (String.◌∷◌ c s) ".nix" ∙ ap (λ n. n + 4) (length-cons c s)

not_short : (c : Char) (s t : String) → count t ≤ 4 → ((String.◌∷◌ c s ++ ".nix") == t) ≡ false
not_short c s t short = elim (Bool-cases ((String.◌∷◌ c s ++ ".nix") == t)) [
  | inl e ↦
      absurd
        (omega (arith, count-name c s, short, ap count ((eq_iff (String.◌∷◌ c s ++ ".nix") t).0 e)))
  | inr e ↦ e
]

-- The elements of the joined path, of which each stays.
node-elements :
    (name : String)
    → contains_text name "/" ≡ false
    → elements ("modules/nodes" ++ "/" ++ name) ≡ "modules" ∷ "nodes" ∷ name ∷ []
unfolding elements elements_from
node-elements name h =
    rw (append-prepend "/" name, append-prepend "modules/nodes" (prepend "/" name))
      (ap (λ x. "modules" ∷ "nodes" ∷ x)
        (elements-one "" name h ∙ ap (λ x. x ∷ []) (nil-append name)))

node-clean_all :
    (name : String)
    → (name == "") ≡ false
    → (name == ".") ≡ false
    → (name == "..") ≡ false
    → clean_all false [] ("modules" ∷ "nodes" ∷ name ∷ []) ≡ name ∷ "nodes" ∷ "modules" ∷ []
unfolding clean_all clean_one
node-clean_all name n d u = rw (n, d, u) refl

nodes-==-nil : (t : String) → (("nodes" ++ "/" ++ t) == "") ≡ false
nodes-==-nil t = rw (append-prepend "nodes" ("/" ++ t)) (cons-==-nil _ _)

modules-==-nil : (t : String) → (("modules" ++ "/" ++ t) == "") ≡ false
modules-==-nil t = rw (append-prepend "modules" ("/" ++ t)) (cons-==-nil _ _)

node-joined :
    (name : String)
    → (name == "") ≡ false
    → joined "" (name ∷ "nodes" ∷ "modules" ∷ []) ≡ "modules" ++ "/" ++ ("nodes" ++ "/" ++ name)
unfolding joined
node-joined name n = rw (n, nodes-==-nil name) refl

same_path :
    (name : String) → "modules" ++ "/" ++ ("nodes" ++ "/" ++ name) ≡ "modules/nodes/" ++ name
same_path name =
    rw
      (
        append-prepend "modules/nodes/" name,
        append-prepend "/" name,
        append-prepend "nodes" (prepend "/" name),
        append-prepend "/" (prepend "nodes" (prepend "/" name)),
        append-prepend "modules" (prepend "/" (prepend "nodes" (prepend "/" name))),
      )
      refl

relative : (name : String) → is_abs ("modules/nodes" ++ "/" ++ name) ≡ false
unfolding is_abs
relative name = rw (append-prepend "modules/nodes" ("/" ++ name)) refl

node-path_clean :
    (name : String)
    → contains_text name "/" ≡ false
    → (name == "") ≡ false
    → (name == ".") ≡ false
    → (name == "..") ≡ false
    → path_clean ("modules/nodes" ++ "/" ++ name) ≡ "modules/nodes/" ++ name
unfolding path_clean
node-path_clean name h n d u =
    rw
      (
        relative name,
        node-elements name h,
        node-clean_all name n d u,
        node-joined name n,
        modules-==-nil ("nodes" ++ "/" ++ name),
      )
      (same_path name)

node-path_join :
    (c : Char) (s : String)
    → contains_text (String.◌∷◌ c s) "/" ≡ false
    → path_join cluster_nodes_dir (String.◌∷◌ c s ++ ".nix")
      ≡ "modules/nodes/" ++ (String.◌∷◌ c s ++ ".nix")
unfolding path_join
node-path_join c s h =
    let name = String.◌∷◌ c s ++ ".nix" in
    let whole : contains_text name "/" ≡ false =
      ap (λ x. contains_text x "/") (append-prepend (String.◌∷◌ c s) ".nix")
      ∙ slash-nix (String.◌∷◌ c s) h in
    let n = not_short c s "" (omega arith) in
    rw n (
      node-path_clean name whole n (not_short c s "." (omega arith))
        (not_short c s ".." (omega arith)))

path-node_file :
    (cluster machine host path : String) (values : Option String) (checked : Result (Unit {0}))
    (f : NixFile)
    → node_file cluster machine host values path checked ≡ ok f
    → f.path ≡ path
path-node_file cluster machine host path values (err e) f h = cc
path-node_file cluster machine host path values (ok _) f h = cc

-- A node file that is rendered for a member is written to `modules/nodes/<machine>.nix`, directly
-- in the directory of the nodes, whatever the name of the machine.
pub path-render_member_node_file :
    (cluster machine host : String) (values : Option String) (f : NixFile)
    → render_member_node_file cluster machine host values ≡ ok f
    → f.path ≡ "modules/nodes/" ++ (machine ++ ".nix")
unfolding render_member_node_file
path-render_member_node_file cluster String.[] host values f h = cc
path-render_member_node_file cluster (String.◌∷◌ c s) host values f h =
    let machine = String.◌∷◌ c s in
    elim (Bool-cases (machine == "" || contains_text machine "/" || contains_text machine "..")) [
      | inl e ↦ let refused = rw e at h in cc
      | inr e ↦
          path-node_file cluster machine host _ values _ f (rw e at h)
          ∙ node-path_join c s (ground arith)
    ]
