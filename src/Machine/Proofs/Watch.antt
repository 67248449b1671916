-- ===== src/Machine/Proofs/Watch.antt =====
-- About findMachinesForSecret.
use nio.Prelude.{
  Bool, true, false, ◌&&◌, ◌||◌, List, [], ◌∷◌, ◌++◌, map, ◌≡◌, refl, arith, ◌==◌, eq_iff, eq_refl,
  Bool-cases, ◌⊎◌, inl, inr,
}
use mathlib.Core.List.{Memᴰ}
use nio.Kube.{ok}
use nio.Api.Machine.{Machine}
use nio.Api.Core.{Secret}
use nio.Machine.State.{MachineReconciler}
use nio.Kube.{Request}
use nio.Machine.Watch.{request_of, is_requested, add_missing, find_machines_for_secret}

-- No two requests name the same machine.
abbrev has : List Request → Request → Bool
has [] q = false
has (p ∷ ps) q = (p.name == q.name && p.namespace == q.namespace) || has ps q

abbrev pub AreDistinct : List Request → Type 0
AreDistinct [] = Unit
AreDistinct (q ∷ qs) = (has qs q ≡ false) × AreDistinct qs

has-append_one :
    (qs : List Request) (p q : Request)
    → has (qs ++ (p ∷ [])) q ≡ (has qs q || (p.name == q.name && p.namespace == q.namespace))
has-append_one [] p q = ground arith
has-append_one (x ∷ qs) p q = ground (arith, has-append_one qs p q)

requested-append_one :
    (qs : List Request) (p : Request) (machine : Machine)
    → is_requested (qs ++ (p ∷ [])) machine
      ≡ (is_requested qs machine || (p.name == machine.name && p.namespace == machine.namespace))
requested-append_one [] p machine = ground arith
requested-append_one (x ∷ qs) p machine = ground (arith, requested-append_one qs p machine)

AreDistinct-append_one :
    (qs : List Request) (machine : Machine)
    → AreDistinct qs
    → is_requested qs machine ≡ false
    → AreDistinct (qs ++ (request_of machine ∷ []))
AreDistinct-append_one [] machine d n = (refl, tt)
AreDistinct-append_one (q ∷ qs) machine (out, d) n = (
  ground (
    arith,
    has-append_one qs (request_of machine) q,
    eq_iff machine.name q.name,
    eq_iff q.name machine.name,
    eq_iff machine.namespace q.namespace,
    eq_iff q.namespace machine.namespace,
  ),
  AreDistinct-append_one qs machine d (ground arith),
)

add_missing-AreDistinct :
    (machines : List Machine) (qs : List Request)
    → AreDistinct qs
    → AreDistinct (add_missing qs machines)
unfolding add_missing
add_missing-AreDistinct [] qs d = d
add_missing-AreDistinct (m ∷ machines) qs d = elim (Bool-cases (is_requested qs m)) [
  | inl e ↦ rw e (add_missing-AreDistinct machines qs d)
  | inr e ↦ rw e (
      add_missing-AreDistinct machines (qs ++ (request_of m ∷ []))
        (AreDistinct-append_one qs m d e))
]

requested-add_missing :
    (machines : List Machine) (qs : List Request) (machine : Machine)
    → is_requested qs machine ≡ true
    → is_requested (add_missing qs machines) machine ≡ true
unfolding add_missing
requested-add_missing [] qs machine h = h
requested-add_missing (m ∷ machines) qs machine h = elim (Bool-cases (is_requested qs m)) [
  | inl e ↦ rw e (requested-add_missing machines qs machine h)
  | inr e ↦ rw e (
      requested-add_missing machines (qs ++ (request_of m ∷ [])) machine
        (rw (requested-append_one qs (request_of m) machine) (ground arith)))
]

member-add_missing :
    (machines : List Machine) (qs : List Request) (machine : Machine)
    → Memᴰ machine machines
    → is_requested (add_missing qs machines) machine ≡ true
unfolding add_missing
member-add_missing [] qs machine i = elim i [ ]
member-add_missing (m ∷ machines) qs machine (Memᴰ.head e) = elim (Bool-cases (is_requested qs m)) [
  | inl h ↦ rw h (requested-add_missing machines qs machine (rw e h))
  | inr h ↦ rw h (
      requested-add_missing machines (qs ++ (request_of m ∷ [])) machine (
        rw (requested-append_one qs (request_of m) machine, e, eq_refl m.name, eq_refl m.namespace)
          (ground arith)))
]
member-add_missing (m ∷ machines) qs machine (Memᴰ.tail i) = elim (Bool-cases (is_requested qs m)) [
  | inl e ↦ rw e (member-add_missing machines qs machine i)
  | inr e ↦ rw e (member-add_missing machines (qs ++ (request_of m ∷ [])) machine i)
]

requested-map :
    (machines : List Machine) (machine : Machine)
    → Memᴰ machine machines
    → is_requested (map request_of machines) machine ≡ true
requested-map [] machine i = elim i [ ]
requested-map (m ∷ machines) machine (Memᴰ.head e) =
    rw (e, eq_refl m.name, eq_refl m.namespace) refl
requested-map (m ∷ machines) machine (Memᴰ.tail i) =
    ground (arith, requested-map machines machine i)

-- When both lists are read and the machines that are listed by the key are distinct, no machine is
-- requested twice, and every machine that the server lists for the secret, by its key or by its
-- password, is requested.
pub find_machines_for_secret-requests :
    (r : MachineReconciler) (secret : Secret) (keys passwords : List Machine) (machine : Machine)
    → r.services.list_by_ssh_key_secret secret.namespace secret.name ≡ ok keys
    → r.services.list_by_ssh_password_secret secret.namespace secret.name ≡ ok passwords
    → AreDistinct (map request_of keys)
    → (Memᴰ machine keys ⊎ Memᴰ machine passwords)
    → AreDistinct (find_machines_for_secret r secret)
      × (is_requested (find_machines_for_secret r secret) machine ≡ true)
unfolding find_machines_for_secret
find_machines_for_secret-requests r secret keys passwords machine listed more distinct member =
    let qs = map request_of keys in
    rw (listed, more)
      (
        add_missing-AreDistinct passwords qs distinct,
        elim member [
          | inl i ↦ requested-add_missing passwords qs machine (requested-map keys machine i)
          | inr i ↦ member-add_missing passwords qs machine i
        ],
      )
