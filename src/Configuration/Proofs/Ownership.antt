-- ===== src/Configuration/Proofs/Ownership.antt =====
-- About machineOwner: the uniqueness gate.
use nio.Prelude.{
  true, false, List, [], ◌∷◌, ◌≡◌, ◌≢◌, refl, sym, ◌∙◌, ◌⊎◌, inl, inr, arith, ltb, eqb, ◌==◌,
  eq_iff, if◌then◌else◌, Bool-cases,
}
use nio.Prelude.Order.{str_lt, str_lt_irrefl, str_lt_trans, str_lt_connex}
use mathlib.Core.List.{Memᴰ}
use nio.Kube.Times.{Times}
use nio.Api.Configuration.{NixosConfiguration}
use nio.Configuration.Owner.{config_earlier, winner_after, winner_from, owner_among}

-- Names are unique among the configurations of a namespace.
abbrev pub UniqueNames : List NixosConfiguration → Type 0
UniqueNames items =
    (a b : NixosConfiguration) → Memᴰ a items → Memᴰ b items → a.name ≡ b.name → a ≡ b

module _ (t : Times) where
  -- config_earlier, by the numbers.
  config_earlier_lem :
      (a b : NixosConfiguration)
      → config_earlier t a b ≡ (
          if eqb a.creation_timestamp b.creation_timestamp
          then str_lt a.name b.name
          else ltb a.creation_timestamp b.creation_timestamp)
  unfolding config_earlier
  config_earlier_lem a b = simp (t.equal-some, t.before-some)

  earlier_trans :
      (a b c : NixosConfiguration)
      → config_earlier t a b ≡ true
      → config_earlier t b c ≡ true
      → config_earlier t a c ≡ true
  earlier_trans a b c h k = ground (
    arith,
    config_earlier_lem a b,
    config_earlier_lem b c,
    config_earlier_lem a c,
    str_lt_trans a.name b.name c.name,
  )

  earlier_irrefl : (a : NixosConfiguration) → config_earlier t a a ≡ false
  earlier_irrefl a = ground (arith, config_earlier_lem a a, str_lt_irrefl a.name)

  earlier_connex :
      (a b : NixosConfiguration)
      → config_earlier t a b ≡ false
      → config_earlier t b a ≡ false
      → a.name ≡ b.name
  earlier_connex a b h k =
      ground (arith, config_earlier_lem a b, config_earlier_lem b a, str_lt_connex a.name b.name)

  after-not_earlier :
      (config winner c d : NixosConfiguration)
      → config_earlier t d winner ≡ false
      → config_earlier t d (winner_after t config winner c) ≡ false
  unfolding winner_after
  after-not_earlier config winner c d h = ground (arith, earlier_trans d c winner)

  from-not_earlier :
      (config winner d : NixosConfiguration) (cs : List NixosConfiguration)
      → config_earlier t d winner ≡ false
      → config_earlier t d (winner_from t config winner cs) ≡ false
  unfolding winner_from
  from-not_earlier config winner d [] h = h
  from-not_earlier config winner d (c ∷ cs) h =
      from-not_earlier config (winner_after t config winner c) d cs
        (after-not_earlier config winner c d h)

  -- A rival for the machine is not earlier than the winner of the step that looks at it.
  after-rival :
      (config winner c : NixosConfiguration)
      → c.spec.machine_ref ≡ config.spec.machine_ref
      → c.name ≢ config.name
      → config_earlier t c (winner_after t config winner c) ≡ false
  unfolding winner_after
  after-rival config winner c m n = ground (
    arith,
    eq_iff c.spec.machine_ref config.spec.machine_ref,
    eq_iff c.name config.name,
    earlier_irrefl c,
  )

  from-rival :
      (config winner c : NixosConfiguration) (cs : List NixosConfiguration)
      → Memᴰ c cs
      → c.spec.machine_ref ≡ config.spec.machine_ref
      → c.name ≢ config.name
      → config_earlier t c (winner_from t config winner cs) ≡ false
  unfolding winner_from
  from-rival config winner c [] h m n = elim h [ ]
  from-rival config winner c (x ∷ xs) (Memᴰ.head e) m n =
      from-not_earlier config (winner_after t config winner x) c xs
        (rw (← e) (after-rival config winner c m n))
  from-rival config winner c (x ∷ xs) (Memᴰ.tail h) m n =
      from-rival config (winner_after t config winner x) c xs h m n

  after-on_machine :
      (config winner c : NixosConfiguration)
      → winner.spec.machine_ref ≡ config.spec.machine_ref
      → (winner_after t config winner c).spec.machine_ref ≡ config.spec.machine_ref
  unfolding winner_after
  after-on_machine config winner c h =
      ground (arith, eq_iff c.spec.machine_ref config.spec.machine_ref)

  from-on_machine :
      (config winner : NixosConfiguration) (cs : List NixosConfiguration)
      → winner.spec.machine_ref ≡ config.spec.machine_ref
      → (winner_from t config winner cs).spec.machine_ref ≡ config.spec.machine_ref
  unfolding winner_from
  from-on_machine config winner [] h = h
  from-on_machine config winner (c ∷ cs) h =
      from-on_machine config (winner_after t config winner c) cs
        (after-on_machine config winner c h)

  after-listed :
      (config winner c : NixosConfiguration)
      → (winner_after t config winner c ≡ winner) ⊎ (winner_after t config winner c ≡ c)
  unfolding winner_after
  after-listed config winner c = ground arith

  from-listed :
      (config winner : NixosConfiguration) (cs all : List NixosConfiguration)
      → ((d : NixosConfiguration) → Memᴰ d cs → Memᴰ d all)
      → Memᴰ winner all
      → Memᴰ (winner_from t config winner cs) all
  unfolding winner_from
  from-listed config winner [] all sub h = h
  from-listed config winner (c ∷ cs) all sub h =
      from-listed config (winner_after t config winner c) cs all (λ d m. sub d (Memᴰ.tail m))
        (elim (after-listed config winner c) [
          | inl e ↦ rw e h
          | inr e ↦ rw e (sub c (Memᴰ.head refl))
        ])

  -- No configuration of the machine is earlier than its owner.
  from-earliest :
      (items : List NixosConfiguration) (a c : NixosConfiguration)
      → UniqueNames items
      → Memᴰ a items
      → Memᴰ c items
      → c.spec.machine_ref ≡ a.spec.machine_ref
      → config_earlier t c (winner_from t a a items) ≡ false
  from-earliest items a c unique ma mc same = elim (Bool-cases (c.name == a.name)) [
    | inl e ↦
        rw (unique c a mc ma ((eq_iff c.name a.name).0 e))
          (from-not_earlier a a a items (earlier_irrefl a))
    | inr n ↦ from-rival a a c items mc same (λ e. cc (n, (eq_iff c.name a.name).1 e))
  ]

  owner_among_same :
      (items : List NixosConfiguration) (a b : NixosConfiguration)
      → UniqueNames items
      → Memᴰ a items
      → Memᴰ b items
      → a.spec.machine_ref ≡ b.spec.machine_ref
      → owner_among t a items ≡ owner_among t b items
  unfolding owner_among
  owner_among_same items a b unique ma mb same =
      earlier_connex (winner_from t a a items) (winner_from t b b items)
        (from-earliest items b _ unique mb (listed a ma) (from-on_machine a a items refl ∙ same))
        (from-earliest items a _ unique ma (listed b mb)
          (from-on_machine b b items refl ∙ sym same))
    where
      listed : (c : NixosConfiguration) → Memᴰ c items → Memᴰ (winner_from t c c items) items
      listed c m = from-listed c c items items (λ d h. h) m

  owner_among_earliest :
      (items : List NixosConfiguration) (a c : NixosConfiguration)
      → UniqueNames items
      → Memᴰ a items
      → Memᴰ c items
      → c.spec.machine_ref ≡ a.spec.machine_ref
      → (w : NixosConfiguration) × (owner_among t a items ≡ w.name)
        × Memᴰ w items
        × (w.spec.machine_ref ≡ a.spec.machine_ref)
        × (config_earlier t c w ≡ false)
  unfolding owner_among
  owner_among_earliest items a c unique ma mc same = (
    winner_from t a a items,
    refl,
    from-listed a a items items (λ d h. h) ma,
    from-on_machine a a items refl,
    from-earliest items a c unique ma mc same,
  )

  -- In a namespace whose configurations have distinct names, two configurations a and b of one
  -- machine compute the same owner: the name of a listed configuration that names the machine too,
  -- and than which b is not earlier.
  pub owner_among_agree :
      (items : List NixosConfiguration) (a b : NixosConfiguration)
      → UniqueNames items
      → Memᴰ a items
      → Memᴰ b items
      → b.spec.machine_ref ≡ a.spec.machine_ref
      → (owner_among t a items ≡ owner_among t b items)
        × ((w : NixosConfiguration) × (owner_among t a items ≡ w.name)
            × Memᴰ w items
            × (w.spec.machine_ref ≡ a.spec.machine_ref)
            × (config_earlier t b w ≡ false))
  owner_among_agree items a b unique ma mb same = (
    owner_among_same items a b unique ma mb (sym same),
    owner_among_earliest items a b unique ma mb same,
  )
