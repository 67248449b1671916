-- ===== src/Cluster/Proofs/Filling.antt =====
-- About the steps of selectGroupMembers: what each of them keeps.
use nio.Prelude.{
  ℕ, ◌≤◌, ◌<◌, min, String, Bool, true, false, List, [], ◌∷◌, ◌++◌, ◌≡◌, sym, ◌∙◌, inl, inr, arith,
  ltb, length, take, length-take, length-append, Bool-cases, ◌==◌, eq_iff, eq_refl, subst,
}
use nio.Prelude.Order.{str_lt}
use nio.Prelude.Members.{
  contains, Distinct, IsWithin, contains-append, Distinct-append_one, length_of_within,
}
use nio.Prelude.Sort.{
  sort_strings, contains-sort_strings, length-sort_strings, Distinct-sort_strings, take-IsWithin,
  Distinct-take,
}
use nio.Cluster.Select.{keep_one, keep_previous, drop_extras, max_name, top_up, fill}

-- Distinct names, all of them candidates.
pub record IsChoice (candidates kept : List String) : Type 0 where
  pub distinct : Distinct kept
  pub within : IsWithin kept candidates

pub none_chosen : (candidates : List String) → IsChoice candidates []
none_chosen candidates = record { distinct = tt; within = λ s h. cc }

one_more :
    (candidates kept : List String) (c : String)
    → contains candidates c ≡ true
    → contains kept c ≡ false
    → IsChoice candidates kept
    → IsChoice candidates (kept ++ (c ∷ []))
one_more candidates kept c m n h = record {
  distinct = Distinct-append_one kept c h.distinct n;
  within = λ s k. ground (arith, contains-append kept (c ∷ []) s, h.within s, eq_iff c s);
}

module _ (candidates : List String) where
  pub sorted-IsChoice :
      (kept : List String) → IsChoice candidates kept → IsChoice candidates (sort_strings kept)
  sorted-IsChoice kept h = record {
    distinct = Distinct-sort_strings kept h.distinct;
    within = λ s k. h.within s (sym (contains-sort_strings kept s) ∙ k);
  }

  taken-IsChoice :
      (n : ℕ) (kept : List String) → IsChoice candidates kept → IsChoice candidates (take n kept)
  taken-IsChoice n kept h = record {
    distinct = Distinct-take n kept h.distinct;
    within = λ s k. h.within s (take-IsWithin n kept s k);
  }

  keep_one-IsChoice :
      (kept : List String) (p : String)
      → IsChoice candidates kept
      → IsChoice candidates (keep_one candidates kept p)
  unfolding keep_one
  keep_one-IsChoice kept p h = ground (arith, one_more candidates kept p)

  keep_one-keeps :
      (kept : List String) (p s : String)
      → contains kept s ≡ true
      → contains (keep_one candidates kept p) s ≡ true
  unfolding keep_one
  keep_one-keeps kept p s h = ground (arith, contains-append kept (p ∷ []) s)

  keep_one-has :
      (kept : List String) (p : String)
      → contains candidates p ≡ true
      → contains (keep_one candidates kept p) p ≡ true
  unfolding keep_one
  keep_one-has kept p c = ground (arith, contains-append kept (p ∷ []) p, eq_refl p)

  pub keep_previous-IsChoice :
      (kept prev : List String)
      → IsChoice candidates kept
      → IsChoice candidates (keep_previous candidates kept prev)
  unfolding keep_previous
  keep_previous-IsChoice kept [] h = h
  keep_previous-IsChoice kept (p ∷ prev) h =
      keep_previous-IsChoice (keep_one candidates kept p) prev (keep_one-IsChoice kept p h)

  keep_previous-keeps :
      (kept prev : List String) (s : String)
      → contains kept s ≡ true
      → contains (keep_previous candidates kept prev) s ≡ true
  unfolding keep_previous
  keep_previous-keeps kept [] s h = h
  keep_previous-keeps kept (p ∷ prev) s h =
      keep_previous-keeps (keep_one candidates kept p) prev s (keep_one-keeps kept p s h)

  pub keep_previous-has :
      (kept prev : List String) (s : String)
      → contains prev s ≡ true
      → contains candidates s ≡ true
      → contains (keep_previous candidates kept prev) s ≡ true
  unfolding keep_previous
  keep_previous-has kept [] s h c = cc
  keep_previous-has kept (p ∷ prev) s h c = elim (Bool-cases (p == s)) [
    | inl e ↦ keep_previous-keeps (keep_one candidates kept p) prev s (
        subst (λ x. contains (keep_one candidates kept p) x ≡ true) ((eq_iff p s).0 e)
          (keep_one-has kept p
            (subst (λ x. contains candidates x ≡ true) (sym ((eq_iff p s).0 e)) c)))
    | inr e ↦ keep_previous-has (keep_one candidates kept p) prev s (ground arith) c
  ]

  pub drop_extras-IsChoice :
      (n : ℕ) (kept : List String)
      → IsChoice candidates kept
      → IsChoice candidates (drop_extras n kept)
  unfolding drop_extras
  drop_extras-IsChoice n kept h =
      ground (arith, taken-IsChoice n (sort_strings kept) (sorted-IsChoice kept h))

  pub length-drop_extras :
      (n : ℕ) (kept : List String) → length (drop_extras n kept) ≡ min n (length kept)
  unfolding drop_extras
  length-drop_extras n kept =
      ground (arith, length-take n (sort_strings kept), length-sort_strings kept)

  top_up-IsChoice :
      (n : ℕ) (test : String → Bool) (kept cs : List String)
      → IsWithin cs candidates
      → IsChoice candidates kept
      → IsChoice candidates (top_up n test kept cs)
  unfolding top_up
  top_up-IsChoice n test kept [] w h = h
  top_up-IsChoice n test kept (c ∷ cs) w h = ground (
    arith,
    top_up-IsChoice n test kept cs (λ s k. w s (ground arith)) h,
    top_up-IsChoice n test (kept ++ (c ∷ [])) cs (λ s k. w s (ground arith)),
    one_more candidates kept c (w c (ground (arith, eq_refl c))),
  )

  top_up-bound :
      (n : ℕ) (test : String → Bool) (kept cs : List String)
      → length kept ≤ n
      → length (top_up n test kept cs) ≤ n
  unfolding top_up
  top_up-bound n test kept [] h = h
  top_up-bound n test kept (c ∷ cs) h = ground (
    arith,
    top_up-bound n test kept cs,
    top_up-bound n test (kept ++ (c ∷ [])) cs,
    length-append kept (c ∷ []),
  )

  top_up-keeps :
      (n : ℕ) (test : String → Bool) (kept cs : List String) (s : String)
      → contains kept s ≡ true
      → contains (top_up n test kept cs) s ≡ true
  unfolding top_up
  top_up-keeps n test kept [] s h = h
  top_up-keeps n test kept (c ∷ cs) s h = ground (
    arith,
    top_up-keeps n test kept cs s,
    top_up-keeps n test (kept ++ (c ∷ [])) cs s,
    contains-append kept (c ∷ []) s,
  )

  -- Without a test, every candidate is in, unless there are `n` names.
  top_up-full :
      (n : ℕ) (kept cs : List String) (s : String)
      → length (top_up n (λ c. true) kept cs) < n
      → contains cs s ≡ true
      → contains (top_up n (λ c. true) kept cs) s ≡ true
  unfolding top_up
  top_up-full n kept [] s few h = cc
  top_up-full n kept (c ∷ cs) s few h = ground (
    arith,
    top_up-full n kept cs s,
    top_up-full n (kept ++ (c ∷ [])) cs s,
    top_up-keeps n (λ c. true) kept cs s,
    top_up-keeps n (λ c. true) (kept ++ (c ∷ [])) cs s,
    contains-append kept (c ∷ []) s,
    eq_iff c s,
  )

  pub fill-IsChoice :
      (n : ℕ) (kept : List String)
      → IsChoice candidates kept
      → IsChoice candidates (fill n candidates kept)
  unfolding fill
  fill-IsChoice n kept h = ground (
    arith,
    top_up-IsChoice n (λ c. true) (top_up n (λ c. str_lt (max_name "" kept) c) kept candidates)
        candidates (λ s k. k)
        (top_up-IsChoice n (λ c. str_lt (max_name "" kept) c) kept candidates (λ s k. k) h),
  )

  pub fill-keeps :
      (n : ℕ) (kept : List String) (s : String)
      → contains kept s ≡ true
      → contains (fill n candidates kept) s ≡ true
  unfolding fill
  fill-keeps n kept s h = ground (
    arith,
    top_up-keeps n (λ c. true) (top_up n (λ c. str_lt (max_name "" kept) c) kept candidates)
        candidates s (top_up-keeps n (λ c. str_lt (max_name "" kept) c) kept candidates s h),
  )

  fill-bound : (n : ℕ) (kept : List String) → length kept ≤ n → length (fill n candidates kept) ≤ n
  unfolding fill
  fill-bound n kept h = ground (
    arith,
    top_up-bound n (λ c. true) (top_up n (λ c. str_lt (max_name "" kept) c) kept candidates)
        candidates (top_up-bound n (λ c. str_lt (max_name "" kept) c) kept candidates h),
  )

  fill-full :
      (n : ℕ) (kept : List String)
      → length (fill n candidates kept) < n
      → IsWithin candidates (fill n candidates kept)
  unfolding fill
  fill-full n kept few s h = ground (
    arith,
    top_up-full n (top_up n (λ c. str_lt (max_name "" kept) c) kept candidates) candidates s,
  )

  pub length-fill :
      (n : ℕ) (kept : List String)
      → Distinct candidates
      → IsChoice candidates kept
      → length kept ≤ n
      → length (fill n candidates kept) ≡ min n (length candidates)
  length-fill n kept d h b = elim (Bool-cases (ltb (length (fill n candidates kept)) n)) [
    | inl few ↦ ground (
      arith,
      fill-bound n kept b,
      length_of_within (fill n candidates kept) candidates (fill-IsChoice n kept h).distinct
          (fill-IsChoice n kept h).within,
      length_of_within candidates (fill n candidates kept) d (fill-full n kept (ground arith)),
    )
    | inr full ↦ ground (
      arith,
      fill-bound n kept b,
      length_of_within (fill n candidates kept) candidates (fill-IsChoice n kept h).distinct
          (fill-IsChoice n kept h).within,
    )
  ]
