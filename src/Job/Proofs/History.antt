-- ===== src/Job/Proofs/History.antt =====
-- About gcOldJobs: which run-Jobs it deletes.
use mathlib.Core.List.{Memᴰ}
use nio.Prelude.{
  ℕ, zero, suc, String, true, false, List, [], ◌∷◌, ◌++◌, ◌≡◌, refl, ap, sym, subst, arith, ltb,
  length, take, drop, All, ◌==◌, Bool-cases, inl, inr,
}
use nio.Kube.{Result, ok, err}
use nio.Kube.Keeps.{Keeps, Keeps-bind, Keeps-attempt, keeps_rules}
use nio.Kube.Actions.{attempt}
use nio.Api.Workload.{NixJob}
use nio.Api.Batch.{BatchJob}
use nio.Workload.State.{delete_job, Event, History, WorkloadReconciler, WorkSt, drop_job}
use nio.Job.Run.{list_run_jobs}
use nio.Job.History.{
  is_finished, completed, insert_newest, newest_first, old_jobs, deleted, delete_jobs, gc_old_jobs,
}

-- No job is older than a later one.
abbrev pub IsNotOlder : BatchJob → BatchJob → Type 0
IsNotOlder j k = ltb j.creation_timestamp k.creation_timestamp ≡ false

abbrev Descending : List BatchJob → Type 0
Descending [] = Unit
Descending (j ∷ jobs) = All (IsNotOlder j) jobs × Descending jobs

All-insert :
    (P : BatchJob → Type 0) (j : BatchJob) (jobs : List BatchJob)
    → P j
    → All P jobs
    → All P (insert_newest j jobs)
unfolding insert_newest
All-insert P j [] p h = (p, tt)
All-insert P j (x ∷ xs) p (q, h) =
    elim (Bool-cases (ltb j.creation_timestamp x.creation_timestamp)) [
      | inl e ↦ rw e (q, All-insert P j xs p h)
      | inr e ↦ rw e (p, (q, h))
    ]

All-weaken :
    (j x : BatchJob) (jobs : List BatchJob)
    → IsNotOlder j x
    → All (IsNotOlder x) jobs
    → All (IsNotOlder j) jobs
All-weaken j x [] n h = tt
All-weaken j x (y ∷ ys) n (q, h) = (ground arith, All-weaken j x ys n h)

Descending-insert :
    (j : BatchJob) (jobs : List BatchJob) → Descending jobs → Descending (insert_newest j jobs)
unfolding insert_newest
Descending-insert j [] d = (tt, tt)
Descending-insert j (x ∷ xs) (above, d) =
    elim (Bool-cases (ltb j.creation_timestamp x.creation_timestamp)) [
      | inl e ↦ rw e (All-insert (IsNotOlder x) j xs (ground arith) above, Descending-insert j xs d)
      | inr e ↦ rw e ((e, All-weaken j x xs e above), (above, d))
    ]

Descending-newest_first : (jobs : List BatchJob) → Descending (newest_first jobs)
unfolding newest_first
Descending-newest_first [] = tt
Descending-newest_first (j ∷ jobs) =
    Descending-insert j (newest_first jobs) (Descending-newest_first jobs)

All-newest_first :
    (P : BatchJob → Type 0) (jobs : List BatchJob) → All P jobs → All P (newest_first jobs)
unfolding newest_first
All-newest_first P [] h = tt
All-newest_first P (j ∷ jobs) (p, h) =
    All-insert P j (newest_first jobs) p (All-newest_first P jobs h)

-- A job of a list that is finished and not the current one.
abbrev pub IsPast : String → List BatchJob → BatchJob → Type 0
IsPast current jobs j = Memᴰ j jobs × (is_finished j ≡ true) × ((j.name == current) ≡ false)

All-map :
    (P Q : BatchJob → Type 0) (jobs : List BatchJob)
    → ((j : BatchJob) → P j → Q j)
    → All P jobs
    → All Q jobs
All-map P Q [] f h = tt
All-map P Q (j ∷ jobs) f (p, h) = (f j p, All-map P Q jobs f h)

completed-IsPast :
    (current : String) (jobs : List BatchJob) → All (IsPast current jobs) (completed current jobs)
unfolding completed
completed-IsPast current [] = tt
completed-IsPast current (j ∷ jobs) =
    let rest =
      All-map (IsPast current jobs) (IsPast current (j ∷ jobs)) (completed current jobs)
        (λ k p. (Memᴰ.tail p.0, p.1, p.2)) (completed-IsPast current jobs) in
    elim (Bool-cases (j.name == current)) [
      | inl e ↦ rw e rest
      | inr e ↦ elim (Bool-cases (is_finished j)) [
        | inl f ↦ rw (e, f) ((Memᴰ.head refl, f, e), rest)
        | inr f ↦ rw (e, f) rest
      ]
    ]

All-drop : (P : BatchJob → Type 0) (n : ℕ) (jobs : List BatchJob) → All P jobs → All P (drop n jobs)
All-drop P zero jobs h = h
All-drop P (suc n) [] h = tt
All-drop P (suc n) (j ∷ jobs) (p, h) = All-drop P n jobs h

All-every : (P : BatchJob → Type 0) (jobs : List BatchJob) → ((j : BatchJob) → P j) → All P jobs
All-every P [] f = tt
All-every P (j ∷ jobs) f = (f j, All-every P jobs f)

-- Beyond the first jobs, each has that many before it, none of them older.
abbrev IsBeyond : ℕ → List BatchJob → BatchJob → Type 0
IsBeyond n jobs j = (length (take n jobs) ≡ n) × All (λ k. IsNotOlder k j) (take n jobs)

All-both :
    (P Q : BatchJob → Type 0) (jobs : List BatchJob)
    → All P jobs
    → All Q jobs
    → All (λ j. P j × Q j) jobs
All-both P Q [] h k = tt
All-both P Q (j ∷ jobs) (p, h) (q, k) = ((p, q), All-both P Q jobs h k)

drop-IsBeyond :
    (n : ℕ) (jobs : List BatchJob) → Descending jobs → All (IsBeyond n jobs) (drop n jobs)
drop-IsBeyond zero jobs d = All-every (IsBeyond 0 jobs) jobs (λ j. (refl, tt))
drop-IsBeyond (suc n) [] d = tt
drop-IsBeyond (suc n) (x ∷ xs) (above, d) =
    All-map (λ j. IsBeyond n xs j × IsNotOlder x j) (IsBeyond (suc n) (x ∷ xs)) (drop n xs)
      (λ j p. (ground arith, (p.1, p.0.1)))
      (All-both (IsBeyond n xs) (IsNotOlder x) (drop n xs) (drop-IsBeyond n xs d)
        (All-drop (IsNotOlder x) n xs above))

-- A run-Job that may be deleted: it is one of the list, finished, and not the current one; and of
-- all such run-Jobs, the newest first, it comes after the first three, none of which is older.
pub record IsOld (current : String) (jobs : List BatchJob) (j : BatchJob) : Type 0 where
  pub past : IsPast current jobs j
  pub kept : List BatchJob
  pub old : List BatchJob
  pub split : newest_first (completed current jobs) ≡ kept ++ old
  pub three : length kept ≡ 3
  pub not_kept : Memᴰ j old
  pub newer : All (λ k. IsNotOlder k j) kept
  pub kept_past : All (IsPast current jobs) kept

take-drop : (n : ℕ) (jobs : List BatchJob) → jobs ≡ take n jobs ++ drop n jobs
take-drop zero jobs = refl
take-drop (suc n) [] = refl
take-drop (suc n) (j ∷ jobs) = ap (λ rest. j ∷ rest) (take-drop n jobs)

All-take : (P : BatchJob → Type 0) (n : ℕ) (jobs : List BatchJob) → All P jobs → All P (take n jobs)
All-take P zero jobs h = tt
All-take P (suc n) [] h = tt
All-take P (suc n) (j ∷ jobs) (p, h) = (p, All-take P n jobs h)

All-Mem :
    (P : BatchJob → Type 0) (jobs : List BatchJob)
    → ((j : BatchJob) → Memᴰ j jobs → P j)
    → All P jobs
All-Mem P [] f = tt
All-Mem P (j ∷ jobs) f = (f j (Memᴰ.head refl), All-Mem P jobs (λ k m. f k (Memᴰ.tail m)))

Mem-All :
    (P : BatchJob → Type 0) (jobs : List BatchJob) (j : BatchJob) → All P jobs → Memᴰ j jobs → P j
Mem-All P [] j h m = elim m [ ]
Mem-All P (x ∷ jobs) j (p, h) (Memᴰ.head e) = subst P (sym e) p
Mem-All P (x ∷ jobs) j (p, h) (Memᴰ.tail m) = Mem-All P jobs j h m

old_jobs-IsOld :
    (current : String) (jobs : List BatchJob) → All (IsOld current jobs) (old_jobs current jobs)
unfolding old_jobs
old_jobs-IsOld current jobs =
    let past = newest_first (completed current jobs) in
    let are_past =
      All-newest_first (IsPast current jobs) (completed current jobs)
        (completed-IsPast current jobs) in
    let beyond = drop-IsBeyond 3 past (Descending-newest_first (completed current jobs)) in
    All-Mem (IsOld current jobs) (drop 3 past) (λ j m. record {
      past = Mem-All (IsPast current jobs) (drop 3 past) j (All-drop _ 3 past are_past) m;
      kept = take 3 past;
      old = drop 3 past;
      split = take-drop 3 past;
      three = (Mem-All (IsBeyond 3 past) (drop 3 past) j beyond m).0;
      not_kept = m;
      newer = (Mem-All (IsBeyond 3 past) (drop 3 past) j beyond m).1;
      kept_past = All-take (IsPast current jobs) 3 past are_past;
    })

-- Every deletion of a history is of a job that satisfies the predicate.
abbrev Deletes : (BatchJob → Type 0) → Event NixJob → Type 0
Deletes P e = elim e.call [ delete_job j ↦ P j | _ ↦ Unit {0} ]

abbrev pub DeletesOnly : (BatchJob → Type 0) → History NixJob → Type 0
DeletesOnly P = All (Deletes P)

module _ (r : WorkloadReconciler NixJob) (P : BatchJob → Type 0) where
  abbrev Safe : WorkSt NixJob → Type 0
  Safe s = DeletesOnly P s.history

  Keeps-drop : (j : BatchJob) → P j → Keeps Safe (drop_job r j)
  Keeps-drop j p = record { at = λ s h. ground arith }

  Keeps-deleted : (answer : Result (Unit {0})) → Keeps Safe (deleted r answer)
  Keeps-deleted (ok _) = search keeps_rules
  Keeps-deleted (err e) = search keeps_rules depth 5

  Keeps-delete_jobs : (jobs : List BatchJob) → All P jobs → Keeps Safe (delete_jobs r jobs)
  unfolding delete_jobs
  Keeps-delete_jobs [] h = search keeps_rules
  Keeps-delete_jobs (j ∷ jobs) (p, h) =
      Keeps-bind (attempt (drop_job r j)) _ (Keeps-attempt _ (Keeps-drop j p)) (λ answer.
        Keeps-bind (deleted r answer) _ (Keeps-deleted answer) (λ _. Keeps-delete_jobs jobs h))

-- The collection of old run-Jobs deletes only jobs that the server listed for the NixJob, that have
-- finished and are not the current one; and of all such jobs, put in order with the newest first,
-- only those that come after the first three, none of which is older than the deleted one.
pub gc_old_jobs-DeletesOnly :
    (r : WorkloadReconciler NixJob) (nj : NixJob) (current : String) (s : WorkSt NixJob)
    (jobs : List BatchJob)
    → (list_run_jobs r nj s).0 ≡ ok jobs
    → DeletesOnly (IsOld current jobs) s.history
    → DeletesOnly (IsOld current jobs) (gc_old_jobs r nj current s).1.history
unfolding gc_old_jobs list_run_jobs
gc_old_jobs-DeletesOnly r nj current s jobs listed h = rw listed (
    (Keeps-delete_jobs r (IsOld current jobs) (old_jobs current jobs)
        (old_jobs-IsOld current jobs)).at
      s h)
