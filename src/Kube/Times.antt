-- ===== src/Kube/Times.antt =====
-- `metav1.Time`, by its seconds; a `*metav1.Time` is an `Option`. Its `Before` and `Equal` are
-- apimachinery's: an interface with the documented laws.
use nio.Prelude.{ℕ, Bool, true, false, Option, none, some, ◌≡◌, refl, ltb, eqb}

pub record Times : Type 0 where
  -- t.Before(u); a nil pointer is before nothing, and nothing is before it.
  pub before : Option ℕ → Option ℕ → Bool
  -- t.Equal(u)
  pub equal : Option ℕ → Option ℕ → Bool
  pub before-some : (t u : ℕ) → before (some t) (some u) ≡ ltb t u
  pub before-nil : (t : Option ℕ) → before t none ≡ false
  pub nil-before : (t : Option ℕ) → before none t ≡ false
  pub equal-some : (t u : ℕ) → equal (some t) (some u) ≡ eqb t u

unfoldable pub before_in : Option ℕ → Option ℕ → Bool
before_in (some t) (some u) = ltb t u
before_in (some t) none = false
before_in none u = false

unfoldable pub equal_in : Option ℕ → Option ℕ → Bool
equal_in none none = true
equal_in (some t) (some u) = eqb t u
equal_in none (some u) = false
equal_in (some t) none = false

pub before_in-nil : (t : Option ℕ) → before_in t none ≡ false
unfolding before_in
before_in-nil none = refl
before_in-nil (some t) = refl

pub before_in-some : (t u : ℕ) → before_in (some t) (some u) ≡ ltb t u
unfolding before_in
before_in-some t u = refl

pub nil-before_in : (t : Option ℕ) → before_in none t ≡ false
unfolding before_in
nil-before_in t = refl

pub equal_in-some : (t u : ℕ) → equal_in (some t) (some u) ≡ eqb t u
unfolding equal_in
equal_in-some t u = refl

abbrev pub unix_times : Times
unix_times = record {
  before = before_in;
  equal = equal_in;
  before-some = before_in-some;
  before-nil = before_in-nil;
  nil-before = nil-before_in;
  equal-some = equal_in-some;
}
