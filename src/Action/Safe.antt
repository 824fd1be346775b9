-- ===== src/Action/Safe.antt =====
-- Safety of actions: what keeps an invariant and does nothing that C leaves undefined. One rule for
-- each way to build an action.
use gstd_1_x.Base.{◌≡◌, ◌≢◌, refl, Bool, true, false, if◌then◌else◌}
use gstd_1_x.ReturnCode.{ReturnCode, eok}
use gstd_1_x.Action.{Exit, done, stop, fault, Action, pure, return, continue, ◌>>=◌, check}

-- From a state that has `P`, `m` ends in one that has it, and not in a fault.
pub record Safe {ℓ} {S A : Type ℓ} (P : S → Type ℓ) (m : Action S A) : Type ℓ where
  pub keeps : (s : S) → P s → P (m s).1
  pub defined : (s : S) → P s → (m s).0 ≢ fault

module _ {ℓ} {S : Type ℓ} {P : S → Type ℓ} {A : Type ℓ} where
  pub Safe-pure : (a : A) → Safe P (pure a)
  Safe-pure a = record { keeps = λ s h. h; defined = λ s h e. cc }

  pub Safe-return : (c : ReturnCode) → Safe P (return {A = A} c)
  Safe-return c = record { keeps = λ s h. h; defined = λ s h e. cc }

  pub Safe-if : (b : Bool) (m n : Action S A) → Safe P m → Safe P n → Safe P (if b then m else n)
  Safe-if true m n km kn = km
  Safe-if false m n km kn = kn

module _ {ℓ} {S : Type ℓ} {P : S → Type ℓ} where
  pub Safe-check : (c : ReturnCode) → Safe P (check c)
  Safe-check eok = Safe-pure tt
  Safe-check _ = record { keeps = λ s h. h; defined = λ s h e. cc }

module _ {ℓ} {S : Type ℓ} {P : S → Type ℓ} {A B : Type ℓ} where
  Safe-continue :
      (e : Exit A) (f : A → Action S B)
      → e ≢ fault
      → ((a : A) → e ≡ done a → Safe P (f a))
      → Safe P (continue e f)
  Safe-continue (done a) f h k = k a refl
  Safe-continue (stop c) f h k = Safe-return c
  Safe-continue fault f h k = absurd (h refl)

  -- What follows may use what `m` tells of its value.
  pub Safe-bind_value :
      (Q : A → Type ℓ) (m : Action S A) (f : A → Action S B)
      → Safe P m
      → ((s : S) → P s → (a : A) → (m s).0 ≡ done a → Q a)
      → ((a : A) → Q a → Safe P (f a))
      → Safe P (m >>= f)
  Safe-bind_value Q m f km q kf = record {
    keeps = λ s h. (rest s h).keeps (m s).1 (km.keeps s h);
    defined = λ s h. (rest s h).defined (m s).1 (km.keeps s h);
  }
    where
      rest : (s : S) → P s → Safe P (continue (m s).0 f)
      rest s h = Safe-continue (m s).0 f (km.defined s h) (λ a e. kf a (q s h a e))

  pub Safe-bind :
      (m : Action S A) (f : A → Action S B) → Safe P m → ((a : A) → Safe P (f a)) → Safe P (m >>= f)
  Safe-bind m f km kf = Safe-bind_value (λ a. Unit) m f km (λ s h a e. tt) (λ a u. kf a)

pub ruleset safe_rules = (Safe-pure, Safe-return, Safe-if, Safe-check, Safe-bind)
