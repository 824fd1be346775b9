-- ===== src/Action.antt =====
-- The operations of the program as actions on a state. An action ends in one of three ways: it goes
-- on with a value, it returns early with a code, or it does what C leaves undefined. What it has
-- written before stays written.
pub mod Safe
use gstd_1_x.Base.{◌≡◌, refl, Option, none, some}
use gstd_1_x.ReturnCode.{ReturnCode, eok}

pub data Exit {ℓ} (A : Type ℓ) : Type ℓ where
  done : A → Exit A
  stop : ReturnCode → Exit A
  fault : Exit A

abbrev pub Action {ℓ} : Type ℓ → Type ℓ → Type ℓ
Action S A = S → Exit A × S

module _ {ℓ} {S A : Type ℓ} where
  abbrev pub pure : A → Action S A
  pure a s = (done a, s)

  -- return code;
  abbrev pub return : ReturnCode → Action S A
  return c s = (stop c, s)

  abbrev pub undefined : Action S A
  undefined s = (fault, s)

module _ {ℓ} {S A B : Type ℓ} where
  abbrev pub continue : Exit A → (A → Action S B) → Action S B
  continue (done a) f s = f a s
  continue (stop c) f s = (stop c, s)
  continue fault f s = (fault, s)

  infixl 5 ◌>>=◌ ◌>>◌
  abbrev pub ◌>>=◌ : Action S A → (A → Action S B) → Action S B
  ◌>>=◌ m f s = continue (m s).0 f (m s).1

  abbrev pub ◌>>◌ : Action S A → Action S B → Action S B
  m >> k = m >>= λ _. k

-- if (ret) goto out;
abbrev pub check {ℓ} : {S : Type ℓ} → ReturnCode → Action S (Unit {ℓ})
check eok = pure tt
check c = return c
