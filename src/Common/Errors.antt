-- ===== src/Common/Errors.antt =====
-- A Python call returns a value or raises. An error is its exception class: messages are dropped.
use mathlib.Core.Logic.{◌⊎◌, inl, inr}
use mathlib.Core.Path.{◌≡◌, refl, subst}
use mathlib.Core.Bool.{Bool, true, false}
use openipc_tftp.Common.Tests.{if◌then◌else◌}

pub data Error : Type 0 where
  value_error file_not_found runtime_error type_error key_error struct_error unicode_error : Error
  not_implemented attribute_error receive_failed index_error os_error zero_division_error
        name_error :
      Error

pub data Result {ℓ} (V : Type ℓ) : Type ℓ where
  err : Error → Result V
  ok : V → Result V

-- `if not passed: raise e`
abbrev pub guard : (passed : Bool) → Error → Result (Unit {0})
guard false e = err e
guard true e = ok tt

infixl 5 ◌>>=◌ ◌>>◌
abbrev pub ◌>>=◌ {ℓ κ} : {V : Type ℓ} {W : Type κ} → Result V → (V → Result W) → Result W
err raised >>= next = err raised
ok value >>= next = next value

abbrev pub ◌>>◌ {κ} : {W : Type κ} → Result (Unit {0}) → Result W → Result W
checked >> next = checked >>= λ nothing. next

module _ {ℓ κ} {V : Type ℓ} {W : Type κ} where
  pub >>=-eq-ok :
      (call : Result V) (next : V → Result W) {w : W}
      → (call >>= next) ≡ ok w
      → (v : V) × (call ≡ ok v) × (next v ≡ ok w)
  >>=-eq-ok (err raised) next h = cc
  >>=-eq-ok (ok v) next h = (v, refl, h)

  pub >>=-ok :
      (call : Result V) (next : V → Result W) {v : V} → call ≡ ok v → (call >>= next) ≡ next v
  >>=-ok (err raised) next h = absurd (cc)
  >>=-ok (ok v) next h = cc

pub Result-cases {ℓ} :
    {V : Type ℓ} (r : Result V) → ((v : V) × (r ≡ ok v)) ⊎ ((e : Error) × (r ≡ err e))
Result-cases (err raised) = inr (raised, refl)
Result-cases (ok v) = inl (v, refl)

-- A property of the value of a call that returns.
abbrev pub Ensures {ℓ κ} : {A : Type ℓ} → (A → Type κ) → Result A → Type κ
Ensures P (ok a) = P a
Ensures P (err e) = Unit

module _ {ℓ κ} {A : Type ℓ} (P : A → Type κ) where
  pub Ensures-value : (m : Result A) {a : A} → Ensures P m → m ≡ ok a → P a
  Ensures-value (ok b) h e = subst P (ok-injective e) h
    where
      ok-injective : {a : A} → ok b ≡ ok a → b ≡ a
      ok-injective q = cc
  Ensures-value (err x) h e = absurd (cc)

  pub Ensures-bind {μ} :
      {B : Type μ} (m : Result B) (f : B → Result A)
      → ((b : B) → m ≡ ok b → Ensures P (f b))
      → Ensures P (m >>= f)
  Ensures-bind (ok b) f h = h b refl
  Ensures-bind (err x) f h = tt

  pub Ensures-if :
      (b : Bool) (m n : Result A)
      → (b ≡ true → Ensures P m)
      → (b ≡ false → Ensures P n)
      → Ensures P (if b then m else n)
  Ensures-if true m n h k = h refl
  Ensures-if false m n h k = k refl

-- What a check that was passed says.
pub guard-passed {ℓ} :
    {A : Type ℓ} (b : Bool) (e : Error) (m : Result A) {a : A}
    → (guard b e >>= λ _. m) ≡ ok a
    → (b ≡ true) × (m ≡ ok a)
guard-passed true e m h = (refl, h)
guard-passed false e m h = absurd (cc)
