-- ===== src/Base/Outcome.antt =====
-- The error codes that the modelled functions return, and results that carry one.
use mathlib.Core.Bool.{Bool, true, false}
use mathlib.Core.Path.{◌≡◌, refl}
use mathlib.Core.Logic.{◌⊎◌, inl, inr}

-- A negative errno value, without its sign.
pub data Errno : Type 0 where
  eperm esrch ebadf enomem efault enobufs eexist einval emfile e2big edom emlink : Errno
  enametoolong enxio exfull ebadslt ebadmsg emsgsize eopnotsupp eaddrinuse ealready eagain
        eshutdown :
      Errno

pub data Result {ℓ} (A : Type ℓ) : Type ℓ where
  ok : A → Result A
  err : Errno → Result A

-- `if (!test) return -e;`
abbrev pub guard : Bool → Errno → Result (Unit {0})
guard holds e = elim holds [ false ↦ err e | true ↦ ok tt ]

infixl 5 ◌>>◌ ◌>>=◌
-- A call whose failure is passed on, without and with the value that it gives.
abbrev pub ◌>>◌ {κ} : {C : Type κ} → Result (Unit {0}) → Result C → Result C
err x >> rest = err x
ok u >> rest = rest

abbrev pub ◌>>=◌ {κ μ} : {C : Type κ} {D : Type μ} → Result C → (C → Result D) → Result D
r >>= use_value = elim r [ err x ↦ err x | ok c ↦ use_value c ]

pub is_ok {ℓ} : {A : Type ℓ} → Result A → Bool
is_ok (ok a) = true
is_ok (err e) = false

pub Result-cases {ℓ} :
    {A : Type ℓ} (r : Result A) → ((a : A) × (r ≡ ok a)) ⊎ ((e : Errno) × (r ≡ err e))
Result-cases (ok a) = inl (a, refl)
Result-cases (err e) = inr (e, refl)
