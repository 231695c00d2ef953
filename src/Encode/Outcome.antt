-- ===== src/Encode/Outcome.antt =====
-- Properties of results that hold where there is one: of an option, and of a run.
use docsis_config_generator.Common.{
  ℕ, ◌≡◌, refl, Bool, true, false, Option, none, some, Bytes, if◌then◌else◌, Run, ok, exit, panic,
  out_of_fuel, ◌>>=◌, ◌>>◌, or_exit,
}
use docsis_config_generator.Encode.Scalar.{or_else}

-- What holds of an accepted result.
abbrev pub IfSome {ℓ} : {A : Type ℓ} → (A → Type 0) → Option A → Type 0
IfSome P (some a) = P a
IfSome P none = Unit {0}

abbrev pub IfOk {ℓ} : {A : Type ℓ} → (A → Type 0) → Run A → Type 0
IfOk P (ok a) = P a
IfOk P _ = Unit {0}

pub IfSome-intro :
    (o : Option Bytes) (P : Bytes → Type 0) → ((a : Bytes) → o ≡ some a → P a) → IfSome P o
IfSome-intro (some a) P h = h a refl
IfSome-intro none P h = tt

pub IfOk-or_exit :
    (P : Bytes → Type 0) (o : Option Bytes) (code : ℕ) → IfSome P o → IfOk P (or_exit o code)
IfOk-or_exit P (some a) code h = h
IfOk-or_exit P none code h = tt

pub IfOk-bind {ℓ κ} :
    {A : Type ℓ} {B : Type κ} (P : A → Type 0) (Q : B → Type 0) (run : Run A) (f : A → Run B)
    → IfOk P run
    → ((a : A) → P a → IfOk Q (f a))
    → IfOk Q (run >>= f)
IfOk-bind P Q (ok a) f h k = k a h
IfOk-bind P Q (exit code) f h k = tt
IfOk-bind P Q panic f h k = tt
IfOk-bind P Q out_of_fuel f h k = tt

-- A guard that may end the process says nothing of the result.
pub IfOk-guard :
    (Q : Bytes → Type 0) (run : Run (Unit {0})) (r : Run Bytes) → IfOk Q r → IfOk Q (run >> r)
IfOk-guard Q (ok u) r h = h
IfOk-guard Q (exit code) r h = tt
IfOk-guard Q panic r h = tt
IfOk-guard Q out_of_fuel r h = tt

pub IfOk-any {ℓ} :
    {A : Type ℓ} (Q : Bytes → Type 0) (run : Run A) (f : A → Run Bytes)
    → ((a : A) → IfOk Q (f a))
    → IfOk Q (run >>= f)
IfOk-any Q (ok a) f k = k a
IfOk-any Q (exit code) f k = tt
IfOk-any Q panic f k = tt
IfOk-any Q out_of_fuel f k = tt

pub IfOk-if :
    (Q : Bytes → Type 0) (b : Bool) (x y : Run Bytes)
    → IfOk Q x
    → IfOk Q y
    → IfOk Q (if b then x else y)
IfOk-if Q true x y hx hy = hx
IfOk-if Q false x y hx hy = hy

-- What holds of everything holds of an accepted result.
pub IfOk-all : (Q : Bytes → Type 0) (run : Run Bytes) → ((out : Bytes) → Q out) → IfOk Q run
IfOk-all Q (ok out) h = h out
IfOk-all Q (exit code) h = tt
IfOk-all Q panic h = tt
IfOk-all Q out_of_fuel h = tt

pub IfSome-or_else :
    (P : Bytes → Type 0) (first second : Option Bytes)
    → IfSome P first
    → IfSome P second
    → IfSome P (or_else first second)
IfSome-or_else P (some a) second h k = h
IfSome-or_else P none second h k = k

pub IfSome-imply :
    (P Q : Bytes → Type 0) (o : Option Bytes) → IfSome P o → ((a : Bytes) → P a → Q a) → IfSome Q o
IfSome-imply P Q (some a) h k = k a h
IfSome-imply P Q none h k = tt
