-- ===== src/Base/Outcome.antt =====
-- How a call that may throw ends, with the state that it leaves.
use mathlib.Core.Option.{Option, none, some}
use mathlib.Core.Path.{◌≡◌, refl}

pub data Error : Type 0 where
  io_error no_free_nid no_free_segment invalid_fd rw_conflict_with_open_flag
        expand_file_size_exceed_limit :
      Error

-- `aborted` is a failed assertion, or an access that C++ leaves undefined.
pub data Outcome (S A : Type 0) : Type 0 where
  done : A → S → Outcome S A
  thrown : Error → S → Outcome S A
  aborted : Outcome S A

infixl 5 ◌>>=◌
abbrev pub ◌>>=◌ : {S A B : Type 0} → Outcome S A → (A × S → Outcome S B) → Outcome S B
done a s >>= f = f (a, s)
thrown e s >>= f = thrown e s
aborted >>= f = aborted

-- A step that cannot throw.
abbrev pub step : {S A B : Type 0} → Option A → (A → Outcome S B) → Outcome S B
step none f = aborted
step (some a) f = f a

-- A sequence that ends well, by its parts.
pub step-done :
    {S A B : Type 0} (o : Option A) (f : A → Outcome S B) {b : B} {s' : S}
    → step o f ≡ done b s'
    → (a : A) × (o ≡ some a) × (f a ≡ done b s')
step-done none f h = absurd (cc)
step-done (some a) f h = (a, refl, h)

pub bind-done :
    {S A B : Type 0} (m : Outcome S A) (f : A × S → Outcome S B) {b : B} {s' : S}
    → m >>= f ≡ done b s'
    → (a : A) × (s1 : S) × (m ≡ done a s1) × (f (a, s1) ≡ done b s')
bind-done (done a s) f h = (a, s, refl, h)
bind-done (thrown e s) f h = absurd (cc)
bind-done aborted f h = absurd (cc)
