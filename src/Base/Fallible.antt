-- ===== src/Base/Fallible.antt =====
-- Methods that change an object and can fail: `done` carries the value that is returned and the
-- object after the call, `fail` the object that a failing call leaves (`goto fail`), and `stuck`
-- says that a loop ran out of the rounds that its model allows.
use mathlib.Core.Path.{◌≡◌, refl}
use mathlib.Core.Logic.{◌≢◌}

pub data Outcome (S : Type 0) (A : Type 0) : Type 0 where
  done : A → S → Outcome S A
  fail : S → Outcome S A
  stuck : Outcome S A

abbrev pub Method : Type 0 → Type 0 → Type 0
Method S A = S → Outcome S A

abbrev pub pure : {S A : Type 0} → A → Method S A
pure a s = done a s

abbrev pub failure : {S A : Type 0} → Method S A
failure s = fail s

abbrev pub bind : {S A B : Type 0} → Outcome S A → (A → Method S B) → Outcome S B
bind (done a s) k = k a s
bind (fail s) k = fail s
bind stuck k = stuck

-- The object itself, and an assignment to its members.
abbrev pub this : {S : Type 0} → Method S S
this s = done s s

abbrev pub modify : {S : Type 0} → (S → S) → Method S (Unit {0})
modify f s = done tt (f s)

infixl 5 ◌>>=◌ ◌>>◌
abbrev pub ◌>>=◌ : {S A B : Type 0} → Method S A → (A → Method S B) → Method S B
◌>>=◌ m k s = bind (m s) k

abbrev pub ◌>>◌ : {S B : Type 0} → Method S (Unit {0}) → Method S B → Method S B
◌>>◌ m k s = bind (m s) (λ _. k)

-- Inversion of a call that returns.
pub bind-done :
    {S A B : Type 0} (m : Outcome S A) (k : A → Method S B) {b : B} {t : S}
    → bind m k ≡ done b t
    → (a : A) × (s : S) × (m ≡ done a s) × (k a s ≡ done b t)
bind-done (done a s) k h = (a, s, refl, h)
bind-done (fail s) k h = cc
bind-done stuck k h = cc

pub done-injective :
    {S A : Type 0} {a b : A} {s t : S}
    → ◌≡◌ {A = Outcome S A} (done a s) (done b t)
    → (a ≡ b) × (s ≡ t)
done-injective h = (cc, cc)

-- A chain of calls that return returns.
pub bind-ne-stuck :
    {S A C : Type 0} (m : Outcome S A) (k : A → S → Outcome S C)
    → m ≢ stuck
    → ((a : A) (s : S) → m ≡ done a s → k a s ≢ stuck)
    → bind m k ≢ stuck
bind-ne-stuck (done a s) k p q = q a s refl
bind-ne-stuck (fail s) k p q = λ e. cc
bind-ne-stuck stuck k p q = λ e. p refl
