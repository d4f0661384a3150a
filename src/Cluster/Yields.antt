-- ===== src/Cluster/Yields.antt =====
-- What holds of every value that a step returns, in whatever state it is run and whatever the
-- cluster answers: one rule for each way to build a step.
use oadp_operator.Prelude.{
  ◌≡◌, refl, ap, subst, Bool, true, false, Option, none, some, if◌then◌else◌,
}
use oadp_operator.Cluster.{
  ApiError, Error, ok, err, Call, call, attempt, success, failure, Outcome, done, fail, panic,
  State, M, ◌>>=◌, pure, raise, crash, raise_if, deref, check,
}

-- Every value that `m` returns satisfies `P`.
pub record Yields {W A : Type 0} (P : A → Type 0) (m : M W A) : Type 0 where
  pub at : (s t : State W) (a : A) → m s ≡ done a t → P a

abbrev resume : {W A B : Type 0} → (A → M W B) → Outcome W A → Outcome W B
resume f o = elim o [ done a s ↦ f a s | fail e s ↦ fail e s | panic ↦ panic ]

-- A chain that returns has a first step that returns.
pub resume-eq-done :
    {W A B : Type 0} (o : Outcome W A) (f : A → M W B) {b : B} {t : State W}
    → resume f o ≡ done b t
    → (a : A) × (s : State W) × (o ≡ done a s) × (f a s ≡ done b t)
resume-eq-done (done a s) f h = (a, s, refl, h)
resume-eq-done (fail e s) f h = cc
resume-eq-done panic f h = cc

module _ {W A B : Type 0} (m : M W A) (f : A → M W B) (s : State W) where
  -- A chain goes on where its first step has returned, and ends where it has not.
  pub bind-done : (t : State W) (a : A) → m s ≡ done a t → (m >>= f) s ≡ f a t
  unfolding ◌>>=◌
  bind-done t a e = ap (resume f) e

  pub bind-fail : (t : State W) (x : Error) → m s ≡ fail x t → (m >>= f) s ≡ fail x t
  unfolding ◌>>=◌
  bind-fail t x e = ap (resume f) e

  pub bind-panic : m s ≡ panic → (m >>= f) s ≡ panic
  unfolding ◌>>=◌
  bind-panic e = ap (resume f) e

module _ {W A : Type 0} (k : Call W A) (s : State W) where
  pub attempt-ok :
      (a : A) (w : W) → k s.world ≡ ok a w → attempt k s ≡ done (success a) (record s { world = w })
  unfolding attempt
  attempt-ok a w e = rw (attempt, e) refl

  pub attempt-err :
      (x : ApiError) (w : W)
      → k s.world ≡ err x w
      → attempt k s ≡ done (failure x) (record s { world = w })
  unfolding attempt
  attempt-err x w e = rw (attempt, e) refl

  pub call-ok : (a : A) (w : W) → k s.world ≡ ok a w → call k s ≡ done a (record s { world = w })
  unfolding call
  call-ok a w e = rw (call, e) refl

pub Yields-any : {W A : Type 0} (m : M W A) → Yields (λ _. Unit {0}) m
Yields-any m = record { at = λ s t a e. tt }

pub Yields-pure : {W A : Type 0} {P : A → Type 0} (a : A) → P a → Yields P (pure {W = W} a)
unfolding pure
Yields-pure {P} a p = record { at = λ s t b e. subst P (cc) p }

pub Yields-raise : {W A : Type 0} {P : A → Type 0} (e : Error) → Yields P (raise {W = W} e)
unfolding raise
Yields-raise e = record { at = λ s t b h. absurd (cc) }

pub Yields-crash : {W A : Type 0} {P : A → Type 0} → Yields P (crash {W = W})
unfolding crash
Yields-crash = record { at = λ s t b h. absurd (cc) }

pub Yields-raise_if :
    {W : Type 0} (b : Bool) (e : Error) → Yields (λ _. b ≡ false) (raise_if {W = W} b e)
unfolding raise_if
Yields-raise_if true e = record { at = λ s t u h. absurd (cc) }
Yields-raise_if false e = record { at = λ s t u h. refl }

pub Yields-check : {W : Type 0} (e : Option Error) → Yields (λ _. e ≡ none) (check {W = W} e)
unfolding check
Yields-check none = record { at = λ s t u h. refl }
Yields-check (some e) = record { at = λ s t u h. absurd (cc) }

pub Yields-deref : {W A : Type 0} (p : Option A) → Yields (λ a. p ≡ some a) (deref {W = W} p)
unfolding deref
Yields-deref none = record { at = λ s t u h. absurd (cc) }
Yields-deref (some a) = record { at = λ s t u h. ap some (cc) }

module _ {W A B : Type 0} {P : B → Type 0} where
  pub Yields-bind :
      {Q : A → Type 0} (m : M W A) (f : A → M W B)
      → Yields Q m
      → ((a : A) → Q a → Yields P (f a))
      → Yields P (m >>= f)
  unfolding ◌>>=◌
  Yields-bind m f ym yf = record {
    at = λ s t b h.
        let (a, s', first, rest) = resume-eq-done (m s) f h in
        (yf a (ym.at s s' a first)).at s' t b rest;
  }

  -- What the first step returns is of no interest.
  pub Yields-skip : (m : M W A) (f : A → M W B) → ((a : A) → Yields P (f a)) → Yields P (m >>= f)
  Yields-skip m f yf = Yields-bind m f (Yields-any m) (λ a _. yf a)

module _ {W A : Type 0} {P : A → Type 0} where
  pub Yields-if :
      (b : Bool) (m n : M W A)
      → (b ≡ true → Yields P m)
      → (b ≡ false → Yields P n)
      → Yields P (if b then m else n)
  Yields-if true m n ym yn = ym refl
  Yields-if false m n ym yn = yn refl

  pub Yields-mono : {Q : A → Type 0} (m : M W A) → Yields Q m → ((a : A) → Q a → P a) → Yields P m
  Yields-mono m ym f = record { at = λ s t a e. f a (ym.at s t a e) }

pub Yields-option :
    {W A B : Type 0} {P : B → Type 0} (o : Option A) (m : M W B) (f : A → M W B)
    → (o ≡ none → Yields P m)
    → ((a : A) → o ≡ some a → Yields P (f a))
    → Yields P (elim o [ none ↦ m | some a ↦ f a ])
Yields-option none m f ym yf = ym refl
Yields-option (some a) m f ym yf = yf a refl
