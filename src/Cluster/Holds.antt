-- ===== src/Cluster/Holds.antt =====
-- What holds when a step ends, returned or failed, if something holds of the world before: one rule
-- for each way to build a step.
use oadp_operator.Prelude.{◌≡◌, refl, Bool, true, false, Option, none, some, if◌then◌else◌}
use oadp_operator.Cluster.{
  ApiError, Attempt, success, failure, attempt, tried, Tried, returned, failed, raise, crash, Error,
  State, M, Call, Reply, ok, err, api, Outcome, done, fail, panic, ◌>>=◌, pure, call,
}
use oadp_operator.Cluster.Moves.{RepliedTo}

-- The world after a call.
abbrev pub after : {W A : Type 0} → Reply W A → W
after (ok a v) = v
after (err x v) = v

abbrev pub Ends : {W A : Type 0} → (A → W → Type 0) → (W → Type 0) → Outcome W A → Type 0
Ends Q E (done a t) = Q a t.world
Ends Q E (fail x t) = E t.world
Ends Q E panic = Unit {0}

-- From a world with `P`, `m` returns with `Q`, fails with `E`, or panics.
pub record Holds {W A : Type 0} (P : W → Type 0) (Q : A → W → Type 0) (E : W → Type 0) (m : M W A)
    : Type 0 where
  pub at : (s : State W) → P s.world → Ends Q E (m s)

call-Ends :
    {W A : Type 0} (Q : A → W → Type 0) (E : W → Type 0) (k : Call W A) (s : State W)
    (r : Reply W A)
    → k s.world ≡ r
    → ((a : A) (v : W) → k s.world ≡ ok a v → Q a v)
    → ((x : ApiError) (v : W) → k s.world ≡ err x v → E v)
    → Ends Q E (elim r [
      | ok b w ↦ done b (record s { world = w })
      | err x w ↦ fail (api x) (record s { world = w })
    ])
call-Ends Q E k s (ok b w) e f g = f b w e
call-Ends Q E k s (err x w) e f g = g x w e

attempt-Ends :
    {W A : Type 0} (Q : Attempt A → W → Type 0) (E : W → Type 0) (k : Call W A) (s : State W)
    (r : Reply W A)
    → k s.world ≡ r
    → ((a : Attempt A) (v : W) → RepliedTo k s.world a v → Q a v)
    → Ends Q E (elim r [
      | ok b w ↦ done (success b) (record s { world = w })
      | err x w ↦ done (failure x) (record s { world = w })
    ])
attempt-Ends Q E k s (ok b w) e f = f (success b) w e
attempt-Ends Q E k s (err x w) e f = f (failure x) w e

bind-Ends :
    {W A B : Type 0} {R : A → W → Type 0} {Q : B → W → Type 0} {E : W → Type 0} (o : Outcome W A)
    (f : A → M W B)
    → Ends R E o
    → ((a : A) → Holds (R a) Q E (f a))
    → Ends Q E (elim o [ done a s ↦ f a s | fail x s ↦ fail x s | panic ↦ panic ])
bind-Ends (done a s) f r h = (h a).at s r
bind-Ends (fail x s) f r h = r
bind-Ends panic f r h = tt

tried-Ends :
    {W A : Type 0} (Q : A → W → Type 0) (E F : W → Type 0) (S : Tried A → W → Type 0)
    (o : Outcome W A)
    → Ends Q E o
    → ((a : A) (w : W) → Q a w → S (returned a) w)
    → ((x : Error) (w : W) → E w → S (failed x) w)
    → Ends S F (elim o [
      | done a s' ↦ done (returned a) s'
      | fail e s' ↦ done (failed e) s'
      | panic ↦ panic
    ])
tried-Ends Q E F S (done a s) q f g = f a s.world q
tried-Ends Q E F S (fail x s) q f g = g x s.world q
tried-Ends Q E F S panic q f g = tt

Ends-mono :
    {W A : Type 0} {Q S : A → W → Type 0} {E F : W → Type 0} (o : Outcome W A)
    → Ends Q E o
    → ((a : A) (w : W) → Q a w → S a w)
    → ((w : W) → E w → F w)
    → Ends S F o
Ends-mono (done a s) q f g = f a s.world q
Ends-mono (fail x s) q f g = g s.world q
Ends-mono panic q f g = tt

module _ {W A : Type 0} {P : W → Type 0} {Q : A → W → Type 0} {E : W → Type 0} where
  pub Holds-pure : (a : A) → ((w : W) → P w → Q a w) → Holds P Q E (pure {W = W} a)
  unfolding pure
  Holds-pure a f = record { at = λ s p. f s.world p }

  pub Holds-raise : (x : Error) → ((w : W) → P w → E w) → Holds P Q E (raise {W = W} x)
  unfolding raise
  Holds-raise x f = record { at = λ s p. f s.world p }

  pub Holds-crash : Holds P Q E (crash {W = W})
  unfolding crash
  Holds-crash = record { at = λ s p. tt }

  pub Holds-if :
      (b : Bool) (m n : M W A)
      → (b ≡ true → Holds P Q E m)
      → (b ≡ false → Holds P Q E n)
      → Holds P Q E (if b then m else n)
  Holds-if true m n f g = f refl
  Holds-if false m n f g = g refl

  pub Holds-option :
      {B : Type 0} (o : Option B) (m : M W A) (f : B → M W A)
      → (o ≡ none → Holds P Q E m)
      → ((b : B) → o ≡ some b → Holds P Q E (f b))
      → Holds P Q E (elim o [ none ↦ m | some b ↦ f b ])
  Holds-option none m f g h = g refl
  Holds-option (some b) m f g h = h b refl

module _ {W A : Type 0} {P : W → Type 0} {Q : A → W → Type 0} {E : W → Type 0} where
  pub Holds-call :
      (k : Call W A)
      → ((w v : W) (a : A) → P w → k w ≡ ok a v → Q a v)
      → ((w v : W) (x : ApiError) → P w → k w ≡ err x v → E v)
      → Holds P Q E (call k)
  unfolding call
  Holds-call k f g = record {
    at = λ s p.
        call-Ends Q E k s (k s.world) refl (λ a v e. f s.world v a p e)
          (λ x v e. g s.world v x p e);
  }

module _ {W A : Type 0} {P : W → Type 0} {Q : Attempt A → W → Type 0} {E : W → Type 0} where
  pub Holds-attempt :
      (k : Call W A)
      → ((w v : W) (a : Attempt A) → P w → RepliedTo k w a v → Q a v)
      → Holds P Q E (attempt k)
  unfolding attempt
  Holds-attempt k f = record {
    at = λ s p. attempt-Ends Q E k s (k s.world) refl (λ a v e. f s.world v a p e);
  }

module _ {W A B : Type 0} {P : W → Type 0} {R : A → W → Type 0} {Q : B → W → Type 0}
    {E : W → Type 0} where
  pub Holds-bind :
      (m : M W A) (f : A → M W B)
      → Holds P R E m
      → ((a : A) → Holds (R a) Q E (f a))
      → Holds P Q E (m >>= f)
  unfolding ◌>>=◌
  Holds-bind m f first later = record { at = λ s p. bind-Ends (m s) f (first.at s p) later }

module _ {W A : Type 0} {P : W → Type 0} {Q : A → W → Type 0} {E F : W → Type 0} where
  pub Holds-tried :
      {S : Tried A → W → Type 0} (m : M W A)
      → Holds P Q E m
      → ((a : A) (w : W) → Q a w → S (returned a) w)
      → ((x : Error) (w : W) → E w → S (failed x) w)
      → Holds P S F (tried m)
  unfolding tried
  Holds-tried {S} m h f g = record { at = λ s p. tried-Ends Q E F S (m s) (h.at s p) f g }

  pub Holds-mono :
      {S : A → W → Type 0} (m : M W A)
      → Holds P Q E m
      → ((a : A) (w : W) → Q a w → S a w)
      → ((w : W) → E w → F w)
      → Holds P S F m
  Holds-mono m h f g = record { at = λ s p. Ends-mono (m s) (h.at s p) f g }

-- A step keeps what it does not touch.
abbrev pub Keeps : {W A : Type 0} → (W → Type 0) → M W A → Type 0
Keeps P m = Holds P (λ _. P) P m

module _ {W A : Type 0} {P O : W → Type 0} {Q : A → W → Type 0} {E : W → Type 0} where
  -- What holds before and is not about the world is an assumption of the step.
  pub Holds-from :
      {F : Type 0} (m : M W A) → ((w : W) → P w → F × O w) → (F → Holds O Q E m) → Holds P Q E m
  Holds-from m f h = record { at = λ s p. let (x, o) = f s.world p in (h x).at s o }

  pub Holds-pre : (m : M W A) → ((w : W) → P w → O w) → Holds O Q E m → Holds P Q E m
  Holds-pre m f h = record { at = λ s p. h.at s (f s.world p) }
