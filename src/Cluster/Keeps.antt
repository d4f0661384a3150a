-- ===== src/Cluster/Keeps.antt =====
-- A predicate of the world that a step keeps: the rules of Cluster.Holds for one predicate.
use oadp_operator.Prelude.{subst, Bool, Option, none, some, if◌then◌else◌}
use oadp_operator.Cluster.{
  ApiError, Attempt, success, failure, attempt, call, deref, tried, Tried, returned, failed, Call,
  M, ◌>>=◌, pure, raise, Error,
}
use oadp_operator.Cluster.Holds.{
  after, Keeps, Holds-pure, Holds-raise, Holds-if, Holds-call, Holds-attempt, Holds-bind,
  Holds-tried,
}
use oadp_operator.Cluster.Moves.{RepliedTo}

module _ {W : Type 0} (P : W → Type 0) where
  pub call-Keeps :
      {A : Type 0} (k : Call W A) → ((w : W) → P w → P (after (k w))) → Keeps P (call k)
  call-Keeps k f =
      Holds-call k (λ w v a h e. subst (λ r. P (after r)) e (f w h))
        (λ w v x h e. subst (λ r. P (after r)) e (f w h))

  replied_keeps :
      {A : Type 0} (k : Call W A) (w v : W) (a : Attempt A)
      → P (after (k w))
      → RepliedTo k w a v
      → P v
  replied_keeps k w v (success a) h e = subst (λ r. P (after r)) e h
  replied_keeps k w v (failure x) h e = subst (λ r. P (after r)) e h

  pub attempt-Keeps :
      {A : Type 0} (k : Call W A) → ((w : W) → P w → P (after (k w))) → Keeps P (attempt k)
  attempt-Keeps k f = Holds-attempt k (λ w v a h e. replied_keeps k w v a (f w h) e)

  pub pure-Keeps : {A : Type 0} (a : A) → Keeps P (pure a)
  pure-Keeps a = Holds-pure a (λ w p. p)

  pub raise-Keeps : {A : Type 0} (e : Error) → Keeps P (raise {A = A} e)
  raise-Keeps e = Holds-raise e (λ w p. p)

  pub deref-Keeps : {A : Type 0} (o : Option A) → Keeps P (deref o)
  unfolding deref
  deref-Keeps none = record { at = λ s p. tt }
  deref-Keeps (some a) = record { at = λ s p. p }

  pub tried-Keeps : {A : Type 0} (m : M W A) → Keeps P m → Keeps P (tried m)
  tried-Keeps m h = Holds-tried m h (λ a w p. p) (λ x w p. p)

  pub if-Keeps :
      {A : Type 0} (b : Bool) (m n : M W A) → Keeps P m → Keeps P n → Keeps P (if b then m else n)
  if-Keeps b m n h k = Holds-if b m n (λ e. h) (λ e. k)

  pub bind-Keeps :
      {A B : Type 0} (m : M W A) (f : A → M W B)
      → Keeps P m
      → ((a : A) → Keeps P (f a))
      → Keeps P (m >>= f)
  bind-Keeps m f h k = Holds-bind m f h k

  pub replied-Keeps :
      {A B : Type 0} (r : Attempt A) (f : A → M W B) (g : ApiError → M W B)
      → ((a : A) → Keeps P (f a))
      → ((e : ApiError) → Keeps P (g e))
      → Keeps P (elim r [ success a ↦ f a | failure e ↦ g e ])
  replied-Keeps (success a) f g kf kg = kf a
  replied-Keeps (failure e) f g kf kg = kg e

  pub returned-Keeps :
      {A B : Type 0} (r : Tried A) (f : A → M W B) (g : Error → M W B)
      → ((a : A) → Keeps P (f a))
      → ((e : Error) → Keeps P (g e))
      → Keeps P (elim r [ returned a ↦ f a | failed e ↦ g e ])
  returned-Keeps (returned a) f g kf kg = kf a
  returned-Keeps (failed e) f g kf kg = kg e

  pub option-Keeps :
      {A B : Type 0} (o : Option A) (m : M W B) (f : A → M W B)
      → Keeps P m
      → ((a : A) → Keeps P (f a))
      → Keeps P (elim o [ none ↦ m | some a ↦ f a ])
  option-Keeps none m f km kf = km
  option-Keeps (some a) m f km kf = kf a
