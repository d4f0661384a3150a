-- ===== src/Process/Keeps.antt =====
-- What a step of the process keeps of the world: the rules of Cluster.Holds for a predicate that
-- holds before and after.
use oadp_operator.Prelude.{
  ◌≡◌, refl, subst, sym, ap, ◌∙◌, String, Bool, Option, none, some, if◌then◌else◌,
}
use oadp_operator.Cluster.{
  ApiError, Attempt, success, failure, attempt, call, tried, Tried, returned, failed, Reply, ok,
  err, Call, M, pure, raise, Error,
}
use oadp_operator.Cluster.Holds.{
  after, Holds, Keeps, Holds-pure, Holds-raise, Holds-if, Holds-call, Holds-attempt, Holds-tried,
}
use oadp_operator.Cluster.Moves.{RepliedTo}
use oadp_operator.Process.{
  SdkError, SdkCall, Process, on_cluster, change, send, cached_file, cache_file,
}

-- A predicate of the world, in the process.
abbrev pub Here : {W : Type 0} → (W → Type 0) → Process W → Type 0
Here P p = P p.cluster

module _ {W : Type 0} (P : W → Type 0) where
  cluster_after :
      {A : Type 0} (p : Process W) (r : Reply W A)
      → P (after r)
      → Here P (
          after (elim r as (λ x. Reply (Process W) A) [
            | ok a w ↦ ok a (record p { cluster = w })
            | err x w ↦ err x (record p { cluster = w })
          ]))
  cluster_after p (ok a w) h = h
  cluster_after p (err x w) h = h

  pub Keeps-on_cluster :
      {A : Type 0} (k : Call W A)
      → ((w : W) → P w → P (after (k w)))
      → (p : Process W) → Here P p
      → Here P (after (on_cluster k p))
  unfolding on_cluster
  Keeps-on_cluster k f p h = cluster_after p (k p.cluster) (f p.cluster h)

  pub Keeps-call :
      {A : Type 0} (k : Call W A)
      → ((w : W) → P w → P (after (k w)))
      → Keeps (Here P) (call (on_cluster k))
  Keeps-call k f =
      Holds-call (on_cluster k)
        (λ p q a h e. subst (λ r. Here P (after r)) e (Keeps-on_cluster k f p h))
        (λ p q x h e. subst (λ r. Here P (after r)) e (Keeps-on_cluster k f p h))

  replied_keeps :
      {A : Type 0} (k : Call W A) (p q : Process W) (a : Attempt A)
      → Here P (after (on_cluster k p))
      → RepliedTo (on_cluster k) p a q
      → Here P q
  replied_keeps k p q (success a) h e = subst (λ r. Here P (after r)) e h
  replied_keeps k p q (failure x) h e = subst (λ r. Here P (after r)) e h

  pub Keeps-attempt :
      {A : Type 0} (k : Call W A)
      → ((w : W) → P w → P (after (k w)))
      → Keeps (Here P) (attempt (on_cluster k))
  Keeps-attempt k f =
      Holds-attempt (on_cluster k) (λ p q a h e. replied_keeps k p q a (Keeps-on_cluster k f p h) e)

  pub Keeps-change : (f : W → W) → ((w : W) → P w → P (f w)) → Keeps (Here P) (change f)
  unfolding change
  Keeps-change f g = record { at = λ s h. g s.world.cluster h }

  pub Keeps-send : (k : SdkCall W) → ((w : W) → P w → P (k w).1) → Keeps (Here P) (send k)
  unfolding send
  Keeps-send k g = record { at = λ s h. g s.world.cluster h }

  pub Keeps-cached_file : (namespace name : String) → Keeps (Here P) (cached_file namespace name)
  unfolding cached_file
  Keeps-cached_file namespace name = record { at = λ s h. h }

  pub Keeps-cache_file :
      (namespace name file : String) → Keeps (Here P) (cache_file namespace name file)
  unfolding cache_file
  Keeps-cache_file namespace name file = record { at = λ s h. h }

  pub Keeps-tried : {A : Type 0} (m : M (Process W) A) → Keeps (Here P) m → Keeps (Here P) (tried m)
  Keeps-tried m h = Holds-tried m h (λ a w p. p) (λ x w p. p)

  pub Keeps-pure : {A : Type 0} (a : A) → Keeps (Here P) (pure a)
  Keeps-pure a = Holds-pure a (λ w p. p)

  pub Keeps-raise : {A : Type 0} (e : Error) → Keeps (Here P) (raise {A = A} e)
  Keeps-raise e = Holds-raise e (λ w p. p)

  pub Keeps-if :
      {A : Type 0} (b : Bool) (m n : M (Process W) A)
      → Keeps (Here P) m
      → Keeps (Here P) n
      → Keeps (Here P) (if b then m else n)
  Keeps-if b m n h k = Holds-if b m n (λ e. h) (λ e. k)

  pub Keeps-replied :
      {A B : Type 0} (r : Attempt A) (f : A → M (Process W) B) (g : ApiError → M (Process W) B)
      → ((a : A) → Keeps (Here P) (f a))
      → ((e : ApiError) → Keeps (Here P) (g e))
      → Keeps (Here P) (elim r [ success a ↦ f a | failure e ↦ g e ])
  Keeps-replied (success a) f g kf kg = kf a
  Keeps-replied (failure e) f g kf kg = kg e

  pub Keeps-returned :
      {A B : Type 0} (r : Tried A) (f : A → M (Process W) B) (g : Error → M (Process W) B)
      → ((a : A) → Keeps (Here P) (f a))
      → ((e : Error) → Keeps (Here P) (g e))
      → Keeps (Here P) (elim r [ returned a ↦ f a | failed e ↦ g e ])
  Keeps-returned (returned a) f g kf kg = kf a
  Keeps-returned (failed e) f g kf kg = kg e

  pub Keeps-option :
      {A B : Type 0} (o : Option A) (m : M (Process W) B) (f : A → M (Process W) B)
      → Keeps (Here P) m
      → ((a : A) → Keeps (Here P) (f a))
      → Keeps (Here P) (elim o [ none ↦ m | some a ↦ f a ])
  Keeps-option none m f km kf = km
  Keeps-option (some a) m f km kf = kf a

abbrev answer_of : {W A : Type 0} → Reply (Process W) A → Reply W A
answer_of (ok a p) = ok a p.cluster
answer_of (err x p) = err x p.cluster

module _ {W A : Type 0} (k : Call W A) where
  answer_cases :
      (p : Process W) (r : Reply W A)
      → answer_of (elim r as (λ x. Reply (Process W) A) [
        | ok a w ↦ ok a (record p { cluster = w })
        | err x w ↦ err x (record p { cluster = w })
      ])
        ≡ r
  answer_cases p (ok a w) = refl
  answer_cases p (err x w) = refl

  answer_of-on_cluster : (p : Process W) → answer_of (on_cluster k p) ≡ k p.cluster
  unfolding on_cluster
  answer_of-on_cluster p = answer_cases p (k p.cluster)

  replied_here :
      (p q : Process W) (a : Attempt A)
      → RepliedTo (on_cluster k) p a q
      → RepliedTo k p.cluster a q.cluster
  replied_here p q (success a) e = sym (answer_of-on_cluster p) ∙ ap answer_of e
  replied_here p q (failure x) e = sym (answer_of-on_cluster p) ∙ ap answer_of e

  -- An attempt, by what the call itself answers.
  pub Holds-Here :
      (P : W → Type 0) (Q : Attempt A → W → Type 0) (E : W → Type 0)
      → ((w v : W) (a : Attempt A) → P w → RepliedTo k w a v → Q a v)
      → Holds (Here P) (λ a. Here (Q a)) (Here E) (attempt (on_cluster k))
  Holds-Here P Q E f =
      Holds-attempt (on_cluster k) (λ p q a h e. f p.cluster q.cluster a h (replied_here p q a e))

pub Holds-send :
    {W : Type 0} (P : W → Type 0) (Q : Option SdkError → W → Type 0) (E : W → Type 0)
    (k : SdkCall W)
    → ((w : W) → P w → Q (k w).0 (k w).1)
    → Holds (Here P) (λ a. Here (Q a)) (Here E) (send k)
unfolding send
Holds-send P Q E k f = record { at = λ s h. f s.world.cluster h }
