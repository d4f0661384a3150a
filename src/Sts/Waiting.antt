-- ===== src/Sts/Waiting.antt =====
-- The loop that waits for a secret: when it ends, and with which result.
use oadp_operator.Prelude.{
  ◌≡◌, ◌↔◌, refl, ap, sym, ◌∙◌, ℕ, zero, suc, ◌<◌, String, [], ◌∷◌, arith, if◌then◌else◌,
}
use oadp_operator.Cluster.{
  not_found, already_exists, conflict, other, Attempt, attempt, Reply, ok, err, Outcome, done, fail,
  panic, State, M, ◌>>=◌, success, failure, api, pure, raise, about,
}
use oadp_operator.Process.{SecretObject, Services, Process, on_cluster, change, is_not_found}
use oadp_operator.Sts.{poll_secret, wait_for_secret}

-- After `k` ticks on which the secret is missing, one more finds it; with the world before and
-- after.
pub data Appears (c : Services) (namespace name : String)
    : ℕ → c.World → SecretObject → c.World → Type 0 where
  now :
      {w v : c.World} {secret : SecretObject}
      → c.read_secret namespace name (c.elapse w) ≡ ok secret v
      → Appears c namespace name zero w secret v
  later :
      {k : ℕ} {w u v : c.World} {secret : SecretObject}
      → c.read_secret namespace name (c.elapse w) ≡ err not_found u
      → Appears c namespace name k u secret v
      → Appears c namespace name (suc k) w secret v

-- On `k` ticks in turn the secret is missing; with the world before and after.
pub data Missing (c : Services) (namespace name : String) : ℕ → c.World → c.World → Type 0 where
  missing_none : {w : c.World} → Missing c namespace name zero w w
  missing_next :
      {k : ℕ} {w u v : c.World}
      → c.read_secret namespace name (c.elapse w) ≡ err not_found u
      → Missing c namespace name k u v
      → Missing c namespace name (suc k) w v

module _ (c : Services) (namespace name : String) where
  abbrev Polling : Type 0
  Polling = Outcome (Process c.World) SecretObject

  abbrev at_world : State (Process c.World) → c.World → State (Process c.World)
  at_world s w = record s { world = record s.world { cluster = w } }

  -- What a tick does with the answer to its request.
  abbrev after_reply : ℕ → State (Process c.World) → Reply c.World SecretObject → Polling
  after_reply ticks s (ok secret v) = done secret (at_world s v)
  after_reply ticks s (err not_found v) = poll_secret c ticks namespace name (at_world s v)
  after_reply ticks s (err already_exists v) = fail (api already_exists) (at_world s v)
  after_reply ticks s (err conflict v) = fail (api conflict) (at_world s v)
  after_reply ticks s (err (other text) v) = fail (api (other text)) (at_world s v)

  -- The answer to a request that is made in the process.
  abbrev in_process :
      Process c.World → Reply c.World SecretObject → Reply (Process c.World) SecretObject
  in_process p r = elim r [
    | ok a w ↦ ok a (record p { cluster = w })
    | err x w ↦ err x (record p { cluster = w })
  ]

  abbrev attempted :
      State (Process c.World)
      → Reply (Process c.World) SecretObject
      → Outcome (Process c.World) (Attempt SecretObject)
  attempted s r = elim r [
    | ok a w ↦ done (success a) (record s { world = w })
    | err e w ↦ done (failure e) (record s { world = w })
  ]

  abbrev decide : ℕ → Attempt SecretObject → M (Process c.World) SecretObject
  decide ticks r = elim r [
    | success secret ↦ pure secret
    | failure e ↦ if is_not_found e then poll_secret c ticks namespace name else raise (api e)
  ]

  abbrev looked : ℕ → State (Process c.World) → Reply (Process c.World) SecretObject → Polling
  looked ticks s r = elim (attempted s r) [
    | done a s' ↦ decide ticks a s'
    | fail e s' ↦ fail e s'
    | panic ↦ panic
  ]

  step_cases :
      (ticks : ℕ) (s : State (Process c.World)) (r : Reply c.World SecretObject)
      → c.read_secret namespace name (c.elapse s.world.cluster) ≡ r
      → poll_secret c (suc ticks) namespace name s ≡ after_reply ticks s r
  unfolding poll_secret change attempt on_cluster ◌>>=◌ is_not_found pure raise
  step_cases ticks s (ok secret v) e = ap (λ r. looked ticks s (in_process s.world r)) e
  step_cases ticks s (err not_found v) e = ap (λ r. looked ticks s (in_process s.world r)) e
  step_cases ticks s (err already_exists v) e = ap (λ r. looked ticks s (in_process s.world r)) e
  step_cases ticks s (err conflict v) e = ap (λ r. looked ticks s (in_process s.world r)) e
  step_cases ticks s (err (other text) v) e = ap (λ r. looked ticks s (in_process s.world r)) e

  -- The secret that appears in time is returned.
  poll_returns :
      (ticks k : ℕ) (s : State (Process c.World)) (secret : SecretObject) (v : c.World)
      → k < ticks
      → Appears c namespace name k s.world.cluster secret v
      → poll_secret c ticks namespace name s ≡ done secret (at_world s v)
  poll_returns zero k s secret v less found = absurd (omega arith)
  poll_returns (suc ticks) zero s secret v less (now e) = step_cases ticks s (ok secret v) e
  poll_returns (suc ticks) (suc k) s secret v less (later {u = u} e found) =
      step_cases ticks s (err not_found u) e
      ∙ poll_returns ticks k (at_world s u) secret v (omega arith) found

  -- A secret that stays missing ends with the timeout.
  poll_times_out :
      (ticks : ℕ) (s : State (Process c.World)) (v : c.World)
      → Missing c namespace name ticks s.world.cluster v
      → poll_secret c ticks namespace name s
        ≡ fail
            (about "timed out waiting for secret" (name ∷ namespace ∷ []))
            (at_world s (c.elapse v))
  unfolding poll_secret change ◌>>=◌ raise
  poll_times_out zero s v missing_none = refl
  poll_times_out (suc ticks) s v (missing_next {u = u} e missing) =
      step_cases ticks s (err not_found u) e ∙ poll_times_out ticks (at_world s u) v missing

  abbrev Appeared : ℕ → State (Process c.World) → SecretObject → c.World → Type 0
  Appeared ticks s secret v =
      (k : ℕ) × (k < ticks) × Appears c namespace name k s.world.cluster secret v

  abbrev as_reply : Reply c.World SecretObject → Polling → Reply c.World SecretObject
  as_reply d o = elim o [ done a t ↦ ok a t.world.cluster | fail x t ↦ d | panic ↦ d ]

  reply-Appeared :
      (ticks : ℕ) (s t : State (Process c.World)) (secret : SecretObject)
      → ((u : State (Process c.World))
          → poll_secret c ticks namespace name u ≡ done secret t
          → Appeared ticks u secret t.world.cluster)
      → (r : Reply c.World SecretObject)
      → c.read_secret namespace name (c.elapse s.world.cluster) ≡ r
      → after_reply ticks s r ≡ done secret t
      → Appeared (suc ticks) s secret t.world.cluster
  reply-Appeared ticks s t secret rest (ok x v) e h =
      (0, omega arith, now (e ∙ ap (as_reply (ok x v)) h))
  reply-Appeared ticks s t secret rest (err not_found v) e h =
      let (k, less, found) = rest (at_world s v) h in (suc k, omega arith, later e found)
  reply-Appeared ticks s t secret rest (err already_exists v) e h = absurd (cc)
  reply-Appeared ticks s t secret rest (err conflict v) e h = absurd (cc)
  reply-Appeared ticks s t secret rest (err (other text) v) e h = absurd (cc)

  -- And what is returned has appeared in time.
  poll-Appeared :
      (ticks : ℕ) (s t : State (Process c.World)) (secret : SecretObject)
      → poll_secret c ticks namespace name s ≡ done secret t
      → Appeared ticks s secret t.world.cluster
  unfolding poll_secret raise change ◌>>=◌
  poll-Appeared zero s t secret h = absurd (cc)
  poll-Appeared (suc ticks) s t secret h =
      reply-Appeared ticks s t secret (λ u. poll-Appeared ticks u t secret)
        (c.read_secret namespace name (c.elapse s.world.cluster)) refl
        (sym (step_cases ticks s (c.read_secret namespace name (c.elapse s.world.cluster)) refl)
          ∙ h)

  -- WaitForSecret returns a secret if and only if one of the ticks that are received before the
  -- timeout (of a ticker of 10 seconds and a timer of 10 minutes) finds it and all earlier ones find
  -- it missing; the world is then as that request left it. If all of these ticks find it missing, it
  -- returns the error of the timeout.
  pub wait_for_secret_outcome :
      (s : State (Process c.World))
      → ((secret : SecretObject) (v : c.World)
          → (wait_for_secret c namespace name s ≡ done secret (at_world s v))
            ↔ Appeared (c.ticks_received 10000000000 600000000000 s.world.cluster) s secret v)
        × ((v : c.World)
            → Missing c namespace name
                (c.ticks_received 10000000000 600000000000 s.world.cluster)
                s.world.cluster
                v
            → wait_for_secret c namespace name s
              ≡ fail
                  (about "timed out waiting for secret" (name ∷ namespace ∷ []))
                  (at_world s (c.elapse v)))
  unfolding wait_for_secret
  wait_for_secret_outcome s =
      let ticks = c.ticks_received 10000000000 600000000000 s.world.cluster in
      (
        λ secret v. (
          poll-Appeared ticks s (at_world s v) secret,
          λ (k, less, found). poll_returns ticks k s secret v less found,
        ),
        λ v missing. poll_times_out ticks s v missing,
      )
