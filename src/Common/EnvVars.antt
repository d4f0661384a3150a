-- ===== src/Common/EnvVars.antt =====
-- What merging environment variables gives.
use oadp_operator.Prelude.{
  ◌≡◌, refl, ◌∙◌, String, Bool, true, false, ◌||◌, List, [], ◌∷◌, ◌++◌, Option, none, some, is_some,
  lookup, map, arith, eq_iff, ◌==◌, contains,
}
use oadp_operator.Api.Correct.Laws.{HasNoDuplicates}
use oadp_operator.Common.{
  EnvVar, contains_env_var, add_env_vars, append_env_vars_to, append_unique_env_vars,
}

abbrev first : Option String → Option String → Option String
first none o = o
first (some v) o = some v

lookup-append :
    (a b : List EnvVar) (n : String) → lookup n (a ++ b) ≡ first (lookup n a) (lookup n b)
unfolding lookup
lookup-append [] b n = refl
lookup-append (e ∷ a) b n = ground (arith, lookup-append a b n)

contains_env_var-lookup :
    (vars : List EnvVar) (var : EnvVar) → contains_env_var vars var ≡ is_some (lookup var.0 vars)
unfolding contains_env_var lookup
contains_env_var-lookup [] var = refl
contains_env_var-lookup (e ∷ vars) var = ground (arith, contains_env_var-lookup vars var)

add_env_vars-lookup :
    (base vars : List EnvVar) (n : String)
    → lookup n (add_env_vars base vars) ≡ first (lookup n base) (lookup n vars)
unfolding add_env_vars lookup
add_env_vars-lookup base [] n = ground arith
add_env_vars-lookup base (var ∷ vars) n = ground (
  arith,
  add_env_vars-lookup base vars n,
  add_env_vars-lookup (base ++ var ∷ []) vars n,
  lookup-append base (var ∷ []) n,
  contains_env_var-lookup base var,
  eq_iff var.0 n,
)

-- All the lists in one.
abbrev pub joined : List (List EnvVar) → List EnvVar
joined [] = []
joined (vars ∷ rest) = vars ++ joined rest

append_env_vars_to-lookup :
    (base : List EnvVar) (lists : List (List EnvVar)) (n : String)
    → lookup n (append_env_vars_to base lists) ≡ first (lookup n base) (lookup n (joined lists))
unfolding append_env_vars_to lookup
append_env_vars_to-lookup base [] n = ground arith
append_env_vars_to-lookup base (vars ∷ rest) n = ground (
  arith,
  append_env_vars_to-lookup (add_env_vars base vars) rest n,
  add_env_vars-lookup base vars n,
  lookup-append vars (joined rest) n,
)

abbrev pub env_name : EnvVar → String
env_name var = var.0

neither : (x y : Bool) → x ≡ false → y ≡ false → (x || y) ≡ false
neither x y e f = ground arith

head_differs : (s t : String) (x : Bool) → (s == t || x) ≡ false → (t == s) ≡ false
head_differs s t x h = ground (arith, eq_iff s t, eq_iff t s)

HasNoDuplicates-snoc :
    (base : List EnvVar) (var : EnvVar)
    → HasNoDuplicates (map env_name base)
    → contains_env_var base var ≡ false
    → HasNoDuplicates (map env_name (base ++ var ∷ []))
unfolding contains_env_var
HasNoDuplicates-snoc [] var h e = (refl, tt)
HasNoDuplicates-snoc (b ∷ base) var (new, h) e =
    (still_new, HasNoDuplicates-snoc base var h (ground arith))
  where
    names_snoc :
        (l : List EnvVar)
        → contains (map env_name (l ++ var ∷ [])) b.0
          ≡ (contains (map env_name l) b.0 || var.0 == b.0)
    names_snoc [] = ground arith
    names_snoc (x ∷ l) = ground (arith, names_snoc l)

    still_new : contains (map env_name (base ++ var ∷ [])) b.0 ≡ false
    still_new =
        names_snoc base
        ∙ neither (contains (map env_name base) b.0) (var.0 == b.0) new (head_differs b.0 var.0 _ e)

add_env_vars-HasNoDuplicates :
    (base vars : List EnvVar)
    → HasNoDuplicates (map env_name base)
    → HasNoDuplicates (map env_name (add_env_vars base vars))
unfolding add_env_vars
add_env_vars-HasNoDuplicates base [] h = h
add_env_vars-HasNoDuplicates base (var ∷ vars) h =
    either _ _ (contains_env_var base var) refl (add_env_vars-HasNoDuplicates base vars h) (λ e.
      add_env_vars-HasNoDuplicates (base ++ var ∷ []) vars (HasNoDuplicates-snoc base var h e))
  where
    either :
        (xs ys : List EnvVar) (b : Bool)
        → contains_env_var base var ≡ b
        → HasNoDuplicates (map env_name xs)
        → (contains_env_var base var ≡ false → HasNoDuplicates (map env_name ys))
        → HasNoDuplicates (map env_name (elim b [ true ↦ xs | false ↦ ys ]))
    either xs ys true e p q = p
    either xs ys false e p q = q e

append_env_vars_to-HasNoDuplicates :
    (base : List EnvVar) (lists : List (List EnvVar))
    → HasNoDuplicates (map env_name base)
    → HasNoDuplicates (map env_name (append_env_vars_to base lists))
unfolding append_env_vars_to
append_env_vars_to-HasNoDuplicates base [] h = h
append_env_vars_to-HasNoDuplicates base (vars ∷ rest) h =
    append_env_vars_to-HasNoDuplicates (add_env_vars base vars) rest
      (add_env_vars-HasNoDuplicates base vars h)

-- AppendUniqueEnvVars gives each name the value that the first of the lists gives it, the lists
-- being read one after the other, and no name that none of them has; no name occurs twice.
pub append_unique_env_vars_sound :
    (lists : List (List EnvVar)) (n : String)
    → (lookup n (append_unique_env_vars lists) ≡ lookup n (joined lists))
      × HasNoDuplicates (map env_name (append_unique_env_vars lists))
unfolding append_unique_env_vars lookup
append_unique_env_vars_sound lists n =
    (append_env_vars_to-lookup [] lists n, append_env_vars_to-HasNoDuplicates [] lists tt)
