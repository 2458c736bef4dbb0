-- ===== src/Moderation/PolicySet/Register.antt =====
-- What `NewPolicySet` registers, and what `PolicyForVersion` finds.
use hate_sentry.Base.{
  ◌≡◌, ◌≢◌, ◌↔◌, ◌⊎◌, inl, inr, refl, String, false, List, [], ◌∷◌, none, some, map, lookup, insert,
  lookup-insert, contains, str_eq, All, All-Occurs, Occurs, Distinct, arith, eq_iff, Bool-cases,
  str_eq_ne,
}
use hate_sentry.Base.Text.{trim_space}
use hate_sentry.Errors.{ok}
use hate_sentry.Moderation.Policy.{Policy, validate}
use hate_sentry.Moderation.Policy.Thresholds.{validate-version}
use mathlib.Core.Path.{subst}
use hate_sentry.Moderation.PolicySet.{PolicySet, register, new_policy_set, policy_for_version}

abbrev pub Table : Type 0
Table = List (String × Policy)

-- Every entry is a valid policy under its own version.
abbrev pub IsTable : Table → Type 0
IsTable m = (v : String) (p : Policy) → lookup v m ≡ some p → (p.version ≡ v) × (validate p ≡ ok tt)

abbrev pub versions : List Policy → List String
versions = map (λ p. p.version)

-- What the loop starts from.
abbrev pub start : Policy → Table
start d = (d.version, d) ∷ []

insert-IsTable :
    (m : Table) (p : Policy) → validate p ≡ ok tt → IsTable m → IsTable (insert p.version p m)
insert-IsTable m p valid t v q h =
    ground (arith, lookup-insert p.version v p m, t v q, eq_iff p.version v)

module _ (quote : String → String) where
  pub register_step :
      (m r : Table) (p : Policy) (ps : List Policy)
      → register quote m (p ∷ ps) ≡ ok r
      → (validate p ≡ ok tt)
        × (lookup p.version m ≡ none)
        × (register quote (insert p.version p m) ps ≡ ok r)
  unfolding register
  register_step m r p ps h = ground arith

  register-IsTable :
      (m r : Table) (ps : List Policy) → register quote m ps ≡ ok r → IsTable m → IsTable r
  unfolding register
  register-IsTable m r [] h t = λ v p e. ground (arith, t v p)
  register-IsTable m r (p ∷ ps) h t =
      let (valid, fresh, rest) = register_step m r p ps h in
      register-IsTable (insert p.version p m) r ps rest (insert-IsTable m p valid t)

  -- Registering keeps what is there.
  register-keeps :
      (m r : Table) (ps : List Policy) (v : String) (q : Policy)
      → register quote m ps ≡ ok r
      → lookup v m ≡ some q
      → lookup v r ≡ some q
  unfolding register
  register-keeps m r [] v q h e = ground arith
  register-keeps m r (p ∷ ps) v q h e =
      let (valid, fresh, rest) = register_step m r p ps h in
      register-keeps (insert p.version p m) r ps v q rest
        (ground (arith, lookup-insert p.version v p m, eq_iff p.version v))

  register-finds :
      (m r : Table) (ps : List Policy)
      → register quote m ps ≡ ok r
      → All (λ p. lookup p.version r ≡ some p) ps
  register-finds m r [] h = tt
  register-finds m r (p ∷ ps) h =
      let (valid, fresh, rest) = register_step m r p ps h in
      (
        register-keeps (insert p.version p m) r ps p.version p rest
            (ground (arith, lookup-insert p.version p.version p m, eq_iff p.version p.version)),
        register-finds (insert p.version p m) r ps rest,
      )

  -- A version that the table does not hold is taken again only once.
  abbrev Fresh : Table → List Policy → Type 0
  Fresh m ps = All (λ p. lookup p.version m ≡ none) ps

  Fresh-insert :
      (m : Table) (p : Policy) (ps : List Policy)
      → (contains p.version (versions ps) ≡ false) × Fresh m ps ↔ Fresh (insert p.version p m) ps
  Fresh-insert m p [] = (λ h. tt, λ h. (refl, tt))
  Fresh-insert m p (q ∷ ps) =
      let ih = Fresh-insert m p ps in
      let here = lookup-insert p.version q.version p m in
      let same = eq_iff p.version q.version in
      let flip = eq_iff q.version p.version in
      (
        λ h. (ground (arith, here, same, flip, h), ih.0 (ground (arith, h), h.1.1)),
        λ h.
            let (once, others) = ih.1 h.1 in
            (
              ground (arith, here, same, flip, h.0, once),
              (ground (arith, here, same, h.0), others),
            ),
      )

  register-ok_iff :
      (m : Table) (ps : List Policy)
      → ((r : Table) × (register quote m ps ≡ ok r))
        ↔ (All (λ p. validate p ≡ ok tt) ps × Fresh m ps × Distinct (versions ps))
  unfolding register
  register-ok_iff m [] = (λ h. (tt, tt, tt), λ h. (m, refl))
  register-ok_iff m (p ∷ ps) = (
    λ (r, h).
        let (valid, fresh, rest) = register_step m r p ps h in
        let (v, f, d) = (register-ok_iff (insert p.version p m) ps).0 (r, rest) in
        let (once, others) = (Fresh-insert m p ps).1 f in ((valid, v), (fresh, others), (once, d)),
    λ (v, f, d).
        let (r, h) =
          (register-ok_iff (insert p.version p m) ps).1
            (v.1, (Fresh-insert m p ps).0 (d.0, f.1), d.1) in
        (r, rw (v.0, f.0) h),
  )

  start-IsTable : (d : Policy) → validate d ≡ ok tt → IsTable (start d)
  unfolding lookup
  start-IsTable d valid v p h = ground (arith, eq_iff d.version v)

  Fresh-start :
      (d : Policy) (ps : List Policy)
      → (contains d.version (versions ps) ≡ false) ↔ Fresh (start d) ps
  unfolding lookup
  Fresh-start d [] = (λ h. tt, λ h. refl)
  Fresh-start d (q ∷ ps) =
      let ih = Fresh-start d ps in
      let same = eq_iff d.version q.version in
      let flip = eq_iff q.version d.version in
      (
        λ h. (ground (arith, same, flip, h), ih.0 (ground (arith, h))),
        λ h. let once = ih.1 h.1 in ground (arith, same, flip, h.0, once),
      )

  pub new_policy_set_parts :
      (d : Policy) (ps : List Policy) (set : PolicySet)
      → new_policy_set quote d ps ≡ ok set
      → (validate d ≡ ok tt)
        × (register quote (start d) ps ≡ ok set.policies)
        × (set.default_policy ≡ d)
  unfolding new_policy_set
  new_policy_set_parts d ps set h = ground arith

  new_policy_set_of_parts :
      (d : Policy) (ps : List Policy) (r : Table)
      → validate d ≡ ok tt
      → register quote (start d) ps ≡ ok r
      → new_policy_set quote d ps ≡ ok (record { default_policy = d; policies = r })
  unfolding new_policy_set
  new_policy_set_of_parts d ps r h k = rw (h, k)

  -- `NewPolicySet` accepts exactly valid policies with versions that are all different.
  pub new_policy_set-ok_iff :
      (d : Policy) (ps : List Policy)
      → ((set : PolicySet) × (new_policy_set quote d ps ≡ ok set))
        ↔ (All (λ p. validate p ≡ ok tt) (d ∷ ps) × Distinct (versions (d ∷ ps)))
  new_policy_set-ok_iff d ps = (
    λ (set, h).
        let (valid, registers, _) = new_policy_set_parts d ps set h in
        let (v, f, u) = (register-ok_iff (start d) ps).0 (set.policies, registers) in
        ((valid, v), ((Fresh-start d ps).1 f, u)),
    λ (v, u).
        let (r, h) = (register-ok_iff (start d) ps).1 (v.1, (Fresh-start d ps).0 u.0, u.1) in
        (record { default_policy = d; policies = r }, new_policy_set_of_parts d ps r v.0 h),
  )

  set-IsTable :
      (d : Policy) (ps : List Policy) (set : PolicySet)
      → new_policy_set quote d ps ≡ ok set
      → IsTable set.policies
  set-IsTable d ps set h =
      let (valid, registers, _) = new_policy_set_parts d ps set h in
      register-IsTable (start d) set.policies ps registers (start-IsTable d valid)

  set-finds :
      (d : Policy) (ps : List Policy) (set : PolicySet)
      → new_policy_set quote d ps ≡ ok set
      → All (λ p. lookup p.version set.policies ≡ some p) (d ∷ ps)
  unfolding lookup
  set-finds d ps set h =
      let (valid, registers, _) = new_policy_set_parts d ps set h in
      (
        register-keeps (start d) set.policies ps d.version d registers
            (ground (arith, eq_iff d.version d.version)),
        register-finds (start d) set.policies ps registers,
      )

  -- Every configured policy whose version has no blanks around it is found under that version, and
  -- the default policy is what a blank version stands for.
  pub policy_for_version-registered :
      (d : Policy) (ps : List Policy) (set : PolicySet) (p : Policy)
      → new_policy_set quote d ps ≡ ok set
      → Occurs p (d ∷ ps)
      → trim_space p.version ≡ p.version
      → (policy_for_version quote set p.version ≡ ok p)
        × ((blank : String) → trim_space blank ≡ "" → policy_for_version quote set blank ≡ ok d)
  unfolding policy_for_version
  policy_for_version-registered d ps set p h m t =
      let (valid, registers, default_eq) = new_policy_set_parts d ps set h in
      let found =
        All-Occurs (λ q. lookup q.version set.policies ≡ some q) (d ∷ ps) (set-finds d ps set h)
          m in
      let (_, p_valid) = set-IsTable d ps set h p.version p found in
      (
        rw (t, str_eq_ne _ _ (subst (λ v. v ≢ "") t (validate-version p p_valid)), found),
        λ blank e. rw (e, default_eq),
      )

  -- What `PolicyForVersion` finds is valid, and it is the default policy for a blank version and
  -- otherwise a policy of exactly the trimmed version.
  pub policy_for_version-valid :
      (d : Policy) (ps : List Policy) (set : PolicySet) (version : String) (p : Policy)
      → new_policy_set quote d ps ≡ ok set
      → policy_for_version quote set version ≡ ok p
      → (validate p ≡ ok tt)
        × (((trim_space version ≡ "") × (p ≡ d))
            ⊎ ((trim_space version ≢ "") × (p.version ≡ trim_space version)))
  unfolding policy_for_version
  policy_for_version-valid d ps set version p h e =
      let (valid, registers, default_eq) = new_policy_set_parts d ps set h in
      let table = set-IsTable d ps set h (trim_space version) p in
      elim (Bool-cases (str_eq (trim_space version) "")) [
        | inl blank ↦
            let p_eq : p ≡ d = ground (arith, default_eq) in
            (rw p_eq valid, inl ((eq_iff _ _).0 blank, p_eq))
        | inr named ↦
            let (version_eq, p_valid) = table (ground arith) in
            (p_valid, inr (ground (arith, eq_iff (trim_space version) ""), version_eq))
      ]
