-- ===== src/Moderation/PolicySet/Keyed.antt =====
-- The registered policies have different versions, and `List` shows each of them once.
use mathlib.Core.Path.{subst}
use hate_sentry.Base.{
  ◌≡◌, ◌≢◌, inl, inr, refl, sym, ◌∙◌, String, Bool, true, false, List, [], ◌∷◌, str_eq, arith,
  eq_iff, Bool-cases, All, insert,
}
use hate_sentry.Base.Text.{trim_space}
use hate_sentry.Errors.{ok}
use hate_sentry.Moderation.Policy.{Policy, validate}
use hate_sentry.Moderation.Policy.Thresholds.{validate-version}
use hate_sentry.Moderation.PolicySet.{
  PolicySet, PolicyConfig, policy_config, is_seen, unless, other_configs, register,
}
use hate_sentry.Moderation.PolicySet.Register.{Table, register_step}
use hate_sentry.Moderation.PolicySet.Listing.{Apart}

-- Each entry's key is its policy's version, and no key occurs twice.
abbrev pub Keyed : List (String × Policy) → Type 0
Keyed [] = Unit
Keyed ((v, p) ∷ m) = (v ≡ p.version) × All (λ e. e.0 ≢ v) m × Keyed m

Apart-unless :
    (b : Bool) (x : PolicyConfig) (l : List PolicyConfig)
    → All (λ y. x.version ≢ y.version) l
    → Apart l
    → Apart (unless b x l)
Apart-unless true x l h a = a
Apart-unless false x l h a = (h, a)

insert-apart :
    (k v : String) (p : Policy) (m : List (String × Policy))
    → k ≢ v
    → All (λ e. e.0 ≢ v) m
    → All (λ e. e.0 ≢ v) (insert k p m)
unfolding insert
insert-apart k v p [] h a = (h, tt)
insert-apart k v p ((j, w) ∷ m) h a = ground (arith, insert-apart k v p m h a.1, eq_iff j k)

pub insert-Keyed :
    (p : Policy) (m : List (String × Policy)) → Keyed m → Keyed (insert p.version p m)
unfolding insert
insert-Keyed p [] h = (refl, tt, tt)
insert-Keyed p ((j, w) ∷ m) h = elim (Bool-cases (str_eq j p.version)) [
  | inl same ↦
      let e : j ≡ p.version = (eq_iff _ _).0 same in
      rw same (refl, subst (λ v. All (λ e'. e'.0 ≢ v) m) e h.1, h.2)
  | inr other ↦ rw other (
    h.0,
    insert-apart p.version j p m (λ e. ground (arith, eq_iff j p.version)) h.1,
    insert-Keyed p m h.2,
  )
]

pub register-Keyed :
    (quote : String → String) (m r : Table) (ps : List Policy)
    → register quote m ps ≡ ok r
    → Keyed m
    → Keyed r
unfolding register
register-Keyed quote m r [] h k = let e : m ≡ r = ground arith in subst Keyed e k
register-Keyed quote m r (p ∷ ps) h k =
    let (valid, fresh, rest) = register_step quote m r p ps h in
    register-Keyed quote (insert p.version p m) r ps rest (insert-Keyed p m k)

All-unless :
    (P : PolicyConfig → Type 0) (b : Bool) (x : PolicyConfig) (l : List PolicyConfig)
    → (b ≡ false → P x)
    → All P l
    → All P (unless b x l)
All-unless P true x l h a = a
All-unless P false x l h a = (h refl, a)

module _ (ps : PolicySet) where
  pub other_configs-apart :
      (v : String) (m : Table)
      → Keyed m
      → All (λ e. e.0 ≢ v) m
      → All (λ y. v ≢ y.version) (other_configs ps m)
  unfolding other_configs
  other_configs-apart v [] k a = tt
  other_configs-apart v ((j, p) ∷ m) k a =
      All-unless (λ y. v ≢ y.version) (is_seen ps j) (policy_config p false) (other_configs ps m)
        (λ _ e. a.0 (k.0 ∙ sym e)) (other_configs-apart v m k.2 a.1)

  pub other_configs-Apart : (m : Table) → Keyed m → Apart (other_configs ps m)
  unfolding other_configs
  other_configs-Apart [] k = tt
  other_configs-Apart ((j, p) ∷ m) k =
      Apart-unless (is_seen ps j) (policy_config p false) (other_configs ps m)
        (other_configs-apart p.version m k.2 (subst (λ v. All (λ e. e.0 ≢ v) m) k.0 k.1))
        (other_configs-Apart m k.2)

  -- The default policy is shown once.
  pub default-apart :
      (m : Table)
      → validate ps.default_policy ≡ ok tt
      → Keyed m
      → All (λ y. ps.default_policy.version ≢ y.version) (other_configs ps m)
  unfolding other_configs
  default-apart [] h k = tt
  default-apart ((j, p) ∷ m) h k =
      All-unless (λ y. ps.default_policy.version ≢ y.version) (is_seen ps j) (policy_config p false)
        (other_configs ps m)
        (λ unseen e. ground (
          arith,
          k.0,
          eq_iff ps.default_policy.version j,
          eq_iff (trim_space ps.default_policy.version) "",
          validate-version ps.default_policy h,
        ))
        (default-apart m h k.2)

  pub other_configs-plain : (m : Table) → All (λ y. y.is_default ≡ false) (other_configs ps m)
  unfolding other_configs
  other_configs-plain [] = tt
  other_configs-plain ((j, p) ∷ m) =
      All-unless (λ y. y.is_default ≡ false) (is_seen ps j) (policy_config p false)
        (other_configs ps m) (λ _. refl) (other_configs-plain m)
