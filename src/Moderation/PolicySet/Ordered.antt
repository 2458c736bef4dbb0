-- ===== src/Moderation/PolicySet/Ordered.antt =====
-- The list of policies that `List` shows.
use mathlib.Core.List.{Permᴰ}
use hate_sentry.Base.{
  ◌≡◌, ◌≢◌, inl, inr, refl, sym, ap, ◌∙◌, String, true, false, List, [], ◌∷◌, arith, eq_iff,
  Bool-cases, All,
}
use hate_sentry.Base.Text.{trim_space}
use hate_sentry.Errors.{ok}
use hate_sentry.Moderation.Policy.{Policy, validate}
use hate_sentry.Moderation.Policy.Thresholds.{validate-version}
use hate_sentry.Moderation.PolicySet.{
  PolicySet, PolicyConfig, text_lt, config_less, policy_config, insert_sorted, sort_configs,
  other_configs, list_policies, new_policy_set,
}
use hate_sentry.Moderation.PolicySet.Register.{Table, start, new_policy_set_parts}
use hate_sentry.Moderation.PolicySet.Listing.{
  text_lt_trans, text_lt_connex, Apart, sort-perm, other_configs-perm,
}
use hate_sentry.Moderation.PolicySet.Keyed.{
  register-Keyed, other_configs-Apart, default-apart, other_configs-plain,
}

module _ (P : PolicyConfig → Type 0) where
  All-insert :
      (x : PolicyConfig) (l : List PolicyConfig) → P x → All P l → All P (insert_sorted x l)
  unfolding insert_sorted
  All-insert x [] h a = (h, tt)
  All-insert x (y ∷ l) h a = elim (Bool-cases (config_less x y)) [
    | inl e ↦ rw e (h, a)
    | inr e ↦ rw e (a.0, All-insert x l h a.1)
  ]

  All-sort : (l : List PolicyConfig) → All P l → All P (sort_configs l)
  unfolding sort_configs
  All-sort [] a = tt
  All-sort (x ∷ l) a = All-insert x (sort_configs l) a.0 (All-sort l a.1)

-- Each version is below all that follow.
abbrev pub Ascending : List PolicyConfig → Type 0
Ascending [] = Unit
Ascending (x ∷ l) = All (λ y. text_lt x.version y.version ≡ true) l × Ascending l

All-map :
    (P Q : PolicyConfig → Type 0) (l : List PolicyConfig)
    → ((y : PolicyConfig) → P y → Q y)
    → All P l
    → All Q l
All-map P Q [] f a = tt
All-map P Q (x ∷ l) f a = (f x a.0, All-map P Q l f a.1)

plain_less :
    (x y : PolicyConfig)
    → x.is_default ≡ false
    → y.is_default ≡ false
    → config_less x y ≡ text_lt x.version y.version
unfolding config_less
plain_less x y h k = rw (h, k)

insert-Ascending :
    (x : PolicyConfig) (l : List PolicyConfig)
    → x.is_default ≡ false
    → All (λ y. y.is_default ≡ false) l
    → All (λ y. x.version ≢ y.version) l
    → Ascending l
    → Ascending (insert_sorted x l)
unfolding insert_sorted
insert-Ascending x [] d a n s = (tt, tt)
insert-Ascending x (y ∷ l) d a n s = elim (Bool-cases (config_less x y)) [
  | inl e ↦
      let first : text_lt x.version y.version ≡ true = sym (plain_less x y d a.0) ∙ e in
      rw e ((first, All-map _ _ l (λ z. text_lt_trans x.version y.version z.version first) s.0), s)
  | inr e ↦
      let later : text_lt y.version x.version ≡ true =
        ground (arith, plain_less x y d a.0, text_lt_connex x.version y.version n.0) in
      rw e (
        All-insert (λ z. text_lt y.version z.version ≡ true) x l later s.0,
        insert-Ascending x l d a.1 n.1 s.1,
      )
]

sort-Ascending :
    (l : List PolicyConfig)
    → All (λ y. y.is_default ≡ false) l
    → Apart l
    → Ascending (sort_configs l)
unfolding sort_configs
sort-Ascending [] a n = tt
sort-Ascending (x ∷ l) a n =
    insert-Ascending x (sort_configs l) a.0 (All-sort (λ y. y.is_default ≡ false) l a.1)
      (All-sort (λ y. x.version ≢ y.version) l n.0) (sort-Ascending l a.1 n.1)

-- The default policy goes in front.
insert-default :
    (x : PolicyConfig) (l : List PolicyConfig)
    → x.is_default ≡ true
    → All (λ y. y.is_default ≡ false) l
    → insert_sorted x l ≡ x ∷ l
unfolding insert_sorted config_less
insert-default x [] d a = refl
insert-default x (y ∷ l) d a = rw (d, a.0)

list_policies-shown :
    (ps : PolicySet) (m : Table)
    → validate ps.default_policy ≡ ok tt
    → list_policies ps m ≡ sort_configs (policy_config ps.default_policy true ∷ other_configs ps m)
unfolding list_policies
list_policies-shown ps m h =
    ground (
      arith,
      eq_iff (trim_space ps.default_policy.version) "",
      validate-version ps.default_policy h,
    )

list_policies-front :
    (ps : PolicySet) (m : Table)
    → validate ps.default_policy ≡ ok tt
    → list_policies ps m ≡ policy_config ps.default_policy true ∷ sort_configs (other_configs ps m)
unfolding sort_configs policy_config
list_policies-front ps m h =
    list_policies-shown ps m h
    ∙ insert-default (policy_config ps.default_policy true) (sort_configs (other_configs ps m)) refl
        (All-sort (λ y. y.is_default ≡ false) _ (other_configs-plain ps m))

All-both :
    (P Q : PolicyConfig → Type 0) (l : List PolicyConfig)
    → All P l
    → All Q l
    → All (λ y. P y × Q y) l
All-both P Q [] a b = tt
All-both P Q (x ∷ l) a b = ((a.0, b.0), All-both P Q l a.1 b.1)

-- For a configured set the list does not depend on the order in which Go ranges over the map: the
-- default policy comes first and alone carries the mark, and the others follow by ascending version.
pub list_policies-stable :
    (quote : String → String) (d : Policy) (others : List Policy) (ps : PolicySet) (entries : Table)
    → new_policy_set quote d others ≡ ok ps
    → Permᴰ ps.policies entries
    → (list_policies ps entries ≡ list_policies ps ps.policies)
      × ((rest : List PolicyConfig) × (list_policies ps entries ≡ policy_config d true ∷ rest)
          × All (λ y. (y.is_default ≡ false) × (y.version ≢ d.version)) rest
          × Ascending rest)
list_policies-stable quote d others ps entries h r =
    let (valid, registers, default_eq) = new_policy_set_parts quote d others ps h in
    let default_valid : validate ps.default_policy ≡ ok tt = rw default_eq valid in
    let keyed = register-Keyed quote (start d) ps.policies others registers (refl, tt, tt) in
    let apart = other_configs-Apart ps ps.policies keyed in
    let same = sort-perm (other_configs-perm ps r) apart in
    let front : list_policies ps entries
        ≡ policy_config ps.default_policy true ∷ sort_configs (other_configs ps ps.policies) =
      rw same (list_policies-front ps entries default_valid) in
    let plain = other_configs-plain ps ps.policies in
    (
      front ∙ sym (list_policies-front ps ps.policies default_valid),
      (
        sort_configs (other_configs ps ps.policies),
        rw (← default_eq) front,
        All-sort (λ y. (y.is_default ≡ false) × (y.version ≢ d.version)) _
            (All-both (λ y. y.is_default ≡ false) (λ y. y.version ≢ d.version) _ plain
              (All-map (λ y. ps.default_policy.version ≢ y.version) (λ y. y.version ≢ d.version) _
                (λ y n e. n (sym (e ∙ ap (λ p. p.version) (sym default_eq))))
                (default-apart ps ps.policies default_valid keyed))),
        sort-Ascending (other_configs ps ps.policies) plain apart,
      ),
    )
