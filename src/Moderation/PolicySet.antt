-- ===== src/Moderation/PolicySet.antt =====
-- internal/moderation/policy.go: the configured policies by version.
--
-- `quote` is the `%q` of `fmt`, which only the texts of errors use. A map is an association list,
-- and the order in which Go ranges over it is the list that `list_policies` is given.
pub mod Register
pub mod Listing
pub mod Keyed
pub mod Ordered
use Prim.Native.String.{[] as nil, ◌∷◌ as cons, ◌++◌ as concat}
use Prim.Native.Char.{code}
use hate_sentry.Base.{
  String, Bool, true, false, not, List, [], ◌∷◌, ◌++◌, Option, none, some, lookup, insert, ltb,
  ◌==◌, str_eq, if◌then◌else◌,
}
use hate_sentry.Base.Text.{trim_space}
use hate_sentry.Float64.{Float64}
use hate_sentry.Errors.{Error, Result, ok, err, plain_error, reject_if, ◌>>◌, ◌>>=◌}
use hate_sentry.Moderation.Policy.{Policy, validate}

pub record PolicySet : Type 0 where
  pub default_policy : Policy
  pub policies : List (String × Policy)

pub record PolicyConfig : Type 0 where
  pub version : String
  pub review_threshold : Float64
  pub block_threshold : Float64
  pub is_default : Bool

abbrev pub is_some {ℓ} : {A : Type ℓ} → Option A → Bool
is_some none = false
is_some (some _) = true

module _ (quote : String → String) where
  duplicate_version : Policy → Error
  duplicate_version p = plain_error (concat "duplicate policy version " (quote p.version))

  -- The loop of `NewPolicySet`.
  unfoldable pub register : List (String × Policy) → List Policy → Result (List (String × Policy))
  unfolding duplicate_version
  register registered [] = ok registered
  register registered (policy ∷ policies) = do
    validate policy
    reject_if (is_some (lookup policy.version registered)) (duplicate_version policy)
    register (insert policy.version policy registered) policies

  unfoldable pub new_policy_set : Policy → List Policy → Result PolicySet
  unfolding register
  new_policy_set default_policy policies = do
    validate default_policy
    registered ← register ((default_policy.version, default_policy) ∷ []) policies
    ok (record { default_policy = default_policy; policies = registered })

  abbrev found_policy : String → Option Policy → Result Policy
  found_policy version none =
      err (plain_error (concat "policy_version " (concat (quote version) " is not configured")))
  found_policy version (some policy) = ok policy

  unfoldable pub policy_for_version : PolicySet → String → Result Policy
  policy_for_version ps version =
      let version = trim_space version in
      if str_eq version ""
      then ok ps.default_policy
      else found_policy version (lookup version ps.policies)

  -- `ValidatePolicyVersion`.
  unfoldable pub validate_policy_version : PolicySet → String → Result (Unit {0})
  unfolding policy_for_version
  validate_policy_version ps version = do policy ← policy_for_version ps version; ok tt

-- `<` of Go on texts: by code points, which is by bytes of UTF-8.
unfoldable pub text_lt : String → String → Bool
text_lt nil nil = false
text_lt nil (cons d t) = true
text_lt (cons c s) nil = false
text_lt (cons c s) (cons d t) = if code c == code d then text_lt s t else ltb (code c) (code d)

unfoldable pub policy_config : Policy → Bool → PolicyConfig
policy_config policy is_default = record {
  version = policy.version;
  review_threshold = policy.review_threshold;
  block_threshold = policy.block_threshold;
  is_default = is_default;
}

abbrev bool_eq : Bool → Bool → Bool
bool_eq true b = b
bool_eq false b = not b

-- The order that `List` hands to `sort.Slice`.
unfoldable pub config_less : PolicyConfig → PolicyConfig → Bool
unfolding text_lt
config_less a b =
    if not (bool_eq a.is_default b.is_default) then a.is_default else text_lt a.version b.version

unfoldable pub insert_sorted : PolicyConfig → List PolicyConfig → List PolicyConfig
insert_sorted x [] = x ∷ []
insert_sorted x (y ∷ ys) = if config_less x y then x ∷ y ∷ ys else y ∷ insert_sorted x ys

-- `sort.Slice`.
unfoldable pub sort_configs : List PolicyConfig → List PolicyConfig
unfolding insert_sorted
sort_configs [] = []
sort_configs (x ∷ xs) = insert_sorted x (sort_configs xs)

-- `seen[version]`: only the default policy is marked, and only if its version is not blank.
abbrev pub is_seen : PolicySet → String → Bool
is_seen ps version =
    if str_eq (trim_space ps.default_policy.version) ""
    then false
    else str_eq ps.default_policy.version version

-- `if seen[version] {continue }`.
abbrev pub unless : Bool → PolicyConfig → List PolicyConfig → List PolicyConfig
unless true config rest = rest
unless false config rest = config ∷ rest

unfoldable pub other_configs : PolicySet → List (String × Policy) → List PolicyConfig
unfolding policy_config
other_configs ps [] = []
other_configs ps ((version, policy) ∷ entries) =
    unless (is_seen ps version) (policy_config policy false) (other_configs ps entries)

-- `List`, where the map is ranged over in the order of `entries`.
unfoldable pub list_policies : PolicySet → List (String × Policy) → List PolicyConfig
unfolding policy_config other_configs sort_configs
list_policies ps entries =
    let others = other_configs ps entries in
    sort_configs (
      if str_eq (trim_space ps.default_policy.version) ""
      then others
      else policy_config ps.default_policy true ∷ others)
