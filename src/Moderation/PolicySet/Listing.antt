-- ===== src/Moderation/PolicySet/Listing.antt =====
-- The sort of `List` does not depend on the order in which Go ranges over the map.
use Prim.Native.String.{[] as empty, ◌∷◌ as char}
use Prim.Native.Char.{code}
use mathlib.Core.List.{Permᴰ}
use mathlib.Core.List.Permᴰ
use mathlib.Core.List.Permᴰ.{nil, cons, swap, trans}
use mathlib.Core.Path.{ap₂, subst, subst₂}
use text.Mathlib.TextEquality.{Char-path}
use hate_sentry.Base.{
  ◌≡◌, ◌≢◌, inl, inr, refl, sym, ap, ◌∙◌, String, Bool, true, false, not, List, [], ◌∷◌, arith,
  Bool-cases, ◌==◌, All,
}
use hate_sentry.Moderation.Policy.{Policy}
use hate_sentry.Moderation.PolicySet.{
  PolicySet, PolicyConfig, text_lt, config_less, policy_config, insert_sorted, sort_configs,
  is_seen, unless, other_configs,
}

pub text_lt_trans : (s t u : String) → text_lt s t ≡ true → text_lt t u ≡ true → text_lt s u ≡ true
unfolding text_lt
text_lt_trans empty empty u h k = cc
text_lt_trans empty (char d t) empty h k = cc
text_lt_trans empty (char d t) (char e u) h k = refl
text_lt_trans (char c s) empty u h k = cc
text_lt_trans (char c s) (char d t) empty h k = cc
text_lt_trans (char c s) (char d t) (char e u) h k = ground (arith, text_lt_trans s t u)

-- Of two different texts exactly one comes first.
pub text_lt_connex : (s t : String) → s ≢ t → text_lt s t ≡ not (text_lt t s)
unfolding text_lt
text_lt_connex empty empty h = absurd (h refl)
text_lt_connex empty (char d t) h = refl
text_lt_connex (char c s) empty h = refl
text_lt_connex (char c s) (char d t) h = elim (Bool-cases (code c == code d)) [
  | inl e ↦
      let same : code c ≡ code d = ground arith in
      ground (arith, text_lt_connex s t (λ p. h (ap₂ char (Char-path c d same) p)))
  | inr e ↦ ground arith
]

pub config_less_trans :
    (a b c : PolicyConfig)
    → config_less a b ≡ true
    → config_less b c ≡ true
    → config_less a c ≡ true
unfolding config_less
config_less_trans a b c h k = ground (arith, text_lt_trans a.version b.version c.version)

pub config_less_connex :
    (a b : PolicyConfig) → a.version ≢ b.version → config_less a b ≡ not (config_less b a)
unfolding config_less
config_less_connex a b h = ground (arith, text_lt_connex a.version b.version h)

insert_comm :
    (x y : PolicyConfig) (l : List PolicyConfig)
    → x.version ≢ y.version
    → insert_sorted x (insert_sorted y l) ≡ insert_sorted y (insert_sorted x l)
unfolding insert_sorted
insert_comm x y [] h = ground (arith, config_less_connex x y h)
insert_comm x y (z ∷ l) h = ground (
  arith,
  config_less_connex x y h,
  config_less_trans x y z,
  config_less_trans y x z,
  insert_comm x y l h,
)

-- Versions that are all different.
abbrev pub Apart : List PolicyConfig → Type 0
Apart [] = Unit
Apart (x ∷ xs) = All (λ y. x.version ≢ y.version) xs × Apart xs

pub All-perm : {A : Type 0} (P : A → Type 0) {xs ys : List A} → Permᴰ xs ys → All P xs → All P ys
All-perm P nil h = h
All-perm P (cons e r) h = (subst P e h.0, All-perm P r h.1)
All-perm P (swap e f) h = (subst P f h.1.0, (subst P e h.0, h.1.1))
All-perm P (trans r q) h = All-perm P q (All-perm P r h)

Apart-perm : {xs ys : List PolicyConfig} → Permᴰ xs ys → Apart xs → Apart ys
Apart-perm nil h = h
Apart-perm (cons {a} {b} {l₁} {l₂} e r) h = (
  subst (λ z. All (λ y. z.version ≢ y.version) l₂) e (All-perm (λ y. a.version ≢ y.version) r h.0),
  Apart-perm r h.1,
)
Apart-perm (swap {a} {b} {a'} {b'} {l} e f) h =
    subst₂ (λ x y. Apart (x ∷ y ∷ l)) f e (((λ p. h.0.0 (sym p)), h.1.0), (h.0.1, h.1.1))
Apart-perm (trans r q) h = Apart-perm q (Apart-perm r h)

pub sort-perm :
    {xs ys : List PolicyConfig} → Permᴰ xs ys → Apart xs → sort_configs xs ≡ sort_configs ys
unfolding sort_configs
sort-perm nil h = refl
sort-perm (cons e r) h = rw e (ap (insert_sorted _) (sort-perm r h.1))
sort-perm (swap {a} {b} {a'} {b'} {l} e f) h =
    rw (← e, ← f) (insert_comm a b (sort_configs l) h.0.0)
sort-perm (trans r q) h = sort-perm r h ∙ sort-perm q (Apart-perm r h)

unless-perm :
    (b : Bool) (x : PolicyConfig) {l m : List PolicyConfig}
    → Permᴰ l m
    → Permᴰ (unless b x l) (unless b x m)
unless-perm true x r = r
unless-perm false x r = cons refl r

unless-swap :
    (b c : Bool) (x y : PolicyConfig) (l : List PolicyConfig)
    → Permᴰ (unless b x (unless c y l)) (unless c y (unless b x l))
unless-swap true c x y l = Permᴰ.refl _
unless-swap false true x y l = Permᴰ.refl _
unless-swap false false x y l = swap refl refl

pub other_configs-perm :
    (ps : PolicySet) {es fs : List (String × Policy)}
    → Permᴰ es fs
    → Permᴰ (other_configs ps es) (other_configs ps fs)
unfolding other_configs
other_configs-perm ps nil = nil
other_configs-perm ps (cons {a} {b} e r) =
    rw e (unless-perm (is_seen ps b.0) (policy_config b.1 false) (other_configs-perm ps r))
other_configs-perm ps (swap {a} {b} {a'} {b'} {l} e f) =
    rw (← e, ← f)
      (unless-swap (is_seen ps a.0) (is_seen ps b.0) (policy_config a.1 false)
        (policy_config b.1 false) (other_configs ps l))
other_configs-perm ps (trans r q) = trans (other_configs-perm ps r) (other_configs-perm ps q)
