-- ===== src/Moderation/Parser/Labels.antt =====
-- What `normalizeLabels` of internal/moderation/parser.go lets through.
use hate_sentry.Base.{
  ◌≡◌, ◌≢◌, ◌↔◌, inl, inr, refl, String, true, false, ◌||◌, List, [], ◌∷◌, ◌++◌, map, contains,
  str_eq, arith, eq_iff, Bool-cases, if◌then◌else◌, All, All-append, Distinct, str_eq_ne,
}
use mathlib.Core.Path.{subst}
use hate_sentry.Errors.{ok}
use hate_sentry.Moderation.Types.{is_supported_label}
use hate_sentry.Moderation.Parser.{clean, normalize_loop, normalize_labels}

contains-append :
    (l : String) (xs ys : List String) → contains l (xs ++ ys) ≡ (contains l xs || contains l ys)
contains-append l [] ys = refl
contains-append l (x ∷ xs) ys = ground (arith, contains-append l xs ys)

Distinct-snoc :
    (x : String) (xs : List String) → contains x xs ≡ false → Distinct xs → Distinct (xs ++ x ∷ [])
Distinct-snoc x [] h d = (refl, tt)
Distinct-snoc x (y ∷ xs) h d = (
  ground (arith, contains-append y xs (x ∷ []), eq_iff x y, eq_iff y x, d.0),
  Distinct-snoc x xs (ground arith) d.1,
)

blank-unsupported : is_supported_label "" ≡ false
unfolding is_supported_label
blank-unsupported = refl

supported-nonblank : (x : String) → is_supported_label x ≡ true → str_eq x "" ≡ false
supported-nonblank x h =
    str_eq_ne x "" (λ e. cc (subst (λ l. is_supported_label l ≡ true) e h, blank-unsupported))

abbrev pub Supported : List String → Type 0
Supported = All (λ l. is_supported_label l ≡ true)

module _ (to_lower quote : String → String) where
  abbrev cleaned : List String → List String
  cleaned = map (clean to_lower)

  loop_step :
      (seen out r : List String) (l : String) (ls : List String)
      → normalize_loop to_lower quote seen out (l ∷ ls) ≡ ok r
      → (is_supported_label (clean to_lower l) ≡ true)
        × (normalize_loop to_lower quote
              (if contains (clean to_lower l) seen then seen else clean to_lower l ∷ seen)
              (if contains (clean to_lower l) seen then out else out ++ clean to_lower l ∷ [])
              ls
            ≡ ok r)
  unfolding normalize_loop
  loop_step seen out r l ls h = ground arith

  -- What one run of the loop adds to its output.
  loop_lem :
      (seen out r : List String) (ls : List String)
      → normalize_loop to_lower quote seen out ls ≡ ok r
      → ((x : String) → contains x seen ≡ contains x out)
      → Supported out
      → Distinct out
      → Supported r
        × Distinct r
        × ((x : String) → contains x r ≡ (contains x out || contains x (cleaned ls)))
  unfolding normalize_loop
  loop_lem seen out r [] h same s d =
      let e : out ≡ r = ground arith in (subst Supported e s, subst Distinct e d, λ x. ground arith)
  loop_lem seen out r (l ∷ ls) h same s d =
      let c = clean to_lower l in
      let (supported, rest) = loop_step seen out r l ls h in
      elim (Bool-cases (contains c seen)) [
        | inl old ↦
            let (s', d', e) = loop_lem seen out r ls (rw old at rest) same s d in
            (s', d', λ x. ground (arith, e x, same x, eq_iff c x))
        | inr fresh ↦
            let (s', d', e) =
              loop_lem (c ∷ seen) (out ++ c ∷ []) r ls (rw fresh at rest)
                (λ x. ground (arith, same x, contains-append x out (c ∷ [])))
                (All-append (λ l. is_supported_label l ≡ true) out (c ∷ []) s (supported, tt))
                (Distinct-snoc c out (ground (arith, same c)) d) in
            (s', d', λ x. ground (arith, e x, contains-append x out (c ∷ []), eq_iff c x))
      ]

  -- Accepted labels come out trimmed and in lower case, all supported, each once, none lost and
  -- none added, and there is at least one.
  pub normalize_labels_sound :
      (ls r : List String)
      → normalize_labels to_lower quote ls ≡ ok r
      → (r ≢ [])
        × Supported r
        × Distinct r
        × ((x : String) → contains x r ≡ contains x (map (clean to_lower) ls))
  unfolding normalize_labels
  normalize_labels_sound [] r h = cc
  normalize_labels_sound (l ∷ ls) r h =
      let (s, d, e) = loop_lem [] [] r (l ∷ ls) h (λ x. refl) tt tt in
      (
        λ nothing.
            ground
              (arith, nothing, e (clean to_lower l), eq_iff (clean to_lower l) (clean to_lower l)),
        s,
        d,
        e,
      )

  loop-ok_iff :
      (seen out : List String) (ls : List String)
      → ((r : List String) × (normalize_loop to_lower quote seen out ls ≡ ok r))
        ↔ Supported (cleaned ls)
  unfolding normalize_loop
  loop-ok_iff seen out [] = (λ h. tt, λ h. (out, refl))
  loop-ok_iff seen out (l ∷ ls) = (
    λ (r, h).
        let (supported, rest) = loop_step seen out r l ls h in
        (supported, (loop-ok_iff _ _ ls).0 (r, rest)),
    λ s.
        let (r, h) =
          (loop-ok_iff (if contains (clean to_lower l) seen then seen else clean to_lower l ∷ seen)
              (if contains (clean to_lower l) seen then out else out ++ clean to_lower l ∷ []) ls).1
            s.1 in
        (r, rw (supported-nonblank (clean to_lower l) s.0, s.0) h),
  )

  -- Labels are accepted exactly if there is one and each of them, trimmed and in lower case, is in
  -- the vocabulary.
  pub normalize_labels-ok_iff :
      (ls : List String)
      → ((r : List String) × (normalize_labels to_lower quote ls ≡ ok r))
        ↔ ((ls ≢ []) × Supported (map (clean to_lower) ls))
  unfolding normalize_labels
  normalize_labels-ok_iff [] = (λ (r, h). cc, λ (h, s). absurd (h refl))
  normalize_labels-ok_iff (l ∷ ls) = (
    λ h. ((λ e. cc), (loop-ok_iff [] [] (l ∷ ls)).0 h),
    λ (n, s). (loop-ok_iff [] [] (l ∷ ls)).1 s,
  )
