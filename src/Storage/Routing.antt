-- ===== src/Storage/Routing.antt =====
-- MatchRoutingRules and matchConditions of internal/storage/routing.go.
use omniflow_go.Prelude.{
  is_nil, ℕ, ◌≤◌, ◌<◌, ◌≡◌, refl, ◌⊎◌, inl, inr, ◌↔◌, Bool, true, false, ◌&&◌, ◌||◌, not, List, [],
  ◌∷◌, ◌++◌, map, ltb, if◌then◌else◌, arith, Bool-cases, Elem, All,
}
use omniflow_go.Text.{Text, eqb, trim_space, trim_dot}
use omniflow_go.Storage.{Letters, RuleConditions, RoutingRule}

-- strings.EqualFold and strings.HasPrefix.
unfoldable pub equal_fold : Letters → Text → Text → Bool
equal_fold l s t = eqb (map l.fold s) (map l.fold t)

unfoldable pub has_prefix : Text → Text → Bool
has_prefix t [] = true
has_prefix [] (p ∷ ps) = false
has_prefix (x ∷ xs) (p ∷ ps) = eqb (x ∷ []) (p ∷ []) && has_prefix xs ps

unfoldable pub match_extension : Letters → Text → List Text → Bool
unfolding equal_fold
match_extension l ext [] = false
match_extension l ext (e ∷ es) =
    equal_fold l (trim_dot (trim_space e)) ext || match_extension l ext es

unfoldable pub match_mime : Letters → Text → List Text → Bool
unfolding has_prefix
match_mime l lower [] = false
match_mime l lower (p ∷ ps) =
    has_prefix lower (map l.to_lower (trim_space p)) || match_mime l lower ps

unfoldable pub match_conditions : Letters → RuleConditions → ℕ → Text → Text → Bool
unfolding match_extension match_mime
match_conditions l c file_size ext mime =
    if ltb 0 c.min_file_size_bytes && ltb file_size c.min_file_size_bytes
    then false
    else if ltb 0 c.max_file_size_bytes && ltb c.max_file_size_bytes file_size
    then false
    else if not (is_nil c.extensions) && not (match_extension l ext c.extensions)
    then false
    else if not (is_nil c.mime_prefixes)
        && not (match_mime l (map l.to_lower (trim_space mime)) c.mime_prefixes)
    then false
    else true

unfoldable pub match_rules : Letters → List RoutingRule → ℕ → Text → Text → Text
unfolding match_conditions
match_rules l [] file_size ext mime = []
match_rules l (rule ∷ rest) file_size ext mime =
    if match_conditions l rule.conditions file_size ext mime
    then rule.target_provider
    else match_rules l rest file_size ext mime

unfoldable pub match_routing_rules : Letters → List RoutingRule → ℕ → Text → Text → Text
unfolding match_rules
match_routing_rules l rules file_size ext mime =
    match_rules l rules file_size (map l.to_lower (trim_dot (trim_space ext))) mime

-- What a rule asks for, stated on its own: the bounds that are set, and where there is a list of
-- extensions or of types, an entry of it that fits.
abbrev pub Accepts : Letters → RuleConditions → ℕ → Text → Text → Type 0
Accepts l c file_size ext mime =
    (c.min_file_size_bytes ≤ file_size)
    × (0 < c.max_file_size_bytes → file_size ≤ c.max_file_size_bytes)
    × ((c.extensions ≡ [])
        ⊎ ((e : Text) × Elem e c.extensions × (equal_fold l (trim_dot (trim_space e)) ext ≡ true)))
    × ((c.mime_prefixes ≡ [])
        ⊎ ((p : Text) × Elem p c.mime_prefixes
            × (has_prefix (map l.to_lower (trim_space mime)) (map l.to_lower (trim_space p))
                ≡ true)))

match_extension_iff :
    (l : Letters) (ext : Text) (es : List Text)
    → (match_extension l ext es ≡ true)
      ↔ ((e : Text) × Elem e es × (equal_fold l (trim_dot (trim_space e)) ext ≡ true))
unfolding match_extension
match_extension_iff l ext [] = (λ h. absurd (ground arith), λ (e, m, h). absurd m)
match_extension_iff l ext (e ∷ es) =
    let (to, from) = match_extension_iff l ext es in
    (
      λ h. elim (Bool-cases (equal_fold l (trim_dot (trim_space e)) ext)) [
        | inl b ↦ (e, inl refl, b)
        | inr b ↦ let (x, m, k) = to (ground arith) in (x, inr m, k)
      ],
      λ (x, m, k). elim m [ inl q ↦ rw (← q, k) refl | inr n ↦ ground (arith, from (x, n, k)) ],
    )

match_mime_iff :
    (l : Letters) (lower : Text) (ps : List Text)
    → (match_mime l lower ps ≡ true)
      ↔ ((p : Text) × Elem p ps × (has_prefix lower (map l.to_lower (trim_space p)) ≡ true))
unfolding match_mime
match_mime_iff l lower [] = (λ h. absurd (ground arith), λ (e, m, h). absurd m)
match_mime_iff l lower (p ∷ ps) =
    let (to, from) = match_mime_iff l lower ps in
    (
      λ h. elim (Bool-cases (has_prefix lower (map l.to_lower (trim_space p)))) [
        | inl b ↦ (p, inl refl, b)
        | inr b ↦ let (x, m, k) = to (ground arith) in (x, inr m, k)
      ],
      λ (x, m, k). elim m [ inl q ↦ rw (← q, k) refl | inr n ↦ ground (arith, from (x, n, k)) ],
    )

list_part :
    {A : Type 0} (xs : List A) (hit : Bool) (P : Type 0)
    → (hit ≡ true) ↔ P
    → (not (is_nil xs) && not hit ≡ false) ↔ ((xs ≡ []) ⊎ P)
list_part [] hit P h = (λ k. inl refl, λ k. refl)
list_part (x ∷ xs) hit P (to, from) =
    (λ k. inr (to (ground arith)), λ k. elim k [ inl e ↦ cc | inr p ↦ ground (arith, from p) ])

-- The test accepts exactly what the conditions ask for.
pub match_conditions-Accepts :
    (l : Letters) (c : RuleConditions) (file_size : ℕ) (ext mime : Text)
    → (match_conditions l c file_size ext mime ≡ true) ↔ Accepts l c file_size ext mime
unfolding match_conditions
match_conditions-Accepts l c n ext mime =
    let es =
      list_part c.extensions (match_extension l ext c.extensions) _
        (match_extension_iff l ext c.extensions) in
    let ms =
      list_part c.mime_prefixes (match_mime l (map l.to_lower (trim_space mime)) c.mime_prefixes) _
        (match_mime_iff l (map l.to_lower (trim_space mime)) c.mime_prefixes) in
    (
      λ h. (ground arith, ground arith, es.0 (ground arith), ms.0 (ground arith)),
      λ (a, b, e, m). let e' = es.1 e in let m' = ms.1 m in ground arith,
    )

match_rules_first :
    (l : Letters) (rules : List RoutingRule) (file_size : ℕ) (ext mime : Text)
    → ((match_rules l rules file_size ext mime ≡ [])
        × All (λ r. ¬ Accepts l r.conditions file_size ext mime) rules)
      ⊎ ((skipped : List RoutingRule) × (rule : RoutingRule) × (rest : List RoutingRule) × (rules
            ≡ skipped ++ (rule ∷ rest))
          × All (λ r. ¬ Accepts l r.conditions file_size ext mime) skipped
          × Accepts l rule.conditions file_size ext mime
          × (match_rules l rules file_size ext mime ≡ rule.target_provider))
unfolding match_rules
match_rules_first l [] n ext mime = inl (refl, tt)
match_rules_first l (r ∷ rs) n ext mime =
    let (to, from) = match_conditions-Accepts l r.conditions n ext mime in
    elim (Bool-cases (match_conditions l r.conditions n ext mime)) [
      | inl b ↦ inr ([], r, rs, refl, tt, to b, rw b refl)
      | inr b ↦
          let out : ¬ Accepts l r.conditions n ext mime = λ a. ground (arith, from a) in
          elim (match_rules_first l rs n ext mime) [
            | inl (e, none) ↦ inl (rw b e, (out, none))
            | inr (skipped, rule, rest, e, none, hit, t) ↦
                inr (r ∷ skipped, rule, rest, rw e refl, (out, none), hit, rw b t)
          ]
    ]

-- MatchRoutingRules gives the target of the first rule that accepts the file, by its extension with
-- no dot in front and in lower case, or the empty text, where no rule accepts it.
pub match_routing_rules_first :
    (l : Letters) (rules : List RoutingRule) (file_size : ℕ) (ext mime : Text)
    → let lower = map l.to_lower (trim_dot (trim_space ext)) in
      ((match_routing_rules l rules file_size ext mime ≡ [])
        × All (λ r. ¬ Accepts l r.conditions file_size lower mime) rules)
      ⊎ ((skipped : List RoutingRule) × (rule : RoutingRule) × (rest : List RoutingRule) × (rules
            ≡ skipped ++ (rule ∷ rest))
          × All (λ r. ¬ Accepts l r.conditions file_size lower mime) skipped
          × Accepts l rule.conditions file_size lower mime
          × (match_routing_rules l rules file_size ext mime ≡ rule.target_provider))
unfolding match_routing_rules
match_routing_rules_first l rules n ext mime =
    match_rules_first l rules n (map l.to_lower (trim_dot (trim_space ext))) mime

-- The target of a rule that is in the list, or nothing.
pub match_routing_rules-Elem :
    (l : Letters) (rules : List RoutingRule) (file_size : ℕ) (ext mime : Text)
    → (match_routing_rules l rules file_size ext mime ≡ [])
      ⊎ ((rule : RoutingRule) × Elem rule rules
          × (match_routing_rules l rules file_size ext mime ≡ rule.target_provider))
unfolding match_routing_rules
match_routing_rules-Elem l [] n ext mime = inl refl
match_routing_rules-Elem l (r ∷ rs) n ext mime =
    elim (Bool-cases
      (match_conditions l r.conditions n (map l.to_lower (trim_dot (trim_space ext))) mime)) [
        | inl b ↦ inr (r, inl refl, unfold match_rules in rw b refl)
        | inr b ↦ elim (match_routing_rules-Elem l rs n ext mime) [
          | inl e ↦ inl (unfold match_rules in rw b e)
          | inr (q, m, e) ↦ inr (q, inr m, unfold match_rules in rw b e)
        ]
      ]
