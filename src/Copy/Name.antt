-- ===== src/Copy/Name.antt =====
-- copyNodeName (internal/usecase/node_copy.go): the parts make up the given name again.
use omniflow_go.Prelude.{
  ℕ, ◌≡◌, refl, sym, ap, ◌∙◌, ◌⊎◌, inl, inr, true, false, not, [], ◌∷◌, ◌++◌, ◌==◌, ltb,
  if◌then◌else◌, length, length-append, take, arith, Bool-cases, subst, then_branch, else_branch,
  append-nil, ==_iff,
}
use omniflow_go.Text.{Text, codes, eqb, is_empty, path_ext, ext_loop}
use omniflow_go.Text.Laws.{eqb_refl}
use omniflow_go.Result.{ok, ok_injective, guard-eq-ok, >>=-eq-ok, invalid_argument}
use omniflow_go.Names.{max_node_ext_length, NodeType, dir, file}
use omniflow_go.Copy.{trim_suffix, drop_dot, split_name, copy_node_name, valid}

-- The name with its extension behind a dot, where there is one.
abbrev pub joined : Text → Text → Text
joined name ext = if is_empty ext then name else name ++ (b'.' ∷ ext)

-- The suffix is the one that was given, or none, or one of the text that begins with a dot.
abbrev IsSuffix : Text → Text → Text → Type 0
IsSuffix seen t suffix =
    (suffix ≡ seen)
    ⊎ (suffix ≡ [])
    ⊎ ((front back : Text) × (t ≡ front ++ (b'.' ∷ back)) × (suffix ≡ b'.' ∷ back))

IsSuffix-cons :
    (seen t suffix : Text) (c : ℕ) → IsSuffix seen t suffix → IsSuffix seen (c ∷ t) suffix
IsSuffix-cons seen t suffix c (inl e) = inl e
IsSuffix-cons seen t suffix c (inr (inl e)) = inr (inl e)
IsSuffix-cons seen t suffix c (inr (inr (front, back, e, e'))) =
    inr (inr (c ∷ front, back, ap (λ u. c ∷ u) e, e'))

ext_loop-IsSuffix : (seen t : Text) → IsSuffix seen t (ext_loop seen t)
unfolding ext_loop
ext_loop-IsSuffix seen [] = inl refl
ext_loop-IsSuffix seen (c ∷ cs) = elim (Bool-cases (c == b'/')) [
  | inl b ↦
      subst (IsSuffix seen (c ∷ cs)) (then_branch _ _ _ b)
        (IsSuffix-cons seen cs _ c (given_none (ext_loop-IsSuffix [] cs)))
  | inr b ↦ elim (Bool-cases (c == b'.')) [
    | inl d ↦
        subst (IsSuffix seen (c ∷ cs)) (then_branch _ _ _ d ∙ else_branch _ _ _ b)
          (from_dot d (ext_loop-IsSuffix (c ∷ cs) cs))
    | inr d ↦
        subst (IsSuffix seen (c ∷ cs)) (else_branch _ _ _ d ∙ else_branch _ _ _ b)
          (IsSuffix-cons seen cs _ c (ext_loop-IsSuffix seen cs))
  ]
]
  where
    given_none : {t suffix : Text} → IsSuffix [] t suffix → IsSuffix seen t suffix
    given_none (inl e) = inr (inl e)
    given_none (inr h) = inr h

    from_dot :
        (c == b'.') ≡ true
        → {suffix : Text} → IsSuffix (c ∷ cs) cs suffix
        → IsSuffix seen (c ∷ cs) suffix
    from_dot d (inl e) =
        let dot = (==_iff c b'.').0 d in
        inr (inr ([], cs, ap (λ x. x ∷ cs) dot, e ∙ ap (λ x. x ∷ cs) dot))
    from_dot d (inr (inl e)) = inr (inl e)
    from_dot d (inr (inr (front, back, e, e'))) = inr (inr (c ∷ front, back, ap (λ u. c ∷ u) e, e'))

take-append : (front back : Text) → take (length front) (front ++ back) ≡ front
take-append [] back = refl
take-append (c ∷ front) back = ap (λ u. c ∷ u) (take-append front back)

trim_suffix-append : (front back : Text) → trim_suffix (front ++ back) back ≡ front
trim_suffix-append front back =
    ap (λ n. take n (front ++ back)) (omega (arith, length-append front back))
    ∙ take-append front back

take_whole : (t : Text) → trim_suffix t [] ≡ t
take_whole t = ap (λ u. trim_suffix u []) (append-nil t) ∙ trim_suffix-append t []

parts :
    (full suffix : Text)
    → eqb suffix (codes ".") ≡ false
    → IsSuffix [] full suffix
    → joined (trim_suffix full suffix) (drop_dot suffix) ≡ full
parts full suffix b (inl e) =
    subst (λ s. joined (trim_suffix full s) (drop_dot s) ≡ full) (sym e) (take_whole full)
parts full suffix b (inr (inl e)) =
    subst (λ s. joined (trim_suffix full s) (drop_dot s) ≡ full) (sym e) (take_whole full)
parts full suffix b (inr (inr (front, [], e, e'))) =
    absurd (not_dot (ap (λ s. eqb s (codes ".")) (sym e') ∙ b))
  where
    not_dot : eqb (b'.' ∷ []) (codes ".") ≡ false → ⊥
    not_dot h = let h' = sym (eqb_refl (codes ".")) ∙ h in cc
parts full suffix b (inr (inr (front, c ∷ back, e, e'))) =
    subst (λ s. joined (trim_suffix full s) (drop_dot s) ≡ full) (sym e')
      (ap (λ f. trim_suffix f (b'.' ∷ c ∷ back) ++ (b'.' ∷ c ∷ back)) e
        ∙ ap (λ f. f ++ (b'.' ∷ c ∷ back)) (trim_suffix-append front (b'.' ∷ c ∷ back))
        ∙ sym e)

split_name_lem :
    (full : Text) (kind : NodeType) (name ext : Text)
    → split_name full kind ≡ ok (name, ext)
    → joined name ext ≡ full
unfolding split_name
split_name_lem full dir name ext e =
    let same = ok_injective e in sym (ap (λ p. joined p.0 p.1) same)
split_name_lem full file name ext e = elim (Bool-cases (eqb (path_ext full) (codes "."))) [
  | inl b ↦ let e' = then_branch _ _ _ b ∙ e in cc
  | inr b ↦
      let e₁ = else_branch _ _ _ b ∙ e in
      elim (Bool-cases (eqb (path_ext full) full)) [
        | inl d ↦
            let same = ok_injective (then_branch _ _ _ d ∙ e₁) in
            sym (ap (λ p. joined p.0 p.1) same)
        | inr d ↦
            let same = ok_injective (else_branch _ _ _ d ∙ e₁) in
            sym (ap (λ p. joined p.0 p.1) same)
            ∙ parts full (path_ext full) b (ext_loop-IsSuffix [] full)
      ]
]

-- Where copyNodeName has no error, its name with its extension behind a dot is the given name.
pub copy_node_name-joined :
    (full : Text) (kind : NodeType) (name ext : Text)
    → copy_node_name full kind ≡ ok (name, ext)
    → joined name ext ≡ full
unfolding copy_node_name
copy_node_name-joined full kind name ext e =
    let (_, e₁) = guard-eq-ok (valid full) invalid_argument _ e in
    let ((n, x), split, e₂) = >>=-eq-ok (split_name full kind) _ e₁ in
    let (_, e₃) = guard-eq-ok (not (ltb max_node_ext_length (length x))) invalid_argument _ e₂ in
    split_name_lem full kind name ext (split ∙ e₃)
