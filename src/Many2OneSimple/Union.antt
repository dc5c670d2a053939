-- ===== src/Many2OneSimple/Union.antt =====
-- The domain that is searched: what `_.union` makes of a domain and a further term.
use playground_azure_user_sy.Prelude.{
  String, Bool, true, false, ◌||◌, ◌≡◌, refl, sym, ap, subst, ◌∙◌, List, [], ◌∷◌, ◌++◌,
  append_assoc, append-nil, if◌then◌else◌, ◌==◌, ==_iff, String_eq, arith, Bool-cases, inl, inr,
}
use playground_azure_user_sy.Many2OneSimple.{
  SearchTerm, DomainElement, prefix_operator, term, same_element, has_element, union_after,
  union_domains,
}

abbrev is_operator : String → DomainElement → Bool
is_operator s (prefix_operator t) = t == s
is_operator s (term t) = false

abbrev without_operator : String → List DomainElement → List DomainElement
without_operator s [] = []
without_operator s (e ∷ es) =
    let rest = without_operator s es in if is_operator s e then rest else e ∷ rest

-- A domain with each operator only where it stands first, and all its terms.
abbrev pub operators_once : List DomainElement → List DomainElement
operators_once [] = []
operators_once (prefix_operator s ∷ es) = prefix_operator s ∷ without_operator s (operators_once es)
operators_once (term t ∷ es) = term t ∷ operators_once es

-- The elements that are not among those seen.
abbrev drop_seen : List DomainElement → List DomainElement → List DomainElement
drop_seen seen [] = []
drop_seen seen (e ∷ es) =
    let rest = drop_seen seen es in if has_element seen e then rest else e ∷ rest

same_element→eq : (d e : DomainElement) → same_element d e ≡ true → d ≡ e
same_element→eq (prefix_operator s) (prefix_operator t) h = ap prefix_operator ((==_iff s t).0 h)
same_element→eq (prefix_operator s) (term t) h = absurd (cc)
same_element→eq (term s) (prefix_operator t) h = absurd (cc)
same_element→eq (term s) (term t) h = absurd (cc)

has_element-append :
    (ds : List DomainElement) (d e : DomainElement)
    → has_element (ds ++ d ∷ []) e ≡ (has_element ds e || same_element d e)
has_element-append [] d e = ground arith
has_element-append (c ∷ ds) d e = ground (arith, has_element-append ds d e)

drop_seen-append :
    (seen : List DomainElement) (d : DomainElement) (es : List DomainElement)
    → drop_seen seen (drop_seen (d ∷ []) es) ≡ drop_seen (seen ++ d ∷ []) es
drop_seen-append seen d [] = refl
drop_seen-append seen d (e ∷ es) =
    ground (arith, drop_seen-append seen d es, has_element-append seen d e)

drop_seen-again :
    (seen : List DomainElement) (d : DomainElement) (es : List DomainElement)
    → has_element seen d ≡ true
    → drop_seen seen (drop_seen (d ∷ []) es) ≡ drop_seen seen es
drop_seen-again seen d [] h = refl
drop_seen-again seen d (e ∷ es) h = elim (Bool-cases (same_element d e)) [
  | inl same ↦
      let here : has_element seen e ≡ true =
        subst (λ x. has_element seen x ≡ true) (same_element→eq d e same) h in
      ground (arith, drop_seen-again seen d es h)
  | inr other ↦ ground (arith, drop_seen-again seen d es h)
]

drop_seen-none : (es : List DomainElement) → drop_seen [] es ≡ es
drop_seen-none [] = refl
drop_seen-none (e ∷ es) = ap (λ ds. e ∷ ds) (drop_seen-none es)

drop_seen-term : (t : SearchTerm) (es : List DomainElement) → drop_seen (term t ∷ []) es ≡ es
drop_seen-term t [] = refl
drop_seen-term t (prefix_operator s ∷ es) = ap (λ ds. prefix_operator s ∷ ds) (drop_seen-term t es)
drop_seen-term t (term u ∷ es) = ap (λ ds. term u ∷ ds) (drop_seen-term t es)

drop_seen-operator :
    (s : String) (es : List DomainElement)
    → drop_seen (prefix_operator s ∷ []) es ≡ without_operator s es
drop_seen-operator s [] = refl
drop_seen-operator s (prefix_operator t ∷ es) =
    ground (arith, drop_seen-operator s es, ==_iff s t, ==_iff t s)
drop_seen-operator s (term t ∷ es) = ap (λ ds. term t ∷ ds) (drop_seen-operator s es)

operators_once-cons :
    (e : DomainElement) (es : List DomainElement)
    → operators_once (e ∷ es) ≡ e ∷ drop_seen (e ∷ []) (operators_once es)
operators_once-cons (prefix_operator s) es =
    ap (λ ds. prefix_operator s ∷ ds) (sym (drop_seen-operator s (operators_once es)))
operators_once-cons (term t) es =
    ap (λ ds. term t ∷ ds) (sym (drop_seen-term t (operators_once es)))

drop_seen-old :
    (seen : List DomainElement) (e : DomainElement) (es : List DomainElement)
    → has_element seen e ≡ true
    → drop_seen seen (e ∷ es) ≡ drop_seen seen es
drop_seen-old seen e es h = rw (h) refl

drop_seen-new :
    (seen : List DomainElement) (e : DomainElement) (es : List DomainElement)
    → has_element seen e ≡ false
    → drop_seen seen (e ∷ es) ≡ e ∷ drop_seen seen es
drop_seen-new seen e es h = rw (h) refl

union_after_lem :
    (seen es : List DomainElement)
    → union_after seen es ≡ seen ++ drop_seen seen (operators_once es)
unfolding union_after
union_after_lem seen [] = sym (append-nil seen)
union_after_lem seen (e ∷ es) =
    let rest = operators_once es in
    let once = ap (drop_seen seen) (operators_once-cons e es) in
    elim (Bool-cases (has_element seen e)) [
      | inl old ↦ rw (old) (
          union_after_lem seen es
          ∙ ap (λ ds. seen ++ ds)
              (sym (
                once
                ∙ drop_seen-old seen e (drop_seen (e ∷ []) rest) old
                ∙ drop_seen-again seen e rest old)))
      | inr new ↦ rw (new) (
          union_after_lem (seen ++ e ∷ []) es
          ∙ append_assoc seen (e ∷ []) (drop_seen (seen ++ e ∷ []) rest)
          ∙ ap (λ ds. seen ++ ds)
              (sym (
                once
                ∙ drop_seen-new seen e (drop_seen (e ∷ []) rest) new
                ∙ ap (λ ds. e ∷ ds) (drop_seen-append seen e rest))))
    ]

without_operator-append :
    (s : String) (ds : List DomainElement) (t : SearchTerm)
    → without_operator s (ds ++ term t ∷ []) ≡ without_operator s ds ++ term t ∷ []
without_operator-append s [] t = refl
without_operator-append s (d ∷ ds) t = ground (arith, without_operator-append s ds t)

operators_once-append :
    (ds : List DomainElement) (t : SearchTerm)
    → operators_once (ds ++ term t ∷ []) ≡ operators_once ds ++ term t ∷ []
operators_once-append [] t = refl
operators_once-append (prefix_operator s ∷ ds) t =
    ap (λ es. prefix_operator s ∷ es)
      (ap (without_operator s) (operators_once-append ds t)
        ∙ without_operator-append s (operators_once ds) t)
operators_once-append (term u ∷ ds) t = ap (λ es. term u ∷ es) (operators_once-append ds t)

pub union_domains-term :
    (ds : List DomainElement) (t : SearchTerm)
    → union_domains ds (term t ∷ []) ≡ operators_once ds ++ term t ∷ []
unfolding union_domains
union_domains-term ds t =
    union_after_lem [] (ds ++ term t ∷ [])
    ∙ drop_seen-none (operators_once (ds ++ term t ∷ []))
    ∙ operators_once-append ds t
