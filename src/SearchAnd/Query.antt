-- ===== src/SearchAnd/Query.antt =====
-- What a completion does to the query: to the elements, and to what the query asks for.
use playground_azure_user_sy.Prelude.{
  ℕ, String, Bool, true, false, ◌&&◌, ◌||◌, List, [], ◌∷◌, ◌++◌, ℕ_eq, String_eq, ◌≡◌, arith, refl,
  ap, ap₂, ◌∙◌, if◌then◌else◌, Bool-cases, inl, inr, ==_sym,
}
use playground_azure_user_sy.SearchAnd.{
  QueryElem, Completion, is_elem, has_elem, has_completion, relabel, elem_of,
  add_auto_completion_values,
}

-- No two elements have the same filter, value and operator.
abbrev pub IsUnique : List QueryElem → Type 0
IsUnique [] = Unit {0}
IsUnique (e ∷ es) = (has_elem e.filter_id e.value e.operator es ≡ false) × IsUnique es

has_elem-relabel :
    (c : Completion) (f : ℕ) (v o : String) (q : List QueryElem)
    → has_elem f v o (relabel c q) ≡ has_elem f v o q
unfolding has_elem relabel
has_elem-relabel c f v o [] = refl
has_elem-relabel c f v o (e ∷ es) = elim (Bool-cases (is_elem c.filter_id c.value c.operator e)) [
  | inl h ↦ rw (h)
  | inr h ↦ rw (h, has_elem-relabel c f v o es)
]

-- What holds in both branches holds of the test.
if_both :
    (P : List QueryElem → Type 0) (b : Bool) (q r : List QueryElem)
    → P q
    → P r
    → P (if b then q else r)
if_both P true q r h k = h
if_both P false q r h k = k

relabel-IsUnique : (c : Completion) (q : List QueryElem) → IsUnique q → IsUnique (relabel c q)
unfolding relabel
relabel-IsUnique c [] u = u
relabel-IsUnique c (e ∷ es) (h, u) =
    if_both IsUnique (is_elem c.filter_id c.value c.operator e) (record e { label = c.label } ∷ es)
      (e ∷ relabel c es) (h, u)
      (has_elem-relabel c e.filter_id e.value e.operator es ∙ h, relabel-IsUnique c es u)

has_elem-append :
    (f : ℕ) (v o : String) (q r : List QueryElem)
    → has_elem f v o (q ++ r) ≡ (has_elem f v o q || has_elem f v o r)
unfolding has_elem
has_elem-append f v o [] r = refl
has_elem-append f v o (e ∷ es) r = elim (Bool-cases (is_elem f v o e)) [
  | inl h ↦ rw (h)
  | inr h ↦ rw (h, has_elem-append f v o es r)
]

-- Of two elements, each is the other's.
is_elem_sym :
    (d e : QueryElem)
    → is_elem d.filter_id d.value d.operator e ≡ is_elem e.filter_id e.value e.operator d
is_elem_sym d e =
    ap₂ ◌&&◌ (ap₂ ◌&&◌ (==_sym e.filter_id d.filter_id) (==_sym e.value d.value))
      (==_sym e.operator d.operator)

or_false : (a b : Bool) → (a || b) ≡ false → (a ≡ false) × (b ≡ false)
or_false true b h = ground arith
or_false false b h = (refl, h)

append-IsUnique :
    (q : List QueryElem) (d : QueryElem)
    → IsUnique q
    → has_elem d.filter_id d.value d.operator q ≡ false
    → IsUnique (q ++ d ∷ [])
unfolding has_elem
append-IsUnique [] d u h = (refl, tt)
append-IsUnique (e ∷ es) d (k, u) h =
    let (h₁, h₂) =
      or_false (is_elem d.filter_id d.value d.operator e)
        (has_elem d.filter_id d.value d.operator es) h in
    (
      has_elem-append e.filter_id e.value e.operator es (d ∷ [])
          ∙ ap₂ ◌||◌ k (ap (λ b. b || false) (is_elem_sym e d ∙ h₁)),
      append-IsUnique es d u h₂,
    )

-- Adding a completion keeps the elements of the query distinct.
add_auto_completion_values-IsUnique :
    (groups : ℕ → ℕ) (drawn : ℕ) (q : List QueryElem) (c : Completion)
    → IsUnique q
    → IsUnique (add_auto_completion_values groups drawn q c)
unfolding add_auto_completion_values
add_auto_completion_values-IsUnique groups drawn q c u = elim (Bool-cases (has_completion c q)) [
  | inl h ↦ rw (h) (relabel-IsUnique c q u)
  | inr h ↦ rw (h) (append-IsUnique q (elem_of groups drawn c) u h)
]
