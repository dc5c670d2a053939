-- ===== src/AppsMenu/Results.antt =====
-- The results that are shown, and the one that is active.
use playground_azure_user_sy.Prelude.{
  ℕ, zero, suc, ◌-◌, ◌<◌, String, Bool, true, false, not, ◌≡◌, refl, sym, ap, subst, ◌∙◌, Option,
  none, some, List, [], ◌∷◌, length, if◌then◌else◌, ◌==◌, ℕ_eq, String_eq, arith, Bool-cases,
  Option-cases, inl, inr,
}
use playground_azure_user_sy.Prelude.Int.{pos, ◌+ℤ◌, ◌-ℤ◌}
use playground_azure_user_sy.AppsMenu.{
  MenuSearch, search_reset, search_menus_schedule, first_active, search_menus, NavigationKey,
  key_enter, key_up, key_down, key_tab, other_key, wrap_offset, result_at, search_results_navigate,
  MenuSearchEvent, text_changed, timeout, hidden, keydown, menu_search_event, menu_search_run,
}

-- The active result is one of `n`, if there are any.
abbrev ActiveOf : ℕ → Option ℕ → Type 0
ActiveOf n none = n ≡ 0
ActiveOf n (some i) = i < n

first_active-ActiveOf : (rs : List String) → ActiveOf (length rs) (first_active rs)
first_active-ActiveOf [] = refl
first_active-ActiveOf (r ∷ rs) = omega arith

-- Where the arrows lead, as numbers.
abbrev pub after : ℕ → ℕ → ℕ
after n i = if suc i == n then 0 else suc i

abbrev pub before : ℕ → ℕ → ℕ
before n i = if i == 0 then n - 1 else i - 1

down-after : (n i : ℕ) → i < n → result_at n (wrap_offset n (pos i +ℤ pos 1)) ≡ some (after n i)
unfolding wrap_offset ◌+ℤ◌ ◌-ℤ◌
down-after n i h = ground arith

up-before : (n i : ℕ) → i < n → result_at n (wrap_offset n (pos i -ℤ pos 1)) ≡ some (before n i)
unfolding wrap_offset ◌+ℤ◌ ◌-ℤ◌
up-before n i h = ground arith

stay-same : (n i : ℕ) → i < n → result_at n (wrap_offset n (pos i)) ≡ some i
unfolding wrap_offset
stay-same n i h = ground arith

module _ (s : MenuSearch) (i : ℕ) (there : s.active ≡ some i) (bound : i < length s.results) where
  navigate-down :
      (shift : Bool)
      → search_results_navigate s key_down shift
        ≡ (record s { active = some (after (length s.results) i) }, none)
  unfolding search_results_navigate
  navigate-down shift = ground (arith, down-after (length s.results) i)

  navigate-up :
      (shift : Bool)
      → search_results_navigate s key_up shift
        ≡ (record s { active = some (before (length s.results) i) }, none)
  unfolding search_results_navigate
  navigate-up shift = ground (arith, up-before (length s.results) i)

  navigate-tab :
      (shift : Bool)
      → search_results_navigate s key_tab shift
        ≡ search_results_navigate s (if shift then key_up else key_down) shift
  unfolding search_results_navigate
  navigate-tab true = refl
  navigate-tab false = refl

  navigate-enter : (shift : Bool) → search_results_navigate s key_enter shift ≡ (s, some i)
  unfolding search_results_navigate
  navigate-enter shift = ground (arith, stay-same (length s.results) i)

after-lt : (n i : ℕ) → i < n → after n i < n
after-lt n i h = ground arith

before-lt : (n i : ℕ) → i < n → before n i < n
before-lt n i h = ground arith

before-after : (n i : ℕ) → i < n → before n (after n i) ≡ i
before-after n i h = ground arith

after-before : (n i : ℕ) → i < n → after n (before n i) ≡ i
after-before n i h = ground arith

-- For every search with an active result, one of those shown: the arrow down and the arrow up take
-- each other back, also at the two ends; Tab is the arrow down, and the arrow up with Shift; Enter
-- clicks the active result, and changes nothing in the search.
search_results_navigate-back :
    (s : MenuSearch) (i : ℕ) (b c : Bool)
    → s.active ≡ some i
    → i < length s.results
    → ((search_results_navigate (search_results_navigate s key_down b).0 key_up c).0 ≡ s)
      × ((search_results_navigate (search_results_navigate s key_up b).0 key_down c).0 ≡ s)
      × (search_results_navigate s key_tab b
          ≡ search_results_navigate s (if b then key_up else key_down) b)
      × (search_results_navigate s key_enter b ≡ (s, some i))
search_results_navigate-back s i b c there bound =
    let n = length s.results in
    let back = λ (j : ℕ) (e : j ≡ i). ap (λ a. record s { active = a }) (ap some e ∙ sym there) in
    (
      ap (λ p. (search_results_navigate p.0 key_up c).0) (navigate-down s i there bound b)
          ∙ (ap (λ p. p.0)
                (navigate-up (record s { active = some (after n i) }) (after n i) refl
                  (after-lt n i bound) c)
              ∙ back (before n (after n i)) (before-after n i bound)),
      ap (λ p. (search_results_navigate p.0 key_down c).0) (navigate-up s i there bound b)
          ∙ (ap (λ p. p.0)
                (navigate-down (record s { active = some (before n i) }) (before n i) refl
                  (before-lt n i bound) c)
              ∙ back (after n (before n i)) (after-before n i bound)),
      navigate-tab s i there bound b,
      navigate-enter s i there bound b,
    )

-- The results for the text in the input.
abbrev pub expected : (String → List String → List String) → MenuSearch → List String
expected fuzzy_filter s = if s.input == "" then [] else fuzzy_filter s.input s.keys

-- One of the results is active, if there are any; the mark "has-results" is right; and the results
-- are those for the input unless a search is scheduled.
pub record IsShown (fuzzy_filter : String → List String → List String) (s : MenuSearch)
    : Type 0 where
  pub one_active : ActiveOf (length s.results) s.active
  pub marked : s.has_results ≡ not (length s.results == 0)
  pub current : s.scheduled ≡ 0 → s.results ≡ expected fuzzy_filter s

active_self : (s : MenuSearch) {i : ℕ} → s.active ≡ some i → record s { active = some i } ≡ s
active_self s e = ap (λ a. record s { active = a }) (sym e)

some-ActiveOf : (a : Option ℕ) (i : ℕ) {n : ℕ} → a ≡ some i → ActiveOf n a → i < n
some-ActiveOf none i e v = cc
some-ActiveOf (some j) i e v = ground arith

navigate_active :
    (s : MenuSearch) (i : ℕ)
    → s.active ≡ some i
    → i < length s.results
    → (key : NavigationKey) (shift : Bool)
    → (a : Option ℕ) × ((search_results_navigate s key shift).0 ≡ record s { active = a })
      × ActiveOf (length s.results) a
unfolding search_results_navigate
navigate_active s i e h key_enter shift =
    (some i, ap (λ p. p.0) (navigate-enter s i e h shift) ∙ sym (active_self s e), h)
navigate_active s i e h key_up shift = (
  some (before (length s.results) i),
  ap (λ p. p.0) (navigate-up s i e h shift),
  before-lt (length s.results) i h,
)
navigate_active s i e h key_down shift = (
  some (after (length s.results) i),
  ap (λ p. p.0) (navigate-down s i e h shift),
  after-lt (length s.results) i h,
)
navigate_active s i e h key_tab true = (
  some (before (length s.results) i),
  ap (λ p. p.0) (navigate-tab s i e h true ∙ navigate-up s i e h true),
  before-lt (length s.results) i h,
)
navigate_active s i e h key_tab false = (
  some (after (length s.results) i),
  ap (λ p. p.0) (navigate-tab s i e h false ∙ navigate-down s i e h false),
  after-lt (length s.results) i h,
)
navigate_active s i e h other_key shift = (some i, ground (arith, active_self s e), h)

-- The keys move the active result, among those shown, and nothing else.
navigate-moves :
    (s : MenuSearch) (key : NavigationKey) (shift : Bool)
    → ActiveOf (length s.results) s.active
    → (a : Option ℕ) × ((search_results_navigate s key shift).0 ≡ record s { active = a })
      × ActiveOf (length s.results) a
navigate-moves s key shift v = elim (Option-cases s.active) [
  | inl e ↦ (s.active, unfold search_results_navigate in ground arith, v)
  | inr (i, e) ↦ navigate_active s i e (some-ActiveOf s.active i e v) key shift
]

module _ (fuzzy_filter : String → List String → List String) where
  search_menus-shows :
      (s : MenuSearch) → (search_menus fuzzy_filter s).results ≡ expected fuzzy_filter s
  unfolding search_menus
  search_menus-shows s = ground arith

  search_menus-IsShown : (s : MenuSearch) → IsShown fuzzy_filter (search_menus fuzzy_filter s)
  unfolding search_menus
  search_menus-IsShown s = elim (Bool-cases (s.input == "")) [
    | inl e ↦ record { one_active = rw e refl; marked = rw e refl; current = λ q. ground arith }
    | inr e ↦ record {
      one_active = rw e (first_active-ActiveOf (fuzzy_filter s.input s.keys));
      marked = rw e refl;
      current = λ q. ground arith;
    }
  ]

  navigate-IsShown :
      (s : MenuSearch) (key : NavigationKey) (shift : Bool)
      → IsShown fuzzy_filter s
      → IsShown fuzzy_filter (search_results_navigate s key shift).0
  navigate-IsShown s key shift v =
      let (a, e, active) = navigate-moves s key shift v.one_active in
      subst (IsShown fuzzy_filter) (sym e)
        (record { one_active = active; marked = v.marked; current = v.current })

  -- A timeout with `n` searches scheduled.
  abbrev pub at_timeout : MenuSearch → ℕ → MenuSearch
  at_timeout s n = elim n [
    | zero ↦ s
    | suc m ↦ search_menus fuzzy_filter (record s { scheduled = m })
  ]

  timeout-IsShown :
      (s : MenuSearch) → IsShown fuzzy_filter s → (n : ℕ) → IsShown fuzzy_filter (at_timeout s n)
  timeout-IsShown s v zero = v
  timeout-IsShown s v (suc m) = search_menus-IsShown (record s { scheduled = m })

  event-IsShown :
      (s : MenuSearch) (e : MenuSearchEvent)
      → IsShown fuzzy_filter s
      → IsShown fuzzy_filter (menu_search_event fuzzy_filter s e)
  unfolding menu_search_event search_menus_schedule search_reset
  event-IsShown s (text_changed text) v = record {
    one_active = v.one_active;
    marked = v.marked;
    current = λ q. absurd (omega arith);
  }
  event-IsShown s timeout v = timeout-IsShown s v s.scheduled
  event-IsShown s hidden v = record { one_active = refl; marked = refl; current = λ q. refl }
  event-IsShown s (keydown key shift) v = navigate-IsShown s key shift v

  -- After any events, in any order: one of the results is active, if there are any, and the results
  -- are those for the text in the input, unless a search is still scheduled.
  pub menu_search_run-IsShown :
      (s : MenuSearch) (es : List MenuSearchEvent)
      → IsShown fuzzy_filter s
      → IsShown fuzzy_filter (menu_search_run fuzzy_filter s es)
  unfolding menu_search_run
  menu_search_run-IsShown s [] v = v
  menu_search_run-IsShown s (e ∷ es) v =
      menu_search_run-IsShown (menu_search_event fuzzy_filter s e) es (event-IsShown s e v)
