-- ===== src/Many2OneSimple/Search.antt =====
-- The search of a related record, from the text that is typed to the value or the dialogs.
use playground_azure_user_sy.Prelude.{
  ℕ, zero, suc, ◌+◌, ◌≤◌, String, Bool, true, false, not, Option, ◌≡◌, refl, ap, subst, ◌∙◌, none,
  some, List, [], ◌∷◌, ◌++◌, ◌==◌, ℕ_eq, String_eq, if◌then◌else◌, arith,
}
use playground_azure_user_sy.Many2OneSimple.Union.{operators_once, union_domains-term}
use playground_azure_user_sy.Many2OneSimple.{
  SearchRead, term, SimpleField, SimpleEvent, input_keyup, input_focusout, answer, selected, closed,
  field_changed, external_button_click, saved, click, enter, tab, typed, Effect, request,
  alert_not_found, popup, FoundRecord, WebClient, reinitialize, is_refused, simple_search,
  create_popup, on_results, on_input_keyup, on_external_button_click, on_saved, on_click,
  handle_event, run_events, search_read,
}

-- The field after `s` was typed.
abbrev with_text : SimpleField → String → SimpleField
with_text f s = record f { input = s; is_dirty = true }

-- A text that the field searches for: it is not empty, and fits the regular expression, if any.
abbrev Fits : WebClient → Option String → String → Type 0
Fits w none s = Unit {0}
Fits w (some r) s = w.matches r s ≡ true

abbrev IsSearched : WebClient → SimpleField → String → Type 0
IsSearched w f s = (s == "" ≡ false) × Fits w f.config.regex s

-- The user types a text and presses Enter, the server answers, and the user leaves the input.
abbrev pub search_events : String → List FoundRecord → List SimpleEvent
search_events s found =
    input_keyup (typed s) ∷ input_keyup enter ∷ answer found ∷ input_focusout ∷ []

not_refused :
    (w : WebClient) (f : SimpleField) → Fits w f.config.regex f.input → is_refused w f ≡ false
not_refused w f h = fits f.config.regex h
  where
    fits :
        (o : Option String)
        → Fits w o f.input
        → (elim o as (λ _. Bool) [ none ↦ false | some r ↦ not (w.matches r f.input) ]) ≡ false
    fits none h = refl
    fits (some r) h = rw (h) refl

simple_search-accepted :
    (w : WebClient) (f : SimpleField) (s : String)
    → IsSearched w f s
    → simple_search w (with_text f s) ≡ (
      record (with_text f s) { pending = suc f.pending },
      request (search_read w (with_text f s)) ∷ [],
    )
unfolding simple_search
simple_search-accepted w f s (filled, fits) = rw (filled, not_refused w (with_text f s) fits) refl

-- What the events after a first one add to what that did.
abbrev after : WebClient → SimpleField × List Effect → List SimpleEvent → SimpleField × List Effect
after w p es = let (g, later) = run_events w p.0 es in (g, p.1 ++ later)

run_events-search :
    (w : WebClient) (f : SimpleField) (s : String) (es : List SimpleEvent)
    → IsSearched w f s
    → run_events w f (input_keyup (typed s) ∷ input_keyup enter ∷ es)
      ≡ after w
          (
            record (with_text f s) { pending = suc f.pending },
            request (search_read w (with_text f s)) ∷ [],
          )
          es
unfolding run_events handle_event on_input_keyup
run_events-search w f s es accepted = ap (λ p. after w p es) (simple_search-accepted w f s accepted)

taken_run :
    (w : WebClient) (f : SimpleField) (s : String) (r : FoundRecord) (rs : List FoundRecord)
    → IsSearched w f s
    → run_events w f (search_events s (r ∷ rs)) ≡ (
      record f {
        is_dirty = false;
        value = w.set_value f.value (some r);
        input = w.format_value (w.set_value f.value (some r));
      },
      request (search_read w (with_text f s)) ∷ [],
    )
unfolding run_events handle_event on_input_keyup on_results reinitialize simple_search
taken_run w f s r rs accepted =
    run_events-search w f s (answer (r ∷ rs) ∷ input_focusout ∷ []) accepted

-- The search for one record that meets the domain, in which each operator is left only where it
-- stands first, and has the text in the search field by its operator.
abbrev one_with_text : WebClient → SimpleField → String → SearchRead
one_with_text w f s = record {
  domain =
      operators_once w.domain
      ++ term (record { field = f.config.search.field; oper = f.config.search.oper; operand = s })
        ∷ [];
  limit = 1;
}

search_read-one_with_text :
    (w : WebClient) (f : SimpleField) (s : String)
    → search_read w (with_text f s) ≡ one_with_text w f s
unfolding search_read
search_read-one_with_text w f s =
    ap (λ ds. record { domain = ds; limit = 1 }) (union_domains-term w.domain _)

-- For every field and every text that it searches for, not empty and fit for the regular
-- expression: typing it and pressing Enter asks the server once, for one record that has the text
-- in the search field and meets the domain of the record, from which all but the first of each
-- operator are lost; if the server finds a record, the field takes it, shows it and is no longer
-- dirty, so that leaving the input asks nothing more.
pub search-found :
    (w : WebClient) (f : SimpleField) (s : String) (r : FoundRecord) (rs : List FoundRecord)
    → IsSearched w f s
    → run_events w f (search_events s (r ∷ rs)) ≡ (
      record f {
        is_dirty = false;
        value = w.set_value f.value (some r);
        input = w.format_value (w.set_value f.value (some r));
      },
      request (one_with_text w f s) ∷ [],
    )
search-found w f s r rs accepted =
    subst
      (λ (q : SearchRead). run_events w f (search_events s (r ∷ rs)) ≡ (
        record f {
          is_dirty = false;
          value = w.set_value f.value (some r);
          input = w.format_value (w.set_value f.value (some r));
        },
        request q ∷ [],
      ))
      (search_read-one_with_text w f s) (taken_run w f s r rs accepted)

-- For every field and every text that it searches for: if the server finds no record, the field is
-- emptied, and one dialog opens, which is the one for a new record exactly if the field can create
-- one, and then offers the text for the search field, unless that is the id.
search-not_found :
    (w : WebClient) (f : SimpleField) (s : String)
    → IsSearched w f s
    → run_events w f (search_events s []) ≡ (
      record f {
        is_dirty = false;
        value = w.set_value f.value none;
        input = w.format_value (w.set_value f.value none);
      },
      request (search_read w (with_text f s))
          ∷ (if f.config.can_create then create_popup w (with_text f s) else alert_not_found)
          ∷ [],
    )
unfolding run_events handle_event on_input_keyup on_results reinitialize simple_search create_popup
search-not_found w f s accepted = run_events-search w f s (answer [] ∷ input_focusout ∷ []) accepted

-- The field when the search found nothing.
abbrev emptied : WebClient → SimpleField → SimpleField
emptied w f = record f {
  is_dirty = false;
  value = w.set_value f.value none;
  input = w.format_value (w.set_value f.value none);
}

-- For every field that can create records and every text that it searches for: if the user presses
-- Enter and leaves the input before the server has answered, the same search is sent twice, and if
-- it finds nothing two dialogs for a new record open, the second for the emptied field.
search-twice :
    (w : WebClient) (f : SimpleField) (s : String)
    → IsSearched w f s
    → f.config.can_create ≡ true
    → (run_events w f
        (input_keyup (typed s) ∷ input_keyup enter ∷ input_focusout ∷ answer [] ∷ answer [] ∷ [])).1
      ≡ request (search_read w (with_text f s))
        ∷ request (search_read w (with_text f s))
        ∷ create_popup w (with_text f s)
        ∷ create_popup w (emptied w f)
        ∷ []
unfolding run_events handle_event on_input_keyup on_results reinitialize create_popup search_read
search-twice w f s accepted can =
    let again = record f { pending = suc f.pending } in
    ap (λ p. p.1)
      (run_events-search w f s (input_focusout ∷ answer [] ∷ answer [] ∷ []) accepted
        ∙ ap
            (λ p.
              after w (p.0, request (search_read w (with_text f s)) ∷ p.1)
                (answer [] ∷ answer [] ∷ []))
            (simple_search-accepted w again s accepted))
    ∙ rw can refl

-- How many requests there are, and how many dialogs about a search that found nothing.
abbrev is_request : Effect → ℕ
is_request (request q) = 1
is_request _ = 0

abbrev is_outcome : Effect → ℕ
is_outcome (popup p) = 1
is_outcome alert_not_found = 1
is_outcome _ = 0

abbrev pub count : (Effect → ℕ) → List Effect → ℕ
count p [] = 0
count p (e ∷ es) = p e + count p es

count-append : (p : Effect → ℕ) (es ds : List Effect) → count p (es ++ ds) ≡ count p es + count p ds
count-append p [] ds = omega arith
count-append p (e ∷ es) ds = omega (arith, count-append p es ds)

-- No more dialogs, and searches yet to be answered, than there were searches.
abbrev IsBalanced : SimpleField → SimpleField × List Effect → Type 0
IsBalanced f (g, es) = count is_outcome es + g.pending ≤ f.pending + count is_request es

simple_search-IsBalanced : (w : WebClient) (f : SimpleField) → IsBalanced f (simple_search w f)
unfolding simple_search reinitialize
simple_search-IsBalanced w f = ground arith

on_results-IsBalanced :
    (w : WebClient) (f : SimpleField) (rs : List FoundRecord)
    → count is_outcome (on_results w f rs).1 + (on_results w f rs).0.pending ≤ suc f.pending
unfolding on_results reinitialize create_popup
on_results-IsBalanced w f [] = ground arith
on_results-IsBalanced w f (r ∷ rs) = ground arith

-- What `handle_event` does at an answer, with `n` searches waiting for one.
abbrev at_answer : WebClient → SimpleField → List FoundRecord → ℕ → SimpleField × List Effect
at_answer w f rs n = elim n [ zero ↦ (f, []) | suc m ↦ on_results w (record f { pending = m }) rs ]

answer-IsBalanced :
    (w : WebClient) (f : SimpleField) (rs : List FoundRecord) (n : ℕ)
    → let (g, es) = at_answer w (record f { pending = n }) rs n in
      count is_outcome es + g.pending ≤ n + count is_request es
answer-IsBalanced w f rs zero = omega arith
answer-IsBalanced w f rs (suc m) =
    omega (arith, on_results-IsBalanced w (record f { pending = m }) rs)

handle_event-IsBalanced :
    (w : WebClient) (f : SimpleField) (e : SimpleEvent) → IsBalanced f (handle_event w f e)
unfolding handle_event on_input_keyup on_external_button_click on_saved on_click reinitialize
handle_event-IsBalanced w f (input_keyup enter) = simple_search-IsBalanced w f
handle_event-IsBalanced w f (input_keyup tab) = simple_search-IsBalanced w f
handle_event-IsBalanced w f (input_keyup (typed s)) = omega arith
handle_event-IsBalanced w f input_focusout = simple_search-IsBalanced w f
handle_event-IsBalanced w f (answer rs) = answer-IsBalanced w f rs f.pending
handle_event-IsBalanced w f (selected r) = omega arith
handle_event-IsBalanced w f closed = omega arith
handle_event-IsBalanced w f (field_changed name) = omega arith
handle_event-IsBalanced w f external_button_click = ground arith
handle_event-IsBalanced w f (saved changed) = ground arith
handle_event-IsBalanced w f (click readonly) = ground arith

-- For every field and all events, in any order: no more dialogs open about searches that found
-- nothing than searches were sent or already waited for an answer.
run_events-dialogs :
    (w : WebClient) (f : SimpleField) (es : List SimpleEvent)
    → let (g, effects) = run_events w f es in
      count is_outcome effects + g.pending ≤ f.pending + count is_request effects
unfolding run_events
run_events-dialogs w f [] = omega arith
run_events-dialogs w f (e ∷ es) = omega (
  arith,
  handle_event-IsBalanced w f e,
  run_events-dialogs w (handle_event w f e).0 es,
  count-append is_outcome (handle_event w f e).1 (run_events w (handle_event w f e).0 es).1,
  count-append is_request (handle_event w f e).1 (run_events w (handle_event w f e).0 es).1,
)
