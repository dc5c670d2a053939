-- ===== src/TimelineModel/Loading.antt =====
-- Which events the model holds, when the answers come in order and when they do not.
use playground_azure_user_sy.Prelude.{
  ℕ, zero, suc, Bool, true, ◌&&◌, Option, none, some, List, [], ◌∷◌, ◌++◌, replicate, ◌==◌, ℕ_eq,
  ◌≡◌, refl, ap, arith, subst,
}
use playground_azure_user_sy.TimelineModel.{
  Rights, TimelineData, Model, new_model, load, preloaded, answered, ModelEvent, loaded,
  rights_known, answer, model_event, model_run,
}

module _ (D : Type 0) (E : Type 0) (server : D → E) where
  abbrev pub last : D → List D → D
  last d [] = d
  last d (e ∷ es) = last e es

  last-append : (d e : D) (ds : List D) → last d (ds ++ e ∷ []) ≡ e
  last-append d e [] = refl
  last-append d e (f ∷ ds) = last-append f e ds

  last-replicate : (n : ℕ) (d : D) → last d (replicate n d) ≡ d
  last-replicate zero d = refl
  last-replicate (suc n) d = last-replicate n d

  -- With the data `d`, the rights and the open requests: the last request is for the domain of the
  -- data, or there is none, and the events are those of the domain.
  abbrev IsRead : TimelineData D E → Rights → List D → Type 0
  IsRead d r [] = (d.events ≡ some (server d.domain)) × (d.rights ≡ some r)
  IsRead d r (q ∷ qs) = last q qs ≡ d.domain

  abbrev IsLoading : Option Rights → Option (TimelineData D E) → ℕ → List D → Type 0
  IsLoading none none waiting requests = requests ≡ []
  IsLoading none (some d) waiting requests = (requests ≡ []) × ((n : ℕ) × (waiting ≡ suc n))
  IsLoading (some r) none waiting requests = (requests ≡ []) × (waiting ≡ 0)
  IsLoading (some r) (some d) waiting requests = (waiting ≡ 0) × IsRead d r requests

  abbrev IsCurrent : Model D E → Type 0
  IsCurrent m = IsLoading m.rights m.current m.waiting m.requests

  abbrev in_order : List (ModelEvent D E) → Bool
  in_order [] = true
  in_order (loaded d ∷ es) = in_order es
  in_order (rights_known r ∷ es) = in_order es
  in_order (answer i ∷ es) = i == 0 && in_order es

  IsRead-append :
      (d : TimelineData D E) (r : Rights) (qs : List D) → IsRead d r (qs ++ d.domain ∷ [])
  IsRead-append d r [] = refl
  IsRead-append d r (q ∷ qs) = last-append q d.domain qs

  -- The parts of a state that has not been matched on.
  abbrev state : ℕ → Option Rights → Option (TimelineData D E) → ℕ → List D → Model D E
  state a r c w q = record {
    access_requests = a;
    rights = r;
    current = c;
    waiting = w;
    requests = q;
  }

  load-IsLoading :
      (a : ℕ) (o : Option Rights) (c : Option (TimelineData D E)) (w : ℕ) (q : List D) (domain : D)
      → IsLoading o c w q
      → IsCurrent (load D E (state a o c w q) domain)
  unfolding load
  load-IsLoading zero none none w q domain h = (h, (w, refl))
  load-IsLoading (suc a) none none w q domain h = (h, (w, refl))
  load-IsLoading zero none (some d) w q domain h = (h.0, (w, refl))
  load-IsLoading (suc a) none (some d) w q domain h = (h.0, (w, refl))
  load-IsLoading zero (some r) none w q domain h = (h.1, IsRead-append _ r q)
  load-IsLoading (suc a) (some r) none w q domain h = (h.1, IsRead-append _ r q)
  load-IsLoading zero (some r) (some d) w q domain h = (h.0, IsRead-append _ r q)
  load-IsLoading (suc a) (some r) (some d) w q domain h = (h.0, IsRead-append _ r q)

  waited :
      (d : TimelineData D E) (r : Rights) (w : ℕ) (q : List D) (n : ℕ)
      → q ≡ []
      → w ≡ suc n
      → IsRead d r (q ++ replicate w d.domain)
  waited d r w q n e f = rw (e, f) (last-replicate n d.domain)

  preloaded-IsLoading :
      (a : ℕ) (o : Option Rights) (c : Option (TimelineData D E)) (w : ℕ) (q : List D) (r : Rights)
      → IsLoading o c w q
      → IsCurrent (preloaded D E (state a o c w q) r)
  unfolding preloaded
  preloaded-IsLoading a (some p) c w q r h = h
  preloaded-IsLoading a none none w q r h = (h, refl)
  preloaded-IsLoading a none (some d) w q r (e, (n, f)) = (refl, waited d r w q n e f)

  answered-IsRead :
      (d : TimelineData D E) (r : Rights) (q : D) (qs : List D)
      → last q qs ≡ d.domain
      → IsRead (record d { events = some (server q); rights = some r }) r qs
  answered-IsRead d r q [] h = (ap (λ x. some (server x)) h, refl)
  answered-IsRead d r q (p ∷ ps) h = h

  not_nil : (p : D) (ps : List D) → p ∷ ps ≡ [] → ⊥
  not_nil p ps h = cc

  answered-IsLoading :
      (a : ℕ) (o : Option Rights) (c : Option (TimelineData D E)) (w : ℕ) (q : List D)
      → IsLoading o c w q
      → IsCurrent (answered D E server (state a o c w q) 0)
  unfolding answered
  answered-IsLoading a o c w [] h = h
  answered-IsLoading a none none w (p ∷ ps) h = absurd (not_nil p ps h)
  answered-IsLoading a none (some d) w (p ∷ ps) h = absurd (not_nil p ps h.0)
  answered-IsLoading a (some r) none w (p ∷ ps) h = absurd (not_nil p ps h.0)
  answered-IsLoading a (some r) (some d) w (p ∷ ps) h = (h.0, answered-IsRead d r p ps h.1)

  model_event-IsCurrent :
      (m : Model D E) (e : ModelEvent D E)
      → in_order (e ∷ []) ≡ true
      → IsCurrent m
      → IsCurrent (model_event D E server m e)
  unfolding model_event
  model_event-IsCurrent m (loaded domain) o h =
      load-IsLoading m.access_requests m.rights m.current m.waiting m.requests domain h
  model_event-IsCurrent m (rights_known r) o h = go m.access_requests
    where
      go : (n : ℕ) → IsCurrent (elim n [ zero ↦ m | suc k ↦ preloaded D E m r ])
      go zero = h
      go (suc k) = preloaded-IsLoading m.access_requests m.rights m.current m.waiting m.requests r h
  model_event-IsCurrent m (answer zero) o h =
      answered-IsLoading m.access_requests m.rights m.current m.waiting m.requests h
  model_event-IsCurrent m (answer (suc i)) o h = ground arith

  split_order :
      (e : ModelEvent D E) (es : List (ModelEvent D E))
      → in_order (e ∷ es) ≡ true
      → (in_order (e ∷ []) ≡ true) × (in_order es ≡ true)
  split_order (loaded d) es h = (refl, h)
  split_order (rights_known r) es h = (refl, h)
  split_order (answer zero) es h = (refl, h)
  split_order (answer (suc i)) es h = ground arith

  model_run-IsCurrent :
      (m : Model D E) (es : List (ModelEvent D E))
      → in_order es ≡ true
      → IsCurrent m
      → IsCurrent (model_run D E server m es)
  unfolding model_run
  model_run-IsCurrent m [] o h = h
  model_run-IsCurrent m (e ∷ es) o h =
      let (o₁, o₂) = split_order e es o in
      model_run-IsCurrent (model_event D E server m e) es o₂ (model_event-IsCurrent m e o₁ h)

  read_at_rest :
      (o : Option Rights) (c : Option (TimelineData D E)) (w : ℕ) (q : List D) (r : Rights)
      (d : TimelineData D E)
      → IsLoading o c w q
      → o ≡ some r
      → c ≡ some d
      → q ≡ []
      → (d.events ≡ some (server d.domain)) × (d.rights ≡ some r)
  read_at_rest o c w q r d h e f g =
      let h₁ : IsLoading (some r) c w q = subst (λ x. IsLoading x c w q) e h in
      let h₂ : IsLoading (some r) (some d) w q = subst (λ x. IsLoading (some r) x w q) f h₁ in
      let h₃ : IsLoading (some r) (some d) w [] =
        subst (λ x. IsLoading (some r) (some d) w x) g h₂ in
      h₃.1

  -- After any events of a new model in which the answers come in the order of the requests: once
  -- the rights are known and no answer is to come, the events are those of the current domain, and
  -- the rights are with them.
  pub model_run-reads :
      (es : List (ModelEvent D E)) (r : Rights) (d : TimelineData D E)
      → in_order es ≡ true
      → (model_run D E server (new_model D E) es).rights ≡ some r
      → (model_run D E server (new_model D E) es).current ≡ some d
      → (model_run D E server (new_model D E) es).requests ≡ []
      → (d.events ≡ some (server d.domain)) × (d.rights ≡ some r)
  model_run-reads es r d o e f g =
      let m = model_run D E server (new_model D E) es in
      read_at_rest m.rights m.current m.waiting m.requests r d
        (model_run-IsCurrent (new_model D E) es o refl) e f g

  -- With the rights known and no answer to come: two loads, and the answer to the second before the
  -- one to the first. No answer is to come then, and the events are those of the first domain, while
  -- the domain is the second.
  pub model_run-stale :
      (m : Model D E) (r : Rights) (d e : D)
      → m.rights ≡ some r
      → m.requests ≡ []
      → let n = model_run D E server m (loaded d ∷ loaded e ∷ answer 1 ∷ answer 0 ∷ []) in
        (n.current ≡ some (record { domain = e; events = some (server d); rights = some r }))
        × (n.requests ≡ [])
  unfolding model_run model_event load answered
  model_run-stale m r d e h k = go m.access_requests
    where
      go :
          (a : ℕ)
          → let n =
              model_run D E server
                (state a m.rights m.current m.waiting m.requests)
                (loaded d ∷ loaded e ∷ answer 1 ∷ answer 0 ∷ []) in
            (n.current ≡ some (record { domain = e; events = some (server d); rights = some r }))
            × (n.requests ≡ [])
      go zero = rw (h, k) (refl, refl)
      go (suc a) = rw (h, k) (refl, refl)
