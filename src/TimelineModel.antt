-- ===== src/TimelineModel.antt =====
-- addons_OCA/web/web_timeline/static/src/js/timeline_model.js: the access rights, which are asked for
-- once, and the events that are read for a domain.
pub mod Loading
mod Examples
use playground_azure_user_sy.Prelude.{
  ℕ, zero, suc, ◌+◌, Bool, true, false, Option, none, some, List, [], ◌∷◌, ◌++◌, replicate,
}

pub record Rights : Type 0 where
  pub write : Bool
  pub unlink : Bool
  pub create : Bool

-- `D` is the type of domains (with the context), `E` that of lists of events.
module _ (D : Type 0) (E : Type 0) where
  -- `this.data`: the domain, and what an answer puts there.
  pub record TimelineData : Type 0 where
    pub domain : D
    pub events : Option E
    pub rights : Option Rights

  -- `access_requests` counts the questions for the three rights, `rights` is there when
  -- `preload_def` is resolved, `waiting` counts the calls of `_loadTimeline` that wait for it, and
  -- `requests` are the domains of the reads whose answers are to come.
  pub record Model : Type 0 where
    pub access_requests : ℕ
    pub rights : Option Rights
    pub current : Option TimelineData
    pub waiting : ℕ
    pub requests : List D

  abbrev pub new_model : Model
  new_model = record {
    access_requests = 0;
    rights = none;
    current = none;
    waiting = 0;
    requests = [];
  }

  -- So many calls of `_loadTimeline`, which read the domain that is current when they run.
  abbrev load_timelines : ℕ → Model → Model
  load_timelines n m = elim m.current [
    | none ↦ m
    | some d ↦ record m { requests = m.requests ++ replicate n d.domain }
  ]

  -- `load`. Without `preload_def` the rights are asked for.
  unfoldable pub load : Model → D → Model
  load m domain =
      let asked : Model = elim m.access_requests [
        | zero ↦ record m { access_requests = 1 }
        | suc n ↦ m
      ] in
      let fresh : Model = record asked {
        current = some (record { domain = domain; events = none; rights = none });
      } in
      elim m.rights [
        | none ↦ record fresh { waiting = suc m.waiting }
        | some r ↦ load_timelines 1 fresh
      ]

  -- The three answers about the rights are there, once.
  unfoldable pub preloaded : Model → Rights → Model
  preloaded m r = elim m.rights [
    | some q ↦ m
    | none ↦ load_timelines m.waiting (record m { rights = some r; waiting = 0 })
  ]

  -- The request at an index, and the others.
  abbrev take_request : List D → ℕ → Option D × List D
  take_request [] i = (none, [])
  take_request (d ∷ ds) zero = (some d, ds)
  take_request (d ∷ ds) (suc i) = let (found, rest) = take_request ds i in (found, d ∷ rest)

  -- The answer to a request goes to the data that is current then.
  abbrev store : (D → E) → Model → Option D → List D → Model
  store server m none rest = m
  store server m (some asked) rest = record m {
    current = elim m.current [
      | none ↦ none
      | some d ↦ some (record d { events = some (server asked); rights = m.rights })
    ];
    requests = rest;
  }

  -- `server` is the answer of `search_read` to a domain.
  unfoldable pub answered : (D → E) → Model → ℕ → Model
  answered server m i = store server m (take_request m.requests i).0 (take_request m.requests i).1

  pub data ModelEvent : Type 0 where
    loaded : D → ModelEvent
    rights_known : Rights → ModelEvent
    answer : ℕ → ModelEvent

  -- The rights are known only after they were asked for.
  unfoldable pub model_event : (D → E) → Model → ModelEvent → Model
  unfolding load preloaded answered
  model_event server m (loaded domain) = load m domain
  model_event server m (rights_known r) = elim m.access_requests [
    | zero ↦ m
    | suc n ↦ preloaded m r
  ]
  model_event server m (answer i) = answered server m i

  unfoldable pub model_run : (D → E) → Model → List ModelEvent → Model
  unfolding model_event
  model_run server m [] = m
  model_run server m (e ∷ es) = model_run server (model_event server m e) es
