-- ===== src/ColumnWidth/Resizes.antt =====
-- The widths of the columns after any resizes.
use playground_azure_user_sy.Prelude.{
  ℕ, zero, suc, Bool, true, false, ◌&&◌, Option, none, some, List, [], ◌∷◌, get_elem?,
  if◌then◌else◌, ℕ_eq, ◌≡◌, refl, ap, ◌∙◌,
}
use playground_azure_user_sy.ColumnWidth.{
  Text, is_key, Header, header_width, ListRenderer, on_mouse_down_resize, keep_width,
  on_mouse_up_resize, stored_width, set_width, squeeze_table, ResizeEvent, pointer_down, mouse_up,
  resize_event, resize_run,
}
use playground_azure_user_sy.ColumnWidth.Keys.{has_dot, is_key-columns}

-- The names of fields have no dot.
abbrev pub IsPlain : Option Text → Type 0
IsPlain none = Unit {0}
IsPlain (some name) = has_dot name ≡ false

module _ (S : Type 0) (get_item : S → Text → Option ℕ) (set_item : S → Text → ℕ → S)
    (parse_int : Text → Option ℕ) where
  abbrev HavePlain : List (ResizeEvent S get_item set_item parse_int) → Type 0
  HavePlain [] = Unit {0}
  HavePlain (pointer_down ∷ es) = HavePlain es
  HavePlain (mouse_up none ∷ es) = HavePlain es
  HavePlain (mouse_up (some h) ∷ es) = IsPlain h.name × HavePlain es

  -- The width of the column of a field in lists of the model `n`, which was `w`, after a resize in a
  -- list of the model `m` has ended on a header cell with a name and the width `v`.
  abbrev pub noted : Text → Text → Text → Option ℕ → Option Text → ℕ → Option ℕ
  noted m n field w none v = w
  noted m n field w (some name) v = if is_key m n && is_key name field then some v else w

  -- The width after events in a list of the model `m`, with or without a resize at the start.
  abbrev width_after :
      Text
      → Text
      → Text
      → Bool
      → Option ℕ
      → List (ResizeEvent S get_item set_item parse_int)
      → Option ℕ
  width_after m n field going w [] = w
  width_after m n field going w (pointer_down ∷ es) = width_after m n field true w es
  width_after m n field false w (mouse_up target ∷ es) = width_after m n field false w es
  width_after m n field true w (mouse_up none ∷ es) = width_after m n field false w es
  width_after m n field true w (mouse_up (some h) ∷ es) =
      width_after m n field false
        (noted m n field w h.name (header_width S get_item set_item parse_int h)) es

  -- The width that is used: the one that is kept, or else that of the list renderer.
  abbrev pub used : Option ℕ → Option ℕ → Option ℕ
  used none w = w
  used (some n) w = some n

  set_width-used :
      (o : Option ℕ) (w : Option ℕ) (rest : List (Option ℕ))
      → set_width S get_item set_item parse_int o (some w) rest ≡ used o w ∷ rest
  set_width-used none w rest = refl
  set_width-used (some n) w rest = refl

  get_elem?-squeeze_table :
      (s : S) (n : Text) (hs : List Header) (ws : List (Option ℕ)) (i : ℕ) (h : Header)
      (w : Option ℕ)
      → get_elem? hs i ≡ some h
      → get_elem? ws i ≡ some w
      → get_elem? (squeeze_table S get_item set_item parse_int s n hs ws) i
        ≡ some (used (stored_width S get_item set_item parse_int s n h.name) w)
  unfolding squeeze_table
  get_elem?-squeeze_table s n [] ws i h w a b = absurd (cc)
  get_elem?-squeeze_table s n (k ∷ hs) [] i h w a b = absurd (cc)
  get_elem?-squeeze_table s n (k ∷ hs) (v ∷ ws) zero h w a b = rw (set_width-used) (cc)
  get_elem?-squeeze_table s n (k ∷ hs) (v ∷ ws) (suc i) h w a b =
      rw (set_width-used) (get_elem?-squeeze_table s n hs ws i h w a b)

  module _
      (get-set : (s : S) (k j : Text) (v : ℕ)
        → get_item (set_item s k v) j ≡ (if is_key k j then some v else get_item s j)) where
    get_item-keep_width :
        (r : ListRenderer S get_item set_item parse_int) (n field : Text) (name : Option Text)
        (v : ℕ)
        → has_dot field ≡ false
        → IsPlain name
        → stored_width S get_item set_item parse_int
            (keep_width S get_item set_item parse_int r name v).storage
            n
            (some field)
          ≡ noted r.model n field
              (stored_width S get_item set_item parse_int r.storage n (some field))
              name
              v
    unfolding stored_width
    get_item-keep_width r n field none v plain q = refl
    get_item-keep_width r n field (some name) v plain q =
        rw (get-set, is_key-columns r.model n name field q plain) refl

    keep_width_model :
        (r : ListRenderer S get_item set_item parse_int) (name : Option Text) (v : ℕ)
        → (keep_width S get_item set_item parse_int r name v).model ≡ r.model
    keep_width_model r none v = refl
    keep_width_model r (some name) v = refl

    keep_width_progress :
        (r : ListRenderer S get_item set_item parse_int) (name : Option Text) (v : ℕ)
        → (keep_width S get_item set_item parse_int r name v).resize_in_progress
          ≡ r.resize_in_progress
    keep_width_progress r none v = refl
    keep_width_progress r (some name) v = refl

    abbrev list_of : Text → Bool → S → ListRenderer S get_item set_item parse_int
    list_of m going storage = record { model = m; resize_in_progress = going; storage = storage }

    run-width_after :
        (n field : Text) (es : List (ResizeEvent S get_item set_item parse_int)) (m : Text)
        (going : Bool) (storage : S)
        → has_dot field ≡ false
        → HavePlain es
        → stored_width S get_item set_item parse_int
            (resize_run S get_item set_item parse_int (list_of m going storage) es).storage
            n
            (some field)
          ≡ width_after m n field going
              (stored_width S get_item set_item parse_int storage n (some field))
              es
    unfolding resize_run resize_event on_mouse_down_resize on_mouse_up_resize
    run-width_after n field [] m going storage plain q = refl
    run-width_after n field (pointer_down ∷ es) m going storage plain q =
        run-width_after n field es m true storage plain q
    run-width_after n field (mouse_up none ∷ es) m false storage plain q =
        run-width_after n field es m false storage plain q
    run-width_after n field (mouse_up (some h) ∷ es) m false storage plain q =
        run-width_after n field es m false storage plain q.1
    run-width_after n field (mouse_up none ∷ es) m true storage plain q =
        run-width_after n field es m false storage plain q
    run-width_after n field (mouse_up (some h) ∷ es) m true storage plain q =
        let v = header_width S get_item set_item parse_int h in
        let r = list_of m false storage in
        let k = keep_width S get_item set_item parse_int r h.name v in
        let w = stored_width S get_item set_item parse_int k.storage n (some field) in
        run-width_after n field es k.model k.resize_in_progress k.storage plain q.1
        ∙ ap (λ l. width_after l n field k.resize_in_progress w es) (keep_width_model r h.name v)
        ∙ ap (λ b. width_after m n field b w es) (keep_width_progress r h.name v)
        ∙ ap (λ u. width_after m n field false u es)
            (get_item-keep_width r n field h.name v plain q.0)

    resize_run-width_after :
        (r : ListRenderer S get_item set_item parse_int) (n field : Text)
        (es : List (ResizeEvent S get_item set_item parse_int))
        → has_dot field ≡ false
        → HavePlain es
        → stored_width S get_item set_item parse_int
            (resize_run S get_item set_item parse_int r es).storage
            n
            (some field)
          ≡ width_after r.model n field r.resize_in_progress
              (stored_width S get_item set_item parse_int r.storage n (some field))
              es
    resize_run-width_after r n field es plain q =
        run-width_after n field es r.model r.resize_in_progress r.storage plain q

    -- After any events in a list, whose header cells have fields with no dot in their names, as has
    -- `field`: the width that a list of any model gives to its column of `field` is that of the last
    -- resize that ended on the header cell of `field` in a list of this model; where there is none,
    -- the width that was kept at the start, or else the one of the list renderer. The storage gives
    -- back what was put under a key.
    pub squeeze_table-resizes :
        (r : ListRenderer S get_item set_item parse_int) (n field : Text)
        (es : List (ResizeEvent S get_item set_item parse_int)) (hs : List Header)
        (ws : List (Option ℕ)) (i : ℕ) (h : Header) (w : Option ℕ)
        → has_dot field ≡ false
        → HavePlain es
        → get_elem? hs i ≡ some h
        → get_elem? ws i ≡ some w
        → h.name ≡ some field
        → get_elem?
            (squeeze_table S get_item set_item parse_int
              (resize_run S get_item set_item parse_int r es).storage
              n
              hs
              ws)
            i
          ≡ some (
              used
                (width_after r.model n field r.resize_in_progress
                  (stored_width S get_item set_item parse_int r.storage n (some field))
                  es)
                w)
    squeeze_table-resizes r n field es hs ws i h w plain q a b name =
        get_elem?-squeeze_table (resize_run S get_item set_item parse_int r es).storage n hs ws i h
          w a b
        ∙ ap
            (λ o. some (
              used
                (stored_width S get_item set_item parse_int
                  (resize_run S get_item set_item parse_int r es).storage n o)
                w))
            name
        ∙ ap (λ o. some (used o w)) (resize_run-width_after r n field es plain q)
