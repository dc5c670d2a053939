-- ===== src/NumericStep/Step.antt =====
-- What a step does to the input.
use playground_azure_user_sy.Prelude.{
  String, Bool, true, false, not, ◌||◌, ◌≡◌, ◌≢◌, ◌⊎◌, inl, inr, refl, sym, ap, ◌∙◌, Option, none,
  some, arith, Bool-cases, Option-cases, subst, String_eq, ==_iff, ==_self, ◌==◌,
}
use playground_azure_user_sy.NumericStep.{
  Widget, Mode, plus, minus, missing, move, Numerals, clamp, sanitize, put_value, do_step,
  is_missing, same_text,
}
use playground_azure_user_sy.NumericStep.Range.{
  IsOrdered, InRange, IsNearest, clamp-IsNearest, clamp_fixed,
}

module _ {Num : Type 0} (n : Numerals Num) where
  -- A number after one step, up or down.
  abbrev stepped : Mode → Num → Num → Num
  stepped plus step z = n.add z step
  stepped minus step z = n.sub z step
  stepped missing step z = z

  -- The number that a step leads to: from the one in the input, or else the stored value.
  abbrev pub target : Widget Num → Mode → Num
  target w mode = elim (n.parse w.input) [ none ↦ w.value | some z ↦ stepped mode w.config.step z ]

  -- The text is not the one that was set last, or no step was taken from a number.
  abbrev pub MustWrite : Widget Num → Mode → String → Type 0
  MustWrite w mode text =
      (n.parse w.input ≡ none) ⊎ ((mode ≡ missing) ⊎ (w.last_set_value ≢ some text))

  abbrev pub MayKeep : Widget Num → Mode → String → Type 0
  MayKeep w mode text = (n.parse w.input ≢ none) × (mode ≢ missing) × (w.last_set_value ≡ some text)

  abbrev pub written : Widget Num → String → Widget Num
  written w text = record w { input = text; change_pending = true }

  same_text→eq : (o : Option String) (t : String) → same_text o t ≡ true → o ≡ some t
  same_text→eq none t h = absurd (cc)
  same_text→eq (some u) t h = ap some ((==_iff u t).0 h)

  same_text-ne : (o : Option String) (t : String) → same_text o t ≡ false → o ≢ some t
  same_text-ne none t h = λ e. absurd (cc)
  same_text-ne (some u) t h = λ e. absurd (cc (ap (λ o. same_text o t) e, ==_self t))

  -- A text that must be written is written, and another only if it is not the one set last.
  put_value_new :
      (w : Widget Num) (t : String) (b : Bool)
      → (not (same_text w.last_set_value t) || b) ≡ true
      → put_value n w t b ≡ written w t
  unfolding put_value
  put_value_new w t b h = rw h refl

  put_value_old :
      (w : Widget Num) (t : String)
      → same_text w.last_set_value t ≡ true
      → put_value n w t false ≡ w
  unfolding put_value
  put_value_old w t h = rw h refl

  put_value_always : (w : Widget Num) (t : String) → put_value n w t true ≡ written w t
  put_value_always w t = put_value_new w t true (ground arith)

  do_step_unread :
      (w : Widget Num) (mode : Mode)
      → n.parse w.input ≡ none
      → do_step n w mode ≡ written w (n.format (clamp n w.config w.value))
  unfolding do_step sanitize
  do_step_unread w mode p =
      rw (p, do_step) (put_value_always w (n.format (clamp n w.config w.value)))

  do_step_read :
      (w : Widget Num) (mode : Mode) {z : Num}
      → n.parse w.input ≡ some z
      → do_step n w mode
        ≡ put_value n w
            (n.format (clamp n w.config (move n mode z w.config.step)))
            (is_missing mode)
  unfolding do_step sanitize
  do_step_read w mode p = rw (p, do_step) refl

  moved-stepped : (mode : Mode) (z step : Num) → move n mode z step ≡ stepped mode step z
  moved-stepped plus z step = refl
  moved-stepped minus z step = refl
  moved-stepped missing z step = refl

  is_missing-cases :
      (mode : Mode)
      → ((is_missing mode ≡ true) × (mode ≡ missing))
        ⊎ ((is_missing mode ≡ false) × (mode ≢ missing))
  is_missing-cases plus = inr (refl, λ e. absurd (cc e))
  is_missing-cases minus = inr (refl, λ e. absurd (cc e))
  is_missing-cases missing = inl (refl, refl)

  -- What becomes of a widget at a step to a text.
  abbrev Steps : Widget Num → Mode → String → Type 0
  Steps w mode text =
      (MustWrite w mode text × (do_step n w mode ≡ written w text))
      ⊎ (MayKeep w mode text × (do_step n w mode ≡ w))

  do_step-Steps :
      (w : Widget Num) (mode : Mode) → Steps w mode (n.format (clamp n w.config (target w mode)))
  do_step-Steps w mode = elim (Option-cases (n.parse w.input)) [
    | inl unread ↦
        let to : target w mode ≡ w.value = rw (unread, target) refl in
        subst (λ y. Steps w mode (n.format (clamp n w.config y))) (sym to)
          (inl (inl unread, do_step_unread w mode unread))
    | inr (z, read) ↦
        let v = clamp n w.config (stepped mode w.config.step z) in
        let text = n.format v in
        let e : do_step n w mode ≡ put_value n w text (is_missing mode) =
          do_step_read w mode read
          ∙ ap (λ y. put_value n w (n.format (clamp n w.config y)) (is_missing mode))
              (moved-stepped mode z w.config.step) in
        let is_read : n.parse w.input ≢ none = λ no. absurd (cc (read, no)) in
        let to : n.format (clamp n w.config (target w mode)) ≡ text = rw (read, target) refl in
        subst (λ t. Steps w mode t) (sym to)
          (elim (is_missing-cases mode) [
            | inl (b, is) ↦
                inl (inr (inl is), e ∙ ap (put_value n w text) b ∙ put_value_always w text)
            | inr (b, isnt) ↦ elim (Bool-cases (same_text w.last_set_value text)) [
              | inl same ↦ inr (
                (is_read, isnt, same_text→eq w.last_set_value text same),
                e ∙ ap (put_value n w text) b ∙ put_value_old w text same,
              )
              | inr new ↦ inl (
                inr (inr (same_text-ne w.last_set_value text new)),
                e ∙ put_value_new w text (is_missing mode) (rw new refl),
              )
            ]
          ])
  ]

  -- For every widget with ordered limits, over numbers of which none is less than itself: a step
  -- leads to a number between the limits, which is the number one step up or down from the one in
  -- the input, or the stored value if the input is no number, or else the limit that this is past.
  -- The number's text is written to the input, and a `change` event is asked for, if the input was
  -- no number, the button has no mode, or the text is not the one that was set last; otherwise
  -- nothing changes.
  pub do_step-InRange :
      ((a : Num) → n.less a a ≡ false)
      → (w : Widget Num) (mode : Mode) → IsOrdered n w.config.min w.config.max
      → (v : Num) × InRange n w.config v
        × IsNearest n w.config (target w mode) v
        × ((MustWrite w mode (n.format v)
              × (do_step n w mode ≡ record w { input = n.format v; change_pending = true }))
            ⊎ (MayKeep w mode (n.format v) × (do_step n w mode ≡ w)))
  do_step-InRange irreflexive w mode ord =
      let v = clamp n w.config (target w mode) in
      let (inside, nearest) = clamp-IsNearest n irreflexive w.config (target w mode) ord in
      (v, inside, nearest, do_step-Steps w mode)

  -- A step up from the value that was set last, followed by a step down before the field is
  -- told of the change, does not lead back: where both values are within the limits, and the higher
  -- one is read back, the input keeps it.
  minus-plus_kept :
      (w : Widget Num) {z : Num}
      → let up = n.add z w.config.step in
        n.parse w.input ≡ some z
        → w.last_set_value ≡ some (n.format z)
        → n.parse (n.format up) ≡ some up
        → n.sub up w.config.step ≡ z
        → n.format up ≢ n.format z
        → InRange n w.config z
        → InRange n w.config up
        → (do_step n (do_step n w plus) minus).input ≡ n.format up
  minus-plus_kept w {z} p last read_up back ne here there =
      let up = n.add z w.config.step in
      let w' = written w (n.format up) in
      let up_fixed : clamp n w.config up ≡ up = clamp_fixed n w.config up there in
      let new : same_text w.last_set_value (n.format up) ≡ false =
        rw last (elim (Bool-cases (n.format z == n.format up)) [
          | inl e ↦ absurd (ne (sym ((==_iff (n.format z) (n.format up)).0 e)))
          | inr e ↦ e
        ]) in
      let first : do_step n w plus ≡ w' =
        do_step_read w plus p
        ∙ ap (λ y. put_value n w (n.format y) false) up_fixed
        ∙ put_value_new w (n.format up) false (rw new refl) in
      let old : same_text w.last_set_value (n.format z) ≡ true = rw last (==_self (n.format z)) in
      let second : do_step n w' minus ≡ w' =
        do_step_read w' minus read_up
        ∙ ap (λ y. put_value n w' (n.format (clamp n w.config y)) false) back
        ∙ ap (λ y. put_value n w' (n.format y) false) (clamp_fixed n w.config z here)
        ∙ put_value_old w' (n.format z) old in
      ap (λ (t : Widget Num). (do_step n t minus).input) first
      ∙ ap (λ (t : Widget Num). t.input) second
