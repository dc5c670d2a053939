-- ===== src/NumericStep/Range.antt =====
-- The limits of a widget, and the values between them.
use playground_azure_user_sy.Prelude.{
  true, false, ◌≡◌, ◌⊎◌, inl, inr, refl, Option, none, some, Bool-cases, subst, sym,
}
use playground_azure_user_sy.NumericStep.{Numerals, Options, Config, init, clamp}

module _ {Num : Type 0} (n : Numerals Num) where
  abbrev pub IsOrdered : Option Num → Option Num → Type 0
  IsOrdered (some a) (some b) = n.less b a ≡ false
  IsOrdered none b = Unit {0}
  IsOrdered (some a) none = Unit {0}

  abbrev AtLeast : Option Num → Num → Type 0
  AtLeast none v = Unit {0}
  AtLeast (some m) v = n.less v m ≡ false

  abbrev AtMost : Option Num → Num → Type 0
  AtMost none v = Unit {0}
  AtMost (some m) v = n.less m v ≡ false

  abbrev pub InRange : Config Num → Num → Type 0
  InRange c v = AtLeast c.min v × AtMost c.max v

  -- `v` is `z` within the limits, or the limit that `z` is past.
  abbrev pub IsNearest : Config Num → Num → Num → Type 0
  IsNearest c z v =
      ((v ≡ z) × InRange c z)
      ⊎ (((m : Num) × (c.min ≡ some m) × (n.less z m ≡ true) × (v ≡ m))
          ⊎ ((m : Num) × (c.max ≡ some m) × (n.less m z ≡ true) × (v ≡ m)))

  -- For all options, the limits that the widget keeps are those given, in the order that makes the
  -- range possible, where no two numbers are each less than the other.
  init-IsOrdered :
      (o : Options Num)
      → ((a b : Num) → n.less a b ≡ true → n.less b a ≡ false)
      → IsOrdered (init n o).min (init n o).max
        × ((((init n o).min ≡ o.min) × ((init n o).max ≡ o.max))
            ⊎ (((init n o).min ≡ o.max) × ((init n o).max ≡ o.min)))
  unfolding init
  init-IsOrdered o asym = limits o.min o.max
    where
      limits :
          (a b : Option Num)
          → let c = init n (record { step = o.step; min = a; max = b }) in
            IsOrdered c.min c.max × (((c.min ≡ a) × (c.max ≡ b)) ⊎ ((c.min ≡ b) × (c.max ≡ a)))
      limits none b = (tt, inl (refl, refl))
      limits (some a) none = (tt, inl (refl, refl))
      limits (some a) (some b) = elim (Bool-cases (n.less b a)) [
        | inl h ↦ rw h (asym b a h, inr (refl, refl))
        | inr h ↦ rw h (h, inl (refl, refl))
      ]

  clamp_eq :
      (c : Config Num) (z v : Num)
      → clamp n c z ≡ v
      → InRange c v × IsNearest c z v
      → InRange c (clamp n c z) × IsNearest c z (clamp n c z)
  clamp_eq c z v e h = subst (λ y. InRange c y × IsNearest c z y) (sym e) h

  module _ (irreflexive : (a : Num) → n.less a a ≡ false) where
    -- Between limits in order, with `z` past neither, past the first, or past the second.
    clamp_limits :
        (s : Num) (a b : Option Num) (z : Num)
        → IsOrdered a b
        → let c : Config Num = record { step = s; min = a; max = b } in
          InRange c (clamp n c z) × IsNearest c z (clamp n c z)
    unfolding clamp
    clamp_limits s none none z h = ((tt, tt), inl (refl, (tt, tt)))
    clamp_limits s none (some b) z h = elim (Bool-cases (n.less b z)) [
      | inl high ↦ rw high ((tt, irreflexive b), inr (inr (b, refl, high, refl)))
      | inr fits ↦
          let c : Config Num = record { step = s; min = none; max = some b } in
          clamp_eq c z z (rw fits refl) ((tt, fits), inl (refl, (tt, fits)))
    ]
    clamp_limits s (some a) none z h = elim (Bool-cases (n.less z a)) [
      | inl low ↦ rw low ((irreflexive a, tt), inr (inl (a, refl, low, refl)))
      | inr fits ↦
          let c : Config Num = record { step = s; min = some a; max = none } in
          clamp_eq c z z (rw fits refl) ((fits, tt), inl (refl, (fits, tt)))
    ]
    clamp_limits s (some a) (some b) z h =
        let c : Config Num = record { step = s; min = some a; max = some b } in
        elim (Bool-cases (n.less z a)) [
          | inl low ↦
              clamp_eq c z a (rw low refl) ((irreflexive a, h), inr (inl (a, refl, low, refl)))
          | inr above_min ↦ elim (Bool-cases (n.less b z)) [
            | inl high ↦
                clamp_eq c z b (rw (above_min, high) refl)
                  ((h, irreflexive b), inr (inr (b, refl, high, refl)))
            | inr fits ↦
                clamp_eq c z z (rw (above_min, fits) refl)
                  ((above_min, fits), inl (refl, (above_min, fits)))
          ]
        ]

    pub clamp-IsNearest :
        (c : Config Num) (z : Num)
        → IsOrdered c.min c.max
        → InRange c (clamp n c z) × IsNearest c z (clamp n c z)
    clamp-IsNearest c z h = clamp_limits c.step c.min c.max z h

  pub clamp_fixed : (c : Config Num) (z : Num) → InRange c z → clamp n c z ≡ z
  unfolding clamp
  clamp_fixed c z h = fixed c.min c.max h.0 h.1
    where
      fixed :
          (a b : Option Num)
          → AtLeast a z
          → AtMost b z
          → clamp n (record { step = c.step; min = a; max = b }) z ≡ z
      fixed none none h h' = refl
      fixed none (some b) h h' = rw h' refl
      fixed (some a) none h h' = rw h refl
      fixed (some a) (some b) h h' = rw (h, h') refl
