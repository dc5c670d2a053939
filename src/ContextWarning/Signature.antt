-- ===== src/ContextWarning/Signature.antt =====
-- The signature of a session tells it from all others.
use playground_azure_user_sy.Prelude.{
  Bool, true, false, not, ◌&&◌, [], ◌∷◌, ◌++◌, ◌==◌, ℕ_eq, ==_iff, ==_self, ◌≡◌, ◌↔◌, refl, sym,
  ap₂, ◌∙◌, arith,
}
use playground_azure_user_sy.ContextWarning.{Text, same_signature, Session, generate_signature}

pub same_signature_self : (s : Text) → same_signature s s ≡ true
same_signature_self [] = refl
same_signature_self (c ∷ s) = rw (==_self c) (same_signature_self s)

both : (a b : Bool) → (a && b) ≡ true → (a ≡ true) × (b ≡ true)
both true b h = (refl, h)
both false b h = ground arith

pub same_signature→eq : (s t : Text) → same_signature s t ≡ true → s ≡ t
same_signature→eq [] [] h = refl
same_signature→eq [] (d ∷ t) h = ground arith
same_signature→eq (c ∷ s) [] h = ground arith
same_signature→eq (c ∷ s) (d ∷ t) h =
    let (h₁, h₂) = both (c == d) (same_signature s t) h in
    ap₂ ◌∷◌ ((==_iff c d).0 h₁) (same_signature→eq s t h₂)

-- No comma.
abbrev is_plain : Text → Bool
is_plain [] = true
is_plain (c ∷ s) = not (c == 44) && is_plain s

same-parts :
    (u v d e : Text)
    → is_plain u ≡ true
    → is_plain v ≡ true
    → same_signature (u ++ 44 ∷ d) (v ++ 44 ∷ e) ≡ true
    → (u ≡ v) × (d ≡ e)
same-parts [] [] d e h k s = (refl, same_signature→eq d e s)
same-parts [] (c ∷ v) d e h k s = ground (arith, ==_iff c 44)
same-parts (c ∷ u) [] d e h k s = ground (arith, ==_iff c 44)
same-parts (b ∷ u) (c ∷ v) d e h k s =
    let (_, h') = both (not (b == 44)) (is_plain u) h in
    let (_, k') = both (not (c == 44)) (is_plain v) k in
    let (q, s') = both (b == c) (same_signature (u ++ 44 ∷ d) (v ++ 44 ∷ e)) s in
    let (p, r) = same-parts u v d e h' k' s' in (ap₂ ◌∷◌ ((==_iff b c).0 q) p, r)

-- Two sessions whose user ids have no comma have the same signature exactly if they have the same
-- user and the same database.
same_signature-sessions :
    (s t : Session)
    → is_plain s.uid ≡ true
    → is_plain t.uid ≡ true
    → (same_signature (generate_signature s) (generate_signature t) ≡ true)
      ↔ ((s.uid ≡ t.uid) × (s.db ≡ t.db))
unfolding generate_signature
same_signature-sessions s t h k = (
  same-parts s.uid t.uid s.db t.db h k,
  λ (p, q).
      ap₂ (λ u d. same_signature (s.uid ++ 44 ∷ s.db) (u ++ 44 ∷ d)) (sym p) (sym q)
      ∙ same_signature_self (s.uid ++ 44 ∷ s.db),
)
