-- ===== src/ContextWarning/Tabs.antt =====
-- The banners of the tabs while messages are on the way to them.
use playground_azure_user_sy.Prelude.{
  ℕ, zero, suc, Bool, true, false, not, Option, none, some, List, [], ◌∷◌, ◌++◌, map, get_elem?,
  ℕ_eq, ◌≡◌, refl, sym, ap, ◌∙◌, inl, inr, ◌⊎◌, subst,
}
use playground_azure_user_sy.ContextWarning.{
  Text, same_signature, Session, generate_signature, Tab, is_other_ctx, deliver, post_message,
  change_tab, handled, new_tab,
}
use playground_azure_user_sy.ContextWarning.Signature.{same_signature_self}

-- What the banner will be once the messages have arrived, in a tab with a signature.
abbrev pub shown_after : Text → Bool → List Text → Bool
shown_after signature shown [] = shown
shown_after signature shown (m ∷ ms) = shown_after signature (is_other_ctx signature m) ms

abbrev pub signature_of : Tab → Text
signature_of t = generate_signature t.session

abbrev will_show : Tab → Bool
will_show t = shown_after (signature_of t) t.shown t.messages

shown_after-last :
    (signature : Text) (shown : Bool) (ms : List Text) (m : Text)
    → shown_after signature shown (ms ++ m ∷ []) ≡ is_other_ctx signature m
shown_after-last s shown [] m = refl
shown_after-last s shown (n ∷ ms) m = shown_after-last s (is_other_ctx s n) ms m

-- With no context yet: no banner, and no message handled. After that: the banner will be right in a
-- tab whose message is handled, and is right or not shown in another.
abbrev IsRightFor : Option Text → Text → Bool → Bool → Type 0
IsRightFor none signature pending shown = (shown ≡ false) × (pending ≡ true)
IsRightFor (some c) signature pending shown =
    (shown ≡ is_other_ctx signature c) ⊎ ((shown ≡ false) × (pending ≡ true))

abbrev pub IsRight : Option Text → Tab → Type 0
IsRight o t = IsRightFor o (signature_of t) t.pending (will_show t)

abbrev pub AllRight : Option Text → List Tab → Type 0
AllRight o [] = Unit {0}
AllRight o (t ∷ ts) = IsRight o t × AllRight o ts

pub new_tab-IsRight : (o : Option Text) (s : Session) → IsRight o (new_tab s)
new_tab-IsRight none s = (refl, refl)
new_tab-IsRight (some c) s = inr (refl, refl)

pub AllRight-append :
    (o : Option Text) (ts : List Tab) (t : Tab)
    → AllRight o ts
    → IsRight o t
    → AllRight o (ts ++ t ∷ [])
AllRight-append o [] t h k = (k, tt)
AllRight-append o (u ∷ ts) t (h, hs) k = (h, AllRight-append o ts t hs k)

-- A delivery changes nothing of what the banner will be.
deliver-same :
    (t : Tab)
    → (signature_of (deliver t) ≡ signature_of t)
      × ((deliver t).pending ≡ t.pending)
      × (will_show (deliver t) ≡ will_show t)
unfolding deliver
deliver-same t = go t.messages
  where
    go :
        (ms : List Text)
        → (signature_of (deliver (record t { messages = ms })) ≡ signature_of t)
          × ((deliver (record t { messages = ms })).pending ≡ t.pending)
          × (will_show (deliver (record t { messages = ms }))
              ≡ will_show (record t { messages = ms }))
    go [] = (refl, refl, refl)
    go (m ∷ ms) = (refl, refl, refl)

pub deliver-IsRight : (o : Option Text) (t : Tab) → IsRight o t → IsRight o (deliver t)
deliver-IsRight o t h =
    let (s, p, w) = deliver-same t in
    subst (λ v. IsRightFor o (signature_of (deliver t)) (deliver t).pending v) (sym w)
      (subst (λ q. IsRightFor o (signature_of (deliver t)) q (will_show t)) (sym p)
        (subst (λ u. IsRightFor o u t.pending (will_show t)) (sym s) h))

-- A change of one tab that keeps it right.
pub change_tab-AllRight :
    (o : Option Text) (f : Tab → Tab) (i : ℕ) (ts : List Tab)
    → ((t : Tab) → IsRight o t → IsRight o (f t))
    → AllRight o ts
    → AllRight o (change_tab f i ts)
unfolding change_tab
change_tab-AllRight o f i [] k h = tt
change_tab-AllRight o f zero (t ∷ ts) k (h, hs) = (k t h, hs)
change_tab-AllRight o f (suc i) (t ∷ ts) k (h, hs) = (h, change_tab-AllRight o f i ts k hs)

pub post-AllRight :
    (o : Option Text) (c : Text) (ts : List Tab) → AllRight (some c) (map (post_message c) ts)
post-AllRight o c [] = tt
post-AllRight o c (t ∷ ts) =
    (inl (shown_after-last (signature_of t) t.shown t.messages c), post-AllRight o c ts)

own_ctx : (signature c : Text) → signature ≡ c → is_other_ctx signature c ≡ false
own_ctx signature c e = ap (λ x. not (same_signature c x)) e ∙ ap not (same_signature_self c)

own_signature :
    (u t : Tab) (c : Text)
    → ◌≡◌ {A = Option Tab} (some u) (some t)
    → signature_of t ≡ c
    → signature_of u ≡ c
own_signature u t c e s =
    ap (λ (o : Option Tab). signature_of (elim o [ none ↦ u | some x ↦ x ])) e ∙ s

waiting-AllRight : (c : Text) (ts : List Tab) → AllRight none ts → AllRight (some c) ts
waiting-AllRight c [] h = tt
waiting-AllRight c (t ∷ ts) (h, hs) = (inr h, waiting-AllRight c ts hs)

-- The tabs before the first context, and where the context stays the same.
pub quiet-AllRight :
    (c : Text) (ts : List Tab) (i : ℕ) (t : Tab)
    → get_elem? ts i ≡ some t
    → signature_of t ≡ c
    → AllRight none ts
    → AllRight (some c) (change_tab handled i ts)
unfolding change_tab
quiet-AllRight c [] i t e s h = tt
quiet-AllRight c (u ∷ ts) zero t e s (h, hs) = (
  inl (h.0 ∙ sym (own_ctx (signature_of u) c (own_signature u t c e s))),
  waiting-AllRight c ts hs,
)
quiet-AllRight c (u ∷ ts) (suc i) t e s (h, hs) = (inr h, quiet-AllRight c ts i t e s hs)

pub same-AllRight :
    (c : Text) (ts : List Tab) (i : ℕ) (t : Tab)
    → get_elem? ts i ≡ some t
    → signature_of t ≡ c
    → AllRight (some c) ts
    → AllRight (some c) (change_tab handled i ts)
unfolding change_tab
same-AllRight c [] i t e s h = tt
same-AllRight c (u ∷ ts) zero t e s (h, hs) =
    (own (own_ctx (signature_of u) c (own_signature u t c e s)) h, hs)
  where
    own :
        is_other_ctx (signature_of u) c ≡ false → IsRight (some c) u → IsRight (some c) (handled u)
    own o (inl r) = inl r
    own o (inr (r, _)) = inl (r ∙ sym o)
same-AllRight c (u ∷ ts) (suc i) t e s (h, hs) = (h, same-AllRight c ts i t e s hs)
