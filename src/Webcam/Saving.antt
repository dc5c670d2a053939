-- ===== src/Webcam/Saving.antt =====
-- Which picture "Save & Close" uploads, after any events.
use playground_azure_user_sy.Prelude.{
  ℕ, zero, suc, Bool, true, false, not, ◌&&◌, Option, none, some, List, [], ◌∷◌, if◌then◌else◌, ◌≡◌,
  refl, ap, ap₂, sym, subst, ◌∙◌, arith,
}
use playground_azure_user_sy.Webcam.{
  Text, WebcamField, WebcamEffect, file_uploaded, type_error, new_field, open_webcam, dialog_opened,
  Camera, not_loaded, loaded, live, take_snapshot, snapped, save_picture, save_and_close,
  close_after, WebcamEvent, camera_clicked, opened, snapshot_clicked, picture, save_clicked,
  close_clicked, webcam_event, webcam_run,
}

abbrev pub taken : Option Text → WebcamEvent → Option Text
taken last camera_clicked = last
taken last opened = last
taken last (snapshot_clicked camera) = last
taken last (picture p) = some p
taken last save_clicked = last
taken last close_clicked = last

-- The last picture that the library gave.
abbrev pub last_picture : Option Text → List WebcamEvent → Option Text
last_picture last [] = last
last_picture last (e ∷ es) = last_picture (taken last e) es

-- The button is enabled in an opened dialog only if a picture is there or is to come.
abbrev IsPictured : Option Text → ℕ → Bool → Bool → Type 0
IsPictured (some p) n shown enabled = Unit {0}
IsPictured none (suc n) shown enabled = Unit {0}
IsPictured none zero shown enabled = (shown && enabled) ≡ false

pub record IsReady (s : WebcamField) : Type 0 where
  pictured : IsPictured s.img_data s.waiting s.is_opened s.save_enabled
  pub inside : s.is_opened ≡ true → s.is_open ≡ true

choose-IsReady :
    (b : Bool) (x y : WebcamField × List WebcamEffect)
    → (b ≡ true → IsReady x.0)
    → (b ≡ false → IsReady y.0)
    → IsReady (if b then x else y).0
choose-IsReady true x y f g = f refl
choose-IsReady false x y f g = g refl

IsPictured-closed : (i : Option Text) (n : ℕ) (e : Bool) → IsPictured i n false e
IsPictured-closed (some p) n e = tt
IsPictured-closed none zero e = refl
IsPictured-closed none (suc n) e = tt

IsPictured-disabled : (i : Option Text) (n : ℕ) (o : Bool) → IsPictured i n o false
IsPictured-disabled (some p) n o = tt
IsPictured-disabled none zero true = refl
IsPictured-disabled none zero false = refl
IsPictured-disabled none (suc n) o = tt

IsPictured-waiting : (i : Option Text) (n : ℕ) (o e : Bool) → IsPictured i (suc n) o e
IsPictured-waiting (some p) n o e = tt
IsPictured-waiting none n o e = tt

close_after-IsReady : (s : WebcamField) (e : WebcamEffect) → IsReady s → IsReady (close_after s e).0
close_after-IsReady s type_error h = h
close_after-IsReady s (file_uploaded size base64) h = record {
  pictured = IsPictured-closed s.img_data s.waiting s.save_enabled;
  inside = λ e. ground arith;
}

close_after-img_data :
    (s : WebcamField) (e : WebcamEffect) → (close_after s e).0.img_data ≡ s.img_data
close_after-img_data s type_error = refl
close_after-img_data s (file_uploaded size base64) = refl

close_after-effects : (s : WebcamField) (e : WebcamEffect) → (close_after s e).1 ≡ e ∷ []
close_after-effects s type_error = refl
close_after-effects s (file_uploaded size base64) = refl

take_snapshot-IsReady : (s : WebcamField) (c : Camera) → IsReady s → IsReady (take_snapshot s c)
unfolding take_snapshot
take_snapshot-IsReady s not_loaded h = h
take_snapshot-IsReady s loaded h = record {
  pictured = IsPictured-waiting s.img_data s.waiting s.is_opened s.save_enabled;
  inside = h.inside;
}
take_snapshot-IsReady s live h = record {
  pictured = IsPictured-waiting s.img_data s.waiting s.is_opened true;
  inside = h.inside;
}

take_snapshot-img_data : (s : WebcamField) (c : Camera) → (take_snapshot s c).img_data ≡ s.img_data
unfolding take_snapshot
take_snapshot-img_data s not_loaded = refl
take_snapshot-img_data s loaded = refl
take_snapshot-img_data s live = refl

webcam_event-IsReady :
    (s : WebcamField) (e : WebcamEvent) → IsReady s → IsReady (webcam_event s e).0
unfolding webcam_event open_webcam dialog_opened take_snapshot snapped save_and_close
webcam_event-IsReady s camera_clicked h =
    choose-IsReady s.is_open _ _ (λ o. h)
      (λ c. record { pictured = IsPictured-closed s.img_data s.waiting true; inside = λ e. refl })
webcam_event-IsReady s opened h =
    choose-IsReady (s.is_open && not s.is_opened) _ _
      (λ o. record {
        pictured = IsPictured-disabled s.img_data s.waiting true;
        inside = λ e. ground arith;
      })
      (λ c. h)
webcam_event-IsReady s (snapshot_clicked camera) h =
    choose-IsReady s.is_open _ _ (λ o. take_snapshot-IsReady s camera h) (λ c. h)
webcam_event-IsReady s (picture p) h = record { pictured = tt; inside = h.inside }
webcam_event-IsReady s save_clicked h =
    choose-IsReady (s.is_open && s.save_enabled) _ _
      (λ o. close_after-IsReady s (save_picture s.img_data) h) (λ c. h)
webcam_event-IsReady s close_clicked h =
    choose-IsReady s.is_open _ _
      (λ o. record {
        pictured = IsPictured-closed s.img_data s.waiting s.save_enabled;
        inside = λ e. ground arith;
      })
      (λ c. h)

webcam_run-IsReady :
    (s : WebcamField) (es : List WebcamEvent) → IsReady s → IsReady (webcam_run s es).0
unfolding webcam_run
webcam_run-IsReady s [] h = h
webcam_run-IsReady s (e ∷ es) h =
    webcam_run-IsReady (webcam_event s e).0 es (webcam_event-IsReady s e h)

choose-img :
    (b : Bool) (x y : WebcamField × List WebcamEffect) (i : Option Text)
    → x.0.img_data ≡ i
    → y.0.img_data ≡ i
    → (if b then x else y).0.img_data ≡ i
choose-img true x y i f g = f
choose-img false x y i f g = g

webcam_event-img_data :
    (s : WebcamField) (e : WebcamEvent) → (webcam_event s e).0.img_data ≡ taken s.img_data e
unfolding webcam_event open_webcam dialog_opened take_snapshot snapped save_and_close
webcam_event-img_data s camera_clicked = choose-img s.is_open _ _ _ refl refl
webcam_event-img_data s opened = choose-img (s.is_open && not s.is_opened) _ _ _ refl refl
webcam_event-img_data s (snapshot_clicked camera) =
    choose-img s.is_open (take_snapshot s camera, []) (s, []) s.img_data
      (take_snapshot-img_data s camera) refl
webcam_event-img_data s (picture p) = refl
webcam_event-img_data s save_clicked =
    choose-img (s.is_open && s.save_enabled) (save_and_close s) (s, []) s.img_data
      (close_after-img_data s (save_picture s.img_data)) refl
webcam_event-img_data s close_clicked = choose-img s.is_open _ _ _ refl refl

webcam_run-img_data :
    (s : WebcamField) (es : List WebcamEvent)
    → (webcam_run s es).0.img_data ≡ last_picture s.img_data es
unfolding webcam_run
webcam_run-img_data s [] = refl
webcam_run-img_data s (e ∷ es) =
    webcam_run-img_data (webcam_event s e).0 es
    ∙ ap (λ i. last_picture i es) (webcam_event-img_data s e)

IsPictured-taken : (i : Option Text) → IsPictured i 0 true true → (p : Text) × (i ≡ some p)
IsPictured-taken (some p) h = (p, refl)
IsPictured-taken none h = absurd (cc)

new_field-IsReady : IsReady new_field
unfolding new_field
new_field-IsReady = record { pictured = refl; inside = λ e. e }

saved_effects :
    (s : WebcamField)
    → (s.is_open && s.save_enabled) ≡ true
    → (webcam_event s save_clicked).1 ≡ save_picture s.img_data ∷ []
unfolding webcam_event save_and_close
saved_effects s both =
    let press : Bool → WebcamField × List WebcamEffect =
      λ b. if b then save_and_close s else (s, []) in
    ap (λ b. (press b).1) both ∙ close_after-effects s (save_picture s.img_data)

saved :
    (s : WebcamField) (last : Option Text)
    → IsReady s
    → s.img_data ≡ last
    → s.is_opened ≡ true
    → s.save_enabled ≡ true
    → s.waiting ≡ 0
    → (p : Text) × (last ≡ some p) × ((webcam_event s save_clicked).1 ≡ save_picture (some p) ∷ [])
unfolding webcam_event save_and_close
saved s last h f shown enabled idle =
    let q : IsPictured s.img_data 0 true true =
      subst (λ b. IsPictured s.img_data 0 true b) enabled
        (subst (λ b. IsPictured s.img_data 0 b s.save_enabled) shown
          (subst (λ n. IsPictured s.img_data n s.is_opened s.save_enabled) idle h.pictured)) in
    let (p, e) = IsPictured-taken s.img_data q in
    (
      p,
      sym f ∙ e,
      saved_effects s (ap₂ (λ a b. a && b) (h.inside shown) enabled)
          ∙ ap (λ i. save_picture i ∷ []) e,
    )

-- After any events of a new field: in a dialog that has opened, with the button "Save & Close"
-- enabled and no snapshot waiting for its picture, a click on the button saves the last picture
-- that the library gave, which there is.
pub webcam_run-saves :
    (es : List WebcamEvent) (s : WebcamField)
    → (webcam_run new_field es).0 ≡ s
    → s.is_opened ≡ true
    → s.save_enabled ≡ true
    → s.waiting ≡ 0
    → (p : Text) × (last_picture none es ≡ some p)
      × ((webcam_event s save_clicked).1 ≡ save_picture (some p) ∷ [])
unfolding new_field
webcam_run-saves es s run =
    saved s (last_picture none es)
      (subst IsReady run (webcam_run-IsReady new_field es new_field-IsReady))
      (ap (λ s. s.img_data) (sym run) ∙ webcam_run-img_data new_field es)
