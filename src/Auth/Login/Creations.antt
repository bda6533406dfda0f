-- ===== src/Auth/Login/Creations.antt =====
-- The sessions that an answer has created.
use howdah.Base.{
  String, ◌≡◌, List, [], ◌∷◌, ◌++◌, append-nil, Bool, true, false, refl, ap, ◌∙◌, nat_eq,
}
use howdah.Base.Bytes.{bytes_eq}
use howdah.Errors.{Error, ok, err}
use howdah.Session.{NewSession}
use howdah.Auth.{
  Effect, sent, too_large, logged, asked, redirected, replied, creates_session, refreshes_session,
  deletes_session, Step, handle,
}
use howdah.Auth.Login.{refuse_unless}

-- The sessions that the effects ask the store to create.
abbrev pub creations : List Effect → List NewSession
creations [] = []
creations (asked (creates_session new) ∷ effects) = new ∷ creations effects
creations (asked (refreshes_session session) ∷ effects) = creations effects
creations (asked (deletes_session handle) ∷ effects) = creations effects
creations (sent c ∷ effects) = creations effects
creations (too_large n ∷ effects) = creations effects
creations (logged level e ∷ effects) = creations effects
creations (redirected code to ∷ effects) = creations effects
creations (replied code text ∷ effects) = creations effects

pub creations-append :
    (front back : List Effect) → creations (front ++ back) ≡ creations front ++ creations back
creations-append [] back = refl
creations-append (asked (creates_session new) ∷ front) back =
    ap (λ cs. new ∷ cs) (creations-append front back)
creations-append (asked (refreshes_session session) ∷ front) back = creations-append front back
creations-append (asked (deletes_session handle) ∷ front) back = creations-append front back
creations-append (sent c ∷ front) back = creations-append front back
creations-append (too_large n ∷ front) back = creations-append front back
creations-append (logged level e ∷ front) back = creations-append front back
creations-append (redirected code to ∷ front) back = creations-append front back
creations-append (replied code text ∷ front) back = creations-append front back

-- A step that creates nothing, and what follows it: a predicate of what is created holds where it
-- holds of nothing and of what the next step creates.
pub handle-creations {ℓ κ} :
    {A : Type ℓ} {B : Type κ} (P : List NewSession → Type 0) (s : Step A) (failed : Error → Step B)
    (next : A → Step B)
    → creations s.0 ≡ []
    → ((e : Error) → creations (failed e).0 ≡ [])
    → P []
    → ((x : A) → s.1 ≡ ok x → P (creations (next x).0))
    → P (creations (handle s failed next).0)
handle-creations P (effects, err e) failed next idle f p n =
    rw (creations-append effects (failed e).0, idle, f e) p
handle-creations P (effects, ok x) failed next idle f p n =
    rw (creations-append effects (next x).0, idle) (n x refl)

-- What follows the step creates nothing.
pub handle-creations_last {ℓ κ} :
    {A : Type ℓ} {B : Type κ} (s : Step A) (failed : Error → Step B) (next : A → Step B)
    → ((e : Error) → creations (failed e).0 ≡ [])
    → ((x : A) → creations (next x).0 ≡ [])
    → creations (handle s failed next).0 ≡ creations s.0
handle-creations_last (effects, err e) failed next f n =
    creations-append effects (failed e).0 ∙ rw (f e) (append-nil _)
handle-creations_last (effects, ok x) failed next f n =
    creations-append effects (next x).0 ∙ rw (n x) (append-nil _)

pub refuse_unless-creations : (b : Bool) (text : String) → creations (refuse_unless b text).0 ≡ []
refuse_unless-creations true text = refl
refuse_unless-creations false text = refl

pub refuse_unless-ok :
    (b : Bool) (text : String) (u : Unit {0}) → (refuse_unless b text).1 ≡ ok u → b ≡ true
refuse_unless-ok true text u h = refl
refuse_unless-ok false text u h = cc
