-- ===== src/RoundService/Loop/Ordered.antt =====
-- The order in which a round is written and told (packages/round-service/src/loop.ts).
use ponswars.Base.{
  ℕ, ◌≡◌, ◌∙◌, refl, ap, subst, List, [], ◌∷◌, ◌++◌, Bool, true, false, ◌||◌, Option, some, any,
  All, Error, Result, ok, err, arith,
}
use ponswars.Base.Text.{Text}
use ponswars.BattleEngine.Rounds.{RoundEngineState, RoundFinalization}
use ponswars.RoundService.Ports.{
  Payload, round_opened, picks_locked, battle_state_update, battle_void, round_finalized, Effect,
  saved_state, saved_finalization, published, RoundPorts, World, Action, on_action, state_saved,
  finalization_saved, event_published, publish, publish_all,
}

abbrev pub saves : Effect → Bool
saves (saved_state s) = true
saves _ = false

abbrev pub ends : Effect → Bool
ends (saved_finalization f) = true
ends _ = false

-- What may be written of the round with a name, by whether a state and whether the finalization have
-- been saved before: a round is saved until it is finalized, and finalized once; its opening, its picks
-- and its battles are told after a save and before the end, its voids and its results after the end.
abbrev pub Allowed : Text → Bool → Bool → Effect → Type 0
Allowed id saved over (saved_state s) = (s.round_id ≡ id) × (over ≡ false)
Allowed id saved over (saved_finalization f) = (f.state.round_id ≡ id) × (over ≡ false)
Allowed id saved over (published c at (round_opened r k ms)) =
    (r ≡ id) × (saved ≡ true) × (over ≡ false)
Allowed id saved over (published c at (picks_locked r ms)) =
    (r ≡ id) × (saved ≡ true) × (over ≡ false)
Allowed id saved over (published c at (battle_state_update u)) = (saved ≡ true) × (over ≡ false)
Allowed id saved over (published c at (battle_void b r x)) = over ≡ true
Allowed id saved over (published c at (round_finalized r rs v)) = (r ≡ id) × (over ≡ true)

abbrev pub IsOrdered : Text → Bool → Bool → List Effect → Type 0
IsOrdered id saved over [] = Unit {0}
IsOrdered id saved over (e ∷ es) =
    Allowed id saved over e × IsOrdered id (saved || saves e) (over || ends e) es

or-false : (b : Bool) → b || false ≡ b
or-false true = refl
or-false false = refl

or-true : (b : Bool) → b || true ≡ true
or-true true = refl
or-true false = refl

or-any :
    (f : Effect → Bool) (b : Bool) (x : Effect) (es : List Effect)
    → b || any f (x ∷ es) ≡ (b || f x) || any f es
or-any f true x es = refl
or-any f false x es = ground arith

IsOrdered-append :
    (id : Text) (saved over : Bool) (es : List Effect) (e : Effect)
    → IsOrdered id saved over es
    → Allowed id (saved || any saves es) (over || any ends es) e
    → IsOrdered id saved over (es ++ (e ∷ []))
IsOrdered-append id saved over [] e h a = (rw (or-false saved, or-false over) at a, tt)
IsOrdered-append id saved over (x ∷ es) e (b, h) a = (
  b,
  IsOrdered-append id (saved || saves x) (over || ends x) es e h
      (rw (or-any saves saved x es, or-any ends over x es) at a),
)

any-append :
    (f : Effect → Bool) (es : List Effect) (e : Effect) → any f (es ++ (e ∷ [])) ≡ any f es || f e
any-append f [] e = ground arith
any-append f (x ∷ es) e = ground (arith, any-append f es e)

-- A log that is in order, with what it says of the saves.
pub record IsLogged (id : Text) (saved over : Bool) (log : List Effect) : Type 0 where
  pub ordered : IsOrdered id false false log
  pub saved_is : any saves log ≡ saved
  pub over_is : any ends log ≡ over

pub IsLogged-append :
    (id : Text) (saved over : Bool) (log : List Effect) (e : Effect)
    → IsLogged id saved over log
    → Allowed id saved over e
    → IsLogged id (saved || saves e) (over || ends e) (log ++ (e ∷ []))
IsLogged-append id saved over log e l a = record {
  ordered = IsOrdered-append id false false log e l.ordered (rw (l.saved_is, l.over_is) a);
  saved_is = any-append saves log e ∙ ap (λ (b : Bool). b || saves e) l.saved_is;
  over_is = any-append ends log e ∙ ap (λ (b : Bool). b || ends e) l.over_is;
}

-- What follows an action, on either end of the action.
pub on_action_lem :
    {A B : Type 0} (R : Result B × World → Type 0) (p : Result A × World) (rest : A → Action B)
    → ((a : A) → p.0 ≡ ok a → R (rest a p.1))
    → ((e : Error) → p.0 ≡ err e → R (err e, p.1))
    → R (on_action p rest)
on_action_lem R (ok a, w) rest f g = f a refl
on_action_lem R (err e, w) rest f g = g e refl

append_assoc : (a b : List Effect) (e : Effect) → (a ++ b) ++ (e ∷ []) ≡ a ++ (b ++ (e ∷ []))
append_assoc [] b e = refl
append_assoc (x ∷ a) b e = ap (λ (es : List Effect). x ∷ es) (append_assoc a b e)

-- What was written after a base is in order, with the flags given, and the stored round is the given
-- one.
abbrev pub Keeps : Text → List Effect → Bool → Bool → Option RoundEngineState → World → Type 0
Keeps id base saved over latest w =
    ((l : List Effect) × (w.log ≡ base ++ l) × IsLogged id saved over l) × (w.latest ≡ latest)

module _ (id : Text) (base : List Effect) where
  -- One more effect that is allowed.
  written-Keeps :
      (saved over saved_after over_after : Bool) (latest : Option RoundEngineState) (w : World)
      (e : Effect)
      → ((l : List Effect) × (w.log ≡ base ++ l) × IsLogged id saved over l)
      → Allowed id saved over e
      → saved || saves e ≡ saved_after
      → over || ends e ≡ over_after
      → Keeps id base saved_after over_after latest
          (record { latest = latest; log = w.log ++ (e ∷ []) })
  written-Keeps saved over sa oa latest w e (l, b, h) a f g = (
    (
      l ++ (e ∷ []),
      ap (λ (es : List Effect). es ++ (e ∷ [])) b ∙ append_assoc base l e,
      subst (λ (x : Bool). IsLogged id x oa (l ++ (e ∷ []))) f
          (subst (λ (x : Bool). IsLogged id (saved || saves e) x (l ++ (e ∷ []))) g
            (IsLogged-append id saved over l e h a)),
    ),
    refl,
  )

  module _ (saved over : Bool) (latest : Option RoundEngineState) where
    published-Keeps :
        (r : Result (Unit {0})) (c : Text) (at : ℕ) (p : Payload) (w : World)
        → Allowed id saved over (published c at p)
        → Keeps id base saved over latest w
        → Keeps id base saved over latest (event_published r c at p w).1
    unfolding event_published
    published-Keeps (err e) c at p w a k = k
    published-Keeps (ok u) c at p w a (l, k) =
        let m =
          written-Keeps saved over saved over w.latest w (published c at p) l a (or-false saved)
            (or-false over) in
        (m.0, k)

    -- An event that is allowed is written, or nothing is.
    pub publish-Keeps :
        (ports : RoundPorts) (c : Text) (at : ℕ) (p : Payload) (w : World)
        → Allowed id saved over (published c at p)
        → Keeps id base saved over latest w
        → Keeps id base saved over latest (publish ports c at p w).1
    publish-Keeps ports c at p w a k =
        unfold publish in published-Keeps (ports.publish c at p) c at p w a k

    pub publish_all-Keeps :
        (ports : RoundPorts) (es : List (Text × ℕ × Payload)) (w : World)
        → All (λ (c, at, p). Allowed id saved over (published c at p)) es
        → Keeps id base saved over latest w
        → Keeps id base saved over latest (publish_all ports es w).1
    unfolding publish_all
    publish_all-Keeps ports [] w a k = k
    publish_all-Keeps ports ((c, at, p) ∷ es) w (a, rest) k =
        let m = publish-Keeps ports c at p w a k in
        on_action_lem (λ r. Keeps id base saved over latest r.1) (publish ports c at p w)
          (λ _. publish_all ports es) (λ u e. publish_all-Keeps ports es _ rest m) (λ x e. m)

  -- A state that is saved becomes the stored one; otherwise nothing is written.
  pub state_saved-Keeps :
      (r : Result (Unit {0})) (saved : Bool) (s : RoundEngineState) (w : World)
      → ((l : List Effect) × (w.log ≡ base ++ l) × IsLogged id saved false l)
      → s.round_id ≡ id
      → (state_saved r s w).0 ≡ ok tt
      → Keeps id base true false (some s) (state_saved r s w).1
  unfolding state_saved
  state_saved-Keeps (err e) saved s w l n h = cc
  state_saved-Keeps (ok u) saved s w l n h =
      written-Keeps saved false true false (some s) w (saved_state s) l (n, refl) (or-true saved)
        refl

  -- A finalization that is saved ends the round; otherwise nothing is written.
  pub finalization_saved-Keeps :
      (r : Result (List Text)) (saved : Bool) (f : RoundFinalization) (w : World) {ids : List Text}
      → ((l : List Effect) × (w.log ≡ base ++ l) × IsLogged id saved false l)
      → f.state.round_id ≡ id
      → (finalization_saved r f w).0 ≡ ok ids
      → Keeps id base saved true (some f.state) (finalization_saved r f w).1
  unfolding finalization_saved
  finalization_saved-Keeps (err e) saved f w l n h = cc
  finalization_saved-Keeps (ok ids) saved f w l n h =
      written-Keeps saved false saved true (some f.state) w (saved_finalization f) l (n, refl)
        (or-false saved) refl

pub state_saved_err :
    (r : Result (Unit {0})) (s : RoundEngineState) (w : World) {e : Error}
    → (state_saved r s w).0 ≡ err e
    → (state_saved r s w).1 ≡ w
unfolding state_saved
state_saved_err (err x) s w h = refl
state_saved_err (ok u) s w h = cc

pub finalization_saved_err :
    (r : Result (List Text)) (f : RoundFinalization) (w : World) {e : Error}
    → (finalization_saved r f w).0 ≡ err e
    → (finalization_saved r f w).1 ≡ w
unfolding finalization_saved
finalization_saved_err (err x) f w h = refl
finalization_saved_err (ok ids) f w h = cc
