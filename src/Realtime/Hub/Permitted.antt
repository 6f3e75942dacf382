-- ===== src/Realtime/Hub/Permitted.antt =====
-- What a hub delivers, and to whom (packages/realtime/src/hub.ts).
use ponswars.Base.{
  ◌≡◌, refl, subst, inl, inr, List, [], ◌∷◌, ◌++◌, Bool, true, false, none, select, All, Bool-cases,
  arith,
}
use ponswars.Base.Text.{Text, text_eq, text_eq_iff}
use ponswars.Base.Dict.{lookup, assign, omit, lookup-assign, lookup-omit}
use ponswars.Realtime.Envelope.{may_subscribe}
use ponswars.Realtime.Receiver.{includes}
use ponswars.Realtime.Hub.{ConnectionState}

-- No text stands twice in the list.
abbrev pub Once : List Text → Type 0
Once [] = Unit
Once (c ∷ cs) = (includes cs c ≡ false) × Once cs

includes-select :
    (test : Text → Bool) (cs : List Text) (c : Text)
    → includes cs c ≡ false
    → includes (select test cs) c ≡ false
unfolding includes
includes-select test [] c h = refl
includes-select test (d ∷ cs) c h = ground (arith, includes-select test cs c)

pub Once-select : (test : Text → Bool) (cs : List Text) → Once cs → Once (select test cs)
unfolding includes
Once-select test [] h = tt
Once-select test (c ∷ cs) (n, h) = elim (Bool-cases (test c)) [
  | inl e ↦ rw e (includes-select test cs c n, Once-select test cs h)
  | inr e ↦ rw e (Once-select test cs h)
]

includes-append :
    (cs : List Text) (c d : Text)
    → includes cs d ≡ false
    → text_eq c d ≡ false
    → includes (cs ++ (c ∷ [])) d ≡ false
unfolding includes
includes-append [] c d h n = rw n refl
includes-append (x ∷ cs) c d h n = ground (arith, includes-append cs c d)

pub Once-append :
    (cs : List Text) (c : Text) → Once cs → includes cs c ≡ false → Once (cs ++ (c ∷ []))
unfolding includes
Once-append [] c h n = (refl, tt)
Once-append (x ∷ cs) c (m, h) n = (
  includes-append cs c x m (ground (arith, text_eq_iff x c, text_eq_iff c x)),
  Once-append cs c h (ground arith),
)

pub All-includes :
    (P : Text → Type 0) (cs : List Text) (c : Text) → All P cs → includes cs c ≡ true → P c
unfolding includes
All-includes P [] c a h = cc
All-includes P (x ∷ cs) c (a, rest) h = elim (Bool-cases (text_eq x c)) [
  | inl e ↦ subst P ((text_eq_iff x c).0 e) a
  | inr e ↦ let g : includes cs c ≡ true = rw e at h in All-includes P cs c rest g
]

-- A connection listens only to channels that its wallet may see, and once to each.
pub record IsPermitted (connection : ConnectionState) : Type 0 where
  pub allowed : All (λ c. may_subscribe c connection.wallet ≡ true) connection.channels
  pub once : Once connection.channels

-- No connection has two entries.
abbrev pub Distinct : List (Text × ConnectionState) → Type 0
Distinct [] = Unit
Distinct ((id, connection) ∷ m) = (lookup id m ≡ none) × Distinct m

pub Distinct-assign :
    (id : Text) (c : ConnectionState) (m : List (Text × ConnectionState))
    → Distinct m
    → Distinct (assign id c m)
unfolding assign lookup
Distinct-assign id c [] h = (refl, tt)
Distinct-assign id c ((j, d) ∷ m) (n, h) = elim (Bool-cases (text_eq j id)) [
  | inl e ↦ rw e (n, h)
  | inr e ↦
      let g : text_eq id j ≡ false = ground (arith, text_eq_iff j id, text_eq_iff id j) in
      rw e (rw (lookup-assign id j c m, g) n, Distinct-assign id c m h)
]

pub Distinct-omit :
    (id : Text) (m : List (Text × ConnectionState)) → Distinct m → Distinct (omit id m)
unfolding omit lookup
Distinct-omit id [] h = tt
Distinct-omit id ((j, d) ∷ m) (n, h) = elim (Bool-cases (text_eq j id)) [
  | inl e ↦ rw e (Distinct-omit id m h)
  | inr e ↦
      let g : text_eq id j ≡ false = ground (arith, text_eq_iff j id, text_eq_iff id j) in
      rw e (rw (lookup-omit id j m, g) n, Distinct-omit id m h)
]
