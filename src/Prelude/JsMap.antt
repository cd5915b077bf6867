-- ===== src/Prelude/JsMap.antt =====
-- A JavaScript `Map` with text keys: entries in order of insertion, each key once. Setting a key
-- that is there keeps its place.
use text.Mathlib.TextEquality.{eq_iff}
use text.Mathlib.TextPositions.{eq_refl}
use mathlib.Core.Path.{subst}
use traderton.Prelude.{
  inl, inr, Bool-cases, String, ◌≡◌, refl, Option, none, some, List, [], ◌∷◌, map, arith,
  if◌then◌else◌, str_eq,
}

module _ {ℓ} {V : Type ℓ} where
  unfoldable pub get : String → List (String × V) → Option V
  get k [] = none
  get k ((j, v) ∷ m) = if str_eq j k then some v else get k m

  unfoldable pub set : String → V → List (String × V) → List (String × V)
  set k v [] = (k, v) ∷ []
  set k v ((j, w) ∷ m) = if str_eq j k then (k, v) ∷ m else (j, w) ∷ set k v m

  abbrev pub keys : List (String × V) → List String
  keys = map (λ e. e.0)

  abbrev pub values : List (String × V) → List V
  values = map (λ e. e.1)

  pub get-set :
      (k j : String) (v : V) (m : List (String × V))
      → get j (set k v m) ≡ (if str_eq k j then some v else get j m)
  unfolding get set
  get-set k j v [] = refl
  get-set k j v ((i, w) ∷ m) = ground (arith, eq_iff k j, eq_iff i k, eq_iff i j, get-set k j v m)

  pub get-set_self : (k : String) (v : V) (m : List (String × V)) → get k (set k v m) ≡ some v
  get-set_self k v m = simp (get-set, eq_refl)

module _ {ℓ κ} {V : Type ℓ} (P : V → Type κ) where
  abbrev pub AllValues : List (String × V) → Type κ
  AllValues [] = Unit
  AllValues ((k, v) ∷ m) = P v × AllValues m

  pub AllValues-get :
      (k : String) (m : List (String × V)) {v : V} → AllValues m → get k m ≡ some v → P v
  unfolding get
  AllValues-get k [] a h = cc
  AllValues-get k ((j, w) ∷ m) a h = elim (Bool-cases (str_eq j k)) [
    | inl hit ↦ subst P (ground arith) a.0
    | inr miss ↦ AllValues-get k m a.1 (ground arith)
  ]

  pub AllValues-set :
      (k : String) (v : V) (m : List (String × V)) → AllValues m → P v → AllValues (set k v m)
  unfolding set
  AllValues-set k v [] a p = (p, tt)
  AllValues-set k v ((j, w) ∷ m) a p = elim (Bool-cases (str_eq j k)) [
    | inl hit ↦ rw hit (p, a.1)
    | inr miss ↦ rw miss (a.0, AllValues-set k v m a.1 p)
  ]

module _ {ℓ} {V : Type ℓ} where
  -- No key stands twice.
  abbrev pub Unique : List (String × V) → Type ℓ
  Unique [] = Unit
  Unique ((k, v) ∷ m) = (get k m ≡ none) × Unique m

  pub set-Unique : (k : String) (v : V) (m : List (String × V)) → Unique m → Unique (set k v m)
  unfolding get set
  set-Unique k v [] u = (refl, tt)
  set-Unique k v ((j, w) ∷ m) u = elim (Bool-cases (str_eq j k)) [
    | inl hit ↦ rw hit (ground (arith, eq_iff j k), u.1)
    | inr miss ↦
        rw miss (ground (arith, get-set k j v m, eq_iff k j, eq_iff j k), set-Unique k v m u.1)
  ]
